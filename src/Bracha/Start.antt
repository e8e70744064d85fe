-- ===== src/Bracha/Start.antt =====
-- The constructor of `bracha::Node` (include/bracha/node.h), and what a node starts with. The port,
-- which the server listens to, is left out; looking it up may add a validator to the settings.
use cosicoin.Base.{
  ℕ, Bool, true, ◌%◌, ◌^◌, [], ◌≡◌, refl, nat_eq, list_eq, length, ◌+◌, ◌*◌, ◌/◌, list_beq_iff,
}
use cosicoin.Base.Result.{Result, ok, ◌>>=◌}
use cosicoin.Host.{Host}
use cosicoin.Config.Settings.{Settings, number_of_faulty, validator_info}
use cosicoin.Signature.Lamport.{NeverFails, key_gen-total, key_gen-IsPair}
use cosicoin.Bracha.Node.{Node}
use cosicoin.Base.Dict.{lookup}
use cosicoin.Signature.Keys.{key_gen, empty_key, KeyPair}
use cosicoin.Bracha.Live.{IsSteady}
use cosicoin.Bracha.Trust.{IsTrusted}
use cosicoin.Signature.Bitset.{key_len}

-- The fields once the keys are generated.
unfoldable pub first_node : ℕ → Bool → Settings → ℕ → KeyPair → Node
first_node id is_lead settings pos pair = record {
  id = id;
  is_lead = is_lead;
  n = length settings.validators % 2 ^ 16;
  f = number_of_faulty settings % 2 ^ 16;
  blk_list = [];
  send_this_round = [];
  ready_this_round = [];
  echo_this_round = [];
  ready_sent = [];
  utxolist = [];
  wallet_ids = [];
  voted_hash = [];
  should_broadcast = true;
  my_current_private_key = empty_key;
  my_current_public_key = empty_key;
  my_next_key_pair = pair;
  val_sig_keys = [];
  verified_blocks = [];
  blocks = [];
  accepted_blocks = [];
  sent = [];
  entropy = pos + 2 * (key_len / 8) * key_len;
}

-- `Node(name, id, settings, server, io_mutex, is_lead)`, at this point of the random stream.
unfoldable pub new_node : Host → ℕ → Bool → Settings → ℕ → Result Node
new_node h id is_lead settings pos = do
  pair ← key_gen h pos
  ok (first_node id is_lead (validator_info id settings).1 pos pair)

module _ (h : Host) (never : NeverFails h) where
  -- A node is constructed when the random source never fails, and it is steady and trusted.
  pub new_node-ok :
      (id : ℕ) (is_lead : Bool) (settings : Settings) (pos : ℕ)
      → (s : Node) × (new_node h id is_lead settings pos ≡ ok s)
        × IsSteady h never s
        × IsTrusted h s
  unfolding new_node first_node lookup
  new_node-ok id is_lead settings pos =
      let (pair, e) = key_gen-total h never pos in
      (
        first_node id is_lead (validator_info id settings).1 pos pair,
        rw e refl,
        record { pair = key_gen-IsPair h pos pair e; closed = λ x b p. absurd (cc p) },
        record {
          known = λ x b p. absurd (cc p);
          verified = λ x p. absurd (cc p);
          echoed = λ x p. absurd (cc p);
          asked = λ p. absurd (cc ((list_beq_iff {A = ℕ} [] []).1 refl, p));
          readied = λ x p. absurd (cc p);
        },
      )
