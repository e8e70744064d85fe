-- ===== src/Wallet/Create.antt =====
-- `Wallet`: `CreateTx`, `SendTx`, `Sync` and `UpdateKeys` (lib/cryptowallet/wallet.cc). The answer of
-- the leader to a sync is an argument; the transactions sent to the leader are collected in `sent`.
use cosicoin.Base.{ℕ, ◌+◌, ◌*◌, ◌/◌, ◌%◌, ◌^◌, List, [], ◌∷◌, ◌++◌}
use cosicoin.Base.Result.{Result, ok, err, undefined_behaviour, ◌>>=◌}
use cosicoin.Host.{Host}
use cosicoin.Json.{Json}
use cosicoin.Signature.Bitset.{key_len}
use cosicoin.Signature.Keys.{SigKey, KeyPair, key_gen, empty_key}
use cosicoin.Signature.Sign.{sign}
use cosicoin.Blockchain.Coins.{Input, Output, UtxoList}
use cosicoin.Blockchain.Transaction.{Transaction, get_digest}
use cosicoin.Wallet.Info.{TransInfo, trans_info_from_json}

pub record Wallet : Type 0 where
  pub id : ℕ
  -- The counter of all the wallets of the program.
  pub tx_id : ℕ
  pub pk_generator : KeyPair
  pub pk : SigKey
  pub sk : SigKey
  pub local_utxo : UtxoList
  pub sent : List Transaction
  -- How much of the random stream is used up.
  pub entropy : ℕ

-- The loops of `CreateTx`; the second list is read at the places of the first.
unfoldable pub make_inputs : List ℕ → List ℕ → Result (List Input)
make_inputs [] idxs = ok []
make_inputs (t ∷ ts) [] = err undefined_behaviour
make_inputs (t ∷ ts) (i ∷ idxs) = do
  rest ← make_inputs ts idxs
  ok (record { tx_id = t; output_index = i } ∷ rest)

-- The assertion in the loop holds of every unsigned value.
unfoldable pub make_outputs : List ℕ → List ℕ → Result (List Output)
make_outputs [] ids = ok []
make_outputs (x ∷ xs) [] = err undefined_behaviour
make_outputs (x ∷ xs) (id ∷ ids) = do
  rest ← make_outputs xs ids
  ok (record { value = x; receiver_id = id } ∷ rest)

-- `Sync`
unfoldable pub sync_wallet : UtxoList → Wallet → Wallet
sync_wallet reply w = record w { local_utxo = reply }

module _ (h : Host) where
  -- `UpdateKeys`
  unfoldable pub renew_keys : KeyPair → Wallet → Wallet
  renew_keys p w = record w {
    pk_generator = p;
    pk = p.public_key;
    sk = p.private_key;
    entropy = w.entropy + 2 * (key_len / 8) * key_len;
  }

  -- `Wallet(settings, id)`, with the counter of the program and at this point of the random stream.
  unfoldable pub new_wallet : ℕ → ℕ → ℕ → Result Wallet
  unfolding renew_keys
  new_wallet id tx_id pos = do
    p ← key_gen h pos
    ok (
        renew_keys p (record {
          id = id;
          tx_id = tx_id;
          pk_generator = p;
          pk = empty_key;
          sk = empty_key;
          local_utxo = [];
          sent = [];
          entropy = pos;
        }))

  -- The transaction before it is signed; the sender's id is narrowed to 16 bits.
  unfoldable pub unsigned_tx : List Input → List Output → SigKey → Wallet → Transaction
  unsigned_tx is os key w = record {
    inputs = is;
    outputs = os;
    sender_sig = [];
    sender_id = w.id % 2 ^ 16;
    tx_id = w.tx_id;
    public_key = key;
  }

  unfoldable pub signed_tx : List Input → List Output → KeyPair → Wallet → Transaction
  unfolding unsigned_tx
  signed_tx is os p w = record (unsigned_tx is os p.public_key w) {
    sender_sig = sign (get_digest h (unsigned_tx is os p.public_key w)) p.private_key;
  }

  -- `CreateTx`, on the description that it has read.
  unfoldable pub create_tx : TransInfo → Wallet → Result (Transaction × Wallet)
  unfolding signed_tx
  create_tx t w = do
    is ← make_inputs t.in_tx_id_list t.in_out_idx_list
    os ← make_outputs t.out_value_list t.out_wallet_id_list
    p ← key_gen h w.entropy
    ok (signed_tx is os p w, renew_keys p (record w { tx_id = (w.tx_id + 1) % 2 ^ 32 }))

  -- `SendTx`
  unfoldable pub send_tx : UtxoList → Json → Wallet → Result Wallet
  send_tx reply j w = do
    info ← trans_info_from_json j
    (t, w') ← create_tx info (sync_wallet reply w)
    ok (record w' { sent = w'.sent ++ t ∷ [] })
