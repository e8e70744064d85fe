-- ===== src/Bracha/Run.antt =====
-- The loop of the protocol never throws (`RunProtocol` of lib/bracha/node.cc).
use cosicoin.Base.{
  ◌⊎◌, ℕ, Bool, true, false, some, List, [], ◌∷◌, ◌≡◌, refl, sym, ap, ◌∙◌, inl, inr, nat_eq,
  list_eq, length, All, Bool-cases,
}
use cosicoin.Base.Text.{Bytes}
use cosicoin.Base.Result.{err, Error, Result-cases, Result, ok, ◌>>=◌}
use cosicoin.Blockchain.Message.{Message}
use mathlib.Core.Path.{subst}
use cosicoin.Host.{Host}
use cosicoin.Signature.Lamport.{NeverFails, IsPair}
use cosicoin.Signature.Bitset.{key_len}
use cosicoin.Bracha.Node.{Node}
use cosicoin.Bracha.Receive.{receive_all, receive, update_recv_messages}
use cosicoin.Bracha.Broadcast.{
  broadcast_round, delivered, protocol_round, protocol_loop, run_protocol,
}
use cosicoin.Bracha.Live.{IsSteady}
use cosicoin.Bracha.Rounds.{broadcast_round-Delivers, delivered-IsSteady, delivered-IsTrusted}
use cosicoin.Config.Settings.{Settings}
use cosicoin.Bracha.Trust.{IsTrusted, IsTrusted-answered, receive-IsTrusted, IsTrusted-fields}
use cosicoin.Bracha.Entries.{insert_new_inv}
use cosicoin.Bracha.Keys.{block_digest-ok}
use cosicoin.Bracha.Start.{new_node, new_node-ok}
use cosicoin.Bracha.Quiet.{receive-Quiet}
use cosicoin.Base.Dict.{lookup}
use cosicoin.Blockchain.Header.{get_id}

-- A message as it comes from the wire: its block is closed and the next key is whole.
pub record IsWhole (m : Message) : Type 0 where
  pub closed : m.block.is_mutable ≡ false
  pub full0 : length m.block.validator_next_public_key.s0 ≡ key_len
  pub full1 : length m.block.validator_next_public_key.s1 ≡ key_len

module _ (h : Host) (never : NeverFails h) where
  -- A node on which neither a round nor a receipt throws.
  pub record IsSound (s : Node) : Type 0 where
    pub steady : IsSteady h never s
    pub trusted : IsTrusted h s

  receive-IsSound :
      (m : Message) (s : Node)
      → IsWhole m
      → IsSound s
      → (s' : Node) × (receive h m s ≡ ok s') × IsSound s'
  receive-IsSound m s w v =
      let (digest, d) = block_digest-ok h m.block w.closed w.full0 w.full1 in
      let (s', e, q) = receive-Quiet h m s digest d in
      (
        s',
        e,
        record {
          trusted = receive-IsTrusted h m s s' e v.trusted;
          steady = record {
            pair = subst (IsPair h) (sym q.same_pair) v.steady.pair;
            closed = λ x b p. elim q.learnt [
              | inl same ↦ v.steady.closed x b (subst (λ l. lookup x l ≡ some b) same p)
              | inr more ↦
                  elim (insert_new_inv (get_id h m.block.header) x m.block b s.blk_list
                    (subst (λ l. lookup x l ≡ some b) more p)) [
                      | inl old ↦ v.steady.closed x b old
                      | inr (_, same, _) ↦ subst (λ c. c.is_mutable ≡ false) same w.closed
                    ]
            ];
          };
        },
      )

  receive_all-IsSound :
      (ms : List Message) (s : Node)
      → All IsWhole ms
      → IsSound s
      → (s' : Node) × (receive_all h ms s ≡ ok s') × IsSound s'
  unfolding receive_all
  receive_all-IsSound [] s w v = (s, refl, v)
  receive_all-IsSound (m ∷ ms) s w v =
      let (s1, e1, v1) = receive-IsSound m s w.0 v in
      let (s', e, v') = receive_all-IsSound ms s1 w.1 v1 in (s', rw e1 e, v')

  -- The result is a node that is sound, or it is what the read of an erased hash throws.
  abbrev pub RunsOn : Result Node → Type 0
  RunsOn r =
      ((s' : Node) × (r ≡ ok s') × IsSound s')
      ⊎ ((x : Bytes) × (e : Error) × (h.freed x ≡ err e) × (r ≡ err e))

  delivery-RunsOn :
      (x : Bytes) (t : Node) (r : Result Node)
      → r ≡ (h.freed x >>= λ y. ok (delivered h x y t))
      → IsSound t
      → RunsOn r
  delivery-RunsOn x t r q v = elim (Result-cases (h.freed x)) [
    | inl (e, g) ↦ inr (x, e, g, q ∙ rw g refl)
    | inr (y, g) ↦ inl (
      delivered h x y t,
      q ∙ rw g refl,
      record {
        steady = delivered-IsSteady h never x y t v.steady;
        trusted = delivered-IsTrusted h never x y t v.trusted;
      },
    )
  ]

  protocol_round-RunsOn :
      (ms : List Message) (s : Node) → All IsWhole ms → IsSound s → RunsOn (protocol_round h ms s)
  unfolding protocol_round update_recv_messages
  protocol_round-RunsOn ms s w v =
      let s0 : Node = record s { send_this_round = [] } in
      let v0 : IsSound s0 = record {
        steady = record { pair = v.steady.pair; closed = v.steady.closed };
        trusted = IsTrusted-answered h s s0 v.trusted;
      } in
      let (s1, e1, v1) = receive_all-IsSound ms s0 w v0 in
      let (t, steady, trusted, _, _, out) =
        broadcast_round-Delivers h never s1 v1.steady v1.trusted in
      let run : protocol_round h ms s ≡ broadcast_round h s1 = rw e1 refl in
      elim out [
        | inl (e, _) ↦ inl (t, run ∙ e, record { steady = steady; trusted = trusted })
        | inr (x, _, q) ↦
            delivery-RunsOn x t (protocol_round h ms s) (run ∙ q)
              (record { steady = steady; trusted = trusted })
      ]

  loop_step : Bool → List Message → List (List Message) → Node → Result Node
  loop_step true ms rest s = protocol_round h ms s >>= protocol_loop h rest
  loop_step false ms rest s = ok s

  protocol_loop-step :
      (flag : Bool) (ms : List Message) (rest : List (List Message)) (s : Node)
      → s.should_broadcast ≡ flag
      → protocol_loop h (ms ∷ rest) s ≡ loop_step flag ms rest s
  unfolding protocol_loop loop_step
  protocol_loop-step flag ms rest s p =
      ap (λ b. elim b [ true ↦ protocol_round h ms s >>= protocol_loop h rest | false ↦ ok s ]) p
      ∙ same flag
    where
      same :
          (b : Bool)
          → elim b [ true ↦ protocol_round h ms s >>= protocol_loop h rest | false ↦ ok s ]
            ≡ loop_step b ms rest s
      same true = refl
      same false = refl

  protocol_loop-RunsOn :
      (batches : List (List Message)) (s : Node)
      → All (All IsWhole) batches
      → IsSound s
      → RunsOn (protocol_loop h batches s)
  unfolding protocol_loop loop_step
  protocol_loop-RunsOn [] s w v = inl (s, refl, v)
  protocol_loop-RunsOn (ms ∷ rest) s w v = elim (Bool-cases s.should_broadcast) [
    | inl runs ↦
        let step = protocol_loop-step true ms rest s runs in
        elim (protocol_round-RunsOn ms s w.0 v) [
          | inl (s1, e1, v1) ↦
              let first : loop_step true ms rest s ≡ protocol_loop h rest s1 = rw e1 refl in
              subst RunsOn (sym (step ∙ first)) (protocol_loop-RunsOn rest s1 w.1 v1)
          | inr (x, e, g, q) ↦
              let first : loop_step true ms rest s ≡ err e = rw q refl in
              inr (x, e, g, step ∙ first)
        ]
    | inr stopped ↦ inl (s, protocol_loop-step false ms rest s stopped, v)
  ]

  -- From a node as it is constructed, with a random source that never fails: whatever closed blocks
  -- with whole next keys arrive, forged ones too, the loop of the protocol runs through all the batches
  -- to a node that still passes the checks of a round, or the read of an erased hash fails in a delivery.
  pub run_protocol-RunsOn :
      (id : ℕ) (is_lead broadcast : Bool) (settings : Settings) (pos : ℕ)
      (batches : List (List Message))
      → All (All IsWhole) batches
      → (s : Node) × (new_node h id is_lead settings pos ≡ ok s)
        × RunsOn (run_protocol h broadcast batches s)
  unfolding run_protocol
  run_protocol-RunsOn id is_lead broadcast settings pos batches w =
      let (s, made, steady, trusted) = new_node-ok h never id is_lead settings pos in
      let s0 : Node = record s { should_broadcast = broadcast } in
      let v0 : IsSound s0 = record {
        steady = record { pair = steady.pair; closed = steady.closed };
        trusted = IsTrusted-fields h s s0 trusted;
      } in
      (s, made, protocol_loop-RunsOn batches s0 w v0)
