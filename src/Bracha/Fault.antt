-- ===== src/Bracha/Fault.antt =====
-- `ByzantineBehavior` and `FaultNode` (include/bracha/node.h, lib/bracha/node.cc).
use cosicoin.Base.{
  Bool, true, false, List, [], ◌∷◌, ◌≡◌, refl, sym, ap, ◌∙◌, arith, inl, inr, nat_eq, list_eq,
  Bool-cases,
}
use cosicoin.Base.Text.{Bytes, text}
use cosicoin.Base.Result.{Result, ok, err, ◌>>=◌, >>=-eq-ok, invalid_argument, ok-inj}
use cosicoin.Blockchain.Message.{Message}
use cosicoin.Host.{Host}
use cosicoin.Bracha.Receive.{update_recv_messages, receive_all, receive}
use cosicoin.Bracha.Node.{Node}
use cosicoin.Bracha.Quiet.{receive_inv}

pub data ByzantineBehavior : Type 0 where
  no_fault crash delay_send partial_send wrong_order impersonate : ByzantineBehavior

-- `byzantineBehavior2String`
unfoldable pub behavior_to_string : ByzantineBehavior → Result Bytes
behavior_to_string no_fault = err invalid_argument
behavior_to_string crash = ok (text "crash")
behavior_to_string delay_send = ok (text "delay_send")
behavior_to_string partial_send = ok (text "partial_send")
behavior_to_string wrong_order = ok (text "wrong_order")
behavior_to_string impersonate = ok (text "impersonate")

-- `behaviour != ByzantineBehavior::CRASH`
unfoldable pub is_not_crash : ByzantineBehavior → Bool
is_not_crash no_fault = true
is_not_crash crash = false
is_not_crash delay_send = true
is_not_crash partial_send = true
is_not_crash wrong_order = true
is_not_crash impersonate = true

module _ (h : Host) where
  -- The loop, with one batch of messages for each round. `FaultNode::broadcastRound` does nothing.
  unfoldable pub fault_loop : List (List Message) → Node → Result Node
  fault_loop [] s = ok s
  fault_loop (ms ∷ rest) s = elim s.should_broadcast [
    | true ↦ update_recv_messages h ms s >>= fault_loop rest
    | false ↦ ok s
  ]

  -- `FaultNode::RunProtocol`; its first argument is not used.
  unfoldable pub fault_run_protocol :
      Bool → ByzantineBehavior → List (List Message) → Node → Result Node
  fault_run_protocol broadcast behaviour batches s = do
    _ ← behavior_to_string behaviour
    fault_loop batches (record s { should_broadcast = is_not_crash behaviour })

  -- What the node does not give away: no message, no delivery, no use of its key.
  abbrev pub Silent : Node → Node → Type 0
  Silent s s' =
      (s'.sent ≡ s.sent)
      × (s'.accepted_blocks ≡ s.accepted_blocks)
      × (s'.my_next_key_pair ≡ s.my_next_key_pair)
      × (s'.my_current_private_key ≡ s.my_current_private_key)
      × (s'.my_current_public_key ≡ s.my_current_public_key)

  receive_all-Silent : (ms : List Message) (s s' : Node) → receive_all h ms s ≡ ok s' → Silent s s'
  unfolding receive_all
  receive_all-Silent [] s s' e = ground arith
  receive_all-Silent (m ∷ ms) s s' e =
      let (s1, p, r) = >>=-eq-ok (receive h m s) _ e in
      let q = receive_inv h m s s1 p in
      let (a, b, c, d, f) = receive_all-Silent ms s1 s' r in
      (a ∙ q.same_sent, b ∙ q.same_accepted, c ∙ q.same_pair, d ∙ q.same_private, f ∙ q.same_public)

  -- One turn of the loop, by the flag.
  fault_step : Bool → List Message → List (List Message) → Node → Result Node
  fault_step true ms rest s = update_recv_messages h ms s >>= fault_loop rest
  fault_step false ms rest s = ok s

  fault_loop-step :
      (flag : Bool) (ms : List Message) (rest : List (List Message)) (s : Node)
      → s.should_broadcast ≡ flag
      → fault_loop (ms ∷ rest) s ≡ fault_step flag ms rest s
  unfolding fault_loop fault_step
  fault_loop-step flag ms rest s p =
      ap (λ b. elim b [ true ↦ update_recv_messages h ms s >>= fault_loop rest | false ↦ ok s ]) p
      ∙ same flag
    where
      same :
          (b : Bool)
          → elim b [ true ↦ update_recv_messages h ms s >>= fault_loop rest | false ↦ ok s ]
            ≡ fault_step b ms rest s
      same true = refl
      same false = refl

  fault_loop-Silent :
      (batches : List (List Message)) (s s' : Node) → fault_loop batches s ≡ ok s' → Silent s s'
  unfolding fault_loop fault_step update_recv_messages
  fault_loop-Silent [] s s' e = ground arith
  fault_loop-Silent (ms ∷ rest) s s' e = elim (Bool-cases s.should_broadcast) [
    | inl runs ↦
        let (s1, q, r) =
          >>=-eq-ok (update_recv_messages h ms s) _
            (sym (fault_loop-step true ms rest s runs) ∙ e) in
        let (a, b, c, d, f) = receive_all-Silent ms (record s { send_this_round = [] }) s1 q in
        let (a', b', c', d', f') = fault_loop-Silent rest s1 s' r in
        (a' ∙ a, b' ∙ b, c' ∙ c, d' ∙ d, f' ∙ f)
    | inr stopped ↦
        let same : s ≡ s' = ok-inj (sym (fault_loop-step false ms rest s stopped) ∙ e) in
        ground (arith, same)
  ]

  fault_loop-stopped :
      (batches : List (List Message)) (s s' : Node)
      → s.should_broadcast ≡ false
      → fault_loop batches s ≡ ok s'
      → s' ≡ s
  unfolding fault_loop fault_step
  fault_loop-stopped [] s s' p e = sym (ok-inj e)
  fault_loop-stopped (ms ∷ rest) s s' p e =
      sym (ok-inj (sym (fault_loop-step false ms rest s p) ∙ e))

  -- A faulty node that runs, in whatever mode, sends nothing, delivers nothing and keeps its current and
  -- its next key pair; in the mode of a crash it takes no message either.
  pub fault_run_protocol-Silent :
      (broadcast : Bool) (behaviour : ByzantineBehavior) (batches : List (List Message))
      (s s' : Node)
      → fault_run_protocol broadcast behaviour batches s ≡ ok s'
      → Silent s s' × (behaviour ≡ crash → s' ≡ record s { should_broadcast = false })
  unfolding fault_run_protocol behavior_to_string is_not_crash
  fault_run_protocol-Silent broadcast behaviour batches s s' e =
      let (_, _, r) = >>=-eq-ok (behavior_to_string behaviour) _ e in
      (
        fault_loop-Silent batches (record s { should_broadcast = is_not_crash behaviour }) s' r,
        λ p.
            let off : is_not_crash behaviour ≡ false = ap is_not_crash p in
            fault_loop-stopped batches (record s { should_broadcast = is_not_crash behaviour }) s'
              off r
            ∙ ap (λ b. record s { should_broadcast = b }) off,
      )
