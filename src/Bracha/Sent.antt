-- ===== src/Bracha/Sent.antt =====
-- A node sends only blocks that it has checked (`broadcastRound` of lib/bracha/node.cc).
use cosicoin.Base.{
  ℕ, ◌≡◌, refl, ◌∙◌, inl, inr, Bool, true, some, List, [], ◌∷◌, ◌++◌, All, All-append, arith,
  nat_eq, list_eq, Option-cases, sym, ap, leb, Bool-cases, ◌+◌, list_beq, ltb, ◌*◌, list_beq_iff,
}
use mathlib.Core.List.{append-nil, append_assoc}
use mathlib.Core.Path.{subst}
use cosicoin.Base.Text.{Bytes}
use cosicoin.Base.Dict.{Dict, lookup, has_key, at_or}
use cosicoin.Base.Result.{ok, >>=-eq-ok}
use cosicoin.Host.{Host}
use cosicoin.Blockchain.Block.{Block, empty_block}
use cosicoin.Blockchain.Message.{Message, echo, ready, new_message}
use cosicoin.Bracha.Node.{Node}
use cosicoin.Bracha.Broadcast.{
  send_echo, ready_if, rotate_keys, broadcast_message, delivered, answer_send, echo_loop,
  ready_loop, broadcast_round, echo_quorum,
}
use cosicoin.Bracha.Frame.{deliver_inv, ready_loop_stops, broadcast_message_inv, ready_if_inv}
use cosicoin.Bracha.Trust.{IsTrusted}
use cosicoin.Bracha.Quorum.{ready_if-SameCounts}

module _ (h : Host) where
  -- The message carries a block with the header of a known block.
  abbrev pub Carries : Dict Bytes Block → Message → Type 0
  Carries m msg = (x : Bytes) × (b : Block) × (lookup x m ≡ some b) × (msg.block.header ≡ b.header)

  -- From one state to the next only messages of known blocks were sent; the known blocks stay.
  pub record Sent (s s' : Node) : Type 0 where
    pub messages : List Message
    pub appended : s'.sent ≡ s.sent ++ messages
    pub carried : All (Carries s.blk_list) messages
    pub same_blocks : s'.blk_list ≡ s.blk_list

  Sent-refl : (s : Node) → Sent s s
  Sent-refl s = record {
    messages = [];
    appended = sym (append-nil s.sent);
    carried = tt;
    same_blocks = refl;
  }

  Sent-trans : (s t u : Node) → Sent s t → Sent t u → Sent s u
  Sent-trans s t u a b = record {
    messages = a.messages ++ b.messages;
    appended =
        b.appended
        ∙ ap (λ l. l ++ b.messages) a.appended
        ∙ append_assoc s.sent a.messages b.messages;
    carried =
        All-append (Carries s.blk_list) a.messages b.messages a.carried
          (subst (λ m. All (Carries m) b.messages) a.same_blocks b.carried);
    same_blocks = b.same_blocks ∙ a.same_blocks;
  }

  delivered-Sent : (x y : Bytes) (s t : Node) → Sent s t → Sent s (delivered h x y t)
  unfolding delivered
  delivered-Sent x y s t a = record {
    messages = a.messages;
    appended = a.appended;
    carried = a.carried;
    same_blocks = a.same_blocks;
  }

  ready_if-Sent :
      (enough : Bool) (x : Bytes) (round : ℕ) (s s' : Node)
      → has_key x s.blk_list ≡ true
      → ready_if h enough x round s ≡ ok s'
      → Sent s s'
  unfolding rotate_keys new_message
  ready_if-Sent enough x round s s' k e = elim (ready_if_inv h enough x round s s' e) [
    | inl same ↦ subst (Sent s) (sym same) (Sent-refl s)
    | inr (_, _, r) ↦ elim (Option-cases (lookup x s.blk_list)) [
      | inl missing ↦ absurd (ground (arith, k, missing))
      | inr (b, found) ↦ record {
        messages = new_message ready r.signed s.id round ∷ [];
        appended = ap (λ t. t.sent) r.after;
        carried = ((x, b, found, ground (arith, r.same_header, found)), tt);
        same_blocks = ap (λ t. t.blk_list) r.after;
      }
    ]
  ]

  send_echo-Sent :
      (s s' : Node)
      → has_key s.send_this_round s.blk_list ≡ true
      → send_echo h s ≡ ok s'
      → Sent s s'
        × (s'.echo_this_round ≡ s.echo_this_round)
        × (s'.ready_this_round ≡ s.ready_this_round)
  unfolding send_echo rotate_keys new_message
  send_echo-Sent s s' k e =
      let b0 = at_or empty_block s.send_this_round s.blk_list in
      let (s1, p, q) = >>=-eq-ok (broadcast_message h echo b0 1 s) _ e in
      let (next, c, w, hd, _, _) = broadcast_message_inv h echo b0 1 s s1 p in
      elim (Option-cases (lookup s.send_this_round s.blk_list)) [
        | inl missing ↦ absurd (ground (arith, k, missing))
        | inr (b, found) ↦ (
          record {
            messages = new_message echo c s.id 1 ∷ [];
            appended = ground (arith, q, w);
            carried = ((s.send_this_round, b, found, ground (arith, hd, found)), tt);
            same_blocks = ground (arith, q, w);
          },
          ground (arith, q, w),
          ground (arith, q, w),
        )
      ]

  answer_send-Sent :
      (s s' : Node)
      → IsTrusted h s
      → answer_send h s ≡ ok s'
      → Sent s s'
        × (s'.echo_this_round ≡ s.echo_this_round)
        × (s'.ready_this_round ≡ s.ready_this_round)
  unfolding answer_send
  answer_send-Sent s s' v e = elim (Bool-cases (list_beq s.send_this_round [])) [
    | inl nothing ↦
        let same : s ≡ s' = ground (arith, e, nothing) in
        (
          subst (Sent s) same (Sent-refl s),
          ap (λ t. t.echo_this_round) (sym same),
          ap (λ t. t.ready_this_round) (sym same),
        )
    | inr asked ↦ send_echo-Sent s s' (v.asked asked) (ground (arith, e, asked))
  ]

  -- All the counted hashes are those of known blocks.
  abbrev AllKnown : Dict Bytes Block → Dict Bytes ℕ → Type 0
  AllKnown m = All (λ entry. has_key entry.0 m ≡ true)

  echo_loop-Sent :
      (k : Dict Bytes ℕ) (s s' : Node)
      → AllKnown s.blk_list k
      → echo_loop h k s ≡ ok s'
      → Sent s s' × (s'.ready_this_round ≡ s.ready_this_round)
  unfolding echo_loop
  echo_loop-Sent [] s s' a e =
      let same : s ≡ s' = ground (arith, e) in
      (subst (Sent s) same (Sent-refl s), ap (λ t. t.ready_this_round) (sym same))
  echo_loop-Sent ((x, n) ∷ k) s s' a e =
      let (s1, p, r) = >>=-eq-ok (ready_if h (leb (echo_quorum s) n) x 2 s) _ e in
      let one = ready_if-Sent (leb (echo_quorum s) n) x 2 s s1 a.0 p in
      let same = ready_if-SameCounts h (leb (echo_quorum s) n) x 2 s s1 p in
      let (rest, q) =
        echo_loop-Sent k s1 s' (subst (λ m. AllKnown m k) (sym one.same_blocks) a.1) r in
      (Sent-trans s s1 s' one rest, q ∙ same.same_ready)

  ready_loop-Sent :
      (k : Dict Bytes ℕ) (s s' : Node)
      → AllKnown s.blk_list k
      → ready_loop h k s ≡ ok s'
      → Sent s s'
  unfolding ready_loop
  ready_loop-Sent [] s s' a e =
      let same : s ≡ s' = ground (arith, e) in subst (Sent s) same (Sent-refl s)
  ready_loop-Sent ((x, n) ∷ k) s s' a e =
      let (s1, p, r) = >>=-eq-ok (ready_if h (leb (s.f + 1) n) x 3 s) _ e in
      let one = ready_if-Sent (leb (s.f + 1) n) x 3 s s1 a.0 p in
      elim (Bool-cases (ltb (2 * s1.f + 1) n)) [
        | inl enough ↦
            let (y, _, end) =
              deliver_inv h x s1 s' (sym (ready_loop_stops h x n k s s1 p enough) ∙ e) in
            subst (Sent s) end (delivered-Sent x y s s1 one)
        | inr waits ↦ Sent-trans s s1 s' one (
            ready_loop-Sent k s1 s' (subst (λ m. AllKnown m k) (sym one.same_blocks) a.1)
              (ground (arith, r, waits)))
      ]

  AllKnown-has_key :
      (k : Dict Bytes ℕ) (m : Dict Bytes Block)
      → ((x : Bytes) → has_key x k ≡ true → has_key x m ≡ true)
      → AllKnown m k
  unfolding lookup
  AllKnown-has_key [] m g = tt
  AllKnown-has_key ((x, n) ∷ k) m g = (
    g x (ground (arith, list_beq_iff x x)),
    AllKnown-has_key k m (λ y c. g y (ground (arith, c))),
  )

  -- A node that knows only checked blocks sends in one round of answers only messages of blocks with
  -- the headers of blocks that it knows, and these blocks stay.
  pub broadcast_round-Sent : (s s' : Node) → IsTrusted h s → broadcast_round h s ≡ ok s' → Sent s s'
  unfolding broadcast_round
  broadcast_round-Sent s s' v e =
      let s0 = record s { should_broadcast = true } in
      let v0 : IsTrusted h s0 = record {
        known = v.known;
        verified = v.verified;
        echoed = v.echoed;
        asked = v.asked;
        readied = v.readied;
      } in
      let (s1, p, r) = >>=-eq-ok (answer_send h s0) _ e in
      let (s2, q, t) = >>=-eq-ok (echo_loop h s1.echo_this_round s1) _ r in
      let (a, ea, ra) = answer_send-Sent s0 s1 v0 p in
      let k1 : AllKnown s1.blk_list s1.echo_this_round =
        subst (λ m. AllKnown m s1.echo_this_round) (sym a.same_blocks)
          (subst (AllKnown s.blk_list) (sym ea)
            (AllKnown-has_key s.echo_this_round s.blk_list v.echoed)) in
      let (b, rb) = echo_loop-Sent s1.echo_this_round s1 s2 k1 q in
      let k2 : AllKnown s2.blk_list s2.ready_this_round =
        subst (λ m. AllKnown m s2.ready_this_round) (sym (b.same_blocks ∙ a.same_blocks))
          (subst (AllKnown s.blk_list) (sym (rb ∙ ra))
            (AllKnown-has_key s.ready_this_round s.blk_list v.readied)) in
      let all =
        Sent-trans s0 s1 s' a
          (Sent-trans s1 s2 s' b (ready_loop-Sent s2.ready_this_round s2 s' k2 t)) in
      record {
        messages = all.messages;
        appended = all.appended;
        carried = all.carried;
        same_blocks = all.same_blocks;
      }
