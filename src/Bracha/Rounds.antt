-- ===== src/Bracha/Rounds.antt =====
-- A round of answers delivers once enough READY messages are counted (`broadcastRound` of
-- lib/bracha/node.cc).
use cosicoin.Base.{
  ◌⊎◌, ℕ, true, [], ◌∷◌, ◌≡◌, refl, sym, ◌∙◌, arith, inl, inr, nat_eq, list_eq, All, ◌+◌, ◌*◌, ◌/◌,
  contains, list_beq_iff, Bool-cases, leb, ltb,
}
use cosicoin.Base.Text.{Bytes}
use cosicoin.Base.Result.{Result, ok, ◌>>=◌}
use cosicoin.Bracha.Frame.{ready_loop_stops, ready_loop_goes_on}
use cosicoin.Host.{Host}
use mathlib.Core.Path.{subst}
use cosicoin.Base.Dict.{Dict, lookup, has_key, erase}
use cosicoin.Blockchain.Block.{Block}
use cosicoin.Bracha.Node.{Node}
use cosicoin.Bracha.Broadcast.{
  echo_loop, ready_loop, echo_quorum, deliver, delivered, broadcast_round,
}
use cosicoin.Signature.Lamport.{NeverFails}
use cosicoin.Bracha.Quorum.{Reached}
use cosicoin.Bracha.Trust.{IsTrusted, IsTrusted-fields}
use cosicoin.Bracha.Live.{IsSteady, Steps, Steps-refl, Steps-trans, ready_if-Steps, answer-Steps}

-- The hashes of all counters are known.
abbrev AllKnown : Dict Bytes ℕ → Dict Bytes Block → Type 0
AllKnown m blocks = All (λ c. has_key c.0 blocks ≡ true) m

module _ (h : Host) (never : NeverFails h) where
  echo_loop-Steps :
      (q : ℕ) (m : Dict Bytes ℕ) (s : Node)
      → IsSteady h never s
      → echo_quorum s ≡ q
      → AllKnown m s.blk_list
      → (s' : Node) × (echo_loop h m s ≡ ok s')
        × Steps h never s s'
        × ((y : Bytes) → Reached q y m → contains s'.ready_sent y ≡ true)
  unfolding echo_loop echo_quorum
  echo_loop-Steps q [] s v z a = (s, refl, Steps-refl h never s v, λ y r. absurd r)
  echo_loop-Steps q ((x, k) ∷ m) s v z a =
      let (s1, e1, t1, marked) = ready_if-Steps h never (leb (echo_quorum s) k) x 2 s v a.0 in
      let (s', e, t, rest) =
        echo_loop-Steps q m s1 t1.steady (ground (arith, t1.same, z))
          (subst (AllKnown m) (sym t1.same.same_blocks) a.1) in
      (
        s',
        rw e1 e,
        Steps-trans h never s s1 s' t1 t,
        λ y r. elim r [
          | inl (same, enough) ↦ t.marks y (
              subst (λ w. contains s1.ready_sent w ≡ true) same
                (marked (ground (arith, z, enough))))
          | inr later ↦ rest y later
        ],
      )

  has_key-erase :
      (x y : Bytes) (m : Dict Bytes ℕ) → has_key y (erase x m) ≡ true → has_key y m ≡ true
  unfolding erase lookup
  has_key-erase x y [] c = c
  has_key-erase x y ((z, k) ∷ m) c = ground (arith, c, has_key-erase x y m)

  -- Whatever is appended, a delivery leaves the node steady and trusted.
  pub delivered-IsSteady :
      (x y : Bytes) (s : Node) → IsSteady h never s → IsSteady h never (delivered h x y s)
  unfolding delivered
  delivered-IsSteady x y s v = record { pair = v.pair; closed = v.closed }

  pub delivered-IsTrusted :
      (x y : Bytes) (s : Node) → IsTrusted h s → IsTrusted h (delivered h x y s)
  unfolding delivered
  delivered-IsTrusted x y s w = record {
    known = w.known;
    verified = w.verified;
    asked = w.asked;
    echoed = λ z c. w.echoed z (has_key-erase x z s.echo_this_round c);
    readied = λ z c. w.readied z (has_key-erase x z s.ready_this_round c);
  }

  -- What the loop over the READY counters leads to: no count is high enough and it ends, or it
  -- delivers a hash whose count is.
  abbrev pub Outcome : ℕ → Dict Bytes ℕ → Result Node → Node → Type 0
  Outcome f m r t =
      ((r ≡ ok t) × ((y : Bytes) → ¬ Reached (2 * f + 2) y m))
      ⊎ ((x : Bytes) × (r ≡ deliver h x t) × Reached (2 * f + 2) x m)

  ready_loop-Steps :
      (f : ℕ) (m : Dict Bytes ℕ) (s : Node)
      → IsSteady h never s
      → s.f ≡ f
      → AllKnown m s.blk_list
      → (t : Node) × Steps h never s t × Outcome f m (ready_loop h m s) t
  unfolding ready_loop
  ready_loop-Steps f [] s v z a = (s, Steps-refl h never s v, inl (refl, λ y r. r))
  ready_loop-Steps f ((x, k) ∷ m) s v z a =
      let (s1, e1, t1, _) = ready_if-Steps h never (leb (s.f + 1) k) x 3 s v a.0 in
      elim (Bool-cases (ltb (2 * s1.f + 1) k)) [
        | inl enough ↦ (
          s1,
          t1,
          inr (
            x,
            ready_loop_stops h x k m s s1 e1 enough,
            inl (refl, ground (arith, enough, t1.same, z)),
          ),
        )
        | inr few ↦
            let (t, steps, out) =
              ready_loop-Steps f m s1 t1.steady (ground (arith, t1.same, z))
                (subst (AllKnown m) (sym t1.same.same_blocks) a.1) in
            let on = ready_loop_goes_on h x k m s s1 e1 few in
            (
              t,
              Steps-trans h never s s1 t t1 steps,
              elim out [
                | inl (e, none_yet) ↦ inl (
                  on ∙ e,
                  λ y r. elim r [
                    | inl (_, high) ↦ ground (arith, few, high, t1.same, z)
                    | inr later ↦ none_yet y later
                  ],
                )
                | inr (y, e, r) ↦ inr (y, on ∙ e, inr r)
              ],
            )
      ]

  AllKnown-has_key :
      (m : Dict Bytes ℕ) (blocks : Dict Bytes Block)
      → ((x : Bytes) → has_key x m ≡ true → has_key x blocks ≡ true)
      → AllKnown m blocks
  unfolding lookup
  AllKnown-has_key [] blocks k = tt
  AllKnown-has_key ((x, n) ∷ m) blocks k = (
    k x (ground (arith, list_beq_iff x x)),
    AllKnown-has_key m blocks (λ y c. k y (ground (arith, c, list_beq_iff x y))),
  )

  pub broadcast_round-Delivers :
      (s : Node)
      → IsSteady h never s
      → IsTrusted h s
      → (t : Node) × IsSteady h never t
        × IsTrusted h t
        × (t.accepted_blocks ≡ s.accepted_blocks)
        × ((y : Bytes)
            → Reached ((s.n + s.f + 1) / 2) y s.echo_this_round
            → contains t.ready_sent y ≡ true)
        × (((broadcast_round h s ≡ ok t)
              × ((y : Bytes) → ¬ Reached (2 * s.f + 2) y s.ready_this_round))
            ⊎ ((x : Bytes) × Reached (2 * s.f + 2) x s.ready_this_round
                × (broadcast_round h s ≡ (h.freed x >>= λ y. ok (delivered h x y t)))))
  unfolding broadcast_round echo_quorum deliver
  broadcast_round-Delivers s v w =
      let s0 = record s { should_broadcast = true } in
      let (s1, e1, t1) =
        answer-Steps h never s0 (record { pair = v.pair; closed = v.closed }) w.asked in
      let (s2, e2, t2, echoed) =
        echo_loop-Steps ((s.n + s.f + 1) / 2) s.echo_this_round s1 t1.steady
          (ground (arith, t1.same))
          (subst (AllKnown s.echo_this_round) (sym t1.same.same_blocks)
            (AllKnown-has_key s.echo_this_round s.blk_list w.echoed)) in
      let t12 = Steps-trans h never s0 s1 s2 t1 t2 in
      let (t, t3, out) =
        ready_loop-Steps s.f s.ready_this_round s2 t2.steady (ground (arith, t12.same)) (
          subst (AllKnown s.ready_this_round) (sym t12.same.same_blocks)
            (AllKnown-has_key s.ready_this_round s.blk_list w.readied)) in
      let all = Steps-trans h never s0 s2 t t12 t3 in
      let run : broadcast_round h s ≡ ready_loop h s.ready_this_round s2 =
        rw (e1, t1.same.same_echo, e2, t12.same.same_ready) refl in
      (
        t,
        all.steady,
        all.trusted (IsTrusted-fields h s s0 w),
        all.same.same_accepted,
        λ y r. t3.marks y (echoed y r),
        elim out [
          | inl (e, none_yet) ↦ inl (run ∙ e, none_yet)
          | inr (x, e, r) ↦ inr (x, r, run ∙ e)
        ],
      )
