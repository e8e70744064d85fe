-- ===== src/Bracha/Quorum.antt =====
-- A READY and a delivery rest on enough messages (`broadcastRound` of lib/bracha/node.cc).
use cosicoin.Base.{
  ℕ, ◌+◌, ◌*◌, ◌≤◌, ◌≡◌, Bool, true, [], ◌∷◌, ◌++◌, arith, ◌⊎◌, inl, inr, contains, list_eq, nat_eq,
}
use cosicoin.Base.Text.{Bytes}
use cosicoin.Base.Dict.{Dict}
use cosicoin.Base.Result.{ok}
use cosicoin.Host.{Host}
use cosicoin.Bracha.Node.{Node}
use cosicoin.Bracha.Broadcast.{rotate_keys, echo_quorum, ready_if}
use cosicoin.Bracha.Frame.{ready_if_inv}

-- Some entry of the counters counts at least `q` messages for this hash.
abbrev pub Reached : ℕ → Bytes → Dict Bytes ℕ → Type 0
Reached q x [] = ⊥
Reached q x ((y, k) ∷ m) = ((y ≡ x) × (q ≤ k)) ⊎ Reached q x m

module _ (h : Host) where
  -- Nothing of the node but its keys, its READY marks and the messages sent has changed.
  pub record SameCounts (s s' : Node) : Type 0 where
    pub same_n : s'.n ≡ s.n
    pub same_f : s'.f ≡ s.f
    pub same_id : s'.id ≡ s.id
    pub same_blocks : s'.blk_list ≡ s.blk_list
    pub same_echo : s'.echo_this_round ≡ s.echo_this_round
    pub same_ready : s'.ready_this_round ≡ s.ready_this_round
    pub same_accepted : s'.accepted_blocks ≡ s.accepted_blocks

  pub SameCounts-trans : (s t u : Node) → SameCounts s t → SameCounts t u → SameCounts s u
  SameCounts-trans s t u a b = ground arith

  pub ready_if-SameCounts :
      (enough : Bool) (x : Bytes) (round : ℕ) (s s' : Node)
      → ready_if h enough x round s ≡ ok s'
      → SameCounts s s'
  unfolding rotate_keys
  ready_if-SameCounts enough x round s s' e = elim (ready_if_inv h enough x round s s' e) [
    | inl same ↦ ground arith
    | inr (_, _, r) ↦ ground (arith, r.after)
  ]

  -- What the loop over the READY counters leads to.
  pub record ReadyResult (f : ℕ) (m : Dict Bytes ℕ) (s s' : Node) : Type 0 where
    pub marks :
        (y : Bytes)
        → contains s'.ready_sent y ≡ true
        → (contains s.ready_sent y ≡ true) ⊎ Reached (f + 1) y m
    pub delivers :
        (s'.accepted_blocks ≡ s.accepted_blocks)
        ⊎ ((x : Bytes) × (y : Bytes) × (s'.accepted_blocks ≡ s.accepted_blocks ++ y ∷ [])
            × (h.freed x ≡ ok y)
            × (s'.voted_hash ≡ x)
            × Reached (2 * f + 2) x m)

-- With n = 3 f + 1 nodes, any two sets of nodes that reach the ECHO threshold of this node share at
-- least f + 1 nodes.
quorums_meet :
    (s : Node) (both a b : ℕ)
    → s.n ≡ 3 * s.f + 1
    → echo_quorum s ≤ a
    → echo_quorum s ≤ b
    → a + b ≤ s.n + both
    → s.f + 1 ≤ both
unfolding echo_quorum
quorums_meet s both a b p qa qb u = omega arith
