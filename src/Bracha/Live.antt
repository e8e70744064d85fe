-- ===== src/Bracha/Live.antt =====
-- The steps of a round never throw on a node that holds its keys and knows closed blocks
-- (lib/bracha/node.cc).
use cosicoin.Base.{
  ℕ, Bool, true, false, some, List, [], ◌∷◌, ◌++◌, ◌≡◌, refl, arith, inl, inr, nat_eq, list_eq,
  list_beq, contains, Option-cases, list_beq_iff, Bool-cases,
}
use cosicoin.Base.Text.{Bytes}
use cosicoin.Base.Result.{ok}
use cosicoin.Host.{Host}
use cosicoin.Blockchain.Message.{MsgType, echo, ready, new_message}
use cosicoin.Base.Dict.{Dict, lookup, has_key, at_or}
use cosicoin.Blockchain.Block.{Block, empty_block}
use cosicoin.Bracha.Node.{Node, add_hash}
use cosicoin.Bracha.Broadcast.{
  rotate_keys, broadcast_message, broadcast_ready, ready_if, answer_send, send_echo,
}
use cosicoin.Signature.Lamport.{IsPair, key_gen-IsPair, NeverFails, key_gen-total}
use cosicoin.Bracha.Quorum.{SameCounts, SameCounts-trans}
use cosicoin.Bracha.Chain.{broadcast_message-Signed}
use cosicoin.Bracha.Trust.{IsTrusted, IsTrusted-fields, IsTrusted-answered}

known_closed :
    (x : Bytes) (m : Dict Bytes Block)
    → ((b : Block) → lookup x m ≡ some b → b.is_mutable ≡ false)
    → has_key x m ≡ true
    → (at_or empty_block x m).is_mutable ≡ false
known_closed x m closed k = elim (Option-cases (lookup x m)) [
  | inl nothing ↦ absurd (ground (arith, k, nothing))
  | inr (b, found) ↦ rw (at_or, found) (closed b found)
]

contains-add_hash_self : (x : Bytes) (s : List Bytes) → contains (add_hash x s) x ≡ true
unfolding add_hash
contains-add_hash_self x s = ground (arith, list_beq_iff x x)

contains-add_hash_old :
    (x y : Bytes) (s : List Bytes) → contains s y ≡ true → contains (add_hash x s) y ≡ true
unfolding add_hash
contains-add_hash_old x y s c = ground arith

module _ (h : Host) (never : NeverFails h) where
  -- The node holds a generated key pair, and the blocks that it knows are closed.
  pub record IsSteady (s : Node) : Type 0 where
    pub pair : IsPair h s.my_next_key_pair
    pub closed : (x : Bytes) (b : Block) → lookup x s.blk_list ≡ some b → b.is_mutable ≡ false

  -- A step that leaves the node steady, with the same counters and blocks, and with at least the
  -- marks that it had.
  pub record Steps (s s' : Node) : Type 0 where
    pub steady : IsSteady s'
    pub same : SameCounts h s s'
    pub marks : (y : Bytes) → contains s.ready_sent y ≡ true → contains s'.ready_sent y ≡ true
    pub trusted : IsTrusted h s → IsTrusted h s'

  pub Steps-refl : (s : Node) → IsSteady s → Steps s s
  Steps-refl s v = record { steady = v; same = ground arith; marks = λ y m. m; trusted = λ w. w }

  pub Steps-trans : (s t u : Node) → Steps s t → Steps t u → Steps s u
  Steps-trans s t u a b = record {
    steady = b.steady;
    same = SameCounts-trans h s t u a.same b.same;
    marks = λ y m. b.marks y (a.marks y m);
    trusted = λ v. b.trusted (a.trusted v);
  }

  broadcast-Steps :
      (type : MsgType) (x : Bytes) (round : ℕ) (s : Node)
      → IsSteady s
      → has_key x s.blk_list ≡ true
      → (s' : Node) × (broadcast_message h type (at_or empty_block x s.blk_list) round s ≡ ok s')
        × Steps s s'
  unfolding rotate_keys
  broadcast-Steps type x round s v k =
      let b = at_or empty_block x s.blk_list in
      let (next, g) = key_gen-total h never s.entropy in
      let closed = known_closed x s.blk_list (v.closed x) k in
      let (c, e, _) = broadcast_message-Signed h type b round s next v.pair closed g in
      let s' : Node = record (rotate_keys h next s) {
        sent = s.sent ++ new_message type c s.id round ∷ [];
      } in
      (
        s',
        e,
        record {
          steady = record { pair = key_gen-IsPair h s.entropy next g; closed = v.closed };
          same = ground arith;
          marks = λ y m. m;
          trusted = IsTrusted-fields h s s';
        },
      )

  ready-Steps :
      (x : Bytes) (round : ℕ) (s : Node)
      → IsSteady s
      → has_key x s.blk_list ≡ true
      → (s' : Node) × (broadcast_ready h x round s ≡ ok s')
        × Steps s s'
        × (contains s'.ready_sent x ≡ true)
  unfolding broadcast_ready
  ready-Steps x round s v k =
      let (s1, e, t) = broadcast-Steps ready x round s v k in
      let s' : Node = record s1 { ready_sent = add_hash x s1.ready_sent } in
      (
        s',
        rw e refl,
        record {
          steady = record { pair = t.steady.pair; closed = t.steady.closed };
          same = ground (arith, t.same);
          marks = λ y m. contains-add_hash_old x y s1.ready_sent (t.marks y m);
          trusted = λ w. IsTrusted-fields h s1 s' (t.trusted w);
        },
        contains-add_hash_self x s1.ready_sent,
      )

  pub ready_if-Steps :
      (enough : Bool) (x : Bytes) (round : ℕ) (s : Node)
      → IsSteady s
      → has_key x s.blk_list ≡ true
      → (s' : Node) × (ready_if h enough x round s ≡ ok s')
        × Steps s s'
        × (enough ≡ true → contains s'.ready_sent x ≡ true)
  unfolding ready_if
  ready_if-Steps false x round s v k = (s, refl, Steps-refl s v, λ e. absurd (cc e))
  ready_if-Steps true x round s v k = elim (Bool-cases (contains s.ready_sent x)) [
    | inl old ↦ (s, rw old refl, Steps-refl s v, λ e. old)
    | inr new ↦ let (s', e, t, m) = ready-Steps x round s v k in (s', rw new e, t, λ e. m)
  ]

  pub answer-Steps :
      (s : Node)
      → IsSteady s
      → (list_beq s.send_this_round [] ≡ false → has_key s.send_this_round s.blk_list ≡ true)
      → (s' : Node) × (answer_send h s ≡ ok s') × Steps s s'
  unfolding answer_send send_echo
  answer-Steps s v k = elim (Bool-cases (list_beq s.send_this_round [])) [
    | inl nothing ↦ (s, rw nothing refl, Steps-refl s v)
    | inr some_send ↦
        let (s1, e, t) = broadcast-Steps echo s.send_this_round 1 s v (k some_send) in
        let s' : Node = record s1 { send_this_round = [] } in
        (
          s',
          rw (some_send, e) refl,
          record {
            steady = record { pair = t.steady.pair; closed = t.steady.closed };
            same = ground (arith, t.same);
            marks = t.marks;
            trusted = λ w. IsTrusted-answered h s1 s' (t.trusted w);
          },
        )
  ]
