-- ===== src/Validator/Proposal.antt =====
-- The leader's proposal: `CreateBlk` and then `Propose` (`ProposeProcess` of
-- lib/cryptowallet/validator.cc).
use cosicoin.Base.{◌≡◌, refl, ◌≢◌, ◌∙◌, true, false, [], ◌∷◌, ◌++◌, All, Distinct, sym}
use mathlib.Core.Path.{subst, ap}
use cosicoin.Base.Result.{ok, guard, assertion_failed, ◌>>=◌, ◌>>◌}
use cosicoin.Host.{Host}
use cosicoin.Signature.Keys.{KeyPair, key_gen}
use cosicoin.Signature.Lamport.{IsPair}
use cosicoin.Blockchain.Coins.{input_eq}
use cosicoin.Blockchain.Block.{Block, empty_block}
use cosicoin.Blockchain.Message.{new_message, send}
use cosicoin.Bracha.Node.{Node}
use cosicoin.Bracha.Broadcast.{rotate_keys, propose}
use cosicoin.Bracha.Keys.{Signed}
use cosicoin.Bracha.Chain.{broadcast_message-Signed}
use cosicoin.Validator.State.{Validator}
use cosicoin.Validator.Pool.{create_blk, propose_block, propose_task}
use cosicoin.Validator.Creation.{Created, create_blk-Created}

module _ (h : Host) where
  -- The node after it sent a SEND for the block `c`.
  abbrev proposed : KeyPair → Block → Node → Node
  proposed next c s = record (rotate_keys h next s) {
    sent = s.sent ++ new_message send c s.id 0 ∷ [];
  }

  propose-Signed :
      (b : Block) (s : Node) (next : KeyPair)
      → IsPair h s.my_next_key_pair
      → b.is_mutable ≡ false
      → key_gen h s.entropy ≡ ok next
      → (c : Block) × (propose h b s ≡ ok (proposed next c s)) × Signed h s next b c
  unfolding propose
  propose-Signed b s next v m g = broadcast_message-Signed h send b 0 s next v m g

  propose_block_run :
      (b : Block) (v : Validator) (s : Node)
      → v.node.is_lead ≡ true
      → propose h b v.node ≡ ok s
      → propose_block h b v ≡ ok (record v { node = s })
  unfolding propose_block
  propose_block_run b v s l p =
      subst
        (λ x.
          (guard x assertion_failed >> (propose h b v.node >>= λ n. ok (record v { node = n })))
          ≡ ok (record v { node = s }))
        (sym l) (rw p refl)

  propose_task_run :
      (b : Block) (v v1 : Validator) (s : Node)
      → create_blk h empty_block v ≡ ok (true, b, v1)
      → v1.node.is_lead ≡ true
      → propose h b v1.node ≡ ok s
      → propose_task h v ≡ ok (record v1 { node = s })
  unfolding propose_task
  propose_task_run b v v1 s e l p = rw e (propose_block_run b v1 s l p)

  -- The leader holds a generated pair, its random source does not fail, and its pool is not empty and
  -- repeats no input within a transaction. One round of the proposing thread throws nothing: it makes
  -- a block of the pool and gives one SEND message to the client, with the transactions of that block
  -- and the signature that the peers expect.
  pub propose_task_sends :
      (v : Validator) (next : KeyPair)
      → v.node.is_lead ≡ true
      → v.memory_pool ≢ []
      → All (λ t. Distinct t.inputs) v.memory_pool
      → IsPair h v.node.my_next_key_pair
      → key_gen h v.node.entropy ≡ ok next
      → (b : Block) × (c : Block) × (v1 : Validator) × (v' : Validator) × (propose_task h v ≡ ok v')
        × (v'.memory_pool ≡ [])
        × (v'.node.sent ≡ v.node.sent ++ new_message send c v.node.id 0 ∷ [])
        × Created h empty_block v b v1
        × Signed h v.node next b c
  propose_task_sends v next l n a w g =
      let (b, v1, e, r) = create_blk-Created h empty_block v l n refl refl a in
      let (c, p, q) = propose-Signed b v.node next w r.closed g in
      let sent = proposed next c v.node in
      let lead : v1.node.is_lead ≡ true = ap (λ s. s.is_lead) r.same_node ∙ l in
      let p1 : propose h b v1.node ≡ ok sent = ap (propose h b) r.same_node ∙ p in
      (
        b,
        c,
        v1,
        record v1 { node = sent },
        propose_task_run b v v1 sent e lead p1,
        r.pool_empty,
        refl,
        r,
        q,
      )
