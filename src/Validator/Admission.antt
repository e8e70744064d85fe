-- ===== src/Validator/Admission.antt =====
-- What a validator takes into its pool (`OnRecvTx` of lib/cryptowallet/validator.cc).
use cosicoin.Base.{ℕ, ◌≡◌, ◌↔◌, Bool, true, [], ◌∷◌, ◌++◌, arith, nat_eq, some, if◌then◌else◌}
use cosicoin.Base.Dict.{Dict, lookup, at_or, lookup-insert, lookup-insert_self}
use cosicoin.Host.{Host}
use cosicoin.Signature.Keys.{KeyPair}
use cosicoin.Signature.Sign.{verify, sign, is_one, matches, Verdict}
use cosicoin.Signature.Lamport.{IsPair, verify-sign}
use cosicoin.Blockchain.Coins.{UtxoList}
use cosicoin.Blockchain.Transaction.{
  Transaction, get_digest, check_spending_conditions, string_digest,
}
use cosicoin.Validator.State.{Validator, coins_of, touch}
use cosicoin.Validator.Pool.{on_recv_tx, is_acceptable}

-- Reading a missing entry changes no wallet's coins.
pub at_or-touch : (id w : ℕ) (m : Dict ℕ UtxoList) → at_or [] w (touch id m) ≡ at_or [] w m
unfolding touch
at_or-touch id w m = ground (arith, lookup-insert m id w [])

is_one_iff : (x : Verdict) → (is_one x ≡ true) ↔ (x ≡ matches)
unfolding is_one
is_one_iff x = ground arith

module _ (h : Host) where
  -- What `OnRecvTx` did with a transaction, `pooled` or not.
  pub record Received (t : Transaction) (v v' : Validator) (pooled : Bool) : Type 0 where
    pub judged : (pooled ≡ true) ↔ (
        (verify h (get_digest h t) t.sender_sig t.public_key ≡ matches)
        × (check_spending_conditions t (coins_of t.sender_id v) v.wallets_ids ≡ true))
    pub pool : v'.memory_pool ≡ (if pooled then v.memory_pool ++ t ∷ [] else v.memory_pool)
    pub key_stored : lookup t.sender_id v'.pk_sets ≡ some t.public_key
    pub same_coins : (w : ℕ) → coins_of w v' ≡ coins_of w v
    pub same_node : v'.node ≡ v.node

  -- `OnRecvTx` on every branch: the transaction is pooled exactly when its signature verifies under the
  -- key that it carries and it is spendable from its sender's coins; then it comes last in the pool,
  -- which else stays. Its key is stored in any case; no wallet's coins change, nor the node.
  pub on_recv_tx-Received :
      (t : Transaction) (v : Validator) → Received t v (on_recv_tx h t v).1 (on_recv_tx h t v).0
  unfolding on_recv_tx is_acceptable
  on_recv_tx-Received t v = record {
    judged = ground (arith, is_one_iff (verify h (get_digest h t) t.sender_sig t.public_key));
    pool = ground arith;
    key_stored = ground (arith, lookup-insert_self t.sender_id t.public_key v.pk_sets);
    same_coins = λ w. ground (arith, at_or-touch t.sender_id w v.utxo_sets);
    same_node = ground arith;
  }

  -- A transaction with the key and the signature of any pair.
  abbrev pub forge : KeyPair → Transaction → Transaction
  forge p t = record t {
    public_key = p.public_key;
    sender_sig = sign (get_digest h t) p.private_key;
  }

  -- The key that is checked is the one that the transaction carries: whoever generates a pair can
  -- spend the coins of any wallet, and that wallet's stored key becomes the forger's.
  pub on_recv_tx_forged :
      (p : KeyPair) (t : Transaction) (v : Validator)
      → IsPair h p
      → check_spending_conditions t (coins_of t.sender_id v) v.wallets_ids ≡ true
      → ((on_recv_tx h (forge p t) v).0 ≡ true)
        × ((on_recv_tx h (forge p t) v).1.memory_pool ≡ v.memory_pool ++ forge p t ∷ [])
        × (lookup t.sender_id (on_recv_tx h (forge p t) v).1.pk_sets ≡ some p.public_key)
  unfolding get_digest check_spending_conditions string_digest
  on_recv_tx_forged p t v w c =
      let r = on_recv_tx-Received (forge p t) v in
      let e = r.judged.1 (verify-sign h (get_digest h t) p w, c) in
      (e, ground (arith, e, r.pool), r.key_stored)
