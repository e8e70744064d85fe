-- ===== src/Wallet/Accepted.antt =====
-- What a wallet sends is what the validator takes: `CreateTx` of lib/cryptowallet/wallet.cc against
-- `OnRecvTx` of lib/cryptowallet/validator.cc.
use cosicoin.Base.{
  ℕ, ◌+◌, ◌%◌, ◌^◌, ◌≡◌, refl, ◌∙◌, sym, inl, inr, Bool-cases, List, [], ◌∷◌, length, map, arith,
}
use cosicoin.Base.Result.{ok}
use cosicoin.Signature.Sign.{verify, matches}
use cosicoin.Host.{Host}
use cosicoin.Json.{Json}
use cosicoin.Signature.Keys.{KeyPair, key_gen}
use cosicoin.Signature.Lamport.{IsPair, key_gen-IsPair, verify-sign}
use cosicoin.Blockchain.Coins.{Input, Output}
use cosicoin.Blockchain.Transaction.{
  Transaction, get_digest, string_digest, check_spending_conditions,
}
use cosicoin.Validator.State.{Validator, coins_of}
use cosicoin.Validator.Pool.{on_recv_tx}
use cosicoin.Validator.Admission.{on_recv_tx-Received}
use cosicoin.Wallet.Info.{TransInfo, trans_info_from_json, trans_info_from_json-length}
use cosicoin.Wallet.Create.{
  Wallet, make_inputs, make_outputs, signed_tx, unsigned_tx, create_tx, renew_keys,
}

make_inputs-ok :
    (ts idxs : List ℕ)
    → length ts ≡ length idxs
    → (is : List Input) × (make_inputs ts idxs ≡ ok is)
      × (map (λ i. i.tx_id) is ≡ ts)
      × (map (λ i. i.output_index) is ≡ idxs)
unfolding make_inputs
make_inputs-ok [] [] p = ([], refl, refl, refl)
make_inputs-ok [] (i ∷ idxs) p = absurd (omega (arith, p))
make_inputs-ok (t ∷ ts) [] p = absurd (omega (arith, p))
make_inputs-ok (t ∷ ts) (i ∷ idxs) p =
    let (is, e, a, b) = make_inputs-ok ts idxs (omega (arith, p)) in
    (record { tx_id = t; output_index = i } ∷ is, rw e refl, cc a, cc b)

make_outputs-ok :
    (xs ids : List ℕ)
    → length xs ≡ length ids
    → (os : List Output) × (make_outputs xs ids ≡ ok os)
      × (map (λ o. o.value) os ≡ xs)
      × (map (λ o. o.receiver_id) os ≡ ids)
unfolding make_outputs
make_outputs-ok [] [] p = ([], refl, refl, refl)
make_outputs-ok [] (i ∷ ids) p = absurd (omega (arith, p))
make_outputs-ok (x ∷ xs) [] p = absurd (omega (arith, p))
make_outputs-ok (x ∷ xs) (id ∷ ids) p =
    let (os, e, a, b) = make_outputs-ok xs ids (omega (arith, p)) in
    (record { value = x; receiver_id = id } ∷ os, rw e refl, cc a, cc b)

module _ (h : Host) where
  -- The transaction that a description asks for.
  pub record Asked (info : TransInfo) (w : Wallet) (t : Transaction) : Type 0 where
    pub spends : map (λ i. i.tx_id) t.inputs ≡ info.in_tx_id_list
    pub indices : map (λ i. i.output_index) t.inputs ≡ info.in_out_idx_list
    pub pays : map (λ o. o.value) t.outputs ≡ info.out_value_list
    pub payees : map (λ o. o.receiver_id) t.outputs ≡ info.out_wallet_id_list
    pub sender : t.sender_id ≡ w.id % 2 ^ 16
    pub number : t.tx_id ≡ w.tx_id

  judged_by_coins :
      (t : Transaction) (v : Validator)
      → verify h (get_digest h t) t.sender_sig t.public_key ≡ matches
      → (on_recv_tx h t v).0 ≡ check_spending_conditions t (coins_of t.sender_id v) v.wallets_ids
  judged_by_coins t v m =
      let q = (on_recv_tx-Received h t v).judged in
      elim (Bool-cases (check_spending_conditions t (coins_of t.sender_id v) v.wallets_ids)) [
        | inl spendable ↦ q.1 (m, spendable) ∙ sym spendable
        | inr refused ↦ elim (Bool-cases (on_recv_tx h t v).0) [
          | inl taken ↦ absurd (cc ((q.0 taken).1, refused))
          | inr left ↦ left ∙ sym refused
        ]
      ]

  signed_tx_verifies :
      (is : List Input) (os : List Output) (p : KeyPair) (w : Wallet)
      → IsPair h p
      → verify h
          (get_digest h (signed_tx h is os p w))
          (signed_tx h is os p w).sender_sig
          (signed_tx h is os p w).public_key
        ≡ matches
  unfolding signed_tx get_digest string_digest
  signed_tx_verifies is os p w pair =
      verify-sign h (get_digest h (unsigned_tx h is os p.public_key w)) p pair

  -- A wallet that has read a description makes the transaction that it asks for, if the random source
  -- does not fail; every validator judges it by the spending conditions alone, for its signature is
  -- always good. The wallet's counter moves on by one, modulo 2^32; the transaction carries the public
  -- half of the pair that was generated for it.
  pub create_tx_judged :
      (j : Json) (info : TransInfo) (w : Wallet) (p : KeyPair) (v : Validator)
      → trans_info_from_json j ≡ ok info
      → key_gen h w.entropy ≡ ok p
      → (t : Transaction) × (w' : Wallet) × (create_tx h info w ≡ ok (t, w'))
        × Asked info w t
        × (w'.tx_id ≡ (w.tx_id + 1) % 2 ^ 32)
        × ((on_recv_tx h t v).0
            ≡ check_spending_conditions t (coins_of t.sender_id v) v.wallets_ids)
        × (t.public_key ≡ p.public_key)
  unfolding create_tx renew_keys signed_tx
  create_tx_judged j info w p v e g =
      let (l, m) = trans_info_from_json-length j info e in
      let (is, a, b, c) = make_inputs-ok info.in_tx_id_list info.in_out_idx_list l in
      let (os, d, f, k) = make_outputs-ok info.out_value_list info.out_wallet_id_list m in
      (
        signed_tx h is os p w,
        renew_keys h p (record w { tx_id = (w.tx_id + 1) % 2 ^ 32 }),
        rw (a, d, g) refl,
        record { spends = b; indices = c; pays = f; payees = k; sender = refl; number = refl },
        refl,
        judged_by_coins (signed_tx h is os p w) v
            (signed_tx_verifies is os p w (key_gen-IsPair h w.entropy p g)),
        refl,
      )
