-- ===== src/Blockchain/Digest.antt =====
-- What the digest of a transaction (lib/blockchain/transaction.cc) does not tell apart.
use cosicoin.Base.{
  ℕ, zero, suc, ◌+◌, ◌*◌, ◌/◌, ◌%◌, ◌^◌, ◌<◌, ◌≤◌, ◌≡◌, sym, ap, ◌∙◌, List, [], ◌∷◌, ◌++◌, arith,
}
use native.Mathlib.Nat.{pow-suc}
use mathlib.Core.List.{append_assoc}
use cosicoin.Base.Text.{Bytes, to_string, to_string-push_digit, to_string_digit}
use cosicoin.Host.{Host}
use cosicoin.Blockchain.Coins.{Output}
use cosicoin.Blockchain.Transaction.{
  Transaction, outputs_text, string_digest, get_digest, inputs_text,
}

ten_pow-pos : (k : ℕ) → 0 < 10 ^ k
ten_pow-pos zero = omega arith
ten_pow-pos (suc k) = omega (arith, pow-suc 10 k, ten_pow-pos k)

-- A first digit is a first byte: `d` in front of a number of `k + 1` digits.
to_string-push_front :
    (k d r : ℕ)
    → 0 < d
    → d < 10
    → 10 ^ k ≤ r
    → r < 10 ^ (suc k)
    → to_string (d * 10 ^ (suc k) + r) ≡ (b'0' + d) ∷ to_string r
to_string-push_front zero d r p q l u =
    rw (to_string_digit r u)
      (ap to_string (omega arith) ∙ to_string-push_digit d r p u ∙ rw (to_string_digit d q))
to_string-push_front (suc k) d r p q l u =
    let e0 = pow-suc 10 (suc k) in
    let e1 = pow-suc 10 k in
    let pos : 0 < r / 10 = omega (arith, e0, e1, ten_pow-pos k) in
    let ih =
      to_string-push_front k d (r / 10) p q (omega (arith, e0, e1)) (omega (arith, e0, e1)) in
    let low = to_string-push_digit (r / 10) (r % 10) pos (omega arith) in
    let high =
      to_string-push_digit (d * 10 ^ (suc k) + r / 10) (r % 10) (omega (arith, pos))
        (omega arith) in
    let split : 10 * (r / 10) + r % 10 ≡ r = omega arith in
    let regroup : d * 10 ^ (suc (suc k)) + r ≡ 10 * (d * 10 ^ (suc k) + r / 10) + r % 10 =
      omega (arith, ap (λ (t : ℕ). d * t) e0) in
    ap to_string regroup
    ∙ high
    ∙ ap (λ s. s ++ (b'0' + r % 10) ∷ []) ih
    ∙ ap (◌∷◌ (b'0' + d)) (sym low ∙ ap to_string split)

shift_digit :
    (a d k r : ℕ) (rest : Bytes)
    → 0 < a
    → 0 < d
    → d < 10
    → 10 ^ k ≤ r
    → r < 10 ^ (suc k)
    → to_string (10 * a + d) ++ (to_string r ++ rest)
      ≡ to_string a ++ (to_string (d * 10 ^ (suc k) + r) ++ rest)
shift_digit a d k r rest pa pd qd l u =
    rw (to_string-push_digit a d pa qd, to_string-push_front k d r pd qd l u)
      (append_assoc (to_string a) ((b'0' + d) ∷ []) (to_string r ++ rest))

-- The digest separates its numbers by nothing: an output's last digit of value may be read as the
-- first digit of its receiver. The two transactions have one digest, so one signature fits both.
get_digest_ambiguous :
    (h : Host) (t : Transaction) (os : List Output) (a d k r : ℕ)
    → 0 < a
    → 0 < d
    → d < 10
    → 10 ^ k ≤ r
    → r < 10 ^ (suc k)
    → get_digest h (record t { outputs = record { value = 10 * a + d; receiver_id = r } ∷ os })
      ≡ get_digest h
          (record t { outputs = record { value = a; receiver_id = d * 10 ^ (suc k) + r } ∷ os })
unfolding get_digest string_digest outputs_text
get_digest_ambiguous h t os a d k r pa pd qd l u =
    ap (λ s. h.hash (to_string t.tx_id ++ (inputs_text t.inputs ++ s)))
      (shift_digit a d k r (outputs_text os) pa pd qd l u)
