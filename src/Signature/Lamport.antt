-- ===== src/Signature/Lamport.antt =====
-- What the one-time signatures of lib/signature/hash.cc promise.
use cosicoin.Base.{
  ℕ, zero, suc, ◌≡◌, refl, sym, ◌∙◌, ap, ◌↔◌, Bool, true, false, List, [], ◌∷◌, map, length, arith,
  nat_eq, list_eq, list_beq_iff, length-map, ◌+◌, ◌/◌, ◌*◌, some,
}
use cosicoin.Base.Text.{Bytes}
use cosicoin.Host.{Host}
use cosicoin.Signature.Bitset.{key_len, string_to_bitset, fit, string_bits, crop, bitset_to_string}
use cosicoin.Signature.Keys.{
  SigKey, KeyPair, key_gen_loop, key_gen, random_bits, read_bytes, empty_key, add_pair,
}
use cosicoin.Signature.Sign.{select, has_length, check_sig, verify, matches, sign}
use cosicoin.Base.Result.{ok, >>=-eq-ok}

pub length-fit : (n : ℕ) (bits : List Bool) → length (fit n bits) ≡ n
unfolding fit
length-fit zero bits = refl
length-fit (suc n) [] = ap suc (length-fit n [])
length-fit (suc n) (b ∷ bits) = ap suc (length-fit n bits)

pub length-select :
    (bits : List Bool) (zs os : List Bytes)
    → length zs ≡ length bits
    → length os ≡ length bits
    → length (select bits zs os) ≡ length bits
unfolding select
length-select [] zs os p q = refl
length-select (b ∷ bits) [] os p q = absurd (omega arith)
length-select (b ∷ bits) (z ∷ zs) [] p q = absurd (omega arith)
length-select (b ∷ bits) (z ∷ zs) (o ∷ os) p q =
    ap suc (length-select bits zs os (omega arith) (omega arith))

pub select-map :
    (f : Bytes → Bytes) (bits : List Bool) (zs os : List Bytes)
    → select bits (map f zs) (map f os) ≡ map f (select bits zs os)
unfolding select
select-map f [] zs os = refl
select-map f (b ∷ bits) [] os = refl
select-map f (b ∷ bits) (z ∷ zs) [] = refl
select-map f (true ∷ bits) (z ∷ zs) (o ∷ os) = ap (◌∷◌ (f o)) (select-map f bits zs os)
select-map f (false ∷ bits) (z ∷ zs) (o ∷ os) = ap (◌∷◌ (f z)) (select-map f bits zs os)

-- Two choices that agree come from the same bits, where the halves of the key differ.
abbrev pub Differ : List Bytes → List Bytes → Type 0
Differ [] os = Unit
Differ (z ∷ zs) [] = Unit
Differ (z ∷ zs) (o ∷ os) = (z ≡ o → ⊥) × Differ zs os

pub select-injective :
    (xs ys : List Bool) (zs os : List Bytes)
    → length zs ≡ length xs
    → length os ≡ length xs
    → length ys ≡ length xs
    → Differ zs os
    → select xs zs os ≡ select ys zs os
    → xs ≡ ys
unfolding select
select-injective [] [] zs os p q r d e = refl
select-injective [] (b ∷ ys) zs os p q r d e = absurd (omega arith)
select-injective (a ∷ xs) [] zs os p q r d e = absurd (omega arith)
select-injective (a ∷ xs) (b ∷ ys) [] os p q r d e = absurd (omega arith)
select-injective (a ∷ xs) (b ∷ ys) (z ∷ zs) [] p q r d e = absurd (omega arith)
select-injective (a ∷ xs) (b ∷ ys) (z ∷ zs) (o ∷ os) p q r d e =
    ground (arith, d.0, select-injective xs ys zs os (omega arith) (omega arith) (omega arith) d.1)

module _ (h : Host) where
  open h use {hash}

  pub check_sig_iff :
      (ks sig : List Bytes)
      → length ks ≡ length sig
      → (check_sig h ks sig ≡ matches) ↔ (ks ≡ map hash sig)
  unfolding check_sig
  check_sig_iff [] [] e = ground arith
  check_sig_iff [] (s ∷ sig) e = absurd (omega arith)
  check_sig_iff (k ∷ ks) [] e = absurd (omega arith)
  check_sig_iff (k ∷ ks) (s ∷ sig) e =
      ground (arith, list_beq_iff k (hash s), check_sig_iff ks sig (omega arith))

  -- Unless both lengths are right `verify` accepts nothing; then it accepts exactly the signature
  -- whose hashes are the chosen halves of the public key.
  pub verify_iff :
      (m : Bytes) (sig : List Bytes) (k : SigKey)
      → (verify h m sig k ≡ matches) ↔ (
          (has_length k ≡ true)
          × (length sig ≡ key_len)
          × (select (string_to_bitset (crop m)) k.s0 k.s1 ≡ map hash sig))
  unfolding verify has_length string_to_bitset
  verify_iff m sig k =
      let bits = fit key_len (string_bits (crop m)) in
      ground (
        arith,
        length-fit key_len (string_bits (crop m)),
        length-select bits k.s0 k.s1,
        check_sig_iff (select bits k.s0 k.s1) sig,
      )

  -- A pair that `KeyGen` made: `key_len` secrets in each half, and their hashes.
  pub record IsPair (p : KeyPair) : Type 0 where
    pub full0 : length p.private_key.s0 ≡ key_len
    pub full1 : length p.private_key.s1 ≡ key_len
    pub hashed0 : p.public_key.s0 ≡ map hash p.private_key.s0
    pub hashed1 : p.public_key.s1 ≡ map hash p.private_key.s1

  -- For every message, what `Sign` makes with the private half of a generated pair is accepted by
  -- `Verify` with the public half. A generated pair is one with `key_len` secrets in each half.
  pub verify-sign :
      (m : Bytes) (p : KeyPair)
      → IsPair p
      → verify h m (sign m p.private_key) p.public_key ≡ matches
  unfolding sign has_length string_to_bitset
  verify-sign m p v =
      let bits = fit key_len (string_bits (crop m)) in
      ground (
        arith,
        v.full0,
        v.full1,
        verify_iff m (sign m p.private_key) p.public_key,
        ap length v.hashed0,
        ap length v.hashed1,
        length-map p.private_key.s0 hash,
        length-map p.private_key.s1 hash,
        length-fit key_len (string_bits (crop m)),
        length-select bits p.private_key.s0 p.private_key.s1,
        select-map hash bits p.private_key.s0 p.private_key.s1,
      )

  key_gen_loop-IsPair :
      (n pos : ℕ) (p : KeyPair)
      → key_gen_loop h n pos ≡ ok p
      → (length p.private_key.s0 ≡ n)
        × (length p.private_key.s1 ≡ n)
        × (p.public_key.s0 ≡ map hash p.private_key.s0)
        × (p.public_key.s1 ≡ map hash p.private_key.s1)
  unfolding key_gen_loop
  key_gen_loop-IsPair zero pos p e = ground arith
  key_gen_loop-IsPair (suc n) pos p e =
      let (b0, e0, r0) = >>=-eq-ok (random_bits h pos) _ e in
      let (b1, e1, r1) = >>=-eq-ok (random_bits h (pos + key_len / 8)) _ r0 in
      let (rest, e2, r2) = >>=-eq-ok (key_gen_loop h n (pos + 2 * (key_len / 8))) _ r1 in
      ground (arith, r2, key_gen_loop-IsPair n (pos + 2 * (key_len / 8)) rest e2)

  -- A `KeyGen` that does not fail gives a private key with `key_len` entries in each half, and the
  -- hashes of these as the public key.
  pub key_gen-IsPair : (pos : ℕ) (p : KeyPair) → key_gen h pos ≡ ok p → IsPair p
  unfolding key_gen
  key_gen-IsPair pos p e =
      let (a, b, c, d) = key_gen_loop-IsPair key_len pos p e in
      record { full0 = a; full1 = b; hashed0 = c; hashed1 = d }

  -- A signature that one public key accepts for two messages: where the halves of the key differ at
  -- every place, the cropped messages have the same bits.
  pub verify_one_message :
      (m m' : Bytes) (sig : List Bytes) (k : SigKey)
      → Differ k.s0 k.s1
      → verify h m sig k ≡ matches
      → verify h m' sig k ≡ matches
      → string_to_bitset (crop m) ≡ string_to_bitset (crop m')
  unfolding string_to_bitset has_length
  verify_one_message m m' sig k d p q =
      let a = (verify_iff m sig k).0 p in
      let b = (verify_iff m' sig k).0 q in
      select-injective (string_to_bitset (crop m)) (string_to_bitset (crop m')) k.s0 k.s1
        (ground (arith, a, length-fit key_len (string_bits (crop m))))
        (ground (arith, a, length-fit key_len (string_bits (crop m))))
        (ground (
          arith,
          a,
          length-fit key_len (string_bits (crop m')),
          length-fit key_len (string_bits (crop m)),
        ))
        d (a.2 ∙ sym b.2)

-- Reading the random source never fails.
abbrev pub NeverFails : Host → Type 0
NeverFails h = (pos : ℕ) → (b : ℕ) × (h.urandom pos ≡ some b)

module _ (h : Host) (never : NeverFails h) where
  read_bytes-total : (n pos : ℕ) → (bs : Bytes) × (read_bytes h n pos ≡ ok bs)
  unfolding read_bytes
  read_bytes-total zero pos = ([], refl)
  read_bytes-total (suc n) pos =
      let (b, e) = never pos in let (bs, r) = read_bytes-total n (pos + 1) in (b ∷ bs, rw (e, r))

  random_bits-total : (pos : ℕ) → (bits : List Bool) × (random_bits h pos ≡ ok bits)
  unfolding random_bits
  random_bits-total pos =
      let (bs, e) = read_bytes-total (key_len / 8) pos in (string_to_bitset bs, rw e)

  key_gen_loop-total : (n pos : ℕ) → (p : KeyPair) × (key_gen_loop h n pos ≡ ok p)
  unfolding key_gen_loop
  key_gen_loop-total zero pos = (record { public_key = empty_key; private_key = empty_key }, refl)
  key_gen_loop-total (suc n) pos =
      let (b0, e0) = random_bits-total pos in
      let (b1, e1) = random_bits-total (pos + key_len / 8) in
      let (p, e) = key_gen_loop-total n (pos + 2 * (key_len / 8)) in
      (add_pair h (bitset_to_string b0) (bitset_to_string b1) p, rw (e0, e1, e))

  -- Then `KeyGen` succeeds at every point of the run.
  pub key_gen-total : (pos : ℕ) → (p : KeyPair) × (key_gen h pos ≡ ok p)
  unfolding key_gen
  key_gen-total pos = key_gen_loop-total key_len pos
