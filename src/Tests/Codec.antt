-- ===== src/Tests/Codec.antt =====
-- A host whose printer and parser are inverse to each other.
use cosicoin.Base.{
  ℕ, zero, suc, true, false, Option, none, some, [], ◌∷◌, ◌≡◌, refl, arith, nat_eq, list_eq, ◌&&◌,
  ◌≤◌, ◌+◌, ◌%◌, &&_iff,
}
use cosicoin.Base.Text.{Bytes}
use cosicoin.Json.{Json, null, num, bool, str, arr, obj, Items, nil, cons, Fields, field, end}
use cosicoin.Base.Result.{ok}
use cosicoin.Host.{Host}
use cosicoin.Signature.Lamport.{NeverFails}
use cosicoin.Texts.Plain.{is_text, IsFaithful, is_plain, is_plain_items, is_plain_fields}

abbrev parsed {ℓ κ} :
    {A : Type ℓ} {B : Type κ} → Option (A × Bytes) → (A → Bytes → Option B) → Option B
parsed none k = none
parsed (some (a, s)) k = k a s

ones : ℕ → Bytes → Bytes
ones zero k = 0 ∷ k
ones (suc n) k = 1 ∷ ones n k

read_ones : Bytes → Option (ℕ × Bytes)
read_ones [] = none
read_ones (zero ∷ k) = some (0, k)
read_ones (suc c ∷ k) = parsed (read_ones k) λ n r. some (suc n, r)

chars : Bytes → Bytes → Bytes
chars [] k = 0 ∷ k
chars (c ∷ s) k = 1 ∷ c ∷ chars s k

read_chars : Bytes → Option (Bytes × Bytes)
read_chars [] = none
read_chars (zero ∷ k) = some ([], k)
read_chars (suc t ∷ []) = none
read_chars (suc t ∷ c ∷ k) = parsed (read_chars k) λ s r. some (c ∷ s, r)

mutual
  unfolding ones chars

  print : Json → Bytes → Bytes
  print null k = 0 ∷ k
  print (bool true) k = 1 ∷ k
  print (bool false) k = 2 ∷ k
  print (num n) k = 3 ∷ ones n k
  print (str s) k = 4 ∷ chars s k
  print (arr is) k = 5 ∷ print_items is k
  print (obj fs) k = 6 ∷ print_fields fs k

  print_items : Items → Bytes → Bytes
  print_items nil k = 0 ∷ k
  print_items (cons j is) k = 1 ∷ print j (print_items is k)

  print_fields : Fields → Bytes → Bytes
  print_fields end k = 0 ∷ k
  print_fields (field x j fs) k = 1 ∷ chars x (print j (print_fields fs k))

mutual
  size : Json → ℕ
  size null = 1
  size (bool b) = 1
  size (num n) = 1
  size (str s) = 1
  size (arr is) = suc (items_size is)
  size (obj fs) = suc (fields_size fs)

  items_size : Items → ℕ
  items_size nil = 1
  items_size (cons j is) = suc (size j + items_size is)

  fields_size : Fields → ℕ
  fields_size end = 1
  fields_size (field x j fs) = suc (size j + fields_size fs)

mutual
  unfolding read_ones read_chars

  read : ℕ → Bytes → Option (Json × Bytes)
  read zero s = none
  read (suc f) [] = none
  read (suc f) (zero ∷ k) = some (null, k)
  read (suc f) (suc zero ∷ k) = some (bool true, k)
  read (suc f) (suc (suc zero) ∷ k) = some (bool false, k)
  read (suc f) (suc (suc (suc zero)) ∷ k) = parsed (read_ones k) λ n r. some (num n, r)
  read (suc f) (suc (suc (suc (suc zero))) ∷ k) = parsed (read_chars k) λ s r. some (str s, r)
  read (suc f) (suc (suc (suc (suc (suc zero)))) ∷ k) =
      parsed (read_items f k) λ is r. some (arr is, r)
  read (suc f) (c ∷ k) = parsed (read_fields f k) λ fs r. some (obj fs, r)

  read_items : ℕ → Bytes → Option (Items × Bytes)
  read_items zero s = none
  read_items (suc f) [] = none
  read_items (suc f) (zero ∷ k) = some (nil, k)
  read_items (suc f) (suc c ∷ k) =
      parsed (read f k) λ j r. parsed (read_items f r) λ is q. some (cons j is, q)

  read_fields : ℕ → Bytes → Option (Fields × Bytes)
  read_fields zero s = none
  read_fields (suc f) [] = none
  read_fields (suc f) (zero ∷ k) = some (end, k)
  read_fields (suc f) (suc c ∷ k) =
      parsed (read_chars k)
        λ x r. parsed (read f r) λ j q. parsed (read_fields f q) λ fs p. some (field x j fs, p)

read_ones-ones : (n : ℕ) (k : Bytes) → read_ones (ones n k) ≡ some (n, k)
unfolding read_ones ones
read_ones-ones zero k = refl
read_ones-ones (suc n) k = rw (read_ones-ones n k) refl

read_chars-chars : (s k : Bytes) → read_chars (chars s k) ≡ some (s, k)
unfolding read_chars chars
read_chars-chars [] k = refl
read_chars-chars (c ∷ s) k = rw (read_chars-chars s k) refl

mutual
  unfolding read print size

  read-print : (j : Json) (f : ℕ) (k : Bytes) → size j ≤ f → read f (print j k) ≡ some (j, k)
  read-print null zero k h = absurd (omega (arith, h))
  read-print null (suc f) k h = refl
  read-print (bool b) zero k h = absurd (omega (arith, h))
  read-print (bool true) (suc f) k h = refl
  read-print (bool false) (suc f) k h = refl
  read-print (num n) zero k h = absurd (omega (arith, h))
  read-print (num n) (suc f) k h = rw (read_ones-ones n k) refl
  read-print (str s) zero k h = absurd (omega (arith, h))
  read-print (str s) (suc f) k h = rw (read_chars-chars s k) refl
  read-print (arr is) zero k h = absurd (omega (arith, h))
  read-print (arr is) (suc f) k h = rw (read_items-print is f k (omega (arith, h))) refl
  read-print (obj fs) zero k h = absurd (omega (arith, h))
  read-print (obj fs) (suc f) k h = rw (read_fields-print fs f k (omega (arith, h))) refl

  read_items-print :
      (is : Items) (f : ℕ) (k : Bytes)
      → items_size is ≤ f
      → read_items f (print_items is k) ≡ some (is, k)
  read_items-print nil zero k h = absurd (omega (arith, h))
  read_items-print nil (suc f) k h = refl
  read_items-print (cons j is) zero k h = absurd (omega (arith, h))
  read_items-print (cons j is) (suc f) k h =
      rw
        (
          read-print j f (print_items is k) (omega (arith, h)),
          read_items-print is f k (omega (arith, h)),
        )
        refl

  read_fields-print :
      (fs : Fields) (f : ℕ) (k : Bytes)
      → fields_size fs ≤ f
      → read_fields f (print_fields fs k) ≡ some (fs, k)
  read_fields-print end zero k h = absurd (omega (arith, h))
  read_fields-print end (suc f) k h = refl
  read_fields-print (field x j fs) zero k h = absurd (omega (arith, h))
  read_fields-print (field x j fs) (suc f) k h =
      rw
        (
          read_chars-chars x (print j (print_fields fs k)),
          read-print j f (print_fields fs k) (omega (arith, h)),
          read_fields-print fs f k (omega (arith, h)),
        )
        refl

ones-text : (n : ℕ) (k : Bytes) → is_text k ≡ true → is_text (ones n k) ≡ true
unfolding ones is_text
ones-text zero k h = h
ones-text (suc n) k h = ones-text n k h

chars-text : (s k : Bytes) → is_text s ≡ true → is_text k ≡ true → is_text (chars s k) ≡ true
unfolding chars is_text
chars-text [] k hs h = h
chars-text (c ∷ s) k hs h = ground (arith, hs, chars-text s k, h)

mutual
  unfolding print is_plain is_text

  print-text :
      (j : Json) (k : Bytes) → is_plain j ≡ true → is_text k ≡ true → is_text (print j k) ≡ true
  print-text null k p h = h
  print-text (bool true) k p h = h
  print-text (bool false) k p h = h
  print-text (num n) k p h = ones-text n k h
  print-text (str s) k p h = chars-text s k p h
  print-text (arr is) k p h = print_items-text is k p h
  print-text (obj fs) k p h = print_fields-text fs k p h

  print_items-text :
      (is : Items) (k : Bytes)
      → is_plain_items is ≡ true
      → is_text k ≡ true
      → is_text (print_items is k) ≡ true
  print_items-text nil k p h = h
  print_items-text (cons j is) k p h =
      let (pj, ps) = (&&_iff (is_plain j) (is_plain_items is)).0 p in
      print-text j (print_items is k) pj (print_items-text is k ps h)

  print_fields-text :
      (fs : Fields) (k : Bytes)
      → is_plain_fields fs ≡ true
      → is_text k ≡ true
      → is_text (print_fields fs k) ≡ true
  print_fields-text end k p h = h
  print_fields-text (field x j fs) k p h =
      let (px, rest) = (&&_iff _ (is_plain j && is_plain_fields fs)).0 p in
      let (pj, ps) = (&&_iff (is_plain j) (is_plain_fields fs)).0 rest in
      chars-text x (print j (print_fields fs k)) ((&&_iff (is_text x) _).0 px).0
        (print-text j (print_fields fs k) pj (print_fields-text fs k ps h))

-- The depth stands in front of the text.
pub codec : Host
codec = record {
  hash = λ b. b'7' ∷ [];
  dump = λ j. ones (size j) (print j []);
  parse = λ s. parsed (read_ones s) λ f r. parsed (read f r) λ j q. some j;
  urandom = λ pos. some (pos % 256);
  freed = λ x. ok x;
  unset = λ n. 1;
}

pub codec-IsFaithful : IsFaithful codec
unfolding codec is_text read_ones
codec-IsFaithful = record {
  parse-empty = refl;
  parse-dump =
      λ j p. rw (read_ones-ones (size j) (print j []), read-print j (size j) [] (omega arith)) refl;
  is_text-dump = λ j p. ones-text (size j) (print j []) (print-text j [] p refl);
}

pub codec-NeverFails : NeverFails codec
unfolding codec
codec-NeverFails pos = (pos % 256, refl)

pub is_text-hash : (b : Bytes) → is_text (codec.hash b) ≡ true
unfolding codec is_text
is_text-hash b = refl
