-- ===== src/Signature/Sign.antt =====
-- `Sign` and `Verify`.
use cosicoin.Base.{Bool, true, false, ◌&&◌, List, [], ◌∷◌, eqb, length, if◌then◌else◌, ◌==◌}
use cosicoin.Base.{nat_eq, list_eq}
use cosicoin.Base.Text.{Bytes}
use cosicoin.Host.{Host}
use cosicoin.Signature.Bitset.{key_len, string_to_bitset, crop}
use cosicoin.Signature.Keys.{SigKey}

-- `m_bits[i] ? key.S1[i] : key.S0[i]` for each `i`.
unfoldable pub select : List Bool → List Bytes → List Bytes → List Bytes
select [] zs os = []
select (b ∷ bs) [] os = []
select (b ∷ bs) (z ∷ zs) [] = []
select (b ∷ bs) (z ∷ zs) (o ∷ os) = (if b then o else z) ∷ select bs zs os

unfoldable pub has_length : SigKey → Bool
has_length k = eqb (length k.s0) key_len && eqb (length k.s1) key_len

-- `Sign`: the empty signature when the key is not generated.
unfoldable pub sign : Bytes → SigKey → List Bytes
sign m k = if has_length k then select (string_to_bitset (crop m)) k.s0 k.s1 else []

-- What `Verify` returns: -1, 0 or 1.
pub data Verdict : Type 0 where
  bad_length mismatch matches : Verdict

-- As a condition in C++ only 0 is false.
unfoldable pub is_nonzero : Verdict → Bool
is_nonzero bad_length = true
is_nonzero mismatch = false
is_nonzero matches = true

-- `Verify(…) == 1`
unfoldable pub is_one : Verdict → Bool
is_one bad_length = false
is_one mismatch = false
is_one matches = true

module _ (h : Host) where
  open h use {hash}

  -- The loop over the chosen halves of the public key and the signature.
  unfoldable pub check_sig : List Bytes → List Bytes → Verdict
  check_sig [] sig = matches
  check_sig (k ∷ ks) [] = matches
  check_sig (k ∷ ks) (s ∷ sig) = if k == hash s then check_sig ks sig else mismatch

  unfoldable pub verify : Bytes → List Bytes → SigKey → Verdict
  verify m sig k =
      if has_length k && eqb (length sig) key_len
      then check_sig (select (string_to_bitset (crop m)) k.s0 k.s1) sig
      else bad_length
