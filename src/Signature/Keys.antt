-- ===== src/Signature/Keys.antt =====
-- `SigKey`, `Signature::getRandomBits`, `Signature::KeyGen` and `SigKey_to_string`.
use cosicoin.Base.{
  ℕ, zero, suc, ◌+◌, ◌*◌, ◌/◌, Bool, ◌&&◌, ◌||◌, not, none, some, List, [], ◌∷◌, eqb, length,
  if◌then◌else◌, ◌==◌, nat_eq, list_eq,
}
use cosicoin.Base.Text.{Bytes, text}
use cosicoin.Base.Result.{Result, ok, err, random_error, key_length_error, ◌>>=◌}
use cosicoin.Json.{obj, arr, field, end, str_items, Json}
use cosicoin.Host.{Host}
use cosicoin.Signature.Bitset.{key_len, bitset_to_string, string_to_bitset}

pub record SigKey : Type 0 where
  pub s0 : List Bytes
  pub s1 : List Bytes

-- `SigKey()`
abbrev pub empty_key : SigKey
empty_key = record { s0 = []; s1 = [] }

-- `operator==`
unfoldable pub key_eq : SigKey → SigKey → Bool
key_eq a b = (a.s0 == b.s0) && (a.s1 == b.s1)

-- `operator!=`
unfoldable pub key_ne : SigKey → SigKey → Bool
key_ne a b = not (a.s0 == b.s0) || not (a.s1 == b.s1)

-- `!key.S0.empty() && !key.S1.empty()`
unfoldable pub is_set : SigKey → Bool
is_set k = not (eqb (length k.s0) 0) && not (eqb (length k.s1) 0)

-- `class Signature`
pub record KeyPair : Type 0 where
  pub public_key : SigKey
  pub private_key : SigKey

-- The object with the two halves of a key, each an array of strings.
unfoldable pub key_json : SigKey → Json
key_json k =
    obj (field (text "S0") (arr (str_items k.s0)) (field (text "S1") (arr (str_items k.s1)) end))

module _ (h : Host) where
  open h use {hash, dump, urandom}

  -- The bytes that `getRandomBits` reads, from position `pos` of the random stream.
  unfoldable pub read_bytes : ℕ → ℕ → Result Bytes
  read_bytes zero pos = ok []
  read_bytes (suc n) pos = do
    b ← elim (urandom pos) [ none ↦ err random_error | some b ↦ ok b ]
    rest ← read_bytes n (pos + 1)
    ok (b ∷ rest)

  unfoldable pub random_bits : ℕ → Result (List Bool)
  random_bits pos = do bs ← read_bytes (key_len / 8) pos; ok (string_to_bitset bs)

  -- One round of the loop in `KeyGen`, at the front of the rounds that follow.
  unfoldable pub add_pair : Bytes → Bytes → KeyPair → KeyPair
  add_pair k0 k1 p = record {
    public_key = record { s0 = hash k0 ∷ p.public_key.s0; s1 = hash k1 ∷ p.public_key.s1 };
    private_key = record { s0 = k0 ∷ p.private_key.s0; s1 = k1 ∷ p.private_key.s1 };
  }

  unfoldable pub key_gen_loop : ℕ → ℕ → Result KeyPair
  unfolding add_pair
  key_gen_loop zero pos = ok (record { public_key = empty_key; private_key = empty_key })
  key_gen_loop (suc n) pos = do
    b0 ← random_bits pos
    b1 ← random_bits (pos + key_len / 8)
    rest ← key_gen_loop n (pos + 2 * (key_len / 8))
    ok (add_pair (bitset_to_string b0) (bitset_to_string b1) rest)

  -- `KeyGen`: both keys are cleared and filled with `key_len` fresh pairs.
  unfoldable pub key_gen : ℕ → Result KeyPair
  key_gen pos = key_gen_loop key_len pos

  -- `SigKey_to_string`
  unfoldable pub key_to_string : SigKey → Result Bytes
  unfolding key_json
  key_to_string k =
      if eqb (length k.s0) key_len && eqb (length k.s1) key_len
      then ok (dump (key_json k))
      else err key_length_error
