-- ===== src/Tests/Signatures.antt =====
-- Signatures: theorems at concrete keys, and runs.
use cosicoin.Base.{◌≡◌, refl, ◌↔◌, true, false, [], ◌∷◌, map, length, arith}
use cosicoin.Base.Text.{Bytes, text}
use cosicoin.Signature.Bitset.{key_len, string_to_bitset, crop, byte_bits}
use cosicoin.Signature.Sign.{select, has_length, sign, verify, matches}
use cosicoin.Signature.Lamport.{verify_iff, verify-sign, verify_one_message}
use cosicoin.Tests.Sample.{host, pair, pair-IsPair, Differ-replicate}

bits_of_byte : byte_bits 8 6 ≡ false ∷ true ∷ true ∷ false ∷ false ∷ false ∷ false ∷ false ∷ []
unfolding byte_bits
bits_of_byte = refl

verify_iff_example : (verify host (text "ok") [] pair.public_key ≡ matches) ↔ (
    (has_length pair.public_key ≡ true)
    × (length {A = Bytes} [] ≡ key_len)
    × (select (string_to_bitset (crop (text "ok"))) pair.public_key.s0 pair.public_key.s1
        ≡ map host.hash []))
verify_iff_example = verify_iff host (text "ok") [] pair.public_key

verify-sign_example :
    verify host (text "ok") (sign (text "ok") pair.private_key) pair.public_key ≡ matches
verify-sign_example = verify-sign host (text "ok") pair pair-IsPair

halves_differ : ◌≡◌ {A = Bytes} (7 ∷ 0 ∷ []) (7 ∷ 1 ∷ []) → ⊥
halves_differ p = ground arith

verify_one_message_example :
    string_to_bitset (crop (text "ok")) ≡ string_to_bitset (crop (text "ok"))
verify_one_message_example =
    verify_one_message host (text "ok") (text "ok") (sign (text "ok") pair.private_key)
      pair.public_key (Differ-replicate key_len (7 ∷ 0 ∷ []) (7 ∷ 1 ∷ []) halves_differ)
      (verify-sign host (text "ok") pair pair-IsPair)
      (verify-sign host (text "ok") pair pair-IsPair)
