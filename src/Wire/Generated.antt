-- ===== src/Wire/Generated.antt =====
-- Generated keys can be written (`KeyGen` and `SigKey_to_string` of lib/signature/hash.cc).
use cosicoin.Base.{true, List, [], ◌∷◌, ◌≡◌, refl, ap, ◌∙◌, nat_eq, list_eq, map}
use cosicoin.Base.Text.{Bytes}
use cosicoin.Host.{Host}
use cosicoin.Texts.Plain.{are_texts, is_text}
use cosicoin.Signature.Keys.{KeyPair}
use cosicoin.Signature.Lamport.{IsPair}
use cosicoin.Texts.KeysBack.{IsWritableKey}
use cosicoin.Bracha.Keys.{public_full}

are_texts-map :
    (h : Host) (ss : List Bytes)
    → ((b : Bytes) → is_text (h.hash b) ≡ true)
    → are_texts (map h.hash ss) ≡ true
unfolding are_texts
are_texts-map h [] hex = refl
are_texts-map h (s ∷ ss) hex = rw (hex s, are_texts-map h ss hex) refl

-- The public half of a generated pair can be written, since digests are ASCII.
pub generated-IsWritableKey :
    (h : Host) (p : KeyPair)
    → ((b : Bytes) → is_text (h.hash b) ≡ true)
    → IsPair h p
    → IsWritableKey p.public_key
generated-IsWritableKey h p hex pair =
    let (f0, f1) = public_full h p pair in
    record {
      full0 = f0;
      full1 = f1;
      text0 = ap are_texts pair.hashed0 ∙ are_texts-map h p.private_key.s0 hex;
      text1 = ap are_texts pair.hashed1 ∙ are_texts-map h p.private_key.s1 hex;
    }
