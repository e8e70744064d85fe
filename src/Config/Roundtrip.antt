-- ===== src/Config/Roundtrip.antt =====
-- Settings come back from their JSON (lib/config/settings.cc).
use cosicoin.Base.{
  ℕ, ◌^◌, ◌%◌, ◌<◌, ◌≡◌, refl, ◌∙◌, sym, List, [], ◌∷◌, ◌++◌, arith, All, nat_eq, list_beq, ◌≢◌,
}
use mathlib.Core.Path.{ap, subst}
use mathlib.Core.List.{append-nil, append_assoc}
use cosicoin.Base.Dict.{Dict}
use cosicoin.Base.Result.{err, json_error, ok}
use cosicoin.Json.{elements, items_list, find_field, at, number_at, get_number, string_of}
use cosicoin.Config.Settings.{
  validators_member, bool_of, AddressInfo, Settings, put, put_all, new_settings, infos,
  info_to_json, info_from_json, infos_from_json, info_items, number_items, numbers_from_json,
  settings_to_json, settings_from_json,
}

-- The values fit their variables.
abbrev pub Fits : AddressInfo → Type 0
Fits v = (v.id < 2 ^ 32) × (v.port < 2 ^ 32)

small : (n : ℕ) → n < 2 ^ 32 → n % 2 ^ 32 ≡ n
small n p = omega (arith, p)

info-roundtrip : (v : AddressInfo) → Fits v → info_from_json (info_to_json v) ≡ ok v
unfolding info_from_json info_to_json number_at at find_field get_number string_of bool_of list_beq
info-roundtrip v p = ground (arith, small v.id p.0, small v.port p.1)

infos-roundtrip :
    (vs : List AddressInfo) → All Fits vs → infos_from_json (items_list (info_items vs)) ≡ ok vs
unfolding infos_from_json info_items items_list
infos-roundtrip [] a = refl
infos-roundtrip (v ∷ vs) a = rw (info-roundtrip v a.0, infos-roundtrip vs a.1) refl

numbers-roundtrip :
    (ns : List ℕ)
    → All (λ n. n < 2 ^ 32) ns
    → numbers_from_json (items_list (number_items ns)) ≡ ok ns
unfolding numbers_from_json number_items items_list get_number
numbers-roundtrip [] a = refl
numbers-roundtrip (n ∷ ns) a = rw (small n a.0, numbers-roundtrip ns a.1) refl

-- A map of validators as the constructors make it: rising keys, each the id of its validator.
abbrev pub IsSorted : Dict ℕ AddressInfo → Type 0
IsSorted [] = Unit
IsSorted (x ∷ m) = (x.0 ≡ x.1.id) × All (λ y. x.0 < y.0) m × IsSorted m

All-middle {κ} :
    (P : ℕ × AddressInfo → Type κ) (m k : Dict ℕ AddressInfo) (x : ℕ × AddressInfo)
    → All P (m ++ x ∷ k)
    → P x
All-middle P [] k x a = a.0
All-middle P (y ∷ m) k x a = All-middle P m k x a.1

IsSorted-middle :
    (m k : Dict ℕ AddressInfo) (x : ℕ × AddressInfo) → IsSorted (m ++ x ∷ k) → x.0 ≡ x.1.id
IsSorted-middle [] k x s = s.0
IsSorted-middle (y ∷ m) k x s = IsSorted-middle m k x s.2

put_last :
    (m k : Dict ℕ AddressInfo) (x : ℕ × AddressInfo)
    → IsSorted (m ++ x ∷ k)
    → put x.0 x.1 m ≡ m ++ x ∷ []
unfolding put
put_last [] k x s = refl
put_last (y ∷ m) k x s = ground (arith, All-middle (λ z. y.0 < z.0) m k x s.1, put_last m k x s.2)

put_all-infos : (m k : Dict ℕ AddressInfo) → IsSorted (m ++ k) → put_all (infos k) m ≡ m ++ k
unfolding put_all infos
put_all-infos m [] s = sym (append-nil m)
put_all-infos m (x ∷ k) s =
    let placed : put x.1.id x.1 m ≡ m ++ x ∷ [] =
      ap (λ i. put i x.1 m) (sym (IsSorted-middle m k x s)) ∙ put_last m k x s in
    let regrouped = append_assoc m (x ∷ []) k in
    ap (put_all (infos k)) placed
    ∙ put_all-infos (m ++ x ∷ []) k (subst IsSorted (sym regrouped) s)
    ∙ regrouped

-- Settings whose values fit their variables.
pub record IsFitting (s : Settings) : Type 0 where
  pub leader : s.leader_id < 2 ^ 32
  pub my_validator : s.my_validator_id < 2 ^ 32
  pub my_wallet : s.my_wallet_id < 2 ^ 32
  pub wallets : All (λ n. n < 2 ^ 32) s.wallets
  pub validators : All Fits (infos s.validators)

settings-members :
    (s : Settings) (v : AddressInfo) (vs : List AddressInfo)
    → infos s.validators ≡ v ∷ vs
    → IsFitting s
    → settings_from_json (settings_to_json s)
      ≡ ok (new_settings (v ∷ vs) s.leader_id s.wallets s.my_validator_id s.my_wallet_id)
unfolding settings_from_json settings_to_json number_at at find_field get_number elements list_beq
    validators_member
settings-members s v vs p f =
    rw
      (
        p,
        infos-roundtrip (v ∷ vs) (subst (All Fits) p f.validators),
        numbers-roundtrip s.wallets f.wallets,
        small s.leader_id f.leader,
        small s.my_validator_id f.my_validator,
        small s.my_wallet_id f.my_wallet,
      )
      refl

infos-nonempty :
    (m : Dict ℕ AddressInfo)
    → m ≢ []
    → (v : AddressInfo) × (vs : List AddressInfo) × (infos m ≡ v ∷ vs)
unfolding infos
infos-nonempty [] n = absurd (n refl)
infos-nonempty (x ∷ m) n = (x.1, infos m, refl)

-- Settings with at least one validator come back from their JSON, if the map of validators is as the
-- constructors make it and all numbers fit their 32 bits.
pub settings_from_json-settings_to_json :
    (s : Settings)
    → s.validators ≢ []
    → IsSorted s.validators
    → IsFitting s
    → settings_from_json (settings_to_json s) ≡ ok s
unfolding new_settings
settings_from_json-settings_to_json s n r f =
    let (v, vs, p) = infos-nonempty s.validators n in
    let same : put_all (v ∷ vs) [] ≡ s.validators =
      ap (λ l. put_all l []) (sym p) ∙ put_all-infos [] s.validators r in
    settings-members s v vs p f ∙ ap (λ m. ok (record s { validators = m })) same

-- Settings without validators are written without the member that reading asks for: reading what was
-- written throws.
settings_from_json_no_validators :
    (s : Settings) → s.validators ≡ [] → settings_from_json (settings_to_json s) ≡ err json_error
unfolding settings_from_json settings_to_json number_at at find_field get_number list_beq
    validators_member infos
settings_from_json_no_validators s p = rw p refl
