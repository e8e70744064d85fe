-- ===== src/Config/Settings.antt =====
-- `Settings` (include/config/settings.h, lib/config/settings.cc). The map of validators is kept in
-- the order of its keys, the order in which a `std::map` is walked.
use cosicoin.Base.{
  ℕ, ◌+◌, ◌^◌, Bool, List, [], ◌∷◌, ◌++◌, ltb, ◌==◌, nat_eq, if◌then◌else◌, Option, false, ◌&&◌,
  not, none, some, list_eq,
}
use cosicoin.Base.Text.{Bytes, text, to_string}
use cosicoin.Base.Dict.{Dict, lookup}
use cosicoin.Base.Result.{Result, ok, err, json_error, ◌>>=◌}
use cosicoin.Json.{
  Json, null, num, bool, str, arr, obj, Items, nil, cons, Fields, field, end, elements, at,
  get_number, number_at, string_of,
}

pub record AddressInfo : Type 0 where
  pub id : ℕ
  pub address : Bytes
  pub port : ℕ
  pub faulty : Bool

pub record Settings : Type 0 where
  pub leader_id : ℕ
  pub validators : Dict ℕ AddressInfo
  pub wallets : List ℕ
  pub my_validator_id : ℕ
  pub my_wallet_id : ℕ

-- `validators_[id] = info`
unfoldable pub put : ℕ → AddressInfo → Dict ℕ AddressInfo → Dict ℕ AddressInfo
put id info [] = (id, info) ∷ []
put id info (entry ∷ m) =
    if ltb id entry.0
    then (id, info) ∷ entry ∷ m
    else if entry.0 == id
    then (id, info) ∷ m
    else entry ∷ put id info m

unfoldable pub put_all : List AddressInfo → Dict ℕ AddressInfo → Dict ℕ AddressInfo
put_all [] m = m
put_all (v ∷ vs) m = put_all vs (put v.id v m)

-- The constructor from values.
unfoldable pub new_settings : List AddressInfo → ℕ → List ℕ → ℕ → ℕ → Settings
new_settings vs leader wallets my_validator my_wallet = record {
  leader_id = leader;
  validators = put_all vs [];
  wallets = wallets;
  my_validator_id = my_validator;
  my_wallet_id = my_wallet;
}

-- `getValidators`
unfoldable pub infos : Dict ℕ AddressInfo → List AddressInfo
infos [] = []
infos (entry ∷ m) = entry.1 ∷ infos m

-- `to_address`
unfoldable pub to_address : Bytes → ℕ → Bytes
to_address ip port = ip ++ (text ":" ++ to_string port)

-- `getValidatorAdresses`
unfoldable pub addresses : List AddressInfo → List Bytes
addresses [] = []
addresses (v ∷ vs) = to_address v.address v.port ∷ addresses vs

-- The loop of `getNumberOfFaultyValidators`.
unfoldable pub count_faulty : ℕ → List AddressInfo → ℕ
count_faulty k [] = k
count_faulty k (v ∷ vs) = count_faulty (if v.faulty then k + 1 else k) vs

unfoldable pub number_of_faulty : Settings → ℕ
number_of_faulty s = count_faulty 0 (infos s.validators)

-- `getMyValidatorInfo`; `none` stands for the info without values that the source returns.
unfoldable pub my_validator_info : Settings → Option AddressInfo
my_validator_info s = lookup s.my_validator_id s.validators

-- The info that `validators_[id]` makes when the id is unknown.
abbrev pub default_info : AddressInfo
default_info = record { id = 0; address = []; port = 0; faulty = false }

-- `getValidatorInfo`: an unknown id becomes a validator.
unfoldable pub validator_info : ℕ → Settings → AddressInfo × Settings
validator_info id s = elim (lookup id s.validators) [
  | none ↦ (default_info, record s { validators = put id default_info s.validators })
  | some v ↦ (v, s)
]

-- `getLeaderInfo`
unfoldable pub leader_info : Settings → AddressInfo × Settings
leader_info s = validator_info s.leader_id s

-- `getLeaderAddress`
unfoldable pub leader_address : Settings → Bytes × Settings
leader_address s = let (leader, s') = leader_info s in (to_address leader.address leader.port, s')

-- `getMyValidatorAddress`
unfoldable pub my_validator_address : Settings → Bytes
my_validator_address s = elim (my_validator_info s) [
  | none ↦ to_address [] 0
  | some v ↦ to_address v.address v.port
]

-- `operator==` of `AddressInfo`
unfoldable pub info_beq : AddressInfo → AddressInfo → Bool
info_beq a b =
    (a.id == b.id)
    && ((a.address == b.address)
        && ((a.port == b.port) && (if a.faulty then b.faulty else not b.faulty)))

unfoldable pub bool_of : Json → Result Bool
bool_of null = err json_error
bool_of (num n) = err json_error
bool_of (bool b) = ok b
bool_of (str s) = err json_error
bool_of (arr is) = err json_error
bool_of (obj fs) = err json_error

-- One element of the array of validators. The port is an int, and its 32 bits stand for it: a number
-- from 2^31 on is a negative port of the source.
unfoldable pub info_from_json : Json → Result AddressInfo
info_from_json j = do
  id ← number_at (text "id") (2 ^ 32) j
  a ← at (text "address") j
  address ← string_of a
  port ← number_at (text "port") (2 ^ 32) j
  f ← at (text "faulty") j
  faulty ← bool_of f
  ok (record { id = id; address = address; port = port; faulty = faulty })

unfoldable pub infos_from_json : List Json → Result (List AddressInfo)
infos_from_json [] = ok []
infos_from_json (j ∷ js) = do v ← info_from_json j; vs ← infos_from_json js; ok (v ∷ vs)

unfoldable pub numbers_from_json : List Json → Result (List ℕ)
numbers_from_json [] = ok []
numbers_from_json (j ∷ js) = do n ← get_number (2 ^ 32) j; ns ← numbers_from_json js; ok (n ∷ ns)

-- `Settings::from_json`
unfoldable pub settings_from_json : Json → Result Settings
settings_from_json j = do
  leader ← number_at (text "leaderID") (2 ^ 32) j
  vs ← at (text "validators") j
  validators ← infos_from_json (elements vs)
  ws ← at (text "wallets") j
  wallets ← numbers_from_json (elements ws)
  my_validator ← number_at (text "myValidatorID") (2 ^ 32) j
  my_wallet ← number_at (text "myWalletID") (2 ^ 32) j
  ok (new_settings validators leader wallets my_validator my_wallet)

unfoldable pub info_to_json : AddressInfo → Json
info_to_json v = obj (
    field (text "id") (num v.id) (
      field (text "address") (str v.address)
        (field (text "port") (num v.port) (field (text "faulty") (bool v.faulty) end))))

unfoldable pub info_items : List AddressInfo → Items
info_items [] = nil
info_items (v ∷ vs) = cons (info_to_json v) (info_items vs)

unfoldable pub number_items : List ℕ → Items
number_items [] = nil
number_items (n ∷ ns) = cons (num n) (number_items ns)

-- The `validators` are made by `push_back`: without validators there is no such member.
unfoldable pub validators_member : List AddressInfo → Fields → Fields
validators_member [] fs = fs
validators_member (v ∷ vs) fs = field (text "validators") (arr (info_items (v ∷ vs))) fs

-- `Settings::to_json`
unfoldable pub settings_to_json : Settings → Json
unfolding validators_member
settings_to_json s = obj (
    field (text "leaderID") (num s.leader_id) (
      validators_member (infos s.validators) (
        field (text "wallets") (arr (number_items s.wallets)) (
          field (text "myValidatorID") (num s.my_validator_id)
            (field (text "myWalletID") (num s.my_wallet_id) end)))))
