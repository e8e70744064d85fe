-- ===== src/Json.antt =====
-- The values of the JSON library (include/json/json.hpp) that the sources build and read. The
-- library itself is not modelled: its printer and its parser are fields of `Host`.
use cosicoin.Base.{
  ℕ, ◌%◌, ◌==◌, nat_eq, list_eq, if◌then◌else◌, Bool, List, [], ◌∷◌, length, false, ◌||◌,
}
use cosicoin.Base.Text.{Bytes}
use cosicoin.Base.Result.{Result, ok, err, json_error, ◌>>=◌}

mutual
  pub data Json : Type 0 where
    null : Json
    num : ℕ → Json
    bool : Bool → Json
    str : Bytes → Json
    arr : Items → Json
    obj : Fields → Json

  pub data Items : Type 0 where
    nil : Items
    cons : Json → Items → Items

  pub data Fields : Type 0 where
    end : Fields
    field : Bytes → Json → Fields → Fields

-- An array of strings, filled by `push_back`.
unfoldable pub str_items : List Bytes → Items
str_items [] = nil
str_items (s ∷ ss) = cons (str s) (str_items ss)

-- What a loop over a value goes through: the elements, the values of an object, or the value itself.
unfoldable pub items_list : Items → List Json
items_list nil = []
items_list (cons j is) = j ∷ items_list is

unfoldable pub fields_list : Fields → List Json
fields_list end = []
fields_list (field k j fs) = j ∷ fields_list fs

unfoldable pub elements : Json → List Json
unfolding items_list fields_list
elements null = []
elements (num n) = num n ∷ []
elements (bool b) = bool b ∷ []
elements (str s) = str s ∷ []
elements (arr is) = items_list is
elements (obj fs) = fields_list fs

unfoldable pub find_field : Bytes → Fields → Result Json
find_field k end = err json_error
find_field k (field x j fs) = if x == k then ok j else find_field k fs

-- `j.at(k)`
unfoldable pub at : Bytes → Json → Result Json
unfolding find_field
at k null = err json_error
at k (num n) = err json_error
at k (bool b) = err json_error
at k (str s) = err json_error
at k (arr is) = err json_error
at k (obj fs) = find_field k fs

-- A number read into an unsigned variable of so many values; a truth value reads as 0 or 1.
unfoldable pub get_number : ℕ → Json → Result ℕ
get_number size null = err json_error
get_number size (num n) = ok (n % size)
get_number size (bool b) = ok (if b then 1 else 0)
get_number size (str s) = err json_error
get_number size (arr is) = err json_error
get_number size (obj fs) = err json_error

-- `j.at(k)` read into an unsigned variable.
unfoldable pub number_at : Bytes → ℕ → Json → Result ℕ
number_at k size j = at k j >>= get_number size

-- A value read into a `std::string`.
unfoldable pub string_of : Json → Result Bytes
string_of null = err json_error
string_of (num n) = err json_error
string_of (bool b) = err json_error
string_of (str s) = ok s
string_of (arr is) = err json_error
string_of (obj fs) = err json_error

-- `size()`
unfoldable pub json_size : Json → ℕ
unfolding items_list fields_list
json_size null = 0
json_size (num n) = 1
json_size (bool b) = 1
json_size (str s) = 1
json_size (arr is) = length (items_list is)
json_size (obj fs) = length (fields_list fs)

-- The elements that `j[0]`, `j[1]`, … name. What is no array throws, or holds nulls once it was asked.
unfoldable pub indexed : Json → List Json
indexed null = []
indexed (num n) = []
indexed (bool b) = []
indexed (str s) = []
indexed (arr is) = items_list is
indexed (obj fs) = []

unfoldable pub has_field : Bytes → Fields → Bool
has_field k end = false
has_field k (field x j fs) = (x == k) || has_field k fs

-- `j.contains(k)`
unfoldable pub contains_key : Bytes → Json → Bool
unfolding has_field
contains_key k null = false
contains_key k (num n) = false
contains_key k (bool b) = false
contains_key k (str s) = false
contains_key k (arr is) = false
contains_key k (obj fs) = has_field k fs
