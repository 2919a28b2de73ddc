-- ===== src/Json/Compare/Paths.antt =====
-- What stands at a path of a JSON value, for the comparison in src/filters/engine/json/capture.rs.
use inspect.Common.{◌≡◌, refl, Bool, true, false, Option, none, some, List, [], ◌∷◌, str_eq_refl}
use inspect.Diff.{DiffPathSegment, json_key, json_index}
use inspect.Json.{
  Value, Items, Fields, null, bool, number, string, array, object, nil, item, end, field, get_field,
  get_item, value_eq, one_zero, items_eq, fields_eq, bool_eq,
}

unfoldable pub get_at : List DiffPathSegment → Value → Option Value
get_at [] v = some v
get_at (json_key key ∷ at) (object fields) = elim (get_field key fields) [
  | none ↦ none
  | some v ↦ get_at at v
]
get_at (json_index i ∷ at) (array items) = elim (get_item i items) [
  | none ↦ none
  | some v ↦ get_at at v
]
get_at (segment ∷ at) v = none

bool_eq_refl : (a : Bool) → bool_eq a a ≡ true
bool_eq_refl true = refl
bool_eq_refl false = refl

mutual
  unfolding value_eq

  value_eq_self : (v : Value) → value_eq v v ≡ true
  value_eq_self null = refl
  value_eq_self (bool a) = bool_eq_refl a
  value_eq_self (number a) = str_eq_refl (one_zero a)
  value_eq_self (string a) = str_eq_refl a
  value_eq_self (array a) = items_eq_self a
  value_eq_self (object a) = fields_eq_self a

  items_eq_self : (v : Items) → items_eq v v ≡ true
  items_eq_self nil = refl
  items_eq_self (item a xs) = rw (value_eq_self a, items_eq_self xs) refl

  fields_eq_self : (v : Fields) → fields_eq v v ≡ true
  fields_eq_self end = refl
  fields_eq_self (field j a fs) = rw (str_eq_refl j, value_eq_self a, fields_eq_self fs) refl

pub value_eq_refl : (v : Value) → value_eq v v ≡ true
value_eq_refl v = value_eq_self v
