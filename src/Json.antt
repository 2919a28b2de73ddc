-- ===== src/Json.antt =====
-- The values of serde_json, which src/filters/engine/json/capture.rs and src/filters/engine/json/patch.rs
-- compare and patch. An object is the list of its entries in the order of the map, by ascending keys,
-- so equal objects have the same keys in the same order. A number is the text that it is shown as.
pub mod Compare
pub mod Patch
pub mod Operations
pub mod Codec
pub mod Plain
mod Tests
use inspect.Common.{
  ℕ, zero, suc, Bool, true, false, ◌&&◌, Option, none, some, Str, codes, str_eq, if◌then◌else◌,
}

mutual
  pub data Value : Type 0 where
    null : Value
    bool : Bool → Value
    number : Str → Value
    string : Str → Value
    array : Items → Value
    object : Fields → Value

  pub data Items : Type 0 where
    nil : Items
    item : Value → Items → Items

  pub data Fields : Type 0 where
    end : Fields
    field : (key : Str) → Value → Fields → Fields

unfoldable pub get_field : Str → Fields → Option Value
get_field key end = none
get_field key (field k v fields) = if str_eq k key then some v else get_field key fields

unfoldable pub get_item : ℕ → Items → Option Value
get_item i nil = none
get_item zero (item v items) = some v
get_item (suc i) (item v items) = get_item i items

-- `Value::get` of a key, and `as_str`.
unfoldable pub get_key : Str → Value → Option Value
unfolding get_field
get_key key (object fields) = get_field key fields
get_key key _ = none

unfoldable pub as_str : Value → Option Str
as_str (string s) = some s
as_str _ = none

abbrev pub bool_eq : Bool → Bool → Bool
bool_eq true true = true
bool_eq false false = true
bool_eq _ _ = false

-- The two zeros among the numbers with a fraction are equal.
unfoldable pub one_zero : Str → Str
unfolding str_eq
one_zero n = if str_eq n (codes "-0.0") then codes "0.0" else n

unfoldable mutual
  unfolding one_zero str_eq

  pub value_eq : Value → Value → Bool
  value_eq null null = true
  value_eq (bool a) (bool b) = bool_eq a b
  value_eq (number a) (number b) = str_eq (one_zero a) (one_zero b)
  value_eq (string a) (string b) = str_eq a b
  value_eq (array a) (array b) = items_eq a b
  value_eq (object a) (object b) = fields_eq a b
  value_eq _ _ = false

  pub items_eq : Items → Items → Bool
  items_eq nil nil = true
  items_eq (item a xs) (item b ys) = value_eq a b && items_eq xs ys
  items_eq _ _ = false

  pub fields_eq : Fields → Fields → Bool
  fields_eq end end = true
  fields_eq (field j a fs) (field k b gs) = str_eq j k && (value_eq a b && fields_eq fs gs)
  fields_eq _ _ = false
