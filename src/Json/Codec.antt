-- ===== src/Json/Codec.antt =====
-- A code of JSON values as texts, with which the examples stand in for serde_json: a number that says what
-- follows, and a text behind its length.
use inspect.Common.{
  ℕ, zero, suc, ◌+◌, ◌≤◌, ◌≡◌, refl, true, false, Option, none, some, [], ◌∷◌, ◌++◌, Str, length,
  take, drop, take-length, drop-length, arith,
}
use inspect.Json.{
  Value, Items, Fields, null, bool, number, string, array, object, nil, item, end, field,
}
use inspect.Json.Patch.{JsonLib}
use inspect.Json.Patch.RoundTrip.{ReadsBack}

abbrev text_code : Str → Str → Str
text_code s rest = length s ∷ (s ++ rest)

unfoldable mutual
  size : Value → ℕ
  size null = 1
  size (bool b) = 1
  size (number n) = 1
  size (string s) = 1
  size (array items) = suc (items_size items)
  size (object fields) = suc (fields_size fields)

  items_size : Items → ℕ
  items_size nil = 1
  items_size (item v items) = suc (size v + items_size items)

  fields_size : Fields → ℕ
  fields_size end = 1
  fields_size (field key v fields) = suc (size v + fields_size fields)

-- The code of a value in front of a text.
unfoldable mutual
  encode : Value → Str → Str
  encode null rest = 0 ∷ rest
  encode (bool false) rest = 1 ∷ rest
  encode (bool true) rest = 2 ∷ rest
  encode (number n) rest = 3 ∷ text_code n rest
  encode (string s) rest = 4 ∷ text_code s rest
  encode (array items) rest = 5 ∷ encode_items items rest
  encode (object fields) rest = 6 ∷ encode_fields fields rest

  encode_items : Items → Str → Str
  encode_items nil rest = 0 ∷ rest
  encode_items (item v items) rest = 1 ∷ encode v (encode_items items rest)

  encode_fields : Fields → Str → Str
  encode_fields end rest = 0 ∷ rest
  encode_fields (field key v fields) rest = 1 ∷ text_code key (encode v (encode_fields fields rest))

abbrev then_with :
    {A B : Type 0} → Option (A × Str) → (A → Str → Option (B × Str)) → Option (B × Str)
then_with none f = none
then_with (some (a, rest)) f = f a rest

abbrev decode_text : {B : Type 0} → Str → (Str → Str → Option (B × Str)) → Option (B × Str)
decode_text [] f = none
decode_text (n ∷ s) f = f (take n s) (drop n s)

-- On fuel, the size of the value.
unfoldable mutual
  decode : ℕ → Str → Option (Value × Str)
  decode (suc n) (zero ∷ rest) = some (null, rest)
  decode (suc n) ((suc zero) ∷ rest) = some (bool false, rest)
  decode (suc n) ((suc (suc zero)) ∷ rest) = some (bool true, rest)
  decode (suc n) ((suc (suc (suc zero))) ∷ rest) =
      decode_text rest (λ s rest'. some (number s, rest'))
  decode (suc n) ((suc (suc (suc (suc zero)))) ∷ rest) =
      decode_text rest (λ s rest'. some (string s, rest'))
  decode (suc n) ((suc (suc (suc (suc (suc zero))))) ∷ rest) =
      then_with (decode_items n rest) (λ items rest'. some (array items, rest'))
  decode (suc n) ((suc (suc (suc (suc (suc (suc zero)))))) ∷ rest) =
      then_with (decode_fields n rest) (λ fields rest'. some (object fields, rest'))
  decode _ _ = none

  decode_items : ℕ → Str → Option (Items × Str)
  decode_items (suc n) (zero ∷ rest) = some (nil, rest)
  decode_items (suc n) ((suc zero) ∷ rest) =
      then_with (decode n rest)
        (λ v behind. then_with (decode_items n behind) (λ items rest'. some (item v items, rest')))
  decode_items _ _ = none

  decode_fields : ℕ → Str → Option (Fields × Str)
  decode_fields (suc n) (zero ∷ rest) = some (end, rest)
  decode_fields (suc n) ((suc zero) ∷ rest) = decode_text rest (λ key behind.
      then_with (decode n behind) (λ v behind'.
        then_with (decode_fields n behind') (λ fields rest'. some (field key v fields, rest'))))
  decode_fields _ _ = none

size_pos : (v : Value) → 1 ≤ size v
unfolding size
size_pos null = omega arith
size_pos (bool b) = omega arith
size_pos (number n) = omega arith
size_pos (string s) = omega arith
size_pos (array items) = omega arith
size_pos (object fields) = omega arith

items_size_pos : (items : Items) → 1 ≤ items_size items
unfolding items_size
items_size_pos nil = omega arith
items_size_pos (item v items) = omega arith

fields_size_pos : (fields : Fields) → 1 ≤ fields_size fields
unfolding fields_size
fields_size_pos end = omega arith
fields_size_pos (field key v fields) = omega arith

mutual
  unfolding size encode decode

  decode-encode :
      (v : Value) (n : ℕ) (rest : Str) → size v ≤ n → decode n (encode v rest) ≡ some (v, rest)
  decode-encode v zero rest h = absurd (omega (arith, h, size_pos v))
  decode-encode null (suc n) rest h = refl
  decode-encode (bool false) (suc n) rest h = refl
  decode-encode (bool true) (suc n) rest h = refl
  decode-encode (number s) (suc n) rest h = rw (take-length s rest, drop-length s rest) refl
  decode-encode (string s) (suc n) rest h = rw (take-length s rest, drop-length s rest) refl
  decode-encode (array items) (suc n) rest h =
      rw (decode-encode_items items n rest (omega (arith, h))) refl
  decode-encode (object fields) (suc n) rest h =
      rw (decode-encode_fields fields n rest (omega (arith, h))) refl

  decode-encode_items :
      (items : Items) (n : ℕ) (rest : Str)
      → items_size items ≤ n
      → decode_items n (encode_items items rest) ≡ some (items, rest)
  decode-encode_items items zero rest h = absurd (omega (arith, h, items_size_pos items))
  decode-encode_items nil (suc n) rest h = refl
  decode-encode_items (item v items) (suc n) rest h =
      rw
        (
          decode-encode v n (encode_items items rest) (omega (arith, h)),
          decode-encode_items items n rest (omega (arith, h)),
        )
        refl

  decode-encode_fields :
      (fields : Fields) (n : ℕ) (rest : Str)
      → fields_size fields ≤ n
      → decode_fields n (encode_fields fields rest) ≡ some (fields, rest)
  decode-encode_fields fields zero rest h = absurd (omega (arith, h, fields_size_pos fields))
  decode-encode_fields end (suc n) rest h = refl
  decode-encode_fields (field key v fields) (suc n) rest h =
      let behind = encode v (encode_fields fields rest) in
      rw
        (
          take-length key behind,
          drop-length key behind,
          decode-encode v n (encode_fields fields rest) (omega (arith, h)),
          decode-encode_fields fields n rest (omega (arith, h)),
        )
        refl

value_of : Option (Value × Str) → Option Value
value_of none = none
value_of (some (v, rest)) = some v

unfoldable pub from_code : Str → Option Value
unfolding decode value_of
from_code [] = none
from_code (n ∷ s) = value_of (decode n s)

unfoldable pub to_code : Value → Str
unfolding size encode
to_code v = size v ∷ encode v []

from_code-to_code : (v : Value) → from_code (to_code v) ≡ some v
unfolding from_code to_code value_of
from_code-to_code v = rw (decode-encode v (size v) [] (omega arith)) refl

-- The JSON library of the examples. Its patches do nothing.
unfoldable pub coded_lib : JsonLib
unfolding from_code to_code
coded_lib = record {
  from_str = from_code;
  to_string = to_code;
  to_string_pretty = to_code;
  patch_from_str = λ s. some some;
  diff = λ v w. w;
  merge = λ v w. w;
}

pub coded_lib-ReadsBack : ReadsBack coded_lib
unfolding coded_lib
coded_lib-ReadsBack = record {
  compact = λ v p. from_code-to_code v;
  pretty = λ v p. from_code-to_code v;
}
