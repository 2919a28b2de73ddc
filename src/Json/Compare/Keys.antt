-- ===== src/Json/Compare/Keys.antt =====
-- Lookups in the objects of serde_json, and objects with no key twice.
use inspect.Common.{
  ℕ, ◌≡◌, refl, sym, ◌∙◌, none, some, List, ◌∷◌, Str, str_eq, str_eq_iff, str_eq_refl, Bool-cases,
  inl, inr, subst,
}
use inspect.Diff.{DiffPathSegment, json_key, json_index}
use inspect.Json.{Value, Items, Fields, array, object, nil, item, end, field, get_field, get_item}
use inspect.Json.Compare.Paths.{get_at}

-- No object has a key twice, as the maps of serde_json.
abbrev mutual
  pub HasUniqueKeys : Value → Type 0
  HasUniqueKeys (array items) = ItemsUnique items
  HasUniqueKeys (object fields) = FieldsUnique fields
  HasUniqueKeys v = Unit {0}

  pub ItemsUnique : Items → Type 0
  ItemsUnique nil = Unit {0}
  ItemsUnique (item v items) = HasUniqueKeys v × ItemsUnique items

  pub FieldsUnique : Fields → Type 0
  FieldsUnique end = Unit {0}
  FieldsUnique (field key v fields) =
      (get_field key fields ≡ none) × (HasUniqueKeys v × FieldsUnique fields)

pub get_at_key :
    (key : Str) (fields : Fields) (v : Value) (q : List DiffPathSegment)
    → get_field key fields ≡ some v
    → get_at (json_key key ∷ q) (object fields) ≡ get_at q v
unfolding get_at
get_at_key key fields v q h = rw (h, get_at) refl

pub get_at_index :
    (i : ℕ) (items : Items) (v : Value) (q : List DiffPathSegment)
    → get_item i items ≡ some v
    → get_at (json_index i ∷ q) (array items) ≡ get_at q v
unfolding get_at
get_at_index i items v q h = rw (h, get_at) refl

pub no_key :
    (key : Str) (fields : Fields) (q : List DiffPathSegment)
    → get_field key fields ≡ none
    → get_at (json_key key ∷ q) (object fields) ≡ none
unfolding get_at
no_key key fields q h = rw (h, get_at) refl

pub no_index :
    (i : ℕ) (items : Items) (q : List DiffPathSegment)
    → get_item i items ≡ none
    → get_at (json_index i ∷ q) (array items) ≡ none
unfolding get_at
no_index i items q h = rw (h, get_at) refl

pub get_field_here : (key : Str) (v : Value) (f : Fields) → get_field key (field key v f) ≡ some v
unfolding get_field
get_field_here key v f = rw (str_eq_refl key) refl

-- An entry behind one of another key is found behind it.
get_field_later :
    (key : Str) (v : Value) (f : Fields) (k : Str) (x : Value)
    → get_field key f ≡ none
    → get_field k f ≡ some x
    → get_field k (field key v f) ≡ some x
unfolding get_field
get_field_later key v f k x h e = elim (Bool-cases (str_eq key k)) [
  | inl same ↦
      let found : get_field key f ≡ some x =
        subst (λ j. get_field j f ≡ some x) (sym ((str_eq_iff key k).0 same)) e in
      let clash : none ≡ some x = sym h ∙ found in absurd (cc clash)
  | inr other ↦ rw other e
]

pub get_field-HasUniqueKeys :
    (key : Str) (fields : Fields) (v : Value)
    → FieldsUnique fields
    → get_field key fields ≡ some v
    → HasUniqueKeys v
unfolding get_field
get_field-HasUniqueKeys key end v h e = absurd (cc e)
get_field-HasUniqueKeys key (field k u fields) v (_, (here, rest)) e =
    elim (Bool-cases (str_eq k key)) [
      | inl same ↦
          let is_v : some u ≡ some v = rw same at e in
          let u_is_v : u ≡ v = cc is_v in subst HasUniqueKeys u_is_v here
      | inr other ↦ get_field-HasUniqueKeys key fields v rest (rw other at e)
    ]

abbrev pub Within : Fields → Fields → Type 0
Within f whole = (k : Str) (x : Value) → get_field k f ≡ some x → get_field k whole ≡ some x

pub Within-rest :
    (key : Str) (v : Value) (f whole : Fields)
    → get_field key f ≡ none
    → Within (field key v f) whole
    → Within f whole
Within-rest key v f whole h within k x e = within k x (get_field_later key v f k x h e)
