-- ===== src/Json/Compare/Equal.antt =====
-- Equal JSON values: what stands at a path of them has one shape.
use inspect.Common.{
  ℕ, zero, suc, ◌≡◌, refl, ap, Bool, true, false, ◌&&◌, Option, none, some, List, [], ◌∷◌, Str,
  str_eq, str_eq_iff, subst, Bool-cases, inl, inr,
}
use inspect.Diff.{DiffPathSegment, json_key, json_index}
use inspect.Json.{
  Value, Items, Fields, null, bool, number, string, array, object, nil, item, end, field, get_field,
  get_item, value_eq, items_eq, fields_eq, bool_eq, one_zero,
}
use inspect.Json.Compare.Paths.{get_at}

-- What a value is at a path, without what stands below it. The two zeros with a fraction are one scalar,
-- as they are for the comparison.
pub data Shape : Type 0 where
  absent : Shape
  scalar : Value → Shape
  an_array an_object : Shape

unfoldable pub shape : Option Value → Shape
unfolding one_zero
shape none = absent
shape (some (array items)) = an_array
shape (some (object fields)) = an_object
shape (some (number n)) = scalar (number (one_zero n))
shape (some v) = scalar v

and_true : (a b : Bool) → (a && b) ≡ true → (a ≡ true) × (b ≡ true)
and_true true b h = (refl, h)
and_true false b h = cc

bool_eq_sound : (a b : Bool) → bool_eq a b ≡ true → a ≡ b
bool_eq_sound true true h = refl
bool_eq_sound false false h = refl
bool_eq_sound true false h = cc
bool_eq_sound false true h = cc

-- Nothing on both sides, or equal values.
abbrev Alike : Option Value → Option Value → Type 0
Alike none none = Unit {0}
Alike none (some w) = ⊥
Alike (some v) none = ⊥
Alike (some v) (some w) = value_eq v w ≡ true

fields_eq-Alike :
    (key : Str) (f g : Fields) → fields_eq f g ≡ true → Alike (get_field key f) (get_field key g)
unfolding get_field value_eq
fields_eq-Alike key end end h = tt
fields_eq-Alike key end (field k b gs) h = cc
fields_eq-Alike key (field j a fs) end h = cc
fields_eq-Alike key (field j a fs) (field k b gs) h =
    let (name, more) = and_true (str_eq j k) (value_eq a b && fields_eq fs gs) h in
    let (here, rest) = and_true (value_eq a b) (fields_eq fs gs) more in
    let later = fields_eq-Alike key fs gs rest in
    subst (λ i. Alike (get_field key (field j a fs)) (get_field key (field i b gs)))
      ((str_eq_iff j k).0 name)
      (elim (Bool-cases (str_eq j key)) [ inl same ↦ rw same here | inr other ↦ rw other later ])

items_eq-Alike : (i : ℕ) (f g : Items) → items_eq f g ≡ true → Alike (get_item i f) (get_item i g)
unfolding get_item value_eq
items_eq-Alike i nil nil h = tt
items_eq-Alike i nil (item b ys) h = cc
items_eq-Alike i (item a xs) nil h = cc
items_eq-Alike zero (item a xs) (item b ys) h = (and_true (value_eq a b) (items_eq xs ys) h).0
items_eq-Alike (suc i) (item a xs) (item b ys) h =
    items_eq-Alike i xs ys (and_true (value_eq a b) (items_eq xs ys) h).1

abbrev EqualShape : List DiffPathSegment → Type 0
EqualShape q = (v w : Value) → value_eq v w ≡ true → shape (get_at q v) ≡ shape (get_at q w)

below-Alike :
    (q : List DiffPathSegment)
    → EqualShape q
    → (o p : Option Value) → Alike o p
    → shape (elim o as (λ _. Option Value) [ none ↦ none | some v ↦ get_at q v ])
      ≡ shape (elim p as (λ _. Option Value) [ none ↦ none | some v ↦ get_at q v ])
below-Alike q same none none h = refl
below-Alike q same none (some w) h = absurd h
below-Alike q same (some v) none h = absurd h
below-Alike q same (some v) (some w) h = same v w h

equal_here : EqualShape []
unfolding value_eq shape get_at
equal_here null null h = refl
equal_here (bool a) (bool b) h = ap (λ c. scalar (bool c)) (bool_eq_sound a b h)
equal_here (number a) (number b) h =
    ap (λ n. scalar (number n)) ((str_eq_iff (one_zero a) (one_zero b)).0 h)
equal_here (string a) (string b) h = ap (λ s. scalar (string s)) ((str_eq_iff a b).0 h)
equal_here (array a) (array b) h = refl
equal_here (object a) (object b) h = refl
equal_here _ _ h = absurd (cc h)

equal_below : (s : DiffPathSegment) (q : List DiffPathSegment) → EqualShape q → EqualShape (s ∷ q)
unfolding value_eq get_at
equal_below (json_key key) q same (object f) (object g) h =
    below-Alike q same (get_field key f) (get_field key g) (fields_eq-Alike key f g h)
equal_below (json_index i) q same (array f) (array g) h =
    below-Alike q same (get_item i f) (get_item i g) (items_eq-Alike i f g h)
equal_below _ q same (object f) (object g) h = refl
equal_below _ q same (array f) (array g) h = refl
equal_below _ q same null null h = refl
equal_below _ q same (bool a) (bool b) h = refl
equal_below _ q same (number a) (number b) h = refl
equal_below _ q same (string a) (string b) h = refl
equal_below _ q same _ _ h = absurd (cc h)

pub equal-shape : (q : List DiffPathSegment) → EqualShape q
equal-shape [] = equal_here
equal-shape (s ∷ q) = equal_below s q (equal-shape q)
