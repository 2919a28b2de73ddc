-- ===== src/Json/Compare/Complete.antt =====
-- src/filters/engine/json/capture.rs: a comparison of two JSON values without events.
use inspect.Common.{
  ℕ, zero, suc, ◌+◌, ◌≡◌, refl, Bool, true, false, Option, none, some, List, [], ◌∷◌, ◌++◌, Str,
  str_eq, is_some, arith, if◌then◌else◌, Bool-cases, str_eq_iff, subst, inl, inr,
}
use inspect.Diff.{DiffEvent, DiffPathSegment, json_key, json_index}
use inspect.Json.{
  Value, Items, Fields, array, object, nil, item, end, field, get_field, get_item, value_eq,
}
use inspect.Json.Compare.{
  diff_json_value, diff_fields, diff_items, inserted_fields, inserted_items, deleted_items, deleted,
}
use inspect.Json.Compare.Paths.{get_at}
use inspect.Json.Compare.Equal.{shape, equal-shape}

append-eq_nil {ℓ} : {A : Type ℓ} (xs ys : List A) → xs ++ ys ≡ [] → (xs ≡ []) × (ys ≡ [])
append-eq_nil [] ys h = (refl, h)
append-eq_nil (x ∷ xs) ys h = absurd (cc h)

-- The branches of an unequal comparison.
unequal : {b : Bool} (xs : List DiffEvent) → (if b then [] else xs) ≡ [] → b ≡ false → xs ≡ []
unequal {b} xs h e = rw e at h

module _ (to_string : Value → Str) where
  -- Nothing on both sides, or two values without events between them.
  abbrev Agree : Option Value → Option Value → Type 0
  Agree none none = Unit {0}
  Agree none (some w) = ⊥
  Agree (some v) none = ⊥
  Agree (some v) (some w) = (at : List DiffPathSegment) × (diff_json_value to_string at v w ≡ [])

  -- The comparison of one entry with what the other object has under its key.
  entry-Agree :
      (next : List DiffPathSegment) (u : Value) (o : Option Value)
      → (elim o as (λ _. List DiffEvent) [
        | none ↦ deleted to_string next u ∷ []
        | some w ↦ diff_json_value to_string next u w
      ])
        ≡ []
      → Agree (some u) o
  entry-Agree next u none h = absurd (cc h)
  entry-Agree next u (some w) h = (next, h)

  diff_fields-Agree :
      (at : List DiffPathSegment) (f g : Fields) (key : Str) (v : Value)
      → diff_fields to_string at f g ≡ []
      → get_field key f ≡ some v
      → Agree (some v) (get_field key g)
  unfolding get_field diff_json_value
  diff_fields-Agree at end g key v h e = absurd (cc e)
  diff_fields-Agree at (field k u f) g key v h e =
      let (here, later) = append-eq_nil _ (diff_fields to_string at f g) h in
      elim (Bool-cases (str_eq k key)) [
        | inl same ↦
            let v_eq : some u ≡ some v = rw same at e in
            let k_eq : k ≡ key = (str_eq_iff k key).0 same in
            subst (λ o. Agree o (get_field key g)) v_eq
              (subst (λ j. Agree (some u) (get_field j g)) k_eq
                (entry-Agree (at ++ (json_key k ∷ [])) u (get_field k g) here))
        | inr other ↦ diff_fields-Agree at f g key v later (rw other at e)
      ]

  inserted_fields-is_some :
      (at : List DiffPathSegment) (f g : Fields) (key : Str) (w : Value)
      → inserted_fields to_string at f g ≡ []
      → get_field key g ≡ some w
      → is_some (get_field key f) ≡ true
  unfolding get_field inserted_fields
  inserted_fields-is_some at f end key w h e = absurd (cc e)
  inserted_fields-is_some at f (field k u g) key w h e =
      let (here, later) = append-eq_nil _ (inserted_fields to_string at f g) h in
      elim (Bool-cases (str_eq k key)) [
        | inl same ↦
            subst (λ j. is_some (get_field j f) ≡ true) ((str_eq_iff k key).0 same)
              (elim (Bool-cases (is_some (get_field k f))) [
                | inl found ↦ found
                | inr missing ↦ absurd (cc (rw missing at here))
              ])
        | inr other ↦ inserted_fields-is_some at f g key w later (rw other at e)
      ]

  diff_items-Agree :
      (at : List DiffPathSegment) (idx : ℕ) (f g : Items) (i : ℕ)
      → diff_items to_string at idx f g ≡ []
      → Agree (get_item i f) (get_item i g)
  unfolding get_item diff_json_value inserted_items deleted_items
  diff_items-Agree at idx nil nil i h = tt
  diff_items-Agree at idx nil (item w g) i h = absurd (cc h)
  diff_items-Agree at idx (item v f) nil i h = absurd (cc h)
  diff_items-Agree at idx (item v f) (item w g) zero h =
      (at ++ (json_index idx ∷ []), (append-eq_nil _ _ h).0)
  diff_items-Agree at idx (item v f) (item w g) (suc i) h =
      diff_items-Agree at (idx + 1) f g i (append-eq_nil _ _ h).1

  fields-Agree :
      (at : List DiffPathSegment) (f g : Fields) (key : Str)
      → diff_fields to_string at f g ++ inserted_fields to_string at f g ≡ []
      → Agree (get_field key f) (get_field key g)
  fields-Agree at f g key h = of_lookup (get_field key f) (get_field key g) refl refl
    where
      of_lookup : (o p : Option Value) → get_field key f ≡ o → get_field key g ≡ p → Agree o p
      of_lookup none none d e = tt
      of_lookup none (some w) d e =
          let found : is_some (get_field key f) ≡ true =
            inserted_fields-is_some at f g key w (append-eq_nil _ _ h).1 e in
          let missing : false ≡ true = rw d at found in absurd (cc missing)
      of_lookup (some v) p d e =
          subst (Agree (some v)) e (diff_fields-Agree at f g key v (append-eq_nil _ _ h).0 d)

  abbrev SameShape : List DiffPathSegment → Type 0
  SameShape q =
      (at : List DiffPathSegment) (v w : Value)
      → diff_json_value to_string at v w ≡ []
      → shape (get_at q v) ≡ shape (get_at q w)

  below-Agree :
      (q : List DiffPathSegment)
      → SameShape q
      → (o p : Option Value) → Agree o p
      → shape (elim o as (λ _. Option Value) [ none ↦ none | some v ↦ get_at q v ])
        ≡ shape (elim p as (λ _. Option Value) [ none ↦ none | some v ↦ get_at q v ])
  below-Agree q same none none h = refl
  below-Agree q same none (some w) h = absurd h
  below-Agree q same (some v) none h = absurd h
  below-Agree q same (some v) (some w) (at, h) = same at v w h

  objects-shape :
      (s : DiffPathSegment) (q at : List DiffPathSegment) (f g : Fields)
      → SameShape q
      → diff_fields to_string at f g ++ inserted_fields to_string at f g ≡ []
      → shape (get_at (s ∷ q) (object f)) ≡ shape (get_at (s ∷ q) (object g))
  unfolding get_at
  objects-shape (json_key key) q at f g same h =
      below-Agree q same (get_field key f) (get_field key g) (fields-Agree at f g key h)
  objects-shape _ q at f g same h = refl

  arrays-shape :
      (s : DiffPathSegment) (q at : List DiffPathSegment) (f g : Items)
      → SameShape q
      → diff_items to_string at 0 f g ≡ []
      → shape (get_at (s ∷ q) (array f)) ≡ shape (get_at (s ∷ q) (array g))
  unfolding get_at
  arrays-shape (json_index i) q at f g same h =
      below-Agree q same (get_item i f) (get_item i g) (diff_items-Agree at 0 f g i h)
  arrays-shape _ q at f g same h = refl

  unequal-shape :
      (s : DiffPathSegment) (q at : List DiffPathSegment) (v w : Value)
      → SameShape q
      → value_eq v w ≡ false
      → diff_json_value to_string at v w ≡ []
      → shape (get_at (s ∷ q) v) ≡ shape (get_at (s ∷ q) w)
  unfolding diff_json_value value_eq
  unequal-shape s q at (object f) (object g) same ne h =
      objects-shape s q at f g same (unequal _ h ne)
  unequal-shape s q at (array f) (array g) same ne h = arrays-shape s q at f g same (unequal _ h ne)
  unequal-shape s q at v w same ne h = absurd (ground arith)

  unequal-shape_here :
      (at : List DiffPathSegment) (v w : Value)
      → value_eq v w ≡ false
      → diff_json_value to_string at v w ≡ []
      → shape (some v) ≡ shape (some w)
  unfolding diff_json_value shape value_eq
  unequal-shape_here at (object f) (object g) ne h = refl
  unequal-shape_here at (array f) (array g) ne h = refl
  unequal-shape_here at v w ne h = absurd (ground arith)

  -- The same, in one statement for the induction on the path.
  shape-at : (q : List DiffPathSegment) → SameShape q
  unfolding get_at
  shape-at [] at v w h = elim (Bool-cases (value_eq v w)) [
    | inl same ↦ equal-shape [] v w same
    | inr other ↦ unequal-shape_here at v w other h
  ]
  shape-at (s ∷ q) at v w h = elim (Bool-cases (value_eq v w)) [
    | inl same ↦ equal-shape (s ∷ q) v w same
    | inr other ↦ unequal-shape s q at v w (shape-at q) other h
  ]

-- Two values whose comparison has no event have the same shape at every path: nothing there on both sides,
-- the same scalar, where 0.0 and -0.0 are one, or an array or an object on both sides.
pub diff_json_value-same_shape :
    (to_string : Value → Str) (q at : List DiffPathSegment) (v w : Value)
    → diff_json_value to_string at v w ≡ []
    → shape (get_at q v) ≡ shape (get_at q w)
diff_json_value-same_shape to_string q at v w h = shape-at to_string q at v w h
