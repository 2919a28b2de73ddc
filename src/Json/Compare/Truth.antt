-- ===== src/Json/Compare/Truth.antt =====
-- src/filters/engine/json/capture.rs: what the events of a comparison say of the two values.
use inspect.Common.{
  ℕ, suc, ◌+◌, ◌≡◌, refl, ap, sym, ◌∙◌, Option, none, some, List, [], ◌∷◌, ◌++◌, Str, is_some,
  arith, if◌then◌else◌, All, All-append,
}
use inspect.Diff.{DiffEvent, DiffPathSegment, json_key, json_index}
use inspect.Json.{
  Value, Items, Fields, array, object, nil, item, end, field, get_field, get_item, value_eq,
}
use inspect.Json.Compare.{
  diff_json_value, diff_fields, diff_items, inserted_fields, inserted_items, deleted_items, deleted,
  inserted,
}
use inspect.Json.Compare.Paths.{get_at}
use inspect.Json.Compare.Keys.{
  HasUniqueKeys, ItemsUnique, FieldsUnique, Within, Within-rest, get_at_key, get_at_index, no_key,
  no_index, get_field_here, get_field-HasUniqueKeys,
}
use inspect.Json.Compare.Telling.{Tells, Tells-below, All-map, All-unless, scalar-Tells}

module _ (to_string : Value → Str) where
  inserted_fields-Tells :
      (at : List DiffPathSegment) (f g whole : Fields)
      → FieldsUnique g
      → Within g whole
      → All (Tells to_string at (object f) (object whole)) (inserted_fields to_string at f g)
  unfolding inserted_fields get_at
  inserted_fields-Tells at f end whole h within = tt
  inserted_fields-Tells at f (field key w g) whole (unique, (_, h)) within =
      All-append _ _ _ (here (get_field key f) refl)
        (inserted_fields-Tells at f g whole h (Within-rest key w g whole unique within))
    where
      here :
          (o : Option Value)
          → get_field key f ≡ o
          → All (Tells to_string at (object f) (object whole)) (
              if is_some (get_field key f)
              then []
              else inserted to_string (at ++ (json_key key ∷ [])) w ∷ [])
      here (some v) e = rw e tt
      here none e =
          let there = within key w (get_field_here key w g) in
          rw e (
            ((
              json_key key ∷ [],
              w,
              refl,
              refl,
              no_key key f [] e,
              get_at_key key whole w [] there,
            )),
            tt,
          )

  -- The items from `idx` on are those of the whole array, or the whole array has no more.
  abbrev From : ℕ → Items → Items → Type 0
  From idx f whole = (i : ℕ) → get_item i f ≡ get_item (idx + i) whole

  From-rest :
      (idx : ℕ) (v : Value) (f whole : Items) → From idx (item v f) whole → From (idx + 1) f whole
  unfolding get_item
  From-rest idx v f whole h i =
      let e : idx + suc i ≡ idx + 1 + i = omega arith in h (suc i) ∙ ap (λ k. get_item k whole) e

  From-here :
      (idx : ℕ) (v : Value) (f whole : Items)
      → From idx (item v f) whole
      → get_item idx whole ≡ some v
  unfolding get_item
  From-here idx v f whole h =
      let e : idx ≡ idx + 0 = omega arith in ap (λ k. get_item k whole) e ∙ sym (h 0)

  From-end : (idx : ℕ) (whole : Items) → From idx nil whole → get_item idx whole ≡ none
  unfolding get_item
  From-end idx whole h =
      let e : idx ≡ idx + 0 = omega arith in ap (λ k. get_item k whole) e ∙ sym (h 0)

  From-end_rest : (idx : ℕ) (whole : Items) → From idx nil whole → From (idx + 1) nil whole
  unfolding get_item
  From-end_rest idx whole h i =
      let e : idx + suc i ≡ idx + 1 + i = omega arith in h (suc i) ∙ ap (λ k. get_item k whole) e

  inserted_items-Tells :
      (at : List DiffPathSegment) (idx : ℕ) (g left right : Items)
      → From idx nil left
      → From idx g right
      → All (Tells to_string at (array left) (array right)) (inserted_items to_string at idx g)
  unfolding inserted_items get_at
  inserted_items-Tells at idx nil left right h k = tt
  inserted_items-Tells at idx (item w g) left right h k = (
    (
      json_index idx ∷ [],
      w,
      refl,
      refl,
      no_index idx left [] (From-end idx left h),
      get_at_index idx right w [] (From-here idx w g right k),
    ),
    inserted_items-Tells at (idx + 1) g left right (From-end_rest idx left h)
        (From-rest idx w g right k),
  )

  deleted_items-Tells :
      (at : List DiffPathSegment) (idx : ℕ) (f left right : Items)
      → From idx f left
      → From idx nil right
      → All (Tells to_string at (array left) (array right)) (deleted_items to_string at idx f)
  unfolding deleted_items get_at
  deleted_items-Tells at idx nil left right h k = tt
  deleted_items-Tells at idx (item v f) left right h k = (
    (
      json_index idx ∷ [],
      v,
      refl,
      refl,
      get_at_index idx left v [] (From-here idx v f left h),
      no_index idx right [] (From-end idx right k),
    ),
    deleted_items-Tells at (idx + 1) f left right (From-rest idx v f left h)
        (From-end_rest idx right k),
  )

  -- The comparison of one entry with what the other object has under its key.
  entry-Tells :
      (at : List DiffPathSegment) (key : Str) (v : Value) (f g : Fields) (o : Option Value)
      → get_field key g ≡ o
      → get_field key f ≡ some v
      → ((w : Value)
          → get_field key g ≡ some w
          → All
              (Tells to_string (at ++ (json_key key ∷ [])) v w)
              (diff_json_value to_string (at ++ (json_key key ∷ [])) v w))
      → All (Tells to_string at (object f) (object g)) (elim o as (λ _. List DiffEvent) [
        | none ↦ deleted to_string (at ++ (json_key key ∷ [])) v ∷ []
        | some w ↦ diff_json_value to_string (at ++ (json_key key ∷ [])) v w
      ])
  unfolding get_at
  entry-Tells at key v f g none e there below =
      ((json_key key ∷ [], v, refl, refl, get_at_key key f v [] there, no_key key g [] e), tt)
  entry-Tells at key v f g (some w) e there below =
      All-map _ _
        (Tells-below to_string at (json_key key) (object f) (object g) v w
          (λ q. get_at_key key f v q there) (λ q. get_at_key key g w q e))
        _ (below w e)

  mutual
    unfolding diff_json_value get_at

    value-Tells :
        (at : List DiffPathSegment) (v w : Value)
        → HasUniqueKeys v
        → HasUniqueKeys w
        → All (Tells to_string at v w) (diff_json_value to_string at v w)
    value-Tells at (object f) (object g) h k =
        All-unless _ (value_eq (object f) (object g)) _ λ other.
          All-append _ _ _ (fields-Tells at f f g h k (λ j x e. e))
            (inserted_fields-Tells at f g g k (λ j x e. e))
    value-Tells at (array f) (array g) h k = All-unless _ (value_eq (array f) (array g)) _ λ other.
        items-Tells at 0 f g f g h k (λ i. ap (λ n. get_item n f) (omega arith))
          (λ i. ap (λ n. get_item n g) (omega arith))
    value-Tells at v w h k = scalar-Tells to_string at v w

    fields-Tells :
        (at : List DiffPathSegment) (f whole g : Fields)
        → FieldsUnique f
        → FieldsUnique g
        → Within f whole
        → All (Tells to_string at (object whole) (object g)) (diff_fields to_string at f g)
    fields-Tells at end whole g h k within = tt
    fields-Tells at (field key v f) whole g (unique, (here, h)) k within =
        let there = within key v (get_field_here key v f) in
        All-append _ _ _
          (entry-Tells at key v whole g (get_field key g) refl there (λ w e.
            value-Tells (at ++ (json_key key ∷ [])) v w here (get_field-HasUniqueKeys key g w k e)))
          (fields-Tells at f whole g h k (Within-rest key v f whole unique within))

    items-Tells :
        (at : List DiffPathSegment) (idx : ℕ) (f g left right : Items)
        → ItemsUnique f
        → ItemsUnique g
        → From idx f left
        → From idx g right
        → All (Tells to_string at (array left) (array right)) (diff_items to_string at idx f g)
    items-Tells at idx nil g left right h k l r = inserted_items-Tells at idx g left right l r
    items-Tells at idx (item v f) nil left right h k l r =
        deleted_items-Tells at idx (item v f) left right l r
    items-Tells at idx (item v f) (item w g) left right (here, h) (there, k) l r =
        All-append _ _ _
          (All-map _ _
            (Tells-below to_string at (json_index idx) (array left) (array right) v w
              (λ q. get_at_index idx left v q (From-here idx v f left l))
              (λ q. get_at_index idx right w q (From-here idx w g right r)))
            (diff_json_value to_string (at ++ (json_index idx ∷ [])) v w)
            (value-Tells (at ++ (json_index idx ∷ [])) v w here there))
          (items-Tells at (idx + 1) f g left right h k (From-rest idx v f left l)
            (From-rest idx w g right r))

-- Every event of the comparison of two values without duplicate keys tells the truth.
pub diff_json_value-Tells :
    (to_string : Value → Str) (v w : Value)
    → HasUniqueKeys v
    → HasUniqueKeys w
    → All (Tells to_string [] v w) (diff_json_value to_string [] v w)
diff_json_value-Tells to_string v w h k = value-Tells to_string [] v w h k
