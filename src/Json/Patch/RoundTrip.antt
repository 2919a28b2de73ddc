-- ===== src/Json/Patch/RoundTrip.antt =====
-- src/filters/engine/json/patch.rs: patch operations, written as RFC 6902 and read back.
use inspect.Common.{
  str_ltb, ℕ, ◌≡◌, refl, ap, sym, subst, ◌∙◌, some, List, [], ◌∷◌, map, All, Str, arith,
}
use inspect.Json.{Value, Items, array, item}
use inspect.Json.Plain.{IsPlain, ArePlainItems, IsText, IsPlain-deeper, max_depth}
use inspect.Json.Patch.{
  GeneratedJsonPatchOperation, add, remove, replace, move, JsonLib, parse_json_patch_value,
  to_rfc6902_value, from_rfc6902_value, to_items, operations_of, operations_of_value,
  json_patch_operations_to_rfc6902_json, json_patch_operations_from_rfc6902_json,
}

-- The JSON library reads back what it writes of a plain value.
pub record ReadsBack (lib : JsonLib) : Type 0 where
  pub compact : (v : Value) → IsPlain max_depth v → lib.from_str (lib.to_string v) ≡ some v
  pub pretty : (v : Value) → IsPlain max_depth v → lib.from_str (lib.to_string_pretty v) ≡ some v

-- A value of an operation stands in the array of the patch and in the object of the operation.
abbrev pub inner_depth : ℕ
inner_depth = 125

module _ (lib : JsonLib) where
  abbrev pub IsWrittenValue : Str → Type 0
  IsWrittenValue value = (v : Value) × IsPlain inner_depth v × (value ≡ lib.to_string v)

  -- The values of the operation are plain JSON as the library writes it, its paths are texts.
  abbrev pub IsWritten : GeneratedJsonPatchOperation → Type 0
  IsWritten (add path value) = IsText path × IsWrittenValue value
  IsWritten (replace path value) = IsText path × IsWrittenValue value
  IsWritten (remove path) = IsText path
  IsWritten (move from path) = IsText from × IsText path

  module _ (reads : ReadsBack lib) where
    parse-to_string :
        (v : Value) → IsPlain inner_depth v → parse_json_patch_value lib (lib.to_string v) ≡ v
    unfolding parse_json_patch_value
    parse-to_string v p =
        rw (reads.compact v (IsPlain-deeper inner_depth max_depth v (omega arith) p)) refl

    from_rfc6902_value-to :
        (operation : GeneratedJsonPatchOperation)
        → IsWritten operation
        → from_rfc6902_value lib (to_rfc6902_value lib operation) ≡ some operation
    unfolding from_rfc6902_value to_rfc6902_value
    from_rfc6902_value-to (add path value) (text, (v, p, e)) = rw (e, parse-to_string v p) refl
    from_rfc6902_value-to (replace path value) (text, (v, p, e)) = rw (e, parse-to_string v p) refl
    from_rfc6902_value-to (remove path) h = refl
    from_rfc6902_value-to (move from path) h = refl

    parsed-IsPlain :
        (value : Str)
        → IsWrittenValue value
        → IsPlain inner_depth (parse_json_patch_value lib value)
    parsed-IsPlain value (v, p, e) =
        subst (IsPlain inner_depth) (sym (ap (parse_json_patch_value lib) e ∙ parse-to_string v p))
          p

    to_rfc6902_value-IsPlain :
        (operation : GeneratedJsonPatchOperation)
        → IsWritten operation
        → IsPlain 126 (to_rfc6902_value lib operation)
    unfolding IsPlain to_rfc6902_value str_ltb
    to_rfc6902_value-IsPlain (add path value) (text, h) = (
      omega arith,
      (refl, refl, refl, (refl, refl, text, (refl, tt, parsed-IsPlain value h, tt))),
    )
    to_rfc6902_value-IsPlain (replace path value) (text, h) = (
      omega arith,
      (refl, refl, refl, (refl, refl, text, (refl, tt, parsed-IsPlain value h, tt))),
    )
    to_rfc6902_value-IsPlain (remove path) text =
        (omega arith, (refl, refl, refl, (refl, tt, text, tt)))
    to_rfc6902_value-IsPlain (move from path) (text, text') =
        (omega arith, (refl, refl, text, (refl, refl, refl, (refl, tt, text', tt))))

    to_items-ArePlainItems :
        (operations : List GeneratedJsonPatchOperation)
        → All IsWritten operations
        → ArePlainItems 126 (to_items (map (to_rfc6902_value lib) operations))
    unfolding ArePlainItems to_items
    to_items-ArePlainItems [] h = tt
    to_items-ArePlainItems (operation ∷ operations) (here, h) =
        (to_rfc6902_value-IsPlain operation here, to_items-ArePlainItems operations h)

    operations_of-some :
        (v : Value) (items : Items) (operation : GeneratedJsonPatchOperation)
        → from_rfc6902_value lib v ≡ some operation
        → operations_of lib (item v items) ≡ operation ∷ operations_of lib items
    unfolding operations_of
    operations_of-some v items operation h = rw (h, operations_of) refl

    operations_of-to_items :
        (operations : List GeneratedJsonPatchOperation)
        → All IsWritten operations
        → operations_of lib (to_items (map (to_rfc6902_value lib) operations)) ≡ operations
    unfolding operations_of to_items
    operations_of-to_items [] h = refl
    operations_of-to_items (operation ∷ operations) (here, h) =
        operations_of-some (to_rfc6902_value lib operation)
          (to_items (map (to_rfc6902_value lib) operations)) operation
          (from_rfc6902_value-to operation here)
        ∙ ap (◌∷◌ operation) (operations_of-to_items operations h)

-- The operations of a patch come back from its text in RFC 6902, if the JSON library reads back what it
-- writes of values whose numbers are integers of 64 bits, whose keys ascend, and whose depth is at most
-- 127. The values of the operations are such JSON as the library writes it, at most 125 deep, since
-- the patch puts them into an object in an array; the paths consist of Unicode scalar values.
pub json_patch_operations_from-to :
    (lib : JsonLib)
    → ReadsBack lib
    → (operations : List GeneratedJsonPatchOperation) → All (IsWritten lib) operations
    → json_patch_operations_from_rfc6902_json lib
        (json_patch_operations_to_rfc6902_json lib operations)
      ≡ operations
unfolding json_patch_operations_from_rfc6902_json json_patch_operations_to_rfc6902_json
    operations_of_value IsPlain
json_patch_operations_from-to lib reads operations h =
    let items = to_items (map (to_rfc6902_value lib) operations) in
    rw (reads.pretty (array items) (omega arith, to_items-ArePlainItems lib reads operations h))
      (operations_of-to_items lib reads operations h)
