-- ===== src/Json/Tests.antt =====
-- src/filters/engine/json/capture.rs and patch.rs on concrete values.
use inspect.Common.{
  str_ltb, arith, inl, ◌≡◌, refl, true, some, List, [], ◌∷◌, Str, codes, map, All, str_eq, decimal,
}
use inspect.Diff.{json_key, json_index, body_json}
use inspect.Json.{
  Value, null, bool, number, array, object, nil, item, end, field, value_eq, one_zero, get_field,
}
use inspect.Json.Plain.{IsPlain}
use inspect.Json.Compare.{diff_json_value, deleted_items, inserted_fields, json_value_to_diff_node}
use inspect.Json.Compare.Paths.{get_at}
use inspect.Json.Compare.Telling.{Tells}
use inspect.Json.Compare.Truth.{diff_json_value-Tells}
use inspect.Json.Compare.Equal.{shape}
use inspect.Json.Compare.Complete.{diff_json_value-same_shape}
use inspect.Json.Patch.{
  GeneratedJsonPatchOperation, add, remove, move, json_patch_operations_from_rfc6902_json,
  json_patch_operations_to_rfc6902_json,
}
use inspect.Json.Patch.RoundTrip.{json_patch_operations_from-to}
use inspect.Json.Operations.{json_pointer_from_diff_path, json_patch_operations_from_diff_events}
use inspect.Json.Operations.Pointer.{tokens, token, tokens-json_pointer}
use inspect.Json.Codec.{coded_lib, coded_lib-ReadsBack, to_code}

-- {"a": [1, 2, 3], "b": true} and {"a": [1], "c": null}.
abbrev before : Value
before = object (
    field (codes "a")
      (array
        (item (number (codes "1")) (item (number (codes "2")) (item (number (codes "3")) nil))))
      (field (codes "b") (bool true) end))

abbrev after : Value
after =
    object (field (codes "a") (array (item (number (codes "1")) nil)) (field (codes "c") null end))

diff_json_value-Tells_example :
    All (Tells to_code [] before after) (diff_json_value to_code [] before after)
unfolding get_field str_eq
diff_json_value-Tells_example =
    diff_json_value-Tells to_code before after (refl, ((tt, (tt, (tt, tt))), (refl, (tt, tt))))
      (refl, ((tt, tt), (refl, (tt, tt))))

-- The entries of `before` in the other order.
abbrev reordered : Value
reordered = object (
    field (codes "b") (bool true) (
      field (codes "a")
        (array
          (item (number (codes "1")) (item (number (codes "2")) (item (number (codes "3")) nil))))
        end))

diff_json_value-same_shape_example :
    shape (get_at (json_key (codes "a") ∷ json_index 1 ∷ []) before)
    ≡ shape (get_at (json_key (codes "a") ∷ json_index 1 ∷ []) reordered)
unfolding diff_json_value value_eq str_eq get_field inserted_fields
diff_json_value-same_shape_example =
    diff_json_value-same_shape to_code (json_key (codes "a") ∷ json_index 1 ∷ []) [] before
      reordered refl

two_zeros : diff_json_value to_code [] (number (codes "0.0")) (number (codes "-0.0")) ≡ []
unfolding diff_json_value value_eq one_zero str_eq
two_zeros = refl

-- The removals have the original indices in ascending order.
removed_items :
    json_patch_operations_from_diff_events coded_lib (diff_json_value to_code [] before after)
    ≡ remove (codes "/a/1")
      ∷ remove (codes "/a/2")
      ∷ remove (codes "/b")
      ∷ add (codes "/c") (codes "null")
      ∷ []
unfolding diff_json_value json_patch_operations_from_diff_events str_eq get_field deleted_items
    body_json decimal inserted_fields json_value_to_diff_node
removed_items = refl

tokens-json_pointer_example :
    (pointer : Str) × (json_pointer_from_diff_path
        (body_json (json_key (codes "a/~b") ∷ json_index 10 ∷ []))
      ≡ some pointer)
    × (tokens pointer ≡ map token (json_key (codes "a/~b") ∷ json_index 10 ∷ []))
tokens-json_pointer_example = tokens-json_pointer (json_key (codes "a/~b") ∷ json_index 10 ∷ []) tt

abbrev operations : List GeneratedJsonPatchOperation
unfolding to_code
operations =
    add (codes "/c") (to_code after) ∷ remove (codes "/b") ∷ move (codes "/a/0") (codes "/d") ∷ []

json_patch_operations_from-to_example :
    json_patch_operations_from_rfc6902_json coded_lib
      (json_patch_operations_to_rfc6902_json coded_lib operations)
    ≡ operations
unfolding operations coded_lib IsPlain decimal str_ltb
json_patch_operations_from-to_example =
    json_patch_operations_from-to coded_lib coded_lib-ReadsBack operations (
      (
        refl,
        (
          after,
          (
            omega arith,
            (refl, refl, (omega arith, ((1, inl (omega arith, refl)), tt)), (refl, tt, tt, tt)),
          ),
          refl,
        ),
      ),
      (refl, ((refl, refl), tt)),
    )
