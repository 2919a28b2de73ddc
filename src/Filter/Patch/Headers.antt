-- ===== src/Filter/Patch/Headers.antt =====
-- apply_header_patch of src/mitm/flow/filter_bridge.rs: what is looked up afterwards.
use inspect.Common.{
  ◌≡◌, refl, ap, ◌∙◌, arith, Bool, false, Option, none, some, List, [], ◌∷◌, Str, str_eq,
  str_eq_iff, if◌then◌else◌, Option-cases, inl, inr, or_else, any,
}
use inspect.Filter.Types.{FilterHeader}
use inspect.Filter.Patch.{
  HeaderMap, remove_header, get_header, insert_header, HttpParsers, remove_headers, set_header,
  set_headers, apply_header_patch,
}

pub get_header-remove_header :
    (name other : Str) (headers : HeaderMap)
    → get_header name (remove_header other headers)
      ≡ (if str_eq other name then none else get_header name headers)
unfolding get_header remove_header
get_header-remove_header name other [] = ground arith
get_header-remove_header name other ((key, value) ∷ headers) = ground (
  arith,
  get_header-remove_header name other headers,
  str_eq_iff key other,
  str_eq_iff key name,
  str_eq_iff other name,
)

pub get_header-insert_header :
    (name other value : Str) (headers : HeaderMap)
    → get_header name (insert_header other value headers)
      ≡ (if str_eq other name then some value else get_header name headers)
unfolding get_header insert_header
get_header-insert_header name other value [] = ground arith
get_header-insert_header name other value ((key, old) ∷ headers) = ground (
  arith,
  get_header-insert_header name other value headers,
  get_header-remove_header name other headers,
  str_eq_iff key other,
  str_eq_iff key name,
  str_eq_iff other name,
)

module _ (http : HttpParsers) where
  -- The value that one header of a patch gives to a name, if its name and value parse.
  abbrev pub own_value : Str → FilterHeader → Option Str
  own_value name header = elim (http.header_name header.name) [
    | none ↦ none
    | some parsed ↦ if str_eq parsed name then http.header_value header.value else none
  ]

  -- The value that a patch sets for a name: that of its last header that has one.
  abbrev pub value_set : Str → List FilterHeader → Option Str
  value_set name [] = none
  value_set name (header ∷ rest) = or_else (value_set name rest) (own_value name header)

  abbrev pub is_name : Str → Str → Bool
  is_name name text = elim (http.header_name text) [
    | none ↦ false
    | some parsed ↦ str_eq parsed name
  ]

  get_header-remove_headers :
      (name : Str) (names : List Str) (headers : HeaderMap)
      → get_header name (remove_headers http names headers)
        ≡ (if any (is_name name) names then none else get_header name headers)
  unfolding remove_headers
  get_header-remove_headers name [] headers = refl
  get_header-remove_headers name (n ∷ names) headers = elim (Option-cases (http.header_name n)) [
    | inl e ↦ ground (arith, get_header-remove_headers name names headers)
    | inr (parsed, e) ↦ ground (
      arith,
      get_header-remove_headers name names (remove_header parsed headers),
      get_header-remove_header name parsed headers,
    )
  ]

  get_header-set_header :
      (name : Str) (header : FilterHeader) (headers : HeaderMap)
      → get_header name (set_header http header headers)
        ≡ or_else (own_value name header) (get_header name headers)
  unfolding set_header
  get_header-set_header name header headers = elim (Option-cases (http.header_name header.name)) [
    | inl e ↦ ground arith
    | inr (parsed, e) ↦ elim (Option-cases (http.header_value header.value)) [
      | inl f ↦ ground arith
      | inr (value, f) ↦ ground (arith, get_header-insert_header name parsed value headers)
    ]
  ]

  or_else_assoc : (a b c : Option Str) → or_else a (or_else b c) ≡ or_else (or_else a b) c
  or_else_assoc none b c = refl
  or_else_assoc (some x) b c = refl

  get_header-set_headers :
      (name : Str) (set : List FilterHeader) (headers : HeaderMap)
      → get_header name (set_headers http set headers)
        ≡ or_else (value_set name set) (get_header name headers)
  unfolding set_headers
  get_header-set_headers name [] headers = refl
  get_header-set_headers name (header ∷ rest) headers =
      get_header-set_headers name rest (set_header http header headers)
      ∙ ap (or_else (value_set name rest)) (get_header-set_header name header headers)
      ∙ or_else_assoc (value_set name rest) (own_value name header) (get_header name headers)

  -- After a header patch a name has the value of the patch's last header of that name whose name and
  -- value parse; without one it has no value if the patch removes it, and else the value it had.
  pub get_header-apply_header_patch :
      (name : Str) (set : List FilterHeader) (removed : List Str) (headers : HeaderMap)
      → get_header name (apply_header_patch http set removed headers)
        ≡ or_else
            (value_set name set)
            (if any (is_name name) removed then none else get_header name headers)
  unfolding apply_header_patch
  get_header-apply_header_patch name set removed headers =
      get_header-set_headers name set (remove_headers http removed headers)
      ∙ ap (or_else (value_set name set)) (get_header-remove_headers name removed headers)
