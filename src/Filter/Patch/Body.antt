-- ===== src/Filter/Patch/Body.antt =====
-- apply_request_patch and apply_response_patch of src/mitm/flow/filter_bridge.rs: a patch of the
-- body and the headers that describe a body.
use inspect.Common.{
  ◌≡◌, ap, ◌∙◌, arith, true, false, none, some, List, [], ◌∷◌, Str, Bytes, codes, str_eq,
  str_eq_iff, any, Option-cases, Bool-cases, inl, inr,
}
use inspect.Filter.Types.{FilterBodyPatch, FilterResponsePatch}
use inspect.Filter.Patch.{
  HeaderMap, get_header, remove_header, remove_body_integrity_headers, HttpParsers,
  apply_body_patch, ResponseParts, apply_response_patch, apply_header_patch,
}
use inspect.Filter.Patch.Headers.{get_header-remove_header, get_header-insert_header}

-- The headers that describe the bytes of a body.
abbrev pub integrity_headers : List Str
integrity_headers =
    codes "content-length" ∷ codes "content-encoding" ∷ codes "etag" ∷ codes "content-md5" ∷ []

get_header-remove_body_integrity_headers :
    (name : Str) (headers : HeaderMap)
    → any (λ h. str_eq h name) integrity_headers ≡ true
    → get_header name (remove_body_integrity_headers headers) ≡ none
unfolding remove_body_integrity_headers
get_header-remove_body_integrity_headers name headers h =
    let a = remove_header (codes "content-length") headers in
    let b = remove_header (codes "content-encoding") a in
    let c = remove_header (codes "etag") b in
    ground (
      arith,
      get_header-remove_header name (codes "content-length") headers,
      get_header-remove_header name (codes "content-encoding") a,
      get_header-remove_header name (codes "etag") b,
      get_header-remove_header name (codes "content-md5") c,
    )

not_content_type :
    (name : Str)
    → any (λ h. str_eq h name) integrity_headers ≡ true
    → str_eq (codes "content-type") name ≡ false
unfolding str_eq
not_content_type name h = elim (Bool-cases (str_eq (codes "content-type") name)) [
  | inr other ↦ other
  | inl same ↦
      let e : codes "content-type" ≡ name = (str_eq_iff (codes "content-type") name).0 same in
      absurd (false_ne_true (ap (λ n. any (λ g. str_eq g n) integrity_headers) e ∙ h))
]
  where
    false_ne_true : false ≡ true → ⊥
    false_ne_true g = cc

apply_body_patch-integrity :
    (http : HttpParsers) (patch : FilterBodyPatch) (name : Str) (headers : HeaderMap) (body : Bytes)
    → any (λ h. str_eq h name) integrity_headers ≡ true
    → (get_header name (apply_body_patch http (some patch) headers body).0 ≡ none)
      × ((apply_body_patch http (some patch) headers body).1 ≡ patch.bytes)
unfolding apply_body_patch
apply_body_patch-integrity http patch name headers body h =
    let stripped = remove_body_integrity_headers headers in
    let gone = get_header-remove_body_integrity_headers name headers h in
    let other = not_content_type name h in
    elim (Option-cases patch.content_type) [
      | inl e ↦ ground arith
      | inr (content_type, e) ↦ elim (Option-cases (http.header_value content_type)) [
        | inl f ↦ ground arith
        | inr (value, f) ↦
            ground (arith, get_header-insert_header name (codes "content-type") value stripped)
      ]
    ]

-- Whatever a response patch with a body sets or removes, afterwards the body is that of the patch, and no
-- header describes the length, the encoding or a checksum of another body.
apply_response_patch-integrity :
    (http : HttpParsers) (parts : ResponseParts) (body : Bytes) (patch : FilterResponsePatch)
    {body_patch : FilterBodyPatch} (name : Str)
    → patch.body ≡ some body_patch
    → any (λ h. str_eq h name) integrity_headers ≡ true
    → (get_header name (apply_response_patch http parts body patch).0.headers ≡ none)
      × ((apply_response_patch http parts body patch).1 ≡ body_patch.bytes)
unfolding apply_response_patch
apply_response_patch-integrity http parts body patch {body_patch} name e h =
    let headers = apply_header_patch http patch.set_headers patch.remove_headers parts.headers in
    simp e (apply_body_patch-integrity http body_patch name headers body h)
