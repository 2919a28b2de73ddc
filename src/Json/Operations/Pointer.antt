-- ===== src/Json/Operations/Pointer.antt =====
-- src/filters/engine/json/capture.rs: the pointer of a path, read by the rules of RFC 6901.
use inspect.Common.{
  ℕ, ◌≡◌, refl, sym, ap, ◌∙◌, false, some, List, [], ◌∷◌, ◌++◌, map, Str, codes, decimal, arith,
  ◌==◌, if◌then◌else◌, All-append, Lacks, append_assoc, append-nil, decimal-Lacks, inl, inr, drop,
  subst,
}
use inspect.Diff.{DiffPathSegment, json_key, json_index, replace_char, body_json}
use inspect.Filter.Encoding.{split_on}
use inspect.Json.Operations.{
  escape_json_pointer_segment, pointer_behind_body, json_pointer_from_diff_path,
}

-- RFC 6901: a pointer is its tokens, each behind a slash; in a token `~1` is a slash and `~0` a tilde.
unfoldable pub unescape : Str → Str
unescape [] = []
unescape (c ∷ []) = c ∷ []
unescape (c ∷ d ∷ s) =
    let behind = unescape s in
    let next = unescape (d ∷ s) in
    if c == b'~'
    then (if d == b'1' then b'/' ∷ behind else if d == b'0' then b'~' ∷ behind else c ∷ next)
    else c ∷ next

unfoldable pub tokens : Str → List Str
unfolding unescape split_on
tokens pointer = map unescape (drop 1 (split_on b'/' pointer))

abbrev pub Steps : List DiffPathSegment → Type 0
Steps [] = Unit {0}
Steps (json_key key ∷ at) = Steps at
Steps (json_index index ∷ at) = Steps at
Steps (segment ∷ at) = ⊥

-- What a step looks for.
abbrev pub token : DiffPathSegment → Str
token (json_key key) = key
token (json_index index) = decimal index
token _ = []

abbrev escaped_token : DiffPathSegment → Str
escaped_token (json_key key) = escape_json_pointer_segment key
escaped_token (json_index index) = decimal index
escaped_token _ = []

replace_char-append :
    (c : ℕ) (by s t : Str) → replace_char c by (s ++ t) ≡ replace_char c by s ++ replace_char c by t
unfolding replace_char
replace_char-append c by [] t = refl
replace_char-append c by (d ∷ s) t =
    ap (λ r. (if d == c then by else d ∷ []) ++ r) (replace_char-append c by s t)
    ∙ sym (append_assoc (if d == c then by else d ∷ []) (replace_char c by s) (replace_char c by t))

-- How one character is escaped.
escaped : ℕ → Str
escaped c = if c == b'~' then codes "~0" else if c == b'/' then codes "~1" else c ∷ []

escape-cons :
    (c : ℕ) (s : Str)
    → escape_json_pointer_segment (c ∷ s) ≡ escaped c ++ escape_json_pointer_segment s
unfolding escape_json_pointer_segment escaped
escape-cons c s =
    replace_char-append b'/' (codes "~1") (if c == b'~' then codes "~0" else c ∷ [])
      (replace_char b'~' (codes "~0") s)
    ∙ ap (λ r. r ++ escape_json_pointer_segment s) one
  where
    one :
        replace_char b'/' (codes "~1") (if c == b'~' then codes "~0" else c ∷ [])
        ≡ (if c == b'~' then codes "~0" else if c == b'/' then codes "~1" else c ∷ [])
    one = ground arith

escaped-Lacks : (c : ℕ) → Lacks b'/' (escaped c)
unfolding escaped
escaped-Lacks c = ground arith

escape-Lacks : (s : Str) → Lacks b'/' (escape_json_pointer_segment s)
unfolding escape_json_pointer_segment
escape-Lacks [] = tt
escape-Lacks (c ∷ s) =
    subst (Lacks b'/') (sym (escape-cons c s))
      (All-append _ (escaped c) (escape_json_pointer_segment s) (escaped-Lacks c) (escape-Lacks s))

unescape_plain : (c : ℕ) (s : Str) → (c == b'~') ≡ false → unescape (c ∷ s) ≡ c ∷ unescape s
unfolding unescape
unescape_plain c [] h = refl
unescape_plain c (d ∷ s) h = rw h refl

unescape_tilde : (s : Str) → unescape (126 ∷ 48 ∷ s) ≡ 126 ∷ unescape s
unfolding unescape
unescape_tilde s = refl

unescape_slash : (s : Str) → unescape (126 ∷ 49 ∷ s) ≡ 47 ∷ unescape s
unfolding unescape
unescape_slash s = refl

unescape-escaped : (c : ℕ) (s : Str) → unescape (escaped c ++ s) ≡ c ∷ unescape s
unfolding escaped
unescape-escaped c s = ground (arith, unescape_tilde s, unescape_slash s, unescape_plain c s)

unescape-escape : (s : Str) → unescape (escape_json_pointer_segment s) ≡ s
unfolding escape_json_pointer_segment unescape
unescape-escape [] = refl
unescape-escape (c ∷ s) =
    ap unescape (escape-cons c s)
    ∙ unescape-escaped c (escape_json_pointer_segment s)
    ∙ ap (◌∷◌ c) (unescape-escape s)

unescape_of_Lacks : (s : Str) → Lacks b'~' s → unescape s ≡ s
unfolding unescape
unescape_of_Lacks [] h = refl
unescape_of_Lacks (c ∷ s) (other, h) = unescape_plain c s other ∙ ap (◌∷◌ c) (unescape_of_Lacks s h)

ap2 : {c d : Str} {s t : List Str} → c ≡ d → s ≡ t → (c ∷ s) ≡ (d ∷ t)
ap2 p q = λ i. p i ∷ q i

split_on-Lacks : (sep : ℕ) (s : Str) → Lacks sep s → split_on sep s ≡ s ∷ []
unfolding split_on
split_on-Lacks sep [] h = refl
split_on-Lacks sep (c ∷ s) (other, h) = rw (other, split_on-Lacks sep s h) refl

split_on-append :
    (sep : ℕ) (s t : Str) → Lacks sep s → split_on sep (s ++ (sep ∷ t)) ≡ s ∷ split_on sep t
unfolding split_on
split_on-append sep [] t h = ground arith
split_on-append sep (c ∷ s) t (other, h) = rw (other, split_on-append sep s t h) refl

-- Behind a token the pointer goes on with the tokens of the other steps.
split_on-pointer :
    (s : Str) (at : List DiffPathSegment)
    → Lacks b'/' s
    → Steps at
    → split_on b'/' (s ++ pointer_behind_body at) ≡ s ∷ map escaped_token at
unfolding pointer_behind_body
split_on-pointer s [] h k = ap (split_on b'/') (append-nil s) ∙ split_on-Lacks b'/' s h
split_on-pointer s (json_key key ∷ at) h k =
    split_on-append b'/' s _ h
    ∙ ap (◌∷◌ s) (split_on-pointer (escape_json_pointer_segment key) at (escape-Lacks key) k)
split_on-pointer s (json_index index ∷ at) h k =
    split_on-append b'/' s _ h
    ∙ ap (◌∷◌ s)
        (split_on-pointer (decimal index) at (decimal-Lacks b'/' index (inr (omega arith))) k)
split_on-pointer s (_ ∷ at) h k = absurd k

map-unescape :
    (at : List DiffPathSegment) → Steps at → map unescape (map escaped_token at) ≡ map token at
map-unescape [] h = refl
map-unescape (json_key key ∷ at) h = ap2 (unescape-escape key) (map-unescape at h)
map-unescape (json_index index ∷ at) h =
    ap2 (unescape_of_Lacks (decimal index) (decimal-Lacks b'~' index (inl (omega arith))))
      (map-unescape at h)
map-unescape (_ ∷ at) h = absurd h

-- The pointer that is made of a path in the body, read by RFC 6901, looks for the keys and the indices
-- of the path, in their order, whatever characters the keys have.
pub tokens-json_pointer :
    (at : List DiffPathSegment)
    → Steps at
    → (pointer : Str) × (json_pointer_from_diff_path (body_json at) ≡ some pointer)
      × (tokens pointer ≡ map token at)
unfolding json_pointer_from_diff_path body_json tokens
tokens-json_pointer at h = (
  pointer_behind_body at,
  refl,
  ap (λ ts. map unescape (drop 1 ts)) (split_on-pointer [] at tt h) ∙ map-unescape at h,
)
