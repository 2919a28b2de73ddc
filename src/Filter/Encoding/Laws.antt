-- ===== src/Filter/Encoding/Laws.antt =====
-- The encodings of src/mitm/flow/body_encoding.rs, for a header that lists several.
use inspect.Common.{
  ℕ, ◌≡◌, refl, ap, sym, ◌∙◌, arith, false, some, [], ◌∷◌, ◌++◌, Str, Bytes, any,
  to_ascii_lowercase, ◌==◌, trim,
}
use inspect.Filter.Encoding.{Decoders, before_first, decode_by_content_encoding_header, decode_as}

before_first-append :
    (sep : ℕ) (first rest : Str)
    → any (λ c. c == sep) first ≡ false
    → before_first sep (first ++ (sep ∷ rest)) ≡ before_first sep first
unfolding before_first
before_first-append sep [] rest h = ground arith
before_first-append sep (c ∷ first) rest h = ground (arith, before_first-append sep first rest)

decode_as_text :
    (decoders : Decoders) (value : Str) (body : Bytes) {text : Str}
    → decoders.to_str value ≡ some text
    → decode_by_content_encoding_header decoders value body
      ≡ decode_as decoders (to_ascii_lowercase (trim (before_first b',' text))) body
unfolding decode_by_content_encoding_header
decode_as_text decoders value body e = rw (e, decode_by_content_encoding_header) refl

-- Of an encoding header that lists several encodings, only the first is undone: for a value that can be
-- read as text, the decoding is that of the text in front of its first comma.
pub decode_by_content_encoding_header-first :
    (decoders : Decoders) (value other first rest : Str) (body : Bytes)
    → any (λ c. c == b',') first ≡ false
    → decoders.to_str value ≡ some (first ++ (b',' ∷ rest))
    → decoders.to_str other ≡ some first
    → decode_by_content_encoding_header decoders value body
      ≡ decode_by_content_encoding_header decoders other body
decode_by_content_encoding_header-first decoders value other first rest body plain v o =
    decode_as_text decoders value body v
    ∙ ap (λ t. decode_as decoders (to_ascii_lowercase (trim t)) body)
        (before_first-append b',' first rest plain)
    ∙ sym (decode_as_text decoders other body o)
