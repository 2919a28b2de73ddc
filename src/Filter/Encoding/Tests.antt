-- ===== src/Filter/Encoding/Tests.antt =====
-- Encodings of concrete bodies, for the modules of Filter.Encoding.
use inspect.Common.{
  ◌≡◌, refl, none, some, [], ◌∷◌, ◌++◌, codes, str_eq, is_whitespace, starts_with, trim_start,
  trim_end,
}
use inspect.Filter.Patch.{HeaderMap, get_header}
use inspect.Filter.Encoding.{
  Decoders, before_first, split_on, join, suffix_of, suffixes_of, decode_as,
  decode_by_content_encoding_header, decode_content_encoded_body, decode_body_by_magic_number,
  decoded_body_or_raw, content_encoding_suffixes, body_file_name, normalized_content_type,
}
use inspect.Filter.Encoding.Laws.{decode_by_content_encoding_header-first}

-- Decoders that mark what they decoded.
abbrev decoders : Decoders
decoders = record {
  to_str = λ value. some value;
  gzip = λ body. some (codes "gunzipped " ++ body);
  deflate = λ body. none;
  brotli = λ body. some (codes "unbrotlied " ++ body);
  zstd = λ body. none;
}

abbrev headers : HeaderMap
headers =
    (codes "content-encoding", codes "GZIP, br")
    ∷ (codes "content-type", codes " Text/HTML ; charset=utf-8")
    ∷ []

runs :
    (decoded_body_or_raw decoders headers (codes "x") ≡ codes "gunzipped x")
    × (decoded_body_or_raw decoders [] (codes "x") ≡ codes "x")
    × (body_file_name decoders (codes "body") headers ≡ codes "body.gz.br")
    × (normalized_content_type decoders headers ≡ some (codes "text/html"))
unfolding decoded_body_or_raw decode_content_encoded_body decode_body_by_magic_number
    decode_by_content_encoding_header decode_as before_first get_header str_eq trim_start trim_end
    is_whitespace body_file_name content_encoding_suffixes suffixes_of suffix_of split_on join
    normalized_content_type starts_with
runs = (refl, refl, refl, refl)

decode_by_content_encoding_header-first_example :
    decode_by_content_encoding_header decoders (codes "gzip,br") (codes "x")
    ≡ decode_by_content_encoding_header decoders (codes "gzip") (codes "x")
decode_by_content_encoding_header-first_example =
    decode_by_content_encoding_header-first decoders (codes "gzip,br") (codes "gzip") (codes "gzip")
      (codes "br") (codes "x") refl refl refl
