-- ===== src/Dispatch/Tests.antt =====
-- src/mitm/flow/dispatcher.rs on a concrete response.
use inspect.Common.{◌≡◌, refl, some, [], ◌∷◌, codes, str_eq}
use inspect.Filter.Patch.{HeaderMap}
use inspect.Filter.Encoding.{Decoders}
use inspect.Dispatch.{stream, response_status_never_has_body, content_length, response_body_mode}

abbrev plain_decoders : Decoders
plain_decoders = record { to_str = some; gzip = some; deflate = some; brotli = some; zstd = some }

abbrev large : HeaderMap
large = (codes "content-length", codes "5000") ∷ []

large_is_streamed : response_body_mode plain_decoders (codes "GET") 200 large 1000 ≡ stream
unfolding response_body_mode response_status_never_has_body content_length str_eq
large_is_streamed = refl
