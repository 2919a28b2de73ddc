-- ===== src/Filter/Trigger/Tests.antt =====
-- Triggers at concrete requests, for the modules of Filter.Trigger.
use inspect.Common.{◌≡◌, refl, true, false, [], ◌∷◌, codes, str_eq, starts_with}
use inspect.Glob.{
  glob_match, matches_any_glob, split_wildcard, glob_match_lowered, match_from, match_parts,
  non_empty, contains_wildcard, starts_with_wildcard, ends_with_wildcard, find, strip_prefix,
}
use inspect.Filter.Trigger.{
  FilterTrigger, FilterRequestView, default_trigger, matches_request, matches_connect,
  matches_phase, matches_host, matches_path, matches_method, eq_ignore_ascii_case, phase_eq,
  request,
}

abbrev api : FilterTrigger
api = record {
  host = codes "*.Example.com" ∷ [];
  path = codes "/api/*" ∷ [];
  method = codes "post" ∷ [];
  phase = request ∷ [];
}

abbrev view : FilterRequestView
view = record { host = codes "www.example.com"; path = codes "/api/v1"; method = codes "POST" }

abbrev loud : FilterRequestView
loud = record { host = codes "WWW.EXAMPLE.COM"; path = codes "/API/v1"; method = codes "Post" }

runs :
    (matches_request api view ≡ true)
    × (matches_request api (record view { method = codes "GET" }) ≡ false)
    × (matches_request default_trigger view ≡ true)
    × (matches_connect api (record { host = codes "www.example.com"; port = 443 }) ≡ false)
unfolding matches_request matches_connect matches_phase matches_host matches_path matches_method
    eq_ignore_ascii_case phase_eq glob_match matches_any_glob split_wildcard glob_match_lowered
    match_from match_parts non_empty contains_wildcard starts_with_wildcard ends_with_wildcard find
    strip_prefix str_eq starts_with
runs = (refl, refl, refl, refl)
