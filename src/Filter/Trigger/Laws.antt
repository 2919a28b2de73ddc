-- ===== src/Filter/Trigger/Laws.antt =====
-- FilterTrigger of src/filters/types.rs, and the case of ASCII letters.
use inspect.Common.{◌≡◌, refl, ap, ◌||◌, List, [], ◌∷◌, Str, to_ascii_lowercase, is_empty, any}
use inspect.Glob.{glob_match, matches_any_glob}
use inspect.Filter.Trigger.{
  FilterTrigger, FilterRequestView, matches_request, matches_host, matches_path, matches_method,
  eq_ignore_ascii_case,
}

glob_match_lower :
    (pattern : Str) (a b : Str)
    → to_ascii_lowercase a ≡ to_ascii_lowercase b
    → glob_match pattern a ≡ glob_match pattern b
unfolding glob_match
glob_match_lower pattern a b e = rw e refl

matches_any_glob_lower :
    (patterns : List Str) (a b : Str)
    → to_ascii_lowercase a ≡ to_ascii_lowercase b
    → matches_any_glob patterns a ≡ matches_any_glob patterns b
unfolding matches_any_glob
matches_any_glob_lower patterns a b e = ap (λ x. is_empty patterns || x) (each patterns)
  where
    each : (ps : List Str) → any (λ p. glob_match p a) ps ≡ any (λ p. glob_match p b) ps
    each [] = refl
    each (p ∷ ps) = cc (glob_match_lower p a b e, each ps)

matches_method_lower :
    (trigger : FilterTrigger) (a b : Str)
    → to_ascii_lowercase a ≡ to_ascii_lowercase b
    → matches_method trigger a ≡ matches_method trigger b
unfolding matches_method eq_ignore_ascii_case
matches_method_lower trigger a b e = rw e refl

-- Two requests whose host, path and method are equal in ASCII lower case match the same triggers,
-- in the phase of requests.
matches_request_lower :
    (trigger : FilterTrigger) (a b : FilterRequestView)
    → to_ascii_lowercase a.host ≡ to_ascii_lowercase b.host
    → to_ascii_lowercase a.path ≡ to_ascii_lowercase b.path
    → to_ascii_lowercase a.method ≡ to_ascii_lowercase b.method
    → matches_request trigger a ≡ matches_request trigger b
unfolding matches_request matches_host matches_path
matches_request_lower trigger a b h p m = cc (
  h,
  matches_any_glob_lower trigger.path a.path b.path p,
  matches_method_lower trigger a.method b.method m,
)
