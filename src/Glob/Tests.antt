-- ===== src/Glob/Tests.antt =====
-- The patterns of the tests in src/filters/types.rs, and the theorems at concrete patterns.
use inspect.Common.{
  ◌≡◌, ◌↔◌, refl, inl, true, false, codes, ◌++◌, to_ascii_lowercase, [], ◌∷◌, str_eq, starts_with,
}
use inspect.Glob.{
  glob_match, matches_any_glob, split_wildcard, glob_match_lowered, match_from, match_parts,
  non_empty, contains_wildcard, starts_with_wildcard, ends_with_wildcard, find, strip_prefix,
  wildcard,
}
use inspect.Glob.Pieces.{Spelled}
use inspect.Glob.Exact.{glob_match_iff, glob_match-suffix_twice}

runs :
    (glob_match (codes "example.com") (codes "example.com") ≡ true)
    × (glob_match (codes "example.com") (codes "api.example.com") ≡ false)
    × (glob_match (codes "*.example.com") (codes "api.example.com") ≡ true)
    × (glob_match (codes "/api/*/x") (codes "/API/v1/x") ≡ true)
    × (glob_match (codes "a*a") (codes "a") ≡ false)
    × (matches_any_glob [] (codes "x") ≡ true)
    × (matches_any_glob (codes "a" ∷ codes "b*" ∷ []) (codes "bc") ≡ true)
unfolding glob_match glob_match_lowered match_from match_parts non_empty contains_wildcard
    starts_with_wildcard ends_with_wildcard find strip_prefix str_eq starts_with split_wildcard
    matches_any_glob
runs = (refl, refl, refl, refl, refl, refl, refl)

glob_match_iff_example :
    (glob_match (codes "/api/*") (codes "/API/v1") ≡ true)
    ↔ Spelled
        (split_wildcard (to_ascii_lowercase (codes "/api/*")))
        (to_ascii_lowercase (codes "/API/v1"))
unfolding ends_with_wildcard
glob_match_iff_example = glob_match_iff (codes "/api/*") (codes "/API/v1") (inl refl)

glob_match-suffix_twice_example :
    (glob_match (wildcard ∷ codes ".js") (codes "a" ++ (codes ".js" ++ (codes "" ++ codes ".js")))
      ≡ false)
    × Spelled
        (split_wildcard (to_ascii_lowercase (wildcard ∷ codes ".js")))
        (to_ascii_lowercase (codes "a" ++ (codes ".js" ++ (codes "" ++ codes ".js"))))
unfolding contains_wildcard
glob_match-suffix_twice_example =
    glob_match-suffix_twice (codes ".js") (codes "a") (codes "") refl (λ e. cc)
