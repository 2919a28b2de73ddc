-- ===== src/Generator/Tests.antt =====
-- src/filters/generator.rs on concrete texts.
use inspect.Common.{◌≡◌, refl, true, some, [], ◌∷◌, ◌++◌, Str, codes, contains, is_whitespace}
use inspect.Glob.{glob_match}
use inspect.Generator.{response_body_contains}
use inspect.Generator.Rewrite.{path_trigger_for_original_path, response_body_rewrite_anchor}
use inspect.Generator.Rewrite.Anchor.{response_body_rewrite_anchor-contains}
use inspect.Generator.Trigger.{glob_match-path_trigger}
use inspect.Generator.Quoting.{quoted_string}
use inspect.Generator.Quoting.RoundTrip.{read_literal, read_literal-quoted_string}

-- a"\b<LF>
abbrev awkward : Str
awkward = b'a' ∷ 34 ∷ 92 ∷ b'b' ∷ 10 ∷ 7 ∷ []

read_literal-quoted_string_example :
    read_literal (quoted_string awkward ++ codes "); drop()") ≡ some (awkward, codes "); drop()")
read_literal-quoted_string_example = read_literal-quoted_string awkward (codes "); drop()")

glob_match-path_trigger_example :
    glob_match (path_trigger_for_original_path (codes "/Api/v1/users")) (codes "/Api/v1/users")
    ≡ true
glob_match-path_trigger_example = glob_match-path_trigger (codes "/Api/v1/users")

trigger_of_users : path_trigger_for_original_path (codes "/Api/v1/users") ≡ codes "/Api/v1/*"
unfolding path_trigger_for_original_path
trigger_of_users = refl

response_body_rewrite_anchor-contains_example :
    (anchor : Str) × (response_body_contains (codes "first line") ≡ response_body_contains anchor)
    × (contains anchor (codes " first line\nprice: 1\n") ≡ true)
unfolding response_body_rewrite_anchor is_whitespace
response_body_rewrite_anchor-contains_example =
    response_body_rewrite_anchor-contains (codes " first line\nprice: 1\n")
      (some (codes "first line\nprice: 2")) (response_body_contains (codes "first line")) refl
