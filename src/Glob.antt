-- ===== src/Glob.antt =====
-- src/filters/types.rs, `glob_match` and `matches_any_glob`: how a filter's trigger compares a pattern
-- with `*` against a host or a path.
mod Pieces
mod Sound
mod Complete
pub mod Exact
pub mod Prefixed
mod Tests
use inspect.Common.{
  ℕ, zero, suc, ◌+◌, Bool, true, false, not, ◌&&◌, ◌||◌, Option, none, some, List, [], ◌∷◌, Str,
  str_eq, to_ascii_lowercase, starts_with, is_empty, length, drop, any, ◌==◌, if◌then◌else◌,
}
unfoldable pub use inspect.Common.{find}

abbrev pub wildcard : ℕ
wildcard = b'*'

-- `str::split('*')`: the pieces between the wildcards, at least one.
abbrev pub prepend : ℕ → List Str → List Str
prepend c [] = (c ∷ []) ∷ []
prepend c (piece ∷ pieces) = (c ∷ piece) ∷ pieces

unfoldable pub split_wildcard : Str → List Str
split_wildcard [] = [] ∷ []
split_wildcard (c ∷ s) =
    let rest = split_wildcard s in if c == wildcard then [] ∷ rest else prepend c rest

-- The filter `!part.is_empty()`.
unfoldable pub non_empty : List Str → List Str
non_empty [] = []
non_empty (part ∷ parts) = let rest = non_empty parts in if is_empty part then rest else part ∷ rest

unfoldable pub contains_wildcard : Str → Bool
contains_wildcard s = any (λ c. c == wildcard) s

unfoldable pub starts_with_wildcard : Str → Bool
starts_with_wildcard [] = false
starts_with_wildcard (c ∷ s) = c == wildcard

unfoldable pub ends_with_wildcard : Str → Bool
ends_with_wildcard [] = false
ends_with_wildcard (c ∷ []) = c == wildcard
ends_with_wildcard (c ∷ d ∷ s) = ends_with_wildcard (d ∷ s)

unfoldable pub strip_prefix : Str → Str → Option Str
strip_prefix part rest = if starts_with part rest then some (drop (length part) rest) else none

-- The rounds of the loop with `idx` past the anchored part: the text left behind all parts.
unfoldable pub match_parts : List Str → Str → Option Str
match_parts [] rest = some rest
match_parts (part ∷ parts) rest = elim (find part rest) [
  | none ↦ none
  | some i ↦ match_parts parts (drop (i + length part) rest)
]

-- The loop from `idx` 0, where a pattern that does not begin with a wildcard is anchored.
unfoldable pub match_from : Bool → List Str → Str → Option Str
unfolding match_parts
match_from anchored [] rest = some rest
match_from true (part ∷ parts) rest = elim (strip_prefix part rest) [
  | none ↦ none
  | some next ↦ match_parts parts next
]
match_from false (part ∷ parts) rest = match_parts (part ∷ parts) rest

-- The end of the function, on the text left.
abbrev pub accepts : Bool → Option Str → Bool
accepts open_end none = false
accepts open_end (some rest) = open_end || is_empty rest

-- `glob_match` behind the lowering of both texts, on the pieces of the pattern.
unfoldable pub glob_match_lowered : Str → Str → Bool
glob_match_lowered pattern value =
    let parts = non_empty (split_wildcard pattern) in
    if not (contains_wildcard pattern)
    then str_eq pattern value
    else if is_empty parts
    then true
    else accepts (ends_with_wildcard pattern)
        (match_from (not (starts_with_wildcard pattern)) parts value)

unfoldable pub glob_match : Str → Str → Bool
glob_match pattern value =
    if str_eq pattern (wildcard ∷ [])
    then true
    else glob_match_lowered (to_ascii_lowercase pattern) (to_ascii_lowercase value)

unfoldable pub matches_any_glob : List Str → Str → Bool
matches_any_glob patterns value =
    is_empty patterns || any (λ pattern. glob_match pattern value) patterns
