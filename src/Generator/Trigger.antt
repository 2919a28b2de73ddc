-- ===== src/Generator/Trigger.antt =====
-- src/filters/generator.rs: the path trigger of a generated filter and the path that it was made of.
use inspect.Common.{
  ℕ, ◌≡◌, refl, ap, ◌∙◌, true, ◌||◌, Option, none, some, [], ◌∷◌, ◌++◌, Str, codes, append_assoc,
  append-nil, ◌==◌, if◌then◌else◌, Bool-cases, inl, inr, arith, rsplit_once, ends_with_char, str_eq,
  is_empty, subst,
}
use inspect.Glob.{glob_match, wildcard}
use inspect.Glob.Prefixed.{glob_match-prefix}
use inspect.Generator.Rewrite.{path_trigger_for_original_path}

abbrev first_of : Option (Str × Str) → Str
first_of none = []
first_of (some (a, b)) = a

abbrev second_of : Option (Str × Str) → Str
second_of none = []
second_of (some (a, b)) = b

some_pair :
    {a b c d : Str} → ◌≡◌ {A = Option (Str × Str)} (some (a, b)) (some (c, d)) → (a ≡ c) × (b ≡ d)
some_pair {a} {b} {c} {d} h = (ap (λ o. first_of o) h, ap (λ o. second_of o) h)

rsplit_once-step :
    (sep c : ℕ) (s before behind : Str) (o : Option (Str × Str))
    → rsplit_once sep s ≡ o
    → ((left right : Str) → o ≡ some (left, right) → s ≡ left ++ (sep ∷ right))
    → rsplit_once sep (c ∷ s) ≡ some (before, behind)
    → c ∷ s ≡ before ++ (sep ∷ behind)
unfolding rsplit_once
rsplit_once-step sep c s before behind (some (left, right)) e ih h =
    let whole : some (c ∷ left, right) ≡ some (before, behind) = rw e at h in
    let (l, r) = some_pair whole in
    ap (◌∷◌ c) (ih left right refl)
    ∙ ap (λ a. a ++ (sep ∷ right)) l
    ∙ ap (λ b. before ++ (sep ∷ b)) r
rsplit_once-step sep c s before behind none e ih h = elim (Bool-cases (c == sep)) [
  | inl same ↦
      let whole : some ([], s) ≡ some (before, behind) = rw (e, same) at h in
      let (l, r) = some_pair whole in
      let first : c ≡ sep = ground (arith, same) in
      ap (λ d. d ∷ s) first ∙ ap (λ a. a ++ (sep ∷ s)) l ∙ ap (λ b. before ++ (sep ∷ b)) r
  | inr other ↦ let wrong : none ≡ some (before, behind) = rw (e, other) at h in absurd (cc wrong)
]

rsplit_once-append :
    (sep : ℕ) (s before behind : Str)
    → rsplit_once sep s ≡ some (before, behind)
    → s ≡ before ++ (sep ∷ behind)
unfolding rsplit_once
rsplit_once-append sep [] before behind h = absurd (cc h)
rsplit_once-append sep (c ∷ s) before behind h =
    rsplit_once-step sep c s before behind _ refl
      (λ left right e. rsplit_once-append sep s left right e) h

folder_trigger :
    (before behind : Str) → glob_match (before ++ codes "/*") (before ++ (b'/' ∷ behind)) ≡ true
folder_trigger before behind =
    let slash : Str = b'/' ∷ [] in
    subst (λ pattern. glob_match pattern (before ++ (b'/' ∷ behind)) ≡ true)
      (append_assoc before slash (wildcard ∷ []))
      (subst (λ path. glob_match ((before ++ slash) ++ (wildcard ∷ [])) path ≡ true)
        (append_assoc before slash behind) (glob_match-prefix (before ++ slash) behind))

trigger_of :
    (path : Str) (o : Option (Str × Str))
    → rsplit_once b'/' path ≡ o
    → glob_match
        (elim o as (λ _. Str) [
          | none ↦ codes "*"
          | some (prefix, last) ↦ if is_empty prefix then codes "/*" else prefix ++ codes "/*"
        ])
        path
      ≡ true
trigger_of path none h = glob_match-prefix [] path
trigger_of path (some ([], behind)) h =
    rw (rsplit_once-append b'/' path [] behind h) (folder_trigger [] behind)
trigger_of path (some (c ∷ before, behind)) h =
    rw (rsplit_once-append b'/' path (c ∷ before) behind h) (folder_trigger (c ∷ before) behind)

-- The path trigger that a generated filter gets accepts the path that it was made of.
pub glob_match-path_trigger :
    (path : Str) → glob_match (path_trigger_for_original_path path) path ≡ true
unfolding path_trigger_for_original_path
glob_match-path_trigger path = elim (Bool-cases (str_eq path (codes "/") || is_empty path)) [
  | inl root ↦ rw root (glob_match-prefix [] path)
  | inr longer ↦ rw longer (elim (Bool-cases (ends_with_char b'/' path)) [
    | inl folder ↦ rw folder (
        subst (λ p. glob_match (path ++ (wildcard ∷ [])) p ≡ true) (append-nil path)
          (glob_match-prefix path []))
    | inr file ↦ rw file (trigger_of path _ refl)
  ])
]
