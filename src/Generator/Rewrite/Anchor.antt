-- ===== src/Generator/Rewrite/Anchor.antt =====
-- src/filters/generator.rs: the condition on the body that a generated response filter gets, and the body
-- that it was made of.
use inspect.Common.{
  ℕ, ◌≡◌, refl, sym, ap, ◌∙◌, Bool, true, false, ◌||◌, ◌&&◌, Option, none, some, List, [], ◌∷◌,
  ◌++◌, Str, append_assoc, append-nil, ◌==◌, if◌then◌else◌, Bool-cases, inl, inr, arith, All, trim,
  trim_start, trim_end, lines, is_whitespace, take, drop, take-append-drop, contains,
  contains-append, starts_with, line_feed, carriage_return, lengthen, length, ltb, leb, is_empty,
  str_eq, subst,
}
use inspect.Generator.{GeneratedFilterCondition, response_body_contains}
use inspect.Generator.Rewrite.{line_anchor, common_text_anchor, response_body_rewrite_anchor}

-- A text that stands somewhere in another.
abbrev Infix : Str → Str → Type 0
Infix part s = (before : Str) × (behind : Str) × (s ≡ before ++ (part ++ behind))

Infix_trans : (p q s : Str) → Infix p q → Infix q s → Infix p s
Infix_trans p q s (b, e, h) (b', e', k) = (b' ++ b, e ++ e', k ∙ rw h (simp append_assoc))

cons-Infix : (c : ℕ) (p s : Str) → Infix p s → Infix p (c ∷ s)
cons-Infix c p s (before, behind, h) = (c ∷ before, behind, ap (◌∷◌ c) h)

trim_start-Infix : (s : Str) → Infix (trim_start s) s
unfolding trim_start
trim_start-Infix [] = ([], [], refl)
trim_start-Infix (c ∷ s) = elim (Bool-cases (is_whitespace c)) [
  | inl white ↦ rw white (cons-Infix c (trim_start s) s (trim_start-Infix s))
  | inr black ↦ rw black ([], [], sym (append-nil (c ∷ s)))
]

trim_end-step :
    (c : ℕ) (s : Str) (r : Str)
    → trim_end s ≡ r
    → (behind : Str) × (s ≡ r ++ behind)
    → (behind : Str) × (c ∷ s ≡ trim_end (c ∷ s) ++ behind)
unfolding trim_end
trim_end-step c s [] e (behind, h) = elim (Bool-cases (is_whitespace c)) [
  | inl white ↦ (c ∷ s, rw (e, white) refl)
  | inr black ↦ (s, rw (e, black) refl)
]
trim_end-step c s (d ∷ r) e (behind, h) = (behind, rw e (ap (◌∷◌ c) h))

trim_end-prefix : (s : Str) → (behind : Str) × (s ≡ trim_end s ++ behind)
unfolding trim_end
trim_end-prefix [] = ([], refl)
trim_end-prefix (c ∷ s) = trim_end-step c s _ refl (trim_end-prefix s)

trim-Infix : (s : Str) → Infix (trim s) s
trim-Infix s =
    let (behind, h) = trim_end-prefix (trim_start s) in
    Infix_trans (trim s) (trim_start s) s ([], behind, h) (trim_start-Infix s)

take-Infix : (n : ℕ) (s : Str) → Infix (take n s) s
take-Infix n s = ([], drop n s, sym (take-append-drop n s))

-- The first line stands at the beginning of the text.
abbrev Heads : List Str → Str → Type 0
Heads [] s = Unit {0}
Heads (line ∷ rest) s = (behind : Str) × (s ≡ line ++ behind)

abbrev AllInfix : List Str → Str → Type 0
AllInfix ls s = All (λ line. Infix line s) ls

cons-AllInfix : (c : ℕ) (ls : List Str) (s : Str) → AllInfix ls s → AllInfix ls (c ∷ s)
cons-AllInfix c [] s h = tt
cons-AllInfix c (line ∷ rest) s (here, h) = (cons-Infix c line s here, cons-AllInfix c rest s h)

lengthen-AllInfix :
    (c : ℕ) (ls : List Str) (s : Str)
    → Heads ls s
    → AllInfix ls s
    → Heads (lengthen c ls) (c ∷ s) × AllInfix (lengthen c ls) (c ∷ s)
lengthen-AllInfix c [] s first h = ((s, refl), (([], s, refl), tt))
lengthen-AllInfix c (line ∷ rest) s (behind, e) (here, h) =
    ((behind, ap (◌∷◌ c) e), (([], behind, ap (◌∷◌ c) e), cons-AllInfix c rest s h))

-- A carriage return in front of a line feed ends an empty line.
Heads-carriage_return :
    (c : ℕ) (s : Str) → starts_with (line_feed ∷ []) s ≡ true → Heads (lines s) (c ∷ s)
unfolding lines starts_with
Heads-carriage_return c [] h = tt
Heads-carriage_return c (d ∷ s) h =
    let feed : (d == line_feed) ≡ true = ground (arith, h) in rw feed (c ∷ d ∷ s, refl)

lines-AllInfix : (s : Str) → Heads (lines s) s × AllInfix (lines s) s
unfolding lines
lines-AllInfix [] = (tt, tt)
lines-AllInfix (c ∷ s) =
    let (first, rest) = lines-AllInfix s in
    elim (Bool-cases (c == line_feed)) [
      | inl feed ↦ rw feed ((c ∷ s, refl), (([], c ∷ s, refl), cons-AllInfix c (lines s) s rest))
      | inr other ↦ elim (Bool-cases (c == carriage_return && starts_with (line_feed ∷ []) s)) [
        | inl ends ↦
            let next : starts_with (line_feed ∷ []) s ≡ true = ground (arith, ends) in
            rw (other, ends) (Heads-carriage_return c s next, cons-AllInfix c (lines s) s rest)
        | inr inside ↦ rw (other, inside) (lengthen-AllInfix c (lines s) s first rest)
      ]
    ]

line_anchor-Infix :
    (ls : List Str) (edited anchor s : Str)
    → AllInfix ls s
    → line_anchor ls edited ≡ some anchor
    → Infix anchor s
unfolding line_anchor
line_anchor-Infix [] edited anchor s h e = absurd (cc e)
line_anchor-Infix (raw ∷ rest) edited anchor s (here, h) e =
    elim (Bool-cases (ltb (length (trim raw)) 8)) [
      | inl short ↦
          let later : line_anchor rest edited ≡ some anchor = rw short at e in
          line_anchor-Infix rest edited anchor s h later
      | inr long ↦ elim (Bool-cases (contains (take 96 (trim raw)) edited)) [
        | inl kept ↦
            let found : some (take 96 (trim raw)) ≡ some anchor = rw (long, kept) at e in
            subst (λ a. Infix a s) (ground (arith, found))
              (Infix_trans (take 96 (trim raw)) (trim raw) s (take-Infix 96 (trim raw))
                (Infix_trans (trim raw) raw s (trim-Infix raw) here))
        | inr gone ↦
            let later : line_anchor rest edited ≡ some anchor = rw (long, gone) at e in
            line_anchor-Infix rest edited anchor s h later
      ]
    ]

if_some : (test : Bool) (s t : Str) → (if test then some s else none) ≡ some t → s ≡ t
if_some true s t h = ground arith
if_some false s t h = absurd (cc h)

common_text_anchor-step :
    (original edited anchor : Str) (o : Option Str)
    → line_anchor (lines original) edited ≡ o
    → common_text_anchor original edited ≡ some anchor
    → Infix anchor original
unfolding common_text_anchor
common_text_anchor-step original edited anchor (some found) l e =
    let same : some found ≡ some anchor = rw (common_text_anchor, l) at e in
    line_anchor-Infix (lines original) edited anchor original (lines-AllInfix original).1 (l ∙ same)
common_text_anchor-step original edited anchor none l e =
    let same =
      if_some (leb 8 (length (take 96 original))) (take 96 original) anchor
        (rw (common_text_anchor, l) at e) in
    subst (λ a. Infix a original) same (take-Infix 96 original)

common_text_anchor-Infix :
    (original edited anchor : Str)
    → common_text_anchor original edited ≡ some anchor
    → Infix anchor original
common_text_anchor-Infix original edited anchor e =
    common_text_anchor-step original edited anchor _ refl e

anchor-contains :
    (original edited : Str) (condition : GeneratedFilterCondition) (o : Option Str)
    → common_text_anchor (trim original) (trim edited) ≡ o
    → response_body_rewrite_anchor (some original) (some edited) ≡ some condition
    → (is_empty (trim original) || str_eq (trim original) (trim edited)) ≡ false
    → (anchor : Str) × (condition ≡ response_body_contains anchor)
      × (contains anchor original ≡ true)
unfolding response_body_rewrite_anchor
anchor-contains original edited condition none c h used =
    let wrong : none ≡ some condition = rw (used, c) at h in absurd (cc wrong)
anchor-contains original edited condition (some anchor) c h used =
    let same : some (response_body_contains anchor) ≡ some condition = rw (used, c) at h in
    let (before, behind, e) =
      Infix_trans anchor (trim original) original
        (common_text_anchor-Infix (trim original) (trim edited) anchor c) (trim-Infix original) in
    (anchor, ground (arith, same), rw e (contains-append anchor before behind))

-- The condition on the body that a generated response filter gets holds for the body that it was made of:
-- the text it looks for stands in that body.
pub response_body_rewrite_anchor-contains :
    (original : Str) (edited : Option Str) (condition : GeneratedFilterCondition)
    → response_body_rewrite_anchor (some original) edited ≡ some condition
    → (anchor : Str) × (condition ≡ response_body_contains anchor)
      × (contains anchor original ≡ true)
unfolding response_body_rewrite_anchor
response_body_rewrite_anchor-contains original none condition h = absurd (cc h)
response_body_rewrite_anchor-contains original (some edited) condition h =
    elim (Bool-cases (is_empty (trim original) || str_eq (trim original) (trim edited))) [
      | inl skipped ↦ let wrong : none ≡ some condition = rw skipped at h in absurd (cc wrong)
      | inr used ↦ anchor-contains original edited condition _ refl h used
    ]
