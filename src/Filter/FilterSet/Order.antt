-- ===== src/Filter/FilterSet/Order.antt =====
-- CompiledFilterSet::new of src/filters/runtime.rs: the order of the filters.
use inspect.Common.{
  str_leb, str_ltb, ℕ, ◌<◌, ◌≡◌, ◌≢◌, ◌⊎◌, refl, ap, sym, subst, ◌∙◌, arith, Bool, true, false, not,
  List, [], ◌∷◌, ◌++◌, Str, length, Bool-cases, inl, inr, ltb,
}
use inspect.Filter.Trigger.{PathBuf}
use inspect.Filter.Program.{CompiledFilter}
use inspect.Filter.FilterSet.{path_leb, filter_leb, insert_filter, new_set, filter_by}

str_ltb-not : (s t : Str) → str_ltb s t ≡ not (str_leb t s)
unfolding str_ltb str_leb
str_ltb-not [] [] = refl
str_ltb-not [] (d ∷ t) = refl
str_ltb-not (c ∷ s) [] = refl
str_ltb-not (c ∷ s) (d ∷ t) = ground (arith, str_ltb-not s t)

path_leb_total : (p q : PathBuf) → path_leb p q ≡ false → path_leb q p ≡ true
unfolding path_leb
path_leb_total [] q h = cc
path_leb_total (s ∷ p) [] h = refl
path_leb_total (s ∷ p) (t ∷ q) h =
    ground (arith, path_leb_total p q, str_ltb-not s t, str_ltb-not t s)

filter_leb_total : (f g : CompiledFilter) → filter_leb f g ≡ false → filter_leb g f ≡ true
unfolding filter_leb
filter_leb_total f g h = ground (arith, path_leb_total f.definition.path g.definition.path)

-- The lexicographic order of lists: two lists are alike up to a place where the first one ends, or has
-- the smaller element.
abbrev pub Lexicographic : {A : Type 0} → (A → A → Type 0) → List A → List A → Type 0
Lexicographic {A} less s t =
    ((rest : List A) × (t ≡ s ++ rest))
    ⊎ ((common : List A) × (a : A) × (b : A) × (s' : List A) × (t' : List A) × (s
          ≡ common ++ (a ∷ s'))
        × (t ≡ common ++ (b ∷ t'))
        × less a b)

-- A text is less than another one that it does not begin with.
abbrev pub TextBelow : Str → Str → Type 0
TextBelow s t = Lexicographic ◌<◌ s t × (s ≢ t)

abbrev pub NotBehind : CompiledFilter → CompiledFilter → Type 0
NotBehind f g =
    (f.priority < g.priority)
    ⊎ ((f.priority ≡ g.priority) × Lexicographic TextBelow f.definition.path g.definition.path)

Lexicographic-cons :
    {A : Type 0} (less : A → A → Type 0) (a : A) (s t : List A)
    → Lexicographic less s t
    → Lexicographic less (a ∷ s) (a ∷ t)
Lexicographic-cons less a s t (inl (rest, h)) = inl (rest, ap (◌∷◌ a) h)
Lexicographic-cons less a s t (inr (common, b, c, s', t', h, k, l)) =
    inr (a ∷ common, b, c, s', t', ap (◌∷◌ a) h, ap (◌∷◌ a) k, l)

str_leb-Lexicographic : (s t : Str) → str_leb s t ≡ true → Lexicographic ◌<◌ s t
unfolding str_leb
str_leb-Lexicographic [] t h = inl (t, refl)
str_leb-Lexicographic (c ∷ s) [] h = cc
str_leb-Lexicographic (c ∷ s) (d ∷ t) h = elim (Bool-cases (ltb c d)) [
  | inl less ↦ inr ([], c, d, s, t, refl, refl, ground (arith, less))
  | inr not_less ↦
      let same : c ≡ d = ground (arith, h, not_less) in
      let rest : str_leb s t ≡ true = ground (arith, h, not_less) in
      subst (λ e. Lexicographic ◌<◌ (c ∷ s) (e ∷ t)) same
        (Lexicographic-cons ◌<◌ c s t (str_leb-Lexicographic s t rest))
]

str_ltb_irrefl : (s : Str) → str_ltb s s ≡ false
unfolding str_ltb
str_ltb_irrefl [] = refl
str_ltb_irrefl (c ∷ s) = ground (arith, str_ltb_irrefl s)

str_ltb-leb : (s t : Str) → str_ltb s t ≡ true → str_leb s t ≡ true
unfolding str_ltb str_leb
str_ltb-leb s [] h = cc
str_ltb-leb [] (d ∷ t) h = refl
str_ltb-leb (c ∷ s) (d ∷ t) h = ground (arith, str_ltb-leb s t)

str_ltb-TextBelow : (s t : Str) → str_ltb s t ≡ true → TextBelow s t
str_ltb-TextBelow s t h = (
  str_leb-Lexicographic s t (str_ltb-leb s t h),
  λ same.
      let wrong : str_ltb s s ≡ true = subst (λ u. str_ltb s u ≡ true) (sym same) h in
      absurd (cc (wrong, str_ltb_irrefl s)),
)

str_leb-equal : (s t : Str) → str_leb s t ≡ true → str_ltb s t ≡ false → s ≡ t
unfolding str_leb str_ltb
str_leb-equal [] [] h k = refl
str_leb-equal [] (d ∷ t) h k = cc
str_leb-equal (c ∷ s) [] h k = cc
str_leb-equal (c ∷ s) (d ∷ t) h k = ground (arith, str_leb-equal s t)

path_leb-Lexicographic : (p q : PathBuf) → path_leb p q ≡ true → Lexicographic TextBelow p q
unfolding path_leb
path_leb-Lexicographic [] q h = inl (q, refl)
path_leb-Lexicographic (s ∷ p) [] h = cc
path_leb-Lexicographic (s ∷ p) (t ∷ q) h = elim (Bool-cases (str_ltb s t)) [
  | inl less ↦ inr ([], s, t, p, q, refl, refl, str_ltb-TextBelow s t less)
  | inr not_less ↦
      let le : str_leb s t ≡ true = ground (arith, h, not_less) in
      let rest : path_leb p q ≡ true = ground (arith, h, not_less) in
      subst (λ u. Lexicographic TextBelow (s ∷ p) (u ∷ q)) (str_leb-equal s t le not_less)
        (Lexicographic-cons TextBelow s p q (path_leb-Lexicographic p q rest))
]

filter_leb-NotBehind : (f g : CompiledFilter) → filter_leb f g ≡ true → NotBehind f g
unfolding filter_leb
filter_leb-NotBehind f g h = elim (Bool-cases (ltb f.priority g.priority)) [
  | inl less ↦ inl (ground (arith, less))
  | inr not_less ↦ inr (
    ground (arith, h, not_less),
    path_leb-Lexicographic f.definition.path g.definition.path (ground (arith, h, not_less)),
  )
]

-- Each filter is not behind the next.
abbrev pub Ordered : List CompiledFilter → Type 0
Ordered [] = Unit
Ordered (f ∷ []) = Unit
Ordered (f ∷ g ∷ gs) = NotBehind f g × Ordered (g ∷ gs)

not_first : (f g : CompiledFilter) → filter_leb f g ≡ false → NotBehind g f
not_first f g behind = filter_leb-NotBehind g f (filter_leb_total f g behind)

insert_filter-Ordered :
    (f : CompiledFilter) (gs : List CompiledFilter) → Ordered gs → Ordered (insert_filter f gs)
unfolding insert_filter
insert_filter-Ordered f [] o = tt
insert_filter-Ordered f (g ∷ []) o = elim (Bool-cases (filter_leb f g)) [
  | inl first ↦ rw first (filter_leb-NotBehind f g first, tt)
  | inr behind ↦ rw behind (not_first f g behind, tt)
]
insert_filter-Ordered f (g ∷ h ∷ hs) (gh, o) = elim (Bool-cases (filter_leb f g)) [
  | inl first ↦ rw first (filter_leb-NotBehind f g first, (gh, o))
  | inr behind ↦
      let later = insert_filter-Ordered f (h ∷ hs) o in
      elim (Bool-cases (filter_leb f h)) [
        | inl before ↦ rw (behind, before) (not_first f g behind, rw before at later)
        | inr after ↦ rw (behind, after) (gh, rw after at later)
      ]
]

-- How many filters pass a test.
abbrev pub count : (CompiledFilter → Bool) → List CompiledFilter → ℕ
count p fs = length (filter_by p fs)

count-insert_filter :
    (p : CompiledFilter → Bool) (f : CompiledFilter) (gs : List CompiledFilter)
    → count p (insert_filter f gs) ≡ count p (f ∷ gs)
unfolding insert_filter filter_by
count-insert_filter p f [] = refl
count-insert_filter p f (g ∷ gs) = ground (arith, count-insert_filter p f gs)

count-new_set :
    (p : CompiledFilter → Bool) (fs : List CompiledFilter) → count p (new_set fs) ≡ count p fs
unfolding new_set filter_by
count-new_set p [] = refl
count-new_set p (f ∷ fs) =
    count-insert_filter p f (new_set fs) ∙ unfold filter_by in ground (arith, count-new_set p fs)

new_set-Ordered : (fs : List CompiledFilter) → Ordered (new_set fs)
unfolding new_set
new_set-Ordered [] = tt
new_set-Ordered (f ∷ fs) = insert_filter-Ordered f (new_set fs) (new_set-Ordered fs)

-- A new set has its filters in ascending order: each has a smaller priority than the next, or the same
-- priority and a path that is not behind that of the next, in the lexicographic order of their
-- components. It holds the filters of the list: of those that pass any test it has as many.
pub new_set-sorted :
    (fs : List CompiledFilter)
    → Ordered (new_set fs) × ((p : CompiledFilter → Bool) → count p (new_set fs) ≡ count p fs)
new_set-sorted fs = (new_set-Ordered fs, λ p. count-new_set p fs)
