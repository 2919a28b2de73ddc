-- ===== src/Json/Compare/Telling.antt =====
-- src/filters/engine/json/capture.rs: what an event says of two values, and what it says of the values around them.
use inspect.Common.{
  ◌≡◌, ◌≢◌, refl, ap, sym, ◌∙◌, Bool, true, false, none, some, List, [], ◌∷◌, ◌++◌, Str,
  if◌then◌else◌, subst, All, append_assoc, append-nil,
}
use inspect.Diff.{DiffEvent, DiffPathSegment, insert, delete, replace, move, body_json}
use inspect.Json.{Value, value_eq}
use inspect.Json.Compare.{replaced, json_value_to_diff_node}
use inspect.Json.Compare.Paths.{get_at, value_eq_refl}

pub All-map {κ μ} :
    {A : Type 0} (P : A → Type κ) (Q : A → Type μ)
    → ((a : A) → P a → Q a)
    → (xs : List A) → All P xs
    → All Q xs
All-map P Q f [] h = tt
All-map P Q f (x ∷ xs) (p, h) = (f x p, All-map P Q f xs h)

pub All-unless {κ} :
    {A : Type 0} (P : A → Type κ) (b : Bool) (xs : List A)
    → (b ≡ false → All P xs)
    → All P (if b then [] else xs)
All-unless P true xs h = tt
All-unless P false xs h = h refl

module _ (to_string : Value → Str) where
  -- An event on a path behind `at` tells the truth of what the two values have there.
  abbrev pub Tells : List DiffPathSegment → Value → Value → DiffEvent → Type 0
  Tells at v w (delete path old source) =
      (q : List DiffPathSegment) × (x : Value) × (path ≡ body_json (at ++ q))
      × (old ≡ json_value_to_diff_node to_string x)
      × (get_at q v ≡ some x)
      × (get_at q w ≡ none)
  Tells at v w (insert path new source) =
      (q : List DiffPathSegment) × (y : Value) × (path ≡ body_json (at ++ q))
      × (new ≡ json_value_to_diff_node to_string y)
      × (get_at q v ≡ none)
      × (get_at q w ≡ some y)
  Tells at v w (replace path old new source) =
      (q : List DiffPathSegment) × (x : Value) × (y : Value) × (path ≡ body_json (at ++ q))
      × (old ≡ json_value_to_diff_node to_string x)
      × (new ≡ json_value_to_diff_node to_string y)
      × (get_at q v ≡ some x)
      × (get_at q w ≡ some y)
      × (x ≢ y)
  Tells at v w (move from to node source) = ⊥

  -- What events say of two values below a segment, they say of the values around them.
  pub Tells-below :
      (at : List DiffPathSegment) (s : DiffPathSegment) (v w x y : Value)
      → ((q : List DiffPathSegment) → get_at (s ∷ q) v ≡ get_at q x)
      → ((q : List DiffPathSegment) → get_at (s ∷ q) w ≡ get_at q y)
      → (e : DiffEvent) → Tells (at ++ (s ∷ [])) x y e
      → Tells at v w e
  Tells-below at s v w x y left right (delete path old source) (q, z, p, n, l, r) =
      (s ∷ q, z, p ∙ ap body_json (append_assoc at (s ∷ []) q), n, left q ∙ l, right q ∙ r)
  Tells-below at s v w x y left right (insert path new source) (q, z, p, n, l, r) =
      (s ∷ q, z, p ∙ ap body_json (append_assoc at (s ∷ []) q), n, left q ∙ l, right q ∙ r)
  Tells-below at s v w x y left right (replace path old new source) (q, a, b, p, n, m, l, r, d) =
      (s ∷ q, a, b, p ∙ ap body_json (append_assoc at (s ∷ []) q), n, m, left q ∙ l, right q ∙ r, d)
  Tells-below at s v w x y left right (move from to node source) h = h

  pub scalar-Tells :
      (at : List DiffPathSegment) (v w : Value)
      → All (Tells at v w) (if value_eq v w then [] else replaced to_string at v w ∷ [])
  unfolding get_at
  scalar-Tells at v w =
      All-unless (Tells at v w) (value_eq v w) (replaced to_string at v w ∷ []) λ other.
        let differ : v ≢ w = λ e.
          let same : value_eq v w ≡ true = subst (λ u. value_eq v u ≡ true) e (value_eq_refl v) in
          let clash : true ≡ false = sym same ∙ other in cc clash in
        ((([], v, w, ap body_json (sym (append-nil at)), refl, refl, refl, refl, differ)), tt)
