-- ===== src/Outbound/Address.antt =====
-- src/filters/http_client.rs: the address of an outbound request.
use inspect.Common.{
  ℕ, ◌≡◌, refl, ap, Bool, false, ◌||◌, [], ◌∷◌, ◌++◌, Str, codes, starts_with, ◌==◌, All,
  Bool-cases, inl, inr, arith, ends_with_char,
}
use inspect.Outbound.{trim_start_slashes, trim_end_slashes, outbound_url}

abbrev pub AreSlashes : Str → Type 0
AreSlashes s = All (λ c. c ≡ b'/') s

abbrev pub is_absolute : Str → Bool
is_absolute path = starts_with (codes "http://") path || starts_with (codes "https://") path

trim_start_slashes-split :
    (s : Str)
    → (slashes : Str) × AreSlashes slashes
      × (s ≡ slashes ++ trim_start_slashes s)
      × (starts_with (codes "/") (trim_start_slashes s) ≡ false)
unfolding trim_start_slashes starts_with
trim_start_slashes-split [] = ([], tt, refl, refl)
trim_start_slashes-split (c ∷ s) = elim (Bool-cases (c == b'/')) [
  | inl slash ↦
      let (slashes, are, h, free) = trim_start_slashes-split s in
      rw slash (c ∷ slashes, (ground (arith, slash), are), ap (◌∷◌ c) h, free)
  | inr other ↦ rw other ([], tt, refl, rw other refl)
]

abbrev EndSplit : Str → Str → Type 0
EndSplit s r =
    (slashes : Str) × AreSlashes slashes × (s ≡ r ++ slashes) × (ends_with_char b'/' r ≡ false)

trim_end_slashes-step :
    (c : ℕ) (s r : Str)
    → trim_end_slashes s ≡ r
    → EndSplit s r
    → EndSplit (c ∷ s) (trim_end_slashes (c ∷ s))
unfolding trim_end_slashes ends_with_char
trim_end_slashes-step c s [] e (slashes, are, h, free) = elim (Bool-cases (c == b'/')) [
  | inl slash ↦ rw (e, slash) (c ∷ slashes, (ground (arith, slash), are), ap (◌∷◌ c) h, refl)
  | inr other ↦ rw (e, other) (slashes, are, ap (◌∷◌ c) h, rw other refl)
]
trim_end_slashes-step c s (d ∷ r) e (slashes, are, h, free) =
    rw e (slashes, are, ap (◌∷◌ c) h, free)

trim_end_slashes-split : (s : Str) → EndSplit s (trim_end_slashes s)
unfolding trim_end_slashes ends_with_char
trim_end_slashes-split [] = ([], tt, refl, refl)
trim_end_slashes-split (c ∷ s) =
    trim_end_slashes-step c s (trim_end_slashes s) refl (trim_end_slashes-split s)

-- The address of a path that is not an address itself: the address of the client and the path with one
-- slash between them. Only slashes at the end of the former and in front of the latter are left out.
pub outbound_url-joined :
    (base_url path : Str)
    → is_absolute path ≡ false
    → (base : Str) × (rest : Str) × (left : Str) × (right : Str) × (outbound_url base_url path
        ≡ base ++ (b'/' ∷ rest))
      × (base_url ≡ base ++ left)
      × (path ≡ right ++ rest)
      × AreSlashes left
      × AreSlashes right
      × (ends_with_char b'/' base ≡ false)
      × (starts_with (codes "/") rest ≡ false)
unfolding outbound_url
outbound_url-joined base_url path h =
    let (left, l, e, b) = trim_end_slashes-split base_url in
    let (right, r, e', f) = trim_start_slashes-split path in
    (trim_end_slashes base_url, trim_start_slashes path, left, right, rw h refl, e, e', l, r, b, f)
