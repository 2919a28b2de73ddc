-- ===== src/Generator/Quoting/RoundTrip.antt =====
-- src/filters/generator.rs: a literal of quoted_string, read by the rules for literals of a script.
use inspect.Common.{
  ℕ, zero, suc, ◌+◌, ◌-◌, ◌*◌, ◌/◌, ◌%◌, ◌<◌, ◌≡◌, refl, ap, ◌∙◌, Bool, true, false, ◌&&◌, ◌||◌,
  Option, none, some, [], ◌∷◌, ◌++◌, Str, codes, arith, ◌==◌, leb, ltb, if◌then◌else◌, Bool-cases,
  inl, inr, append_assoc,
}
use inspect.Generator.Quoting.{
  is_control, hex, hex_from, hex_digit, quoted_char, quoted_chars, quoted_string,
}

-- Where a reader of a literal stands: on a plain character, behind a backslash, in front of the brace of a
-- code point, or behind some of its digits.
pub data Mode : Type 0 where
  plain escaped brace : Mode
  code_point : ℕ → Mode

unfoldable pub hex_value : ℕ → Option ℕ
hex_value c =
    if leb b'0' c && leb c b'9'
    then some (c - b'0')
    else if leb b'a' c && leb c b'f'
    then some (c - b'a' + 10)
    else none

unfoldable pub escape_value : ℕ → Option ℕ
escape_value c =
    if c == b'\\' || c == b'"'
    then some c
    else if c == b'n'
    then some 10
    else if c == b'r'
    then some 13
    else if c == b't'
    then some 9
    else none

abbrev pub then_char : ℕ → Option (Str × Str) → Option (Str × Str)
then_char c none = none
then_char c (some (value, rest)) = some (c ∷ value, rest)

abbrev pub then_escape : Option ℕ → Option (Str × Str) → Option (Str × Str)
then_escape none later = none
then_escape (some c) later = then_char c later

-- The value of a literal and the text behind its closing quote.
unfoldable pub read : Mode → Str → Option (Str × Str)
unfolding escape_value hex_value
read mode [] = none
read plain (c ∷ s) =
    let behind = read escaped s in
    let next = then_char c (read plain s) in
    if c == b'"' then some ([], s) else if c == b'\\' then behind else next
read escaped (c ∷ s) =
    let point = read brace s in
    let next = then_escape (escape_value c) (read plain s) in if c == b'u' then point else next
read brace (c ∷ s) = let digits = read (code_point 0) s in if c == b'{' then digits else none
read (code_point n) (c ∷ s) =
    let done = then_char n (read plain s) in
    let more : Option (Str × Str) = elim (hex_value c) [
      | none ↦ none
      | some d ↦ read (code_point (n * 16 + d)) s
    ] in
    if c == b'}' then done else more

unfoldable pub read_literal : Str → Option (Str × Str)
unfolding read
read_literal [] = none
read_literal (c ∷ s) = let inside = read plain s in if c == b'"' then inside else none

hex_value-hex_digit : (d : ℕ) → d < 16 → hex_value (hex_digit d) ≡ some d
unfolding hex_value
hex_value-hex_digit d h = ground arith

hex_digit-no_brace : (d : ℕ) → d < 16 → (hex_digit d == b'}') ≡ false
hex_digit-no_brace d h = ground arith

read-digit :
    (n d : ℕ) (s : Str)
    → d < 16
    → read (code_point n) (hex_digit d ∷ s) ≡ read (code_point (n * 16 + d)) s
unfolding read
read-digit n d s h = rw (hex_digit-no_brace d h, hex_value-hex_digit d h) refl

read-hex_from :
    (fuel n : ℕ) (acc t : Str)
    → n < fuel
    → read (code_point 0) (hex_from fuel n acc ++ t) ≡ read (code_point n) (acc ++ t)
unfolding hex_from
read-hex_from zero n acc t h = absurd (omega arith)
read-hex_from (suc fuel) n acc t h = elim (Bool-cases (ltb n 16)) [
  | inl small ↦ rw small (
      read-digit 0 n (acc ++ t) (ground arith)
      ∙ ap (λ m. read (code_point m) (acc ++ t)) (omega arith))
  | inr large ↦
      let shorter : n / 16 < fuel = ground arith in
      rw large (
        read-hex_from fuel (n / 16) (hex_digit (n % 16) ∷ acc) t shorter
        ∙ read-digit (n / 16) (n % 16) (acc ++ t) (omega arith)
        ∙ ap (λ m. read (code_point m) (acc ++ t)) (omega arith))
]

read-opened : (s : Str) → read plain (codes "\\u{" ++ s) ≡ read (code_point 0) s
unfolding read
read-opened s = refl

read-closed : (n : ℕ) (s : Str) → read (code_point n) (codes "}" ++ s) ≡ then_char n (read plain s)
unfolding read
read-closed n s = refl

read-code_point :
    (c : ℕ) (t : Str)
    → read plain ((codes "\\u{" ++ (hex c ++ codes "}")) ++ t) ≡ then_char c (read plain t)
unfolding hex
read-code_point c t =
    read-opened ((hex c ++ codes "}") ++ t)
    ∙ ap (read (code_point 0)) (append_assoc (hex c) (codes "}") t)
    ∙ read-hex_from (suc c) c [] (codes "}" ++ t) (omega arith)
    ∙ read-closed c t

read-escape :
    (d c : ℕ) (t : Str)
    → escape_value d ≡ some c
    → (d == b'u') ≡ false
    → read plain (b'\\' ∷ d ∷ t) ≡ then_char c (read plain t)
unfolding read
read-escape d c t h k = rw (k, h) refl

read-plain :
    (c : ℕ) (t : Str)
    → (c == b'"') ≡ false
    → (c == b'\\') ≡ false
    → read plain (c ∷ t) ≡ then_char c (read plain t)
unfolding read
read-plain c t h k = rw (h, k) refl

abbrev Quotes : ℕ → Str → Type 0
Quotes c q = (t : Str) → read plain (q ++ t) ≡ then_char c (read plain t)

escaped-Quotes :
    (c d e : ℕ)
    → (c == e) ≡ true
    → escape_value d ≡ some e
    → (d == b'u') ≡ false
    → Quotes c (b'\\' ∷ d ∷ [])
escaped-Quotes c d e same h k t =
    let is_e : e ≡ c = ground arith in
    read-escape d e t h k ∙ ap (λ n. then_char n (read plain t)) is_e

Quotes-if :
    (c : ℕ) (b : Bool) (q r : Str)
    → (b ≡ true → Quotes c q)
    → (b ≡ false → Quotes c r)
    → Quotes c (if b then q else r)
Quotes-if c true q r h k = h refl
Quotes-if c false q r h k = k refl

quoted_char-Quotes : (c : ℕ) → Quotes c (quoted_char c)
unfolding quoted_char escape_value
quoted_char-Quotes c =
    Quotes-if c (c == b'\\') _ _ (λ e. escaped-Quotes c b'\\' b'\\' e refl refl)
      λ no_backslash.
        Quotes-if c (c == b'"') _ _ (λ e. escaped-Quotes c b'"' b'"' e refl refl)
          λ no_quote.
            Quotes-if c (c == 10) _ _ (λ e. escaped-Quotes c b'n' 10 e refl refl)
              λ _.
                Quotes-if c (c == 13) _ _ (λ e. escaped-Quotes c b'r' 13 e refl refl)
                  λ _.
                    Quotes-if c (c == 9) _ _ (λ e. escaped-Quotes c b't' 9 e refl refl)
                      λ _.
                        Quotes-if c (is_control c) _ _ (λ _. read-code_point c)
                          λ _ t. read-plain c t no_quote no_backslash

read-quoted_chars : (s t : Str) → read plain (quoted_chars s ++ (b'"' ∷ t)) ≡ some (s, t)
unfolding quoted_chars read
read-quoted_chars [] t = refl
read-quoted_chars (c ∷ s) t =
    ap (read plain) (append_assoc (quoted_char c) (quoted_chars s) (b'"' ∷ t))
    ∙ quoted_char-Quotes c (quoted_chars s ++ (b'"' ∷ t))
    ∙ ap (then_char c) (read-quoted_chars s t)

-- A quoted text, read as a literal, gives the text and ends exactly at its closing quote.
pub read_literal-quoted_string :
    (s rest : Str) → read_literal (quoted_string s ++ rest) ≡ some (s, rest)
unfolding read_literal quoted_string
read_literal-quoted_string s rest =
    ap (read plain) (append_assoc (quoted_chars s) (b'"' ∷ []) rest) ∙ read-quoted_chars s rest
