-- ===== src/Generator/Quoting.antt =====
-- src/filters/generator.rs, the literals and calls of the generated scripts. `quoted_string` writes those of
-- TOML and those of the scripts.
pub mod RoundTrip
use inspect.Common.{
  ℕ, zero, suc, ◌+◌, ◌-◌, ◌/◌, ◌%◌, Bool, true, false, ◌&&◌, ◌||◌, Option, none, some, List, [],
  ◌∷◌, ◌++◌, Str, codes, decimal, is_empty, leb, ltb, ◌==◌, if◌then◌else◌,
}
use inspect.Generator.{GeneratedFilterPhase, request, response}

-- `char::is_control`: the characters of the general category Cc.
unfoldable pub is_control : ℕ → Bool
is_control c = ltb c 32 || (leb 127 c && ltb c 160)

-- `{:x}`.
abbrev pub hex_digit : ℕ → ℕ
hex_digit d = if ltb d 10 then b'0' + d else b'a' + (d - 10)

unfoldable pub hex_from : ℕ → ℕ → Str → Str
hex_from zero n acc = acc
hex_from (suc fuel) n acc =
    let more = hex_from fuel (n / 16) (hex_digit (n % 16) ∷ acc) in
    if ltb n 16 then hex_digit n ∷ acc else more

unfoldable pub hex : ℕ → Str
unfolding hex_from
hex n = hex_from (suc n) n []

-- One character of `quoted_string`.
unfoldable pub quoted_char : ℕ → Str
unfolding is_control hex
quoted_char c =
    if c == b'\\'
    then codes "\\\\"
    else if c == b'"'
    then codes "\\\""
    else if c == 10
    then codes "\\n"
    else if c == 13
    then codes "\\r"
    else if c == 9
    then codes "\\t"
    else if is_control c
    then codes "\\u{" ++ (hex c ++ codes "}")
    else c ∷ []

unfoldable pub quoted_chars : Str → Str
unfolding quoted_char
quoted_chars [] = []
quoted_chars (c ∷ s) = quoted_char c ++ quoted_chars s

unfoldable pub quoted_string : Str → Str
unfolding quoted_chars
quoted_string value = b'"' ∷ (quoted_chars value ++ (b'"' ∷ []))

abbrev pub roto_string : Str → Str
roto_string = quoted_string

abbrev pub toml_string : Str → Str
toml_string = quoted_string

unfoldable pub toml_strings : List Str → Str
unfolding quoted_string
toml_strings [] = []
toml_strings (value ∷ []) = toml_string value
toml_strings (value ∷ next ∷ values) =
    toml_string value ++ (codes ", " ++ toml_strings (next ∷ values))

unfoldable pub toml_string_array : List Str → Str
unfolding toml_strings
toml_string_array values = codes "[" ++ (toml_strings values ++ codes "]")

unfoldable pub as_roto_phase : GeneratedFilterPhase → Str
as_roto_phase request = codes "request"
as_roto_phase response = codes "response"

-- A call `.name(arguments)` on a line of its own, the arguments quoted.
unfoldable pub roto_arguments : List Str → Str
unfolding quoted_string
roto_arguments [] = []
roto_arguments (value ∷ []) = roto_string value
roto_arguments (value ∷ next ∷ values) =
    roto_string value ++ (codes ", " ++ roto_arguments (next ∷ values))

unfoldable pub roto_call : Str → List Str → Str
unfolding roto_arguments
roto_call name values =
    codes "\n            ." ++ (name ++ (codes "(" ++ (roto_arguments values ++ codes ")")))
