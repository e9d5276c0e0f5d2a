-- ===== src/Prelude/Text.antt =====
-- Go strings. Whole texts are the native `String`; `trim_space` and `to_upper` work on code points.
use Prim.Native.String
use Prim.Native.Char.{Char, code}
use Prim.Native.Nat.{ℕ, zero, suc, ◌-◌, ◌/◌, ◌%◌}
use Prim.Native.String.{String, char_at}
use mathlib.Core.Bool.{Bool, true, false, ◌&&◌, ◌||◌}
use mathlib.Core.List.{List, [], ◌∷◌, reverse}
use signa.Prelude.{str_eq}
use signa.Prelude.Tests.{leb, ◌==◌, if◌then◌else◌}
use text.Mathlib.Text.{◌==◌ as str_eq}

abbrev pub codes : String → List ℕ
codes String.[] = []
codes (String.◌∷◌ c s) = code c ∷ codes s

-- `unicode.IsSpace`.
unfoldable pub is_space : ℕ → Bool
is_space c =
    (leb 9 c && leb c 13)
    || c == 32
    || c == 0x85
    || c == 0xA0
    || c == 0x1680
    || (leb 0x2000 c && leb c 0x200a)
    || c == 0x2028
    || c == 0x2029
    || c == 0x202f
    || c == 0x205f
    || c == 0x3000

unfoldable pub trim_left : List ℕ → List ℕ
unfolding is_space
trim_left [] = []
trim_left (c ∷ s) = if is_space c then trim_left s else c ∷ s

-- `strings.TrimSpace`.
unfoldable pub trim_space : List ℕ → List ℕ
unfolding trim_left
trim_space s = reverse (trim_left (reverse (trim_left s)))

-- `unicode.ToUpper`, exact on every code point whose upper case is an ASCII letter: the letters a to
-- z, the dotless i and the long s. Any other code point keeps a value outside A to Z.
unfoldable pub to_upper : ℕ → ℕ
to_upper c =
    if leb b'a' c && leb c b'z'
    then c - 32
    else if c == 0x131
    then b'I'
    else if c == 0x17F
    then b'S'
    else c

unfoldable pub equal_codes : List ℕ → List ℕ → Bool
equal_codes [] [] = true
equal_codes (a ∷ as_rest) (b ∷ bs) = (a == b) && equal_codes as_rest bs
equal_codes _ _ = false

-- `strings.TrimSpace(s) == ""`.
unfoldable pub is_blank : String → Bool
unfolding trim_space equal_codes
is_blank s = equal_codes (trim_space (codes s)) []

-- `strings.TrimSpace(s) == s`.
unfoldable pub is_trimmed : String → Bool
unfolding trim_space equal_codes
is_trimmed s = equal_codes (trim_space (codes s)) (codes s)

-- Membership of a text in a list: a Go `map[string]struct{}`.
unfoldable pub contains : List String → String → Bool
contains [] s = false
contains (x ∷ xs) s = str_eq x s || contains xs s

-- The letters that the byte loop of `lower` maps: A to Z, by position.
abbrev lower_char : Char → Char
lower_char c =
    if leb b'A' (code c) && leb (code c) b'Z'
    then char_at "abcdefghijklmnopqrstuvwxyz" (code c - b'A')
    else c

-- `lower` of internal/priority and of internal/alerts, on ASCII text.
unfoldable pub lower : String → String
lower String.[] = String.[]
lower (String.◌∷◌ c s) = String.◌∷◌ (lower_char c) (lower s)

-- Go's `+` on strings.
abbrev pub concat : String → String → String
concat a b = String.◌++◌ a b

abbrev starts_with : List ℕ → List ℕ → Bool
starts_with s [] = true
starts_with [] (c ∷ p) = false
starts_with (a ∷ s) (c ∷ p) = (a == c) && starts_with s p

-- `strings.Contains`.
unfoldable pub contains_codes : List ℕ → List ℕ → Bool
contains_codes [] p = starts_with [] p
contains_codes (a ∷ s) p = starts_with (a ∷ s) p || contains_codes s p

-- The decimal digits of a number, before `rest`, and `%d` of `fmt`; a number has no more digits than
-- its value and one.
unfoldable pub digits : ℕ → ℕ → String → String
digits zero n rest = rest
digits (suc fuel) n rest =
    let text = String.◌∷◌ (char_at "0123456789" (n % 10)) rest in
    let more = digits fuel (n / 10) text in if n / 10 == 0 then text else more

unfoldable pub decimal_text : ℕ → String
unfolding digits
decimal_text n = digits (suc n) n String.[]

is_end : String → Bool
is_end String.[] = true
is_end (String.◌∷◌ c s) = false

trim_text_left : String → String
unfolding is_space
trim_text_left String.[] = String.[]
trim_text_left (String.◌∷◌ c s) =
    let rest = trim_text_left s in if is_space (code c) then rest else String.◌∷◌ c s

trim_text_right : String → String
unfolding is_space is_end
trim_text_right String.[] = String.[]
trim_text_right (String.◌∷◌ c s) =
    let rest = trim_text_right s in
    if is_space (code c) && is_end rest then String.[] else String.◌∷◌ c rest

-- `strings.TrimSpace`, of a whole text.
unfoldable pub trim_text : String → String
unfolding trim_text_left trim_text_right
trim_text s = trim_text_right (trim_text_left s)
