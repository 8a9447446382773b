-- ===== src/Base/Strings.antt =====
-- Texts as lists of Unicode scalar values, their UTF-8 bytes, and the parts of Rust's `str` that
-- the program calls.
use Prim.Native.Char.{code}
use Prim.Native.String.{String}
use Prim.Native.Nat.{ℕ, ◌+◌, ◌-◌, ◌*◌, ◌/◌, ◌%◌}
use mathlib.Core.Path.{◌≡◌}
use mathlib.Core.Logic.{◌↔◌}
use mathlib.Core.Bool.{Bool, true, false, ◌&&◌, ◌||◌}
use mathlib.Core.Option.{Option, none, some}
use mathlib.Core.List.{List, [], ◌∷◌, ◌++◌, reverse}
use native.Mathlib.Omega.{arith}
use agent_sim.Base.Tests.{ltb, leb, ◌==◌, if◌then◌else◌}
use agent_sim.Base.Lists.{length}

abbrev pub Text : Type 0
Text = List ℕ

abbrev pub codes : String → Text
codes String.[] = []
codes (String.◌∷◌ c s) = code c ∷ codes s

abbrev pub text_eq : Text → Text → Bool
text_eq [] [] = true
text_eq (a ∷ s) (b ∷ t) = a == b && text_eq s t
text_eq _ _ = false

pub text_eq_iff : (s t : Text) → (text_eq s t ≡ true) ↔ (s ≡ t)
text_eq_iff (a ∷ s) (b ∷ t) = ground (arith, text_eq_iff s t)
text_eq_iff _ _ = ground arith

-- The encoding of one scalar value.
abbrev pub utf8_char : ℕ → List ℕ
utf8_char c =
    if ltb c 0x80
    then c ∷ []
    else if ltb c 0x800
    then (0xC0 + c / 64) ∷ (0x80 + c % 64) ∷ []
    else if ltb c 0x10000
    then (0xE0 + c / 4096) ∷ (0x80 + c / 64 % 64) ∷ (0x80 + c % 64) ∷ []
    else (0xF0 + c / 262144) ∷ (0x80 + c / 4096 % 64) ∷ (0x80 + c / 64 % 64) ∷ (0x80 + c % 64) ∷ []

-- `str::as_bytes`.
unfoldable pub utf8 : Text → List ℕ
utf8 [] = []
utf8 (c ∷ s) = utf8_char c ++ utf8 s

-- `str::len` counts bytes.
abbrev pub str_len : Text → ℕ
str_len s = length (utf8 s)

-- `char::is_whitespace`, the Unicode property White_Space.
unfoldable pub is_whitespace : ℕ → Bool
is_whitespace c =
    leb 9 c && leb c 13
    || c == 0x20
    || c == 0x85
    || c == 0xA0
    || c == 0x1680
    || leb 0x2000 c && leb c 0x200A
    || c == 0x2028
    || c == 0x2029
    || c == 0x202F
    || c == 0x205F
    || c == 0x3000

unfoldable pub trim_start : Text → Text
unfolding is_whitespace
trim_start [] = []
trim_start (c ∷ s) = if is_whitespace c then trim_start s else c ∷ s

-- `str::trim`.
unfoldable pub trim : Text → Text
unfolding trim_start
trim s = reverse (trim_start (reverse (trim_start s)))

-- `str::strip_prefix`.
abbrev pub strip_prefix : Text → Text → Option Text
strip_prefix [] s = some s
strip_prefix (p ∷ ps) [] = none
strip_prefix (p ∷ ps) (c ∷ s) = if p == c then strip_prefix ps s else none

abbrev pub starts_with : Text → Text → Bool
starts_with [] s = true
starts_with (p ∷ ps) [] = false
starts_with (p ∷ ps) (c ∷ s) = p == c && starts_with ps s

abbrev pub contains_char : ℕ → Text → Bool
contains_char c [] = false
contains_char c (d ∷ s) = c == d || contains_char c s

abbrev pub is_empty {ℓ} : {A : Type ℓ} → List A → Bool
is_empty [] = true
is_empty (_ ∷ _) = false

-- The value of an ASCII digit in base 16, `char::to_digit`.
abbrev pub hex_digit : ℕ → Option ℕ
hex_digit c =
    if leb b'0' c && leb c b'9'
    then some (c - b'0')
    else if leb b'a' c && leb c b'f'
    then some (c - b'a' + 10)
    else if leb b'A' c && leb c b'F'
    then some (c - b'A' + 10)
    else none

-- The value of a digit below the radix.
unfoldable pub to_digit : ℕ → ℕ → Option ℕ
to_digit radix c = elim (hex_digit c) [
  | none ↦ none
  | some d ↦ if ltb d radix then some d else none
]

-- Rust's `from_str_radix` for an unsigned type with values below `bound`: digits only, behind an
-- optional `+`, and each step of the value is checked for overflow.
unfoldable pub from_digits : ℕ → ℕ → ℕ → Text → Option ℕ
from_digits radix bound acc [] = some acc
from_digits radix bound acc (c ∷ s) = elim (to_digit radix c) [
  | none ↦ none
  | some d ↦
      let rest = from_digits radix bound (acc * radix + d) s in
      if ltb (acc * radix + d) bound then rest else none
]

unfoldable pub from_str_radix : ℕ → ℕ → Text → Option ℕ
unfolding from_digits
from_str_radix radix bound [] = none
from_str_radix radix bound (c ∷ []) = from_digits radix bound 0 (c ∷ [])
from_str_radix radix bound (c ∷ d ∷ s) =
    if c == b'+' then from_digits radix bound 0 (d ∷ s) else from_digits radix bound 0 (c ∷ d ∷ s)

-- `str::lines`: the text between the newlines, without a carriage return at its end; nothing
-- after a final newline.
unfoldable pub strip_cr : Text → Text
strip_cr [] = []
strip_cr (c ∷ []) = if c == b'\r' then [] else c ∷ []
strip_cr (c ∷ d ∷ s) = c ∷ strip_cr (d ∷ s)

unfoldable pub lines_onto : Text → Text → List Text
unfolding strip_cr
lines_onto [] [] = []
lines_onto (c ∷ line) [] = reverse (c ∷ line) ∷ []
lines_onto line (c ∷ s) = elim (c == b'\n') [
  | true ↦ strip_cr (reverse line) ∷ lines_onto [] s
  | false ↦ lines_onto (c ∷ line) s
]

unfoldable pub lines : Text → List Text
unfolding lines_onto
lines = lines_onto []

-- `str::to_ascii_lowercase`.
abbrev pub ascii_lower : ℕ → ℕ
ascii_lower c = if leb b'A' c && leb c b'Z' then c + 32 else c

unfoldable pub to_ascii_lowercase : Text → Text
to_ascii_lowercase [] = []
to_ascii_lowercase (c ∷ s) = ascii_lower c ∷ to_ascii_lowercase s
