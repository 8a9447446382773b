-- ===== src/Flash/Print.antt =====
-- Printing bytes as hex digits, and reading them back by `decode_hex_bytes` of
-- runtime/src/load/mod.rs.
use agent_sim.Base.{
  ℕ, ◌+◌, ◌-◌, ◌*◌, ◌/◌, ◌%◌, ◌<◌, ◌≡◌, refl, ◌∙◌, ◌≢◌, true, some, List, [], ◌∷◌, ◌++◌, arith,
  IsPlain, ltb, ◌==◌, if◌then◌else◌, length, All, ok, Text, to_digit, from_str_radix,
}
use agent_sim.Flash.Hex.{at_boundary, decode_pairs, decode_hex_bytes}
use agent_sim.Flash.IntelHex.{byte_sum}

abbrev pub IsByte : ℕ → Type 0
IsByte b = b < 256

abbrev pub hex_char : ℕ → ℕ
hex_char d = if ltb d 10 then b'0' + d else b'A' + (d - 10)

abbrev pub print_bytes : List ℕ → Text
print_bytes [] = []
print_bytes (b ∷ bs) = hex_char (b / 16) ∷ hex_char (b % 16) ∷ print_bytes bs

hex_char-digit :
    (d : ℕ)
    → d < 16
    → (to_digit 16 (hex_char d) ≡ some d) × (hex_char d ≢ b'+') × IsPlain (hex_char d)
unfolding to_digit
hex_char-digit d h = (ground arith, ground arith, (ground arith, ground arith))

pub print_bytes-IsPlain : (bs : List ℕ) → All IsByte bs → All IsPlain (print_bytes bs)
print_bytes-IsPlain [] h = tt
print_bytes-IsPlain (b ∷ bs) h = (
  (hex_char-digit (b / 16) (omega arith)).2,
  ((hex_char-digit (b % 16) (omega arith)).2, print_bytes-IsPlain bs h.1),
)

pub length-print_bytes : (bs : List ℕ) → length (print_bytes bs) ≡ length bs * 2
length-print_bytes [] = refl
length-print_bytes (b ∷ bs) = omega (arith, length-print_bytes bs)

-- Two digits, of which the first is no `+`, are a byte.
digits-pair :
    (c d x y : ℕ)
    → to_digit 16 c ≡ some x
    → to_digit 16 d ≡ some y
    → c ≢ b'+'
    → x < 16
    → y < 16
    → from_str_radix 16 256 (c ∷ d ∷ []) ≡ some (x * 16 + y)
unfolding from_str_radix
digits-pair c d x y hc hd ne hx hy = ground arith

from_str_radix-pair :
    (x y : ℕ)
    → x < 16
    → y < 16
    → from_str_radix 16 256 (hex_char x ∷ hex_char y ∷ []) ≡ some (x * 16 + y)
from_str_radix-pair x y hx hy =
    let dx = hex_char-digit x hx in
    digits-pair (hex_char x) (hex_char y) x y dx.0 (hex_char-digit y hy).0 dx.1 hx hy

pub from_str_radix-print :
    (b : ℕ) → b < 256 → from_str_radix 16 256 (hex_char (b / 16) ∷ hex_char (b % 16) ∷ []) ≡ some b
from_str_radix-print b h =
    let value : b / 16 * 16 + b % 16 ≡ b = omega arith in
    rw (from_str_radix-pair (b / 16) (b % 16) (omega arith) (omega arith), value)

at_boundary-plain : (s : Text) → All IsPlain s → at_boundary s ≡ true
at_boundary-plain [] h = refl
at_boundary-plain (c ∷ s) h = ground arith

decode_pairs-print : (bs : List ℕ) → All IsByte bs → decode_pairs (print_bytes bs) ≡ ok bs
unfolding decode_pairs
decode_pairs-print [] h = refl
decode_pairs-print (b ∷ bs) h =
    let here = at_boundary-plain (print_bytes bs) (print_bytes-IsPlain bs h.1) in
    rw (here, from_str_radix-print b h.0, decode_pairs-print bs h.1)

pub decode_hex_bytes-print :
    (bs : List ℕ) → All IsByte bs → decode_hex_bytes (print_bytes bs) ≡ ok bs
unfolding decode_hex_bytes
decode_hex_bytes-print bs h =
    let even : (length (print_bytes bs) % 2 == 0) ≡ true = ground (arith, length-print_bytes bs) in
    rw even (decode_pairs-print bs h)

abbrev pub total : List ℕ → ℕ
total [] = 0
total (v ∷ vs) = v + total vs

pub total-concat : (xs : List ℕ) (v : ℕ) → total (xs ++ v ∷ []) ≡ total xs + v
total-concat [] v = omega arith
total-concat (x ∷ xs) v = omega (arith, total-concat xs v)

-- The sum of the source, which wraps at every step, is the sum of all that wraps once.
pub byte_sum-total : (acc : ℕ) (xs : List ℕ) → byte_sum (acc % 256) xs ≡ (acc + total xs) % 256
byte_sum-total acc [] = omega arith
byte_sum-total acc (x ∷ xs) = byte_sum-total (acc % 256 + x) xs ∙ omega arith
