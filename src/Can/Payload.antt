-- ===== src/Can/Payload.antt =====
-- `parse_data_hex` reads back the hex text of a payload, with any separators in it, and never
-- returns more than 64 bytes.
use agent_sim.Base.{
  ℕ, ◌+◌, ◌*◌, ◌/◌, ◌%◌, ◌≤◌, ◌<◌, ◌≡◌, refl, inl, inr, true, false, not, Option, none, some, List,
  [], ◌∷◌, arith, utf8_ascii, plain-IsAscii, ltb, ◌==◌, ltb→lt, Bool-cases, Option-cases, length,
  All, Result, ok, err, ◌>>◌, reject, Text, utf8, str_len, to_digit, from_digits, from_str_radix,
}
use agent_sim.Can.{CanError, odd_hex, payload_too_long, compact, parse_pairs, parse_data_hex}
use agent_sim.Flash.Print.{
  IsByte, print_bytes, print_bytes-IsPlain, length-print_bytes, from_str_radix-print,
}

parse_pairs-print : (bs : List ℕ) → All IsByte bs → parse_pairs (print_bytes bs) ≡ ok bs
unfolding parse_pairs
parse_pairs-print [] h = refl
parse_pairs-print (b ∷ bs) h = rw (from_str_radix-print b h.0, parse_pairs-print bs h.1)

-- A text that is the upper-case hex of at most 64 bytes once its white space and underscores are
-- taken out is read as those bytes.
pub parse_data_hex-print :
    (raw : Text) (bs : List ℕ)
    → compact raw ≡ print_bytes bs
    → All IsByte bs
    → length bs ≤ 64
    → parse_data_hex raw ≡ ok bs
unfolding parse_data_hex
parse_data_hex-print raw bs e h short =
    let ascii = utf8_ascii (print_bytes bs) (plain-IsAscii _ (print_bytes-IsPlain bs h)) in
    let len = length-print_bytes bs in
    let even : (length (print_bytes bs) % 2 == 0) ≡ true = ground arith in
    let fits : ltb 64 (length (print_bytes bs) / 2) ≡ false = ground arith in
    rw (e, ascii, even, fits) (parse_pairs-print bs h)

abbrev Below : ℕ → Option ℕ → Type 0
Below bound none = Unit
Below bound (some n) = n < bound

from_digits-Below :
    (radix bound acc : ℕ) (s : Text) → acc < bound → Below bound (from_digits radix bound acc s)
unfolding from_digits
from_digits-Below radix bound acc [] h = h
from_digits-Below radix bound acc (c ∷ s) h = elim (Option-cases (to_digit radix c)) [
  | inl bad ↦ rw (bad, from_digits) tt
  | inr (d, digit) ↦ elim (Bool-cases (ltb (acc * radix + d) bound)) [
    | inl fits ↦
        rw (digit, from_digits)
          (rw fits (from_digits-Below radix bound (acc * radix + d) s (ltb→lt _ _ fits)))
    | inr big ↦ rw (digit, from_digits) (rw big tt)
  ]
]

pair-Below : (a b : ℕ) → Below 256 (from_str_radix 16 256 (a ∷ b ∷ []))
unfolding from_str_radix
pair-Below a b = elim (Bool-cases (a == b'+')) [
  | inl plus ↦ rw plus (from_digits-Below 16 256 0 (b ∷ []) (omega arith))
  | inr other ↦ rw other (from_digits-Below 16 256 0 (a ∷ b ∷ []) (omega arith))
]

abbrev Reads : List ℕ → Result (List ℕ) CanError → Type 0
Reads s (ok bs) = (length bs * 2 ≡ length s) × All IsByte bs
Reads s (err e) = Unit

parse_pairs-Reads : (s : List ℕ) → Reads s (parse_pairs s)
unfolding parse_pairs
parse_pairs-Reads [] = (refl, tt)
parse_pairs-Reads (a ∷ []) = tt
parse_pairs-Reads (a ∷ b ∷ s) = ground (arith, pair-Below a b, parse_pairs-Reads s)

guards-eq_ok :
    (n : ℕ) (r : Result (List ℕ) CanError) {bs : List ℕ}
    → (reject (not (n % 2 == 0)) odd_hex >> (reject (ltb 64 (n / 2)) payload_too_long >> r)) ≡ ok bs
    → (r ≡ ok bs) × (n / 2 ≤ 64)
guards-eq_ok n r h = ground arith

-- Whatever `parse_data_hex` returns is at most 64 bytes, one for two bytes of the text without its white
-- space and underscores.
pub parse_data_hex-IsByte :
    (raw : Text) {bs : List ℕ}
    → parse_data_hex raw ≡ ok bs
    → (length bs ≤ 64) × (length bs * 2 ≡ str_len (compact raw)) × All IsByte bs
unfolding parse_data_hex
parse_data_hex-IsByte raw {bs} e =
    let (here, short) = guards-eq_ok (str_len (compact raw)) (parse_pairs (utf8 (compact raw))) e in
    let read = rw here at (parse_pairs-Reads (utf8 (compact raw))) in (omega arith, read.0, read.1)
