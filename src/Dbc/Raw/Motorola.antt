-- ===== src/Dbc/Raw/Motorola.antt =====
-- The loops over the bits of a big-endian signal, along the line that runs through each byte from
-- its highest bit to its lowest.
use agent_sim.Base.{
  ℕ, zero, suc, ◌+◌, ◌-◌, ◌*◌, ◌/◌, ◌%◌, ◌^◌, ◌≤◌, ◌<◌, bit_or, ◌≡◌, refl, ap, ◌∙◌, ◌≢◌, inl, inr,
  true, false, ◌&&◌, List, arith, ltb, leb, ◌==◌, if◌then◌else◌, ==_iff, Bool-cases, ok, bit_or-low,
}
use native.Mathlib.Nat.{div-le_self}
use agent_sim.Dbc.Bits.Laws.{IsData, bit_at, get_bit-bit_at, set_bit-bit_at}
use agent_sim.Dbc.Raw.{insert_be, extract_be, next_motorola_bit}
use agent_sim.Dbc.Raw.Intel.{Inserts, div-pow_suc}

abbrev pub line : ℕ → ℕ
line p = p / 8 * 8 + (7 - p % 8)

-- The next bit is the next on the line.
pub line-next_motorola_bit : (p : ℕ) → line (next_motorola_bit p) ≡ suc (line p)
unfolding next_motorola_bit
line-next_motorola_bit p = ground arith

pub line_injective : (p q : ℕ) → line p ≡ line q → p ≡ q
line_injective p q e = omega arith

-- What bit `j` is after the insertion.
abbrev pub inserted_be : ℕ → ℕ → ℕ → List ℕ → ℕ → ℕ
inserted_be n p raw bytes j =
    if leb (line p) (line j) && ltb (line j) (line p + n)
    then raw / 2 ^ (line p + n - 1 - line j) % 2
    else bit_at bytes j

insert_be-step :
    (n p q raw bit : ℕ) (bytes after : List ℕ) (j : ℕ)
    → bit ≡ raw / 2 ^ n % 2
    → line q ≡ suc (line p)
    → bit_at after j ≡ (if p == j then bit else bit_at bytes j)
    → inserted_be n q raw after j ≡ inserted_be (suc n) p raw bytes j
insert_be-step n p q raw bit bytes after j b next e = elim (Bool-cases (p == j)) [
  | inl here ↦
      let same : p ≡ j = (==_iff _ _).0 here in
      let k : line p + suc n - 1 - line j ≡ n = omega (arith, ap line same) in
      let inside : (leb (line p) (line j) && ltb (line j) (line p + suc n)) ≡ true =
        ground (arith, ap line same) in
      let past : leb (line q) (line j) ≡ false = ground (arith, ap line same) in
      rw (e, inside, past, here, k) b
  | inr other ↦
      let apart : line p ≢ line j = λ l. ground (arith, line_injective p j l) in
      let k : line q + n - 1 - line j ≡ line p + suc n - 1 - line j = omega arith in
      rw (e, other, k) (ground arith)
]

-- Inside the frame the insertion succeeds, and sets the bits of the signal and no other.
pub insert_be-bits :
    (n p raw : ℕ) (bytes : List ℕ)
    → IsData bytes
    → line p + n ≤ 512
    → Inserts (insert_be n p raw bytes) (inserted_be n p raw bytes)
unfolding insert_be
insert_be-bits zero p raw bytes h lt = (refl, h, λ j. ground arith)
insert_be-bits (suc n) p raw bytes h lt =
    let (after, e, framed, bits) =
      set_bit-bit_at bytes p (raw / 2 ^ n % 2) h (omega arith) (omega arith) in
    let next = line-next_motorola_bit p in
    let (fine, still, rest) =
      insert_be-bits n (next_motorola_bit p) raw after framed (omega arith) in
    rw (e, insert_be)
      (
        fine,
        still,
        λ j.
            rest j
            ∙ insert_be-step n p (next_motorola_bit p) raw (raw / 2 ^ n % 2) bytes after j refl next
                (bits j),
      )

-- Bits that spell a number, the highest first, are read as its digits.
pub extract_be-digits :
    (n p raw : ℕ) (bytes : List ℕ)
    → IsData bytes
    → line p + n ≤ 512
    → raw < 2 ^ 64
    → ((j : ℕ)
        → line p ≤ line j
        → line j < line p + n
        → bit_at bytes j ≡ raw / 2 ^ (line p + n - 1 - line j) % 2)
    → extract_be n p (raw / 2 ^ n) bytes ≡ ok raw
unfolding extract_be
extract_be-digits zero p raw bytes h lt small same = ground arith
extract_be-digits (suc n) p raw bytes h lt small same =
    let k : line p + suc n - 1 - line p ≡ n = omega arith in
    let here : bit_at bytes p ≡ raw / 2 ^ n % 2 = rw k at (same p (omega arith) (omega arith)) in
    let next = line-next_motorola_bit p in
    let read = get_bit-bit_at bytes p h (omega arith) ∙ ap ok here in
    let fits : raw / 2 ^ suc n * 2 % 2 ^ 64 ≡ raw / 2 ^ suc n * 2 =
      omega (arith, div-pow_suc raw n, div-le_self raw (2 ^ n)) in
    let joined : bit_or (raw / 2 ^ suc n * 2 % 2 ^ 64) (raw / 2 ^ n % 2) ≡ raw / 2 ^ n =
      ap (λ t. bit_or t (raw / 2 ^ n % 2)) fits
      ∙ bit_or-low (raw / 2 ^ suc n) (raw / 2 ^ n % 2) (omega arith)
      ∙ omega (arith, div-pow_suc raw n) in
    rw (read, extract_be)
      (rw joined (
        extract_be-digits n (next_motorola_bit p) raw bytes h (omega arith) small (λ j low high.
          let e : line (next_motorola_bit p) + n - 1 - line j ≡ line p + suc n - 1 - line j =
            omega arith in
          rw e (same j (omega arith) (omega arith)))))
