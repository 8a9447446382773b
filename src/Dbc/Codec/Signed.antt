-- ===== src/Dbc/Codec/Signed.antt =====
-- Two's complement in the bits of a signal.
use agent_sim.Base.{
  ℕ, zero, suc, ◌+◌, ◌-◌, ◌*◌, ◌/◌, ◌%◌, ◌^◌, ◌≤◌, ◌<◌, bit_and, ◌≡◌, refl, ap, ◌∙◌, inl, inr,
  arith, ◌==◌, ==_iff, Bool-cases, ℤ, pos, negsuc, bit_and-mask, bit_and-pow, pow_add,
}
use native.Mathlib.Nat.{
  pow-suc, mod-eq_of_lt, div-eq_of_lt, pow-le-pow_right, one-le-pow, mod-eq-sub-mod,
  div-eq_of_lt-le,
}
use agent_sim.Dbc.Codec.{as_u64, signed_from_raw, size_mask}

-- The raw value of an integer in a number of bits.
abbrev pub wrapped : ℕ → ℤ → ℕ
wrapped size (pos n) = n
wrapped size (negsuc n) = 2 ^ size - 1 - n

abbrev pub FitsSigned : ℕ → ℤ → Type 0
FitsSigned size (pos n) = n < 2 ^ (size - 1)
FitsSigned size (negsuc n) = n < 2 ^ (size - 1)

pub size_mask_lem : (size : ℕ) → size_mask size ≡ 2 ^ size - 1
size_mask_lem size = elim (Bool-cases (size == 64)) [
  | inl full ↦ let e : size ≡ 64 = (==_iff _ _).0 full in rw e refl
  | inr part ↦ rw part refl
]

mod_below : (m q n : ℕ) → n < m → (m * suc q - 1 - n) % m ≡ m - 1 - n
mod_below m zero n h =
    let e : m * 1 - 1 - n ≡ m - 1 - n = omega arith in rw e (mod-eq_of_lt (omega arith))
mod_below m (suc q) n h =
    let e : m * suc (suc q) - 1 - n - m ≡ m * suc q - 1 - n = omega arith in
    mod-eq-sub-mod (omega arith) ∙ rw e (mod_below m q n h)

low_bits : (size n : ℕ) → size ≤ 64 → n < 2 ^ size → (2 ^ 64 - 1 - n) % 2 ^ size ≡ 2 ^ size - 1 - n
low_bits size n le h =
    let total : size + (64 - size) ≡ 64 = omega arith in
    let whole : 2 ^ 64 ≡ 2 ^ size * 2 ^ (64 - size) = rw total at (pow_add size (64 - size)) in
    let q : suc (2 ^ (64 - size) - 1) ≡ 2 ^ (64 - size) =
      omega (arith, one-le-pow (64 - size) 2 (omega arith)) in
    let e : 2 ^ 64 - 1 - n ≡ 2 ^ size * suc (2 ^ (64 - size) - 1) - 1 - n =
      rw q (omega (arith, whole)) in
    rw e (mod_below (2 ^ size) (2 ^ (64 - size) - 1) n h)

pub whole_half : (size : ℕ) → 0 < size → 2 ^ size ≡ 2 ^ (size - 1) * 2
whole_half zero h = absurd (omega arith)
whole_half (suc k) h = let e : suc k - 1 ≡ k = omega arith in rw e (pow-suc 2 k)

pub mask-wrapped :
    (size : ℕ) (v : ℤ)
    → 0 < size
    → size ≤ 64
    → FitsSigned size v
    → bit_and (as_u64 v) (size_mask size) ≡ wrapped size v
mask-wrapped size (pos n) least le h =
    rw (size_mask_lem size, bit_and-mask size n)
      (mod-eq_of_lt (omega (arith, whole_half size least)))
mask-wrapped size (negsuc n) least le h =
    rw (size_mask_lem size, bit_and-mask size (2 ^ 64 - 1 - n))
      (low_bits size n (omega arith) (omega (arith, whole_half size least)))

-- A size under 64, with the powers of two as numbers.
module _ (size p raw : ℕ) (half : 2 ^ (size - 1) ≡ p) (whole : 2 ^ size ≡ p * 2)
    (bound : p * 2 ≤ 2 ^ 63) where
  sign_clear : 0 < size → size < 64 → raw < p → signed_from_raw raw size ≡ pos raw
  unfolding signed_from_raw
  sign_clear least small h =
      let bit : bit_and raw (2 ^ (size - 1)) ≡ 0 =
        bit_and-pow (size - 1) raw ∙ rw (half, div-eq_of_lt h) (omega arith) in
      rw (bit, signed_from_raw) (ground arith)

  sign_set :
      0 < size
      → size < 64
      → p ≤ raw
      → raw < p * 2
      → signed_from_raw raw size ≡ negsuc (p * 2 - 1 - raw)
  unfolding signed_from_raw
  sign_set least small low h =
      let one : raw / p ≡ 1 = div-eq_of_lt-le p (omega arith) (omega arith) in
      let bit : bit_and raw (2 ^ (size - 1)) ≡ p =
        bit_and-pow (size - 1) raw ∙ rw (half, one) (omega arith) in
      rw (bit, whole, signed_from_raw) (ground arith)

-- The two's complement form of an integer in 1 to 64 bits is read as that integer.
pub signed_from_raw-wrapped :
    (size : ℕ) (v : ℤ)
    → 0 < size
    → size ≤ 64
    → FitsSigned size v
    → signed_from_raw (wrapped size v) size ≡ v
unfolding signed_from_raw
signed_from_raw-wrapped size v least le h = elim (Bool-cases (size == 64)) [
  | inl full ↦ let e : size ≡ 64 = (==_iff _ _).0 full in full_size size v e h
  | inr part ↦
      let small : size < 64 = ground arith in
      let bound : 2 ^ size ≤ 2 ^ 63 = pow-le-pow_right (omega arith) {j = 63} (omega arith) in
      part_size size v least small (omega (arith, whole_half size least)) h
]
  where
    full_size :
        (size : ℕ) (v : ℤ)
        → size ≡ 64
        → FitsSigned size v
        → signed_from_raw (wrapped size v) size ≡ v
    full_size size (pos n) e h =
        let small : n < 2 ^ 63 = rw e at h in rw (e, signed_from_raw) (ground arith)
    full_size size (negsuc n) e h =
        let small : n < 2 ^ 63 = rw e at h in rw (e, signed_from_raw) (ground arith)

    part_size :
        (size : ℕ) (v : ℤ)
        → 0 < size
        → size < 64
        → 2 ^ (size - 1) * 2 ≤ 2 ^ 63
        → FitsSigned size v
        → signed_from_raw (wrapped size v) size ≡ v
    part_size size (pos n) least small bound h =
        sign_clear size (2 ^ (size - 1)) n refl (whole_half size least) bound least small h
    part_size size (negsuc n) least small bound h =
        sign_set size (2 ^ (size - 1)) (2 ^ size - 1 - n) refl (whole_half size least) bound least
          small (omega (arith, whole_half size least)) (omega (arith, whole_half size least))
        ∙ ap negsuc (omega (arith, whole_half size least))
