-- ===== src/Dbc/Raw/Intel.antt =====
-- The loops over the bits of a little-endian signal.
use agent_sim.Base.{
  ℕ, zero, suc, ◌+◌, ◌-◌, ◌*◌, ◌/◌, ◌%◌, ◌^◌, ◌≤◌, ◌<◌, ◌≡◌, refl, sym, ap, ◌∙◌, inl, inr, ◌&&◌,
  List, arith, ltb, leb, ◌==◌, if◌then◌else◌, Bool-cases, Result, ok, bit_or-high,
}
use native.Mathlib.Nat.{pow-suc, div-div-eq-div-mul, mod-add-div', mod-lt, one-le-pow}
use agent_sim.Dbc.Types.{DbcError}
use agent_sim.Dbc.Bits.Laws.{IsData, bit_at, get_bit-bit_at, set_bit-bit_at}
use agent_sim.Dbc.Raw.{insert_le, extract_le}

-- The digits of a number, the highest of the lowest `i + 1` apart.
pub div-pow_suc : (a i : ℕ) → a / 2 ^ suc i ≡ a / 2 ^ i / 2
div-pow_suc a i = rw (pow-suc 2 i) (sym (div-div-eq-div-mul a (2 ^ i) 2))

split : (m d : ℕ) → d / 2 * (m * 2) + d % 2 * m ≡ d * m
split m d = let e : d / 2 * 2 + d % 2 ≡ d = omega arith in omega (arith, ap (λ t. t * m) e)

mod-double : (a m : ℕ) → a % (m * 2) ≡ a % m + a / m % 2 * m
mod-double a m =
    let whole : a % (m * 2) + a / m / 2 * (m * 2) ≡ a =
      rw (div-div-eq-div-mul a m 2) (mod-add-div' a (m * 2)) in
    omega (arith, whole, mod-add-div' a m, split m (a / m))

pub mod-pow_suc : (a i : ℕ) → a % 2 ^ suc i ≡ a % 2 ^ i + a / 2 ^ i % 2 * 2 ^ i
mod-pow_suc a i = rw (pow-suc 2 i) (mod-double a (2 ^ i))

-- What bit `j` is after the insertion.
abbrev pub inserted_le : ℕ → ℕ → ℕ → ℕ → List ℕ → ℕ → ℕ
inserted_le n start idx raw bytes j =
    if leb (start + idx) j && ltb j (start + idx + n)
    then raw / 2 ^ (j - start) % 2
    else bit_at bytes j

abbrev pub Inserts : List ℕ × Result (Unit {0}) DbcError → (ℕ → ℕ) → Type 0
Inserts done bits = (done.1 ≡ ok tt) × IsData done.0 × ((j : ℕ) → bit_at done.0 j ≡ bits j)

insert_le-step :
    (n start idx raw bit : ℕ) (bytes after : List ℕ) (j : ℕ)
    → bit ≡ raw / 2 ^ idx % 2
    → bit_at after j ≡ (if start + idx == j then bit else bit_at bytes j)
    → inserted_le n start (suc idx) raw after j ≡ inserted_le (suc n) start idx raw bytes j
insert_le-step n start idx raw bit bytes after j b e = elim (Bool-cases (start + idx == j)) [
  | inl here ↦ let k : j - start ≡ idx = ground arith in rw (e, here, k) (ground arith)
  | inr other ↦ rw (e, other) (ground arith)
]

-- Inside the frame the insertion succeeds, and sets the bits of the signal and no other.
pub insert_le-bits :
    (n start idx raw : ℕ) (bytes : List ℕ)
    → IsData bytes
    → start + idx + n ≤ 512
    → Inserts (insert_le n start idx raw bytes) (inserted_le n start idx raw bytes)
unfolding insert_le
insert_le-bits zero start idx raw bytes h lt = (refl, h, λ j. ground arith)
insert_le-bits (suc n) start idx raw bytes h lt =
    let (after, e, framed, bits) =
      set_bit-bit_at bytes (start + idx) (raw / 2 ^ idx % 2) h (omega arith) (omega arith) in
    let (fine, still, rest) = insert_le-bits n start (suc idx) raw after framed (omega arith) in
    rw (e, insert_le)
      (
        fine,
        still,
        λ j.
            rest j ∙ insert_le-step n start idx raw (raw / 2 ^ idx % 2) bytes after j refl (bits j),
      )

-- Bits that spell a number are read as its digits.
pub extract_le-digits :
    (n start idx raw : ℕ) (bytes : List ℕ)
    → IsData bytes
    → start + idx + n ≤ 512
    → ((i : ℕ) → i < idx + n → bit_at bytes (start + i) ≡ raw / 2 ^ i % 2)
    → extract_le n start idx (raw % 2 ^ idx) bytes ≡ ok (raw % 2 ^ (idx + n))
unfolding extract_le
extract_le-digits zero start idx raw bytes h lt same = ground arith
extract_le-digits (suc n) start idx raw bytes h lt same =
    let here =
      get_bit-bit_at bytes (start + idx) h (omega arith) ∙ ap ok (same idx (omega arith)) in
    let joined =
      bit_or-high idx (raw % 2 ^ idx) (raw / 2 ^ idx % 2)
        (mod-lt raw (one-le-pow idx 2 (omega arith))) (omega arith)
      ∙ sym (mod-pow_suc raw idx) in
    let total : idx + suc n ≡ suc idx + n = omega arith in
    rw (here, extract_le, total)
      (rw joined (
        extract_le-digits n start (suc idx) raw bytes h (omega arith)
          (λ i k. same i (omega arith))))
