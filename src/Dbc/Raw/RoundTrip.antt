-- ===== src/Dbc/Raw/RoundTrip.antt =====
-- A raw value that is inserted into a frame is what is extracted from it.
use agent_sim.Base.{
  ℕ, ◌+◌, ◌-◌, ◌/◌, ◌%◌, ◌^◌, ◌≤◌, ◌<◌, ◌≡◌, ◌∙◌, Bool, false, ◌&&◌, List, arith, ltb, leb, Result,
  ok,
}
use native.Mathlib.Nat.{mod-eq_of_lt, div-eq_of_lt, pow-le-pow_right}
use agent_sim.Dbc.Types.{DbcError, little_endian, big_endian, ByteOrder, DbcSignalDef}
use agent_sim.Dbc.Bits.Laws.{IsData, bit_at}
use agent_sim.Dbc.Raw.{
  insert_le, insert_be, insert_by, extract_le, extract_be, extract_by, insert_raw, extract_raw,
}
use agent_sim.Dbc.Raw.Intel.{insert_le-bits, extract_le-digits}
use agent_sim.Dbc.Raw.Motorola.{line, insert_be-bits, extract_be-digits}

-- The signal lies inside the 64 bytes and has 1 to 64 bits.
abbrev pub InFrame : ByteOrder → ℕ → ℕ → Type 0
InFrame little_endian start size = (0 < size) × (size ≤ 64) × (start + size ≤ 512)
InFrame big_endian start size = (0 < size) × (size ≤ 64) × (line start + size ≤ 512)

pub InFrame-size :
    (order : ByteOrder) (start size : ℕ) → InFrame order start size → (0 < size) × (size ≤ 64)
InFrame-size little_endian start size h = (h.0, h.1)
InFrame-size big_endian start size h = (h.0, h.1)

-- The bits that belong to the signal.
abbrev pub covers : ByteOrder → ℕ → ℕ → ℕ → Bool
covers little_endian start size j = leb start j && ltb j (start + size)
covers big_endian start size j = leb (line start) (line j) && ltb (line j) (line start + size)

-- A record of what an insertion achieved.
abbrev pub Carries :
    ByteOrder
    → ℕ
    → ℕ
    → ℕ
    → List ℕ
    → List ℕ × Result (Unit {0}) DbcError
    → Result ℕ DbcError
    → Type 0
Carries order start size raw before done read =
    (done.1 ≡ ok tt)
    × IsData done.0
    × (read ≡ ok raw)
    × ((j : ℕ) → covers order start size j ≡ false → bit_at done.0 j ≡ bit_at before j)

module _ (start size raw : ℕ) (bytes : List ℕ) (h : IsData bytes) (small : raw < 2 ^ size) where
  Carries-le :
      start + size ≤ 512
      → Carries little_endian start size raw bytes
          (insert_le size start 0 raw bytes)
          (extract_le size start 0 0 (insert_le size start 0 raw bytes).0)
  Carries-le lt =
      let (fine, framed, bits) = insert_le-bits size start 0 raw bytes h (omega arith) in
      let zero_part : raw % 2 ^ 0 ≡ 0 = omega arith in
      let all_part : raw % 2 ^ (0 + size) ≡ raw =
        let e : 0 + size ≡ size = omega arith in rw e (mod-eq_of_lt small) in
      let read =
        extract_le-digits size start 0 raw (insert_le size start 0 raw bytes).0 framed (omega arith)
          (λ i k.
            bits (start + i)
            ∙ (let e : start + i - start ≡ i = omega arith in rw e (ground arith))) in
      (fine, framed, rw (zero_part, all_part) at read, λ j out. bits j ∙ ground arith)

  Carries-be :
      size ≤ 64
      → line start + size ≤ 512
      → Carries big_endian start size raw bytes
          (insert_be size start raw bytes)
          (extract_be size start 0 (insert_be size start raw bytes).0)
  Carries-be le lt =
      let (fine, framed, bits) = insert_be-bits size start raw bytes h (omega arith) in
      let none_part : raw / 2 ^ size ≡ 0 = div-eq_of_lt small in
      let wide : 2 ^ size ≤ 2 ^ 64 = pow-le-pow_right (omega arith) {j = 64} le in
      let read =
        extract_be-digits size start raw (insert_be size start raw bytes).0 framed (omega arith)
          (omega arith) (λ j low high. bits j ∙ ground arith) in
      (fine, framed, rw none_part at read, λ j out. bits j ∙ ground arith)

Carries-by :
    (order : ByteOrder) (start size raw : ℕ) (bytes : List ℕ)
    → IsData bytes
    → InFrame order start size
    → raw < 2 ^ size
    → Carries order start size raw bytes
        (insert_by order start size raw bytes)
        (extract_by order start size (insert_by order start size raw bytes).0)
Carries-by little_endian start size raw bytes h (least, le, lt) small =
    Carries-le start size raw bytes h small lt
Carries-by big_endian start size raw bytes h (least, le, lt) small =
    Carries-be start size raw bytes h small le lt

-- Inserting a raw value that fits into a signal inside the frame succeeds; the extraction then gives
-- that value, and no bit outside the signal has changed.
pub insert_raw-extract_raw :
    {F64 : Type 0} (bytes : List ℕ) (signal : DbcSignalDef F64) (raw : ℕ)
    → IsData bytes
    → InFrame signal.byte_order signal.start_bit signal.size
    → raw < 2 ^ signal.size
    → Carries signal.byte_order signal.start_bit signal.size raw bytes
        (insert_raw bytes signal raw)
        (extract_raw (insert_raw bytes signal raw).0 signal)
unfolding insert_raw extract_raw
insert_raw-extract_raw bytes signal raw h inside small =
    let fits : ltb 64 signal.size ≡ false =
      ground (arith, InFrame-size signal.byte_order signal.start_bit signal.size inside) in
    rw fits (Carries-by signal.byte_order signal.start_bit signal.size raw bytes h inside small)
