-- ===== src/Dbc/Raw.antt =====
-- runtime/src/can/dbc.rs: the loops of `insert_raw` and `extract_raw`. An insertion that stops at an
-- error leaves the bits that it has set, so it returns the bytes beside its result. A position past
-- the frame ends the loop, so `start_bit + idx` and the Motorola position never overflow.
pub mod Intel
pub mod Motorola
pub mod RoundTrip
use agent_sim.Base.{
  ℕ, zero, suc, ◌+◌, ◌-◌, ◌*◌, ◌/◌, ◌%◌, ◌^◌, bit_or, List, ltb, ◌==◌, if◌then◌else◌, set, pos,
  Result, ok, err, ◌>>=◌, ◌>>◌,
}
use agent_sim.Dbc.Types.{
  DbcError, size_too_large, ByteOrder, little_endian, big_endian, DbcSignalDef,
}
use agent_sim.Dbc.Bits.{get_bit, set_bit}

-- The next bit of a big-endian signal: down to bit 0 of a byte, then bit 7 of the next byte.
unfoldable pub next_motorola_bit : ℕ → ℕ
next_motorola_bit current = if current % 8 == 0 then current + 15 else current - 1

-- `n` bits of a little-endian signal are left, from bit `idx` of the raw value.
unfoldable pub insert_le : ℕ → ℕ → ℕ → ℕ → List ℕ → List ℕ × Result (Unit {0}) DbcError
insert_le zero start idx raw bytes = (bytes, ok tt)
insert_le (suc n) start idx raw bytes = elim (set_bit bytes (start + idx) (raw / 2 ^ idx % 2)) [
  | err e ↦ (bytes, err e)
  | ok after ↦ insert_le n start (suc idx) raw after
]

-- `n` bits of a big-endian signal are left, the highest of them at `at`.
unfoldable pub insert_be : ℕ → ℕ → ℕ → List ℕ → List ℕ × Result (Unit {0}) DbcError
insert_be zero at raw bytes = (bytes, ok tt)
insert_be (suc n) at raw bytes = elim (set_bit bytes at (raw / 2 ^ n % 2)) [
  | err e ↦ (bytes, err e)
  | ok after ↦ insert_be n (next_motorola_bit at) raw after
]

-- The match on the byte order.
abbrev pub insert_by : ByteOrder → ℕ → ℕ → ℕ → List ℕ → List ℕ × Result (Unit {0}) DbcError
insert_by little_endian start size raw bytes = insert_le size start 0 raw bytes
insert_by big_endian start size raw bytes = insert_be size start raw bytes

unfoldable pub insert_raw :
    {F64 : Type 0} → List ℕ → DbcSignalDef F64 → ℕ → List ℕ × Result (Unit {0}) DbcError
insert_raw bytes signal raw = insert_by signal.byte_order signal.start_bit signal.size raw bytes

unfoldable pub extract_le : ℕ → ℕ → ℕ → ℕ → List ℕ → Result ℕ DbcError
extract_le zero start idx raw bytes = ok raw
extract_le (suc n) start idx raw bytes = do
  bit ← get_bit bytes (start + idx)
  extract_le n start (suc idx) (bit_or raw (bit * 2 ^ idx)) bytes

unfoldable pub extract_be : ℕ → ℕ → ℕ → List ℕ → Result ℕ DbcError
extract_be zero at raw bytes = ok raw
extract_be (suc n) at raw bytes = do
  bit ← get_bit bytes at
  extract_be n (next_motorola_bit at) (bit_or (raw * 2 % 2 ^ 64) bit) bytes

abbrev pub extract_by : ByteOrder → ℕ → ℕ → List ℕ → Result ℕ DbcError
extract_by little_endian start size bytes = extract_le size start 0 0 bytes
extract_by big_endian start size bytes = extract_be size start 0 bytes

unfoldable pub extract_raw : {F64 : Type 0} → List ℕ → DbcSignalDef F64 → Result ℕ DbcError
extract_raw bytes signal =
    if ltb 64 signal.size
    then err (size_too_large signal.name signal.size)
    else extract_by signal.byte_order signal.start_bit signal.size bytes
