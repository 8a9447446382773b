-- ===== src/Dbc/Codec.antt =====
-- runtime/src/can/dbc.rs: `encode_signal`, `decode_signal` and the keys of frames, over doubles that
-- are a parameter.
pub mod Signed
pub mod RoundTrip
use agent_sim.Base.{
  ℕ, ◌+◌, ◌-◌, ◌%◌, ◌^◌, bit_and, bit_or, Bool, not, ◌&&◌, ◌||◌, List, ltb, leb, ◌==◌,
  if◌then◌else◌, ℤ, pos, negsuc, ltb_ℤ, Result, ok, err, ◌>>=◌, ◌>>◌, reject, Text,
}
use agent_sim.Base.Float.{Floats}
use agent_sim.Can.{SimCanFrame, can_flag_extended, can_flag_fd, has_flag}
use agent_sim.Dbc.Types.{
  DbcError, not_finite, out_of_range, zero_factor, exceeds_signed, exceeds_unsigned, negative_raw,
  ValueType, signed, unsigned, DbcSignalDef,
}
use agent_sim.Dbc.Raw.{insert_raw, extract_raw}

-- `as u64` of an `i64`, and back: two's complement.
abbrev pub as_u64 : ℤ → ℕ
as_u64 (pos n) = n
as_u64 (negsuc n) = 2 ^ 64 - 1 - n

abbrev pub as_i64 : ℕ → ℤ
as_i64 raw = if ltb raw (2 ^ 63) then pos raw else negsuc (2 ^ 64 - 1 - raw)

-- The subtraction of `i64` wraps, as it does in a build without overflow checks.
unfoldable pub signed_from_raw : ℕ → ℕ → ℤ
signed_from_raw raw bits =
    if bits == 0
    then pos 0
    else if leb 64 bits
    then as_i64 raw
    else if bit_and raw (2 ^ (bits - 1)) == 0
    then as_i64 raw
    else as_i64 ((raw + (2 ^ 64 - 2 ^ bits)) % 2 ^ 64)

-- `min` and `max` of the signed range, and the mask of a size.
abbrev pub signed_min : ℕ → ℤ
signed_min size = negsuc (2 ^ (size - 1) - 1)

abbrev pub signed_max : ℕ → ℤ
signed_max size = pos (2 ^ (size - 1) - 1)

abbrev pub size_mask : ℕ → ℕ
size_mask size = if size == 64 then 2 ^ 64 - 1 else 2 ^ size - 1

-- The match on the type of the value, from the rounded number.
unfoldable pub raw_of_int : Text → ValueType → ℕ → ℤ → Result ℕ DbcError
raw_of_int name signed size raw_i64 = do
  reject (ltb_ℤ raw_i64 (signed_min size) || ltb_ℤ (signed_max size) raw_i64)
      (exceeds_signed name raw_i64 size)
  ok (bit_and (as_u64 raw_i64) (size_mask size))
raw_of_int name unsigned size raw_i64 = do
  reject (ltb_ℤ raw_i64 (pos 0)) (negative_raw name raw_i64)
  reject (ltb (size_mask size) (as_u64 raw_i64)) (exceeds_unsigned name raw_i64 size)
  ok (as_u64 raw_i64)

unfoldable pub frame_key : ℕ → Bool → ℕ
frame_key arb_id extended = if extended then bit_or arb_id (2 ^ 31) else arb_id

unfoldable pub frame_key_from_frame : SimCanFrame → ℕ
unfolding frame_key
frame_key_from_frame frame = frame_key frame.arb_id (has_flag frame.flags can_flag_extended)

-- `flags |= mask` or `flags &= !mask`.
abbrev pub put_flag : Bool → ℕ → ℕ → ℕ
put_flag on mask flags = if on then bit_or flags mask else bit_and flags (255 - mask)

module _ (D : Floats) where
  -- The number that is rounded to the raw value.
  abbrev pub raw_int : DbcSignalDef D.F64 → D.F64 → ℤ
  raw_int signal value = D.to_i64 (D.round (D.div (D.sub value signal.offset) signal.factor))

  -- The part of `encode_signal` before `insert_raw`.
  unfoldable pub raw_value : DbcSignalDef D.F64 → D.F64 → Result ℕ DbcError
  raw_value signal value = do
    reject (not (D.is_finite value)) (not_finite signal.name)
    reject
        ((not (D.eq signal.lowest (D.of_int (pos 0)))
            || not (D.eq signal.highest (D.of_int (pos 0))))
          && (D.lt value signal.lowest || D.lt signal.highest value))
        (out_of_range signal.name)
    reject (D.eq signal.factor (D.of_int (pos 0))) (zero_factor signal.name)
    raw_of_int signal.name signal.value_type signal.size (raw_int signal value)

  -- The part of `encode_signal` behind `insert_raw`.
  abbrev pub finish_frame : SimCanFrame → DbcSignalDef D.F64 → List ℕ → SimCanFrame
  finish_frame frame signal bytes =
      let len = if ltb frame.len signal.message_size then signal.message_size else frame.len in
      record {
        arb_id = frame.arb_id;
        len = len;
        flags =
            put_flag signal.extended can_flag_extended
              (put_flag (ltb 8 len) can_flag_fd frame.flags);
        bytes = bytes;
      }

  abbrev pub with_bytes : SimCanFrame → List ℕ → SimCanFrame
  with_bytes frame bytes = record {
    arb_id = frame.arb_id;
    len = frame.len;
    flags = frame.flags;
    bytes = bytes;
  }

  abbrev pub encode_inserted :
      SimCanFrame
      → DbcSignalDef D.F64
      → List ℕ × Result (Unit {0}) DbcError
      → SimCanFrame × Result (Unit {0}) DbcError
  encode_inserted frame signal (bytes, err e) = (with_bytes frame bytes, err e)
  encode_inserted frame signal (bytes, ok u) = (finish_frame frame signal bytes, ok tt)

  unfoldable pub encode_signal :
      SimCanFrame → DbcSignalDef D.F64 → D.F64 → SimCanFrame × Result (Unit {0}) DbcError
  encode_signal frame signal value = elim (raw_value signal value) [
    | err e ↦ (frame, err e)
    | ok raw ↦ encode_inserted frame signal (insert_raw frame.bytes signal raw)
  ]

  abbrev pub numeric_of_raw : ValueType → ℕ → ℕ → D.F64
  numeric_of_raw signed size raw = D.of_int (signed_from_raw raw size)
  numeric_of_raw unsigned size raw = D.of_int (pos raw)

  unfoldable pub decode_signal : SimCanFrame → DbcSignalDef D.F64 → Result D.F64 DbcError
  decode_signal frame signal = do
    raw ← extract_raw frame.bytes signal
    ok (
        D.add (D.mul (numeric_of_raw signal.value_type signal.size raw) signal.factor)
          signal.offset)
