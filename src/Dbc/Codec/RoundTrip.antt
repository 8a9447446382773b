-- ===== src/Dbc/Codec/RoundTrip.antt =====
-- A physical value that is encoded into a frame is decoded as the value of its rounded raw number.
use agent_sim.Base.{
  ℕ, ◌-◌, ◌^◌, ◌≤◌, ◌<◌, bit_and, ◌≡◌, refl, sym, ap, ◌∙◌, inl, inr, false, ◌||◌, List, arith,
  Bool-cases, ℤ, pos, negsuc, ltb_ℤ, Result, ok, err, Text,
}
use native.Mathlib.Nat.{one-le-pow}
use agent_sim.Base.Float.{Floats}
use agent_sim.Can.{SimCanFrame}
use agent_sim.Dbc.Types.{DbcError, ValueType, signed, unsigned, DbcSignalDef}
use agent_sim.Dbc.Bits.Laws.{IsData, bit_at}
use agent_sim.Dbc.Raw.{insert_raw}
use agent_sim.Dbc.Raw.RoundTrip.{InFrame, covers, insert_raw-extract_raw, InFrame-size}
use agent_sim.Dbc.Codec.{
  as_u64, signed_min, signed_max, size_mask, signed_from_raw, raw_of_int, raw_int, raw_value,
  numeric_of_raw, encode_inserted, encode_signal, decode_signal,
}
use agent_sim.Dbc.Codec.Signed.{
  wrapped, FitsSigned, size_mask_lem, mask-wrapped, signed_from_raw-wrapped, whole_half,
}

-- What an accepted integer becomes, by the type of the value.
abbrev pub StandsFor : ValueType → ℕ → ℤ → ℕ → Type 0
StandsFor signed size v raw = (raw < 2 ^ size) × (signed_from_raw raw size ≡ v)
StandsFor unsigned size v raw = (raw < 2 ^ size) × (pos raw ≡ v)

wrapped-lt : (size : ℕ) (v : ℤ) → 0 < size → FitsSigned size v → wrapped size v < 2 ^ size
wrapped-lt size (pos n) least h = omega (arith, whole_half size least)
wrapped-lt size (negsuc n) least h = omega (arith, whole_half size least)

in_signed_range :
    (size : ℕ) (v : ℤ)
    → (ltb_ℤ v (signed_min size) || ltb_ℤ (signed_max size) v) ≡ false
    → FitsSigned size v
in_signed_range size (pos n) h = ground (arith, one-le-pow (size - 1) 2 (omega arith))
in_signed_range size (negsuc n) h = ground (arith, one-le-pow (size - 1) 2 (omega arith))

signed_case :
    (name : Text) (size : ℕ) (v : ℤ) (raw : ℕ)
    → 0 < size
    → size ≤ 64
    → raw_of_int name signed size v ≡ ok raw
    → StandsFor signed size v raw
unfolding raw_of_int
signed_case name size v raw least le e =
    elim (Bool-cases (ltb_ℤ v (signed_min size) || ltb_ℤ (signed_max size) v)) [
      | inl over ↦ absurd (let bad = rw over at e in cc)
      | inr fits ↦
          let h = in_signed_range size v fits in
          let same : bit_and (as_u64 v) (size_mask size) ≡ raw = (let done = rw fits at e in cc) in
          let r : raw ≡ wrapped size v = sym same ∙ mask-wrapped size v least le h in
          rw r (wrapped-lt size v least h, signed_from_raw-wrapped size v least le h)
    ]

unsigned_case :
    (name : Text) (size : ℕ) (v : ℤ) (raw : ℕ)
    → raw_of_int name unsigned size v ≡ ok raw
    → StandsFor unsigned size v raw
unfolding raw_of_int
unsigned_case name size (pos n) raw e =
    ground (arith, size_mask_lem size, one-le-pow size 2 (omega arith))
unsigned_case name size (negsuc n) raw e = absurd (ground arith)

raw_of_int-StandsFor :
    (name : Text) (kind : ValueType) (size : ℕ) (v : ℤ) (raw : ℕ)
    → 0 < size
    → size ≤ 64
    → raw_of_int name kind size v ≡ ok raw
    → StandsFor kind size v raw
raw_of_int-StandsFor name signed size v raw least le e = signed_case name size v raw least le e
raw_of_int-StandsFor name unsigned size v raw least le e = unsigned_case name size v raw e

module _ (D : Floats) where
  numeric_of_raw-StandsFor :
      (kind : ValueType) (size : ℕ) (v : ℤ) (raw : ℕ)
      → StandsFor kind size v raw
      → numeric_of_raw D kind size raw ≡ D.of_int v
  numeric_of_raw-StandsFor signed size v raw h = ap D.of_int h.1
  numeric_of_raw-StandsFor unsigned size v raw h = ap D.of_int h.1

  StandsFor-lt :
      (kind : ValueType) (size : ℕ) (v : ℤ) (raw : ℕ) → StandsFor kind size v raw → raw < 2 ^ size
  StandsFor-lt signed size v raw h = h.0
  StandsFor-lt unsigned size v raw h = h.0

  raw_value-StandsFor :
      (signal : DbcSignalDef D.F64) (value : D.F64) (raw : ℕ)
      → 0 < signal.size
      → signal.size ≤ 64
      → raw_value D signal value ≡ ok raw
      → StandsFor signal.value_type signal.size (raw_int D signal value) raw
  unfolding raw_value
  raw_value-StandsFor signal value raw least le e =
      raw_of_int-StandsFor signal.name signal.value_type signal.size (raw_int D signal value) raw
        least le (ground arith)

  encode_inserted-ok :
      (frame : SimCanFrame) (signal : DbcSignalDef D.F64)
      (done : List ℕ × Result (Unit {0}) DbcError)
      → done.1 ≡ ok tt
      → ((encode_inserted D frame signal done).1 ≡ ok tt)
        × ((encode_inserted D frame signal done).0.bytes ≡ done.0)
  encode_inserted-ok frame signal (bytes, ok u) e = (refl, refl)
  encode_inserted-ok frame signal (bytes, err x) e = absurd (cc)

  -- When the checks on a value pass for a signal inside the frame, encoding succeeds, decoding gives
  -- the rounded raw number scaled back, and no bit outside the signal has changed.
  pub decode_signal-encode_signal :
      (frame : SimCanFrame) (signal : DbcSignalDef D.F64) (value : D.F64) (raw : ℕ)
      → IsData frame.bytes
      → InFrame signal.byte_order signal.start_bit signal.size
      → raw_value D signal value ≡ ok raw
      → ((encode_signal D frame signal value).1 ≡ ok tt)
        × (decode_signal D (encode_signal D frame signal value).0 signal
            ≡ ok (D.add (D.mul (D.of_int (raw_int D signal value)) signal.factor) signal.offset))
        × ((j : ℕ)
            → covers signal.byte_order signal.start_bit signal.size j ≡ false
            → bit_at (encode_signal D frame signal value).0.bytes j ≡ bit_at frame.bytes j)
  unfolding encode_signal decode_signal
  decode_signal-encode_signal frame signal value raw h inside e =
      let (least, le) = InFrame-size signal.byte_order signal.start_bit signal.size inside in
      let stands = raw_value-StandsFor signal value raw least le e in
      let small = StandsFor-lt signal.value_type signal.size (raw_int D signal value) raw stands in
      let (fine, framed, read, rest) =
        insert_raw-extract_raw frame.bytes signal raw h inside small in
      let (done, same) = encode_inserted-ok frame signal (insert_raw frame.bytes signal raw) fine in
      let number =
        numeric_of_raw-StandsFor signal.value_type signal.size (raw_int D signal value) raw
          stands in
      rw (e, encode_signal) (done, rw (same, read) (rw number refl), λ j out. rw same (rest j out))
