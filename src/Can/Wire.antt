-- ===== src/Can/Wire.antt =====
-- runtime/src/protocol.rs: frames as they are sent between processes, `CanFrameWireData`.
use agent_sim.Base.{
  ℕ, ◌-◌, ◌≤◌, min, ◌≡◌, refl, ◌∙◌, true, false, not, List, ◌++◌, arith, ltb, ◌==◌, ltb-eq_false,
  length, take, replicate, length-append, take-append_length, length-replicate, length-take, Result,
  ok, ◌>>◌, reject, ok_injective, reject-eq_ok,
}
use agent_sim.Can.{SimCanFrame, payload}

pub record CanFrameWireData : Type 0 where
  pub wire_id : ℕ
  pub wire_len : ℕ
  pub wire_flags : ℕ
  pub wire_data : List ℕ

pub data WireError : Type 0 where
  exceeds_64 : ℕ → WireError
  length_mismatch : ℕ → ℕ → WireError

unfoldable pub to_wire : SimCanFrame → CanFrameWireData
to_wire f = record {
  wire_id = f.arb_id;
  wire_len = f.len;
  wire_flags = f.flags;
  wire_data = payload f;
}

unfoldable pub from_wire : CanFrameWireData → Result SimCanFrame WireError
from_wire w = do
  reject (ltb 64 (length w.wire_data)) (exceeds_64 (length w.wire_data))
  reject (not (w.wire_len == length w.wire_data)) (length_mismatch w.wire_len (length w.wire_data))
  ok (record {
    arb_id = w.wire_id;
    len = w.wire_len;
    flags = w.wire_flags;
    bytes = w.wire_data ++ replicate (64 - length w.wire_data) 0;
  })

-- The frame with the bytes behind its payload cleared.
abbrev pub cleared : SimCanFrame → SimCanFrame
cleared f = record {
  arb_id = f.arb_id;
  len = f.len;
  flags = f.flags;
  bytes = payload f ++ replicate (64 - f.len) 0;
}

-- A frame of at most 64 bytes arrives as it was sent, with the bytes behind its payload cleared.
pub from_wire-to_wire :
    (f : SimCanFrame) → length f.bytes ≡ 64 → f.len ≤ 64 → from_wire (to_wire f) ≡ ok (cleared f)
unfolding from_wire to_wire payload
from_wire-to_wire f whole fits =
    let n : length (take (min f.len 64) f.bytes) ≡ f.len =
      omega (arith, length-take (min f.len 64) f.bytes) in
    let small : ltb 64 f.len ≡ false = ground arith in
    let same : (f.len == f.len) ≡ true = ground arith in rw n (rw (small, same) refl)

-- A frame that is accepted has 64 bytes and at most 64 bytes of payload, and is sent as what it was
-- made of.
pub to_wire-from_wire :
    (w : CanFrameWireData) (f : SimCanFrame)
    → from_wire w ≡ ok f
    → (to_wire f ≡ w) × (length f.bytes ≡ 64) × (f.len ≤ 64)
unfolding from_wire to_wire payload
to_wire-from_wire w f e =
    let (short, e1) =
      reject-eq_ok (ltb 64 (length w.wire_data)) (exceeds_64 (length w.wire_data)) _ e in
    let (same, e2) =
      reject-eq_ok (not (w.wire_len == length w.wire_data))
        (length_mismatch w.wire_len (length w.wire_data)) _ e1 in
    let n : w.wire_len ≡ length w.wire_data = ground arith in
    let le : length w.wire_data ≤ 64 = ltb-eq_false _ _ short in
    let all : min w.wire_len 64 ≡ length w.wire_data = omega arith in
    rw⁻¹ (ok_injective e2) (
      rw (all, take-append_length w.wire_data (replicate (64 - length w.wire_data) 0)) refl,
      length-append w.wire_data (replicate (64 - length w.wire_data) 0)
          ∙ omega (arith, length-replicate {A = ℕ} (64 - length w.wire_data) 0),
      omega arith,
    )
