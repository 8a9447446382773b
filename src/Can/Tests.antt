-- ===== src/Can/Tests.antt =====
-- Frames and payloads to run the definitions on, and the theorems at concrete inputs.
use agent_sim.Base.{
  ◌*◌, ◌≤◌, ◌≡◌, refl, ◌↔◌, true, false, [], ◌∷◌, arith, length, replicate, All, ok, err, codes,
  utf8, str_len, is_whitespace, to_digit,
}
use agent_sim.Can.{SimCanFrame, validate_frame, compact, parse_data_hex, bad_standard_id}
use agent_sim.Can.Validity.{IsSendable, validate_frame_iff}
use agent_sim.Can.Payload.{parse_data_hex-print, parse_data_hex-IsByte}
use agent_sim.Can.Wire.{
  CanFrameWireData, to_wire, from_wire, cleared, from_wire-to_wire, to_wire-from_wire,
}
use agent_sim.Flash.Print.{IsByte}

abbrev fd_frame : SimCanFrame
fd_frame = record { arb_id = 0x18FF_0001; len = 12; flags = 3; bytes = replicate 64 0 }

validate_frame_runs :
    validate_frame (codes "can0") false (record { arb_id = 0x800; len = 8; flags = 0; bytes = [] })
    ≡ err (bad_standard_id (codes "can0") 0x800)
unfolding validate_frame
validate_frame_runs = refl

validate_frame_iff_example :
    (validate_frame (codes "can0") true fd_frame ≡ ok tt) ↔ IsSendable true fd_frame
validate_frame_iff_example = validate_frame_iff (codes "can0") true fd_frame (omega arith)

compact_runs : compact (codes "DE ad_01") ≡ codes "DEad01"
unfolding compact is_whitespace
compact_runs = refl

parse_data_hex-print_example : parse_data_hex (codes "DE_AD 01") ≡ ok (0xDE ∷ 0xAD ∷ 1 ∷ [])
unfolding compact is_whitespace
parse_data_hex-print_example =
    parse_data_hex-print (codes "DE_AD 01") (0xDE ∷ 0xAD ∷ 1 ∷ []) refl (omega arith) (omega arith)

parse_data_hex-IsByte_example :
    (1 ≤ 64) × (1 * 2 ≡ str_len (compact (codes "7f"))) × All IsByte (0x7F ∷ [])
unfolding parse_data_hex compact is_whitespace to_digit utf8
parse_data_hex-IsByte_example = parse_data_hex-IsByte (codes "7f") {bs = 0x7F ∷ []} refl

from_wire-to_wire_example : from_wire (to_wire fd_frame) ≡ ok (cleared fd_frame)
from_wire-to_wire_example = from_wire-to_wire fd_frame refl (omega arith)

abbrev wire : CanFrameWireData
wire = record { wire_id = 5; wire_len = 2; wire_flags = 0; wire_data = 7 ∷ 8 ∷ [] }

abbrev received : SimCanFrame
received = record { arb_id = 5; len = 2; flags = 0; bytes = 7 ∷ 8 ∷ replicate 62 0 }

to_wire-from_wire_runs :
    (to_wire received ≡ wire) × (length received.bytes ≡ 64) × (received.len ≤ 64)
unfolding from_wire
to_wire-from_wire_runs = to_wire-from_wire wire received refl
