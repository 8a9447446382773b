-- ===== src/Dbc/Tests.antt =====
-- Signals to run the definitions on, and the theorems at concrete inputs.
use agent_sim.Base.{
  ℕ, ◌≡◌, refl, true, false, none, List, [], ◌∷◌, arith, take, replicate, ℤ, pos, negsuc, ok, codes,
}
use agent_sim.Base.Float.Ints.{ints}
use agent_sim.Base.Map.{text_order}
use agent_sim.Can.{SimCanFrame}
use agent_sim.Dbc.Types.{little_endian, big_endian, signed, unsigned, DbcSignalDef}
use agent_sim.Dbc.Bits.{get_bit, set_bit, with_bit}
use agent_sim.Dbc.Bits.Laws.{bit_at, SetsBit, set_bit-bit_at}
use agent_sim.Dbc.Raw.{insert_raw, extract_raw, next_motorola_bit, insert_be, extract_be}
use agent_sim.Dbc.Raw.RoundTrip.{Carries, covers, insert_raw-extract_raw}
use agent_sim.Dbc.Codec.{raw_of_int, signed_from_raw, raw_value, encode_signal, decode_signal}
use agent_sim.Dbc.Codec.Signed.{signed_from_raw-wrapped}
use agent_sim.Dbc.Codec.RoundTrip.{decode_signal-encode_signal}
use agent_sim.Dbc.Overlay.{
  SourceSignal, SourceMessage, extended_id, load_overlay, load_messages, load_signals, AllUsable,
  signal_def, load_overlay-AllUsable,
}

abbrev blank : List ℕ
blank = replicate 64 0

-- A signed big-endian signal of 12 bits.
abbrev torque : DbcSignalDef ℤ
torque = record {
  name = codes "Torque";
  frame_key = 0x123;
  arb_id = 0x123;
  extended = false;
  message_size = 8;
  start_bit = 3;
  size = 12;
  byte_order = big_endian;
  value_type = signed;
  factor = pos 2;
  offset = pos 10;
  lowest = pos 0;
  highest = pos 0;
  unit = none;
}

abbrev frame : SimCanFrame
frame = record { arb_id = 0x123; len = 8; flags = 0; bytes = blank }

insert_be_runs : take 3 (insert_raw blank torque 0xABC).0 ≡ 0x0A ∷ 0xBC ∷ 0 ∷ []
unfolding insert_raw insert_be set_bit with_bit next_motorola_bit
insert_be_runs = refl

encode_runs :
    decode_signal ints (encode_signal ints frame torque (negsuc 99)).0 torque ≡ ok (negsuc 99)
unfolding encode_signal decode_signal raw_value raw_of_int insert_raw extract_raw insert_be
    extract_be set_bit with_bit get_bit next_motorola_bit signed_from_raw
encode_runs = refl

set_bit-bit_at_example : SetsBit blank 77 1
set_bit-bit_at_example = set_bit-bit_at blank 77 1 (refl, omega arith) (omega arith) (omega arith)

insert_raw-extract_raw_example :
    Carries big_endian 3 12 0xABC blank
      (insert_raw blank torque 0xABC)
      (extract_raw (insert_raw blank torque 0xABC).0 torque)
insert_raw-extract_raw_example =
    insert_raw-extract_raw blank torque 0xABC (refl, omega arith) (omega arith) (omega arith)

signed_from_raw-wrapped_example : signed_from_raw 0xFCE 12 ≡ negsuc 49
signed_from_raw-wrapped_example =
    signed_from_raw-wrapped 12 (negsuc 49) (omega arith) (omega arith) (omega arith)

decode_signal-encode_signal_example :
    ((encode_signal ints frame torque (negsuc 99)).1 ≡ ok tt)
    × (decode_signal ints (encode_signal ints frame torque (negsuc 99)).0 torque ≡ ok (negsuc 99))
    × ((j : ℕ)
        → covers big_endian 3 12 j ≡ false
        → bit_at (encode_signal ints frame torque (negsuc 99)).0.bytes j ≡ bit_at blank j)
unfolding raw_value raw_of_int
decode_signal-encode_signal_example =
    decode_signal-encode_signal ints frame torque (negsuc 99) 0xFC9 (refl, omega arith)
      (omega arith) refl

abbrev speed : SourceSignal ℤ
speed = record {
  signal_name = codes "Speed";
  is_plain = true;
  first_bit = 0;
  bit_size = 16;
  order = little_endian;
  kind = unsigned;
  slope = pos 1;
  shift = pos 0;
  least = pos 0;
  most = pos 0;
  unit_text = codes "km/h";
}

abbrev messages : List (SourceMessage ℤ)
messages =
    record {
      message_name = codes "Motion";
      id = extended_id 5;
      byte_size = 8;
      signals = speed ∷ [];
    }
    ∷ []

load_overlay-AllUsable_example : AllUsable ((codes "Speed", signal_def 5 true 8 speed) ∷ [])
unfolding load_overlay load_messages load_signals
load_overlay-AllUsable_example = load_overlay-AllUsable messages refl
