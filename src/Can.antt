-- ===== src/Can.antt =====
-- runtime/src/can/mod.rs: `validate_frame` and `parse_data_hex`, with the frame of
-- runtime/src/sim/types.rs. Sending and receiving are the platform's.
pub mod Validity
pub mod Payload
pub mod Wire
mod Tests
use agent_sim.Base.{
  ℕ, ◌/◌, ◌%◌, ◌^◌, min, bit_and, bit_or, Bool, not, ◌&&◌, ◌||◌, List, [], ◌∷◌, ltb, leb, ◌==◌,
  if◌then◌else◌, take, Result, ok, err, ◌>>=◌, ◌>>◌, reject, ok_or, Text, utf8, str_len,
  is_whitespace, from_str_radix,
}

-- A CAN frame; `bytes` is the array `data` of 64 bytes.
pub record SimCanFrame : Type 0 where
  pub arb_id : ℕ
  pub len : ℕ
  pub flags : ℕ
  pub bytes : List ℕ

pub record SimCanFrameRaw : Type 0 where
  pub raw_arb_id : ℕ
  pub raw_len : ℕ
  pub raw_flags : ℕ
  pub pad : List ℕ
  pub raw_bytes : List ℕ

unfoldable pub to_raw : SimCanFrame → SimCanFrameRaw
to_raw f = record {
  raw_arb_id = f.arb_id;
  raw_len = f.len;
  raw_flags = f.flags;
  pad = 0 ∷ 0 ∷ [];
  raw_bytes = f.bytes;
}

unfoldable pub from_raw : SimCanFrameRaw → SimCanFrame
from_raw raw = record {
  arb_id = raw.raw_arb_id;
  len = raw.raw_len;
  flags = raw.raw_flags;
  bytes = raw.raw_bytes;
}

unfoldable pub payload : SimCanFrame → List ℕ
payload f = take (min f.len 64) f.bytes

abbrev pub can_flag_extended : ℕ
can_flag_extended = 2 ^ 0

abbrev pub can_flag_fd : ℕ
can_flag_fd = 2 ^ 1

abbrev pub can_flag_brs : ℕ
can_flag_brs = 2 ^ 2

abbrev pub can_flag_esi : ℕ
can_flag_esi = 2 ^ 3

abbrev pub can_flag_rtr : ℕ
can_flag_rtr = 2 ^ 4

abbrev pub can_flag_reserved_mask : ℕ
can_flag_reserved_mask = 0b1110_0000

-- The messages of `validate_frame` and `parse_data_hex`, with the values that they show. The text
-- that was parsed stands in each message about a payload and is left out.
pub data CanError : Type 0 where
  reserved_flags classic_only fd_with_rtr : Text → CanError
  bad_extended_id bad_standard_id bad_length bad_fd_length bad_classic_length : Text → ℕ → CanError
  odd_hex payload_too_long : CanError
  bad_byte : ℕ → ℕ → CanError

-- `frame.flags & mask != 0`.
abbrev pub has_flag : ℕ → ℕ → Bool
has_flag flags mask = not (bit_and flags mask == 0)

-- `matches!(len, 0..=8 | 12 | 16 | 20 | 24 | 32 | 48 | 64)`.
abbrev pub fd_length : ℕ → Bool
fd_length len =
    leb len 8
    || len == 12
    || len == 16
    || len == 20
    || len == 24
    || len == 32
    || len == 48
    || len == 64

unfoldable pub validate_frame : Text → Bool → SimCanFrame → Result (Unit {0}) CanError
validate_frame bus_name fd_capable f =
    if has_flag f.flags can_flag_reserved_mask
    then err (reserved_flags bus_name)
    else if has_flag f.flags can_flag_extended && ltb 0x1FFF_FFFF f.arb_id
    then err (bad_extended_id bus_name f.arb_id)
    else if not (has_flag f.flags can_flag_extended) && ltb 0x7FF f.arb_id
    then err (bad_standard_id bus_name f.arb_id)
    else if ltb 64 f.len
    then err (bad_length bus_name f.len)
    else if has_flag f.flags can_flag_fd || has_flag f.flags (bit_or can_flag_brs can_flag_esi)
    then (if not fd_capable
        then err (classic_only bus_name)
        else if not (fd_length f.len)
        then err (bad_fd_length bus_name f.len)
        else if has_flag f.flags can_flag_rtr
        then err (fd_with_rtr bus_name)
        else ok tt)
    else if ltb 8 f.len
    then err (bad_classic_length bus_name f.len)
    else ok tt

-- The characters that `parse_data_hex` keeps.
abbrev pub is_separator : ℕ → Bool
is_separator c = is_whitespace c || c == b'_'

unfoldable pub compact : Text → Text
compact [] = []
compact (c ∷ s) = if is_separator c then compact s else c ∷ compact s

-- The loop over the pairs of bytes. Each byte is read as a Latin-1 character.
unfoldable pub parse_pairs : List ℕ → Result (List ℕ) CanError
unfolding from_str_radix
parse_pairs [] = ok []
parse_pairs (a ∷ []) = err odd_hex
parse_pairs (a ∷ b ∷ rest) = do
  value ← ok_or (from_str_radix 16 256 (a ∷ b ∷ [])) (bad_byte a b)
  values ← parse_pairs rest
  ok (value ∷ values)

unfoldable pub parse_data_hex : Text → Result (List ℕ) CanError
unfolding compact parse_pairs
parse_data_hex raw = do
  reject (not (str_len (compact raw) % 2 == 0)) odd_hex
  reject (ltb 64 (str_len (compact raw) / 2)) payload_too_long
  parse_pairs (utf8 (compact raw))
