-- ===== src/Flash/IntelHex.antt =====
-- runtime/src/load/mod.rs, `parse_intel_hex`.
pub mod Image
pub mod RoundTrip
pub mod Safe
use agent_sim.Base.{
  ℕ, ◌+◌, ◌-◌, ◌*◌, ◌%◌, true, false, not, ◌||◌, List, [], ◌∷◌, ltb, ◌==◌, if◌then◌else◌, length,
  take, Result, ok, err, ◌>>=◌, ◌>>◌, reject, map_err, ok_or, Text, utf8, str_len, trim,
  strip_prefix, lines, is_empty,
}
use agent_sim.Flash.Hex.{decode_hex_bytes}
use agent_sim.Flash.Memory.{FlashMemory, u32_max, write, into_regions}
use agent_sim.Flash.Types.{
  ResolvedFlashRegion, HexError, split_char, bad_start, bad_hex_length, checksum_mismatch, bad_hex,
  length_mismatch, segment_length, linear_length, unsupported_type, FlashParseError,
  address_overflow, invalid_intel_hex, panicked,
}

-- `upper_addr` and `memory`.
pub record HexState : Type 0 where
  pub upper_addr : ℕ
  pub memory : FlashMemory

-- What the loop does after a line: go on, or leave by `break`.
pub data Next : Type 0 where
  proceed leave : HexState → Next

-- `fold(0_u8, wrapping_add)`.
abbrev pub byte_sum : ℕ → List ℕ → ℕ
byte_sum acc [] = acc
byte_sum acc (v ∷ vs) = byte_sum ((acc + v) % 256) vs

-- `u16::from(hi) << 8 | u16::from(lo)`: the two bytes share no bit.
abbrev pub be16 : ℕ → ℕ → ℕ
be16 hi lo = hi * 256 + lo

abbrev pub hex_failure : ℕ → HexError → FlashParseError
hex_failure line_no split_char = panicked
hex_failure line_no e = invalid_intel_hex line_no (bad_hex e)

-- An extended address record sets `upper_addr` from its two data bytes.
unfoldable pub set_upper : FlashParseError → ℕ → List ℕ → HexState → Result Next FlashParseError
set_upper e scale (hi ∷ lo ∷ []) st = ok (proceed (record st { upper_addr = be16 hi lo * scale }))
set_upper e scale _ st = err e

unfoldable pub write_record : ℕ → List ℕ → HexState → Result Next FlashParseError
write_record address values st = do
  reject (ltb u32_max (st.upper_addr + address)) (address_overflow st.upper_addr address)
  memory ← write (st.upper_addr + address) values st.memory
  ok (proceed (record st { memory = memory }))

-- The `match record_type`; `values` is `data`.
unfoldable pub run_record : ℕ → ℕ → ℕ → List ℕ → HexState → Result Next FlashParseError
unfolding set_upper write_record
run_record line_no record_type address values st =
    if record_type == 0
    then write_record address values st
    else if record_type == 1
    then ok (leave st)
    else if record_type == 2
    then set_upper (invalid_intel_hex line_no segment_length) 16 values st
    else if record_type == 4
    then set_upper (invalid_intel_hex line_no linear_length) 65536 values st
    else if record_type == 3 || record_type == 5
    then ok (proceed st)
    else err (invalid_intel_hex line_no (unsupported_type record_type))

-- The checks on the decoded bytes of a record. The last byte is the checksum.
unfoldable pub check_record : ℕ → List ℕ → HexState → Result Next FlashParseError
unfolding run_record
check_record line_no (count ∷ hi ∷ lo ∷ kind ∷ rest) st = do
  reject (not (length rest + 4 == count + 5))
      (invalid_intel_hex line_no (length_mismatch count (length rest + 4 - 5)))
  reject (not (byte_sum 0 (count ∷ hi ∷ lo ∷ kind ∷ rest) == 0))
      (invalid_intel_hex line_no checksum_mismatch)
  run_record line_no kind (be16 hi lo) (take count rest) st
check_record line_no _ st = err panicked

-- One line that is not blank.
unfoldable pub parse_line : ℕ → Text → HexState → Result Next FlashParseError
unfolding check_record decode_hex_bytes
parse_line line_no line st = do
  payload ← ok_or (strip_prefix (b':' ∷ []) line) (invalid_intel_hex line_no bad_start)
  reject (ltb (str_len payload) 10 || not (str_len payload % 2 == 0))
      (invalid_intel_hex line_no bad_hex_length)
  bytes ← map_err (hex_failure line_no) (decode_hex_bytes (utf8 payload))
  check_record line_no bytes st

-- The loop over the lines.
unfoldable pub parse_lines : ℕ → List Text → HexState → Result FlashMemory FlashParseError
unfolding parse_line
parse_lines line_no [] st = ok st.memory
parse_lines line_no (raw_line ∷ rest) st = elim (is_empty (trim raw_line)) [
  | true ↦ parse_lines (line_no + 1) rest st
  | false ↦ elim (parse_line line_no (trim raw_line) st) [
    | ok (proceed next) ↦ parse_lines (line_no + 1) rest next
    | ok (leave last) ↦ ok last.memory
    | err e ↦ err e
  ]
]

unfoldable pub parse_intel_hex : Text → Result (List ResolvedFlashRegion) FlashParseError
unfolding parse_lines into_regions lines trim
parse_intel_hex content = do
  memory ← parse_lines 1 (lines content) (record { upper_addr = 0; memory = [] })
  ok (into_regions memory)
