-- ===== src/Flash/Srec.antt =====
-- runtime/src/load/mod.rs, `parse_srec`.
use agent_sim.Base.{
  ℕ, ◌+◌, ◌-◌, ◌*◌, ◌%◌, ◌^◌, Bool, true, false, not, ◌||◌, Option, none, some, List, [], ◌∷◌, ltb,
  ◌==◌, if◌then◌else◌, length, take, drop, Result, ok, err, ◌>>=◌, ◌>>◌, reject, map_err, ok_or,
  Text, utf8, str_len, trim, starts_with, lines, is_empty,
}
use agent_sim.Flash.Hex.{decode_hex_bytes, at_boundary}
use agent_sim.Flash.IntelHex.{byte_sum}
use agent_sim.Flash.Memory.{FlashMemory, write, into_regions}
use agent_sim.Flash.Types.{
  ResolvedFlashRegion, HexError, split_char, bad_start, checksum_mismatch, bad_hex, length_mismatch,
  unsupported_type, odd_payload, missing_count, too_short, FlashParseError, invalid_srec, panicked,
}

-- The length of the address that a record type has.
unfoldable pub addr_len : ℕ → Option ℕ
addr_len t =
    if t == b'0' || t == b'1' || t == b'5' || t == b'9'
    then some 2
    else if t == b'2' || t == b'6' || t == b'8'
    then some 3
    else if t == b'3' || t == b'7'
    then some 4
    else none

-- `fold(0_u32, |acc, value| (acc << 8) | value)`: the shift leaves the low byte clear.
abbrev pub be_address : ℕ → List ℕ → ℕ
be_address acc [] = acc
be_address acc (v ∷ vs) = be_address ((acc * 256) % 2 ^ 32 + v) vs

abbrev pub hex_failure : ℕ → HexError → FlashParseError
hex_failure line_no split_char = panicked
hex_failure line_no e = invalid_srec line_no (bad_hex e)

abbrev is_data : ℕ → Bool
is_data t = t == b'1' || t == b'2' || t == b'3'

-- `bytes[1..]` are the address, the data and the checksum.
unfoldable pub run_record : ℕ → ℕ → List ℕ → FlashMemory → Result FlashMemory FlashParseError
unfolding addr_len write
run_record line_no record_type fields memory = do
  len ← ok_or (addr_len record_type) (invalid_srec line_no (unsupported_type record_type))
  reject (ltb (length fields + 1) (len + 2)) (invalid_srec line_no too_short)
  if is_data record_type
      then write (be_address 0 (take len fields)) (take (length fields - 1 - len) (drop len fields))
          memory
      else ok memory

unfoldable pub check_record : ℕ → ℕ → List ℕ → FlashMemory → Result FlashMemory FlashParseError
unfolding run_record
check_record line_no record_type [] memory = err (invalid_srec line_no missing_count)
check_record line_no record_type (count ∷ fields) memory = do
  reject (not (count == length fields))
      (invalid_srec line_no (length_mismatch count (length fields)))
  reject (not (byte_sum 0 (count ∷ fields) == 0xFF)) (invalid_srec line_no checksum_mismatch)
  run_record line_no record_type fields memory

-- `rest` is `&line[2..]`: byte 2 has to start a character.
unfoldable pub parse_rest : ℕ → ℕ → List ℕ → FlashMemory → Result FlashMemory FlashParseError
unfolding check_record decode_hex_bytes
parse_rest line_no record_type rest memory = do
  reject (not (at_boundary rest)) panicked
  reject (not (length rest % 2 == 0)) (invalid_srec line_no odd_payload)
  bytes ← map_err (hex_failure line_no) (decode_hex_bytes rest)
  check_record line_no record_type bytes memory

unfoldable pub split_type : ℕ → List ℕ → FlashMemory → Result FlashMemory FlashParseError
unfolding parse_rest
split_type line_no (s ∷ record_type ∷ rest) memory = parse_rest line_no record_type rest memory
split_type line_no _ memory = err panicked

unfoldable pub parse_line : ℕ → Text → FlashMemory → Result FlashMemory FlashParseError
unfolding split_type
parse_line line_no line memory = do
  reject (not (starts_with (b'S' ∷ []) line) || ltb (str_len line) 4)
      (invalid_srec line_no bad_start)
  split_type line_no (utf8 line) memory

unfoldable pub parse_lines : ℕ → List Text → FlashMemory → Result FlashMemory FlashParseError
unfolding parse_line
parse_lines line_no [] memory = ok memory
parse_lines line_no (raw_line ∷ rest) memory = elim (is_empty (trim raw_line)) [
  | true ↦ parse_lines (line_no + 1) rest memory
  | false ↦ elim (parse_line line_no (trim raw_line) memory) [
    | ok next ↦ parse_lines (line_no + 1) rest next
    | err e ↦ err e
  ]
]

unfoldable pub parse_srec : Text → Result (List ResolvedFlashRegion) FlashParseError
unfolding parse_lines into_regions lines trim
parse_srec content = do memory ← parse_lines 1 (lines content) []; ok (into_regions memory)
