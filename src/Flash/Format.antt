-- ===== src/Flash/Format.antt =====
-- runtime/src/load/mod.rs: addresses, format names, raw binaries, inline values, and
-- `resolve_flash_file` over a file system that is a parameter.
pub mod Inline
use agent_sim.Base.{
  ℕ, ◌^◌, Bool, false, ◌||◌, Option, none, some, List, [], ◌∷◌, if◌then◌else◌, length, Result, ok,
  err, ◌>>=◌, ◌>>◌, ok_or, map_err, Text, codes, text_eq, trim, strip_prefix, from_str_radix,
  to_ascii_lowercase,
}
use agent_sim.Flash.IntelHex.{parse_intel_hex}
use agent_sim.Flash.Memory.{u32_max, region, ensure_address_range}
use agent_sim.Flash.Srec.{parse_srec}
use agent_sim.Flash.Types.{
  ResolvedFlashRegion, FlashFormat, intel_hex, srec, binary, FlashParseError, unsupported_format,
  invalid_address, missing_binary_base, file_read,
}

abbrev is_one_of : Text → List Text → Bool
is_one_of s [] = false
is_one_of s (t ∷ ts) = text_eq s t || is_one_of s ts

abbrev format_named : Text → Result FlashFormat FlashParseError
format_named name =
    if is_one_of name (codes "hex" ∷ codes "ihex" ∷ codes "intel-hex" ∷ codes "intel_hex" ∷ [])
    then ok intel_hex
    else if is_one_of name (
        codes "srec"
        ∷ codes "s-record"
        ∷ codes "s_record"
        ∷ codes "s19"
        ∷ codes "s28"
        ∷ codes "s37"
        ∷ codes "mot"
        ∷ [])
    then ok srec
    else if is_one_of name (codes "bin" ∷ codes "binary" ∷ [])
    then ok binary
    else err (unsupported_format name)

-- `FlashFormat::parse`.
unfoldable pub parse : Text → Result FlashFormat FlashParseError
unfolding to_ascii_lowercase trim
parse raw = format_named (to_ascii_lowercase (trim raw))

abbrev radix_tail : Text → Option Text
radix_tail s = elim (strip_prefix (codes "0x") s) [
  | some rest ↦ some rest
  | none ↦ strip_prefix (codes "0X") s
]

unfoldable pub parse_address : Text → Result ℕ FlashParseError
unfolding trim from_str_radix
parse_address raw = elim (radix_tail (trim raw)) [
  | some hex ↦ ok_or (from_str_radix 16 (2 ^ 32) hex) (invalid_address raw)
  | none ↦ ok_or (from_str_radix 10 (2 ^ 32) (trim raw)) (invalid_address raw)
]

unfoldable pub parse_raw_binary : List ℕ → ℕ → Result ResolvedFlashRegion FlashParseError
unfolding ensure_address_range
parse_raw_binary bytes base_addr = do
  ensure_address_range base_addr (length bytes)
  ok (region base_addr bytes)

-- What the standard library says of the path of a flash file: its extension, if it has one that
-- is text, its display form, and what reading the file as text or as bytes gives.
pub record FlashFile : Type 0 where
  pub extension : Option Text
  pub display : Text
  pub read_to_string : Result Text Text
  pub read_bytes : Result (List ℕ) Text

-- `FlashFormat::infer`.
unfoldable pub infer : FlashFile → Option Text → Result FlashFormat FlashParseError
unfolding parse
infer file (some raw) = parse raw
infer file none = do ext ← ok_or file.extension (unsupported_format file.display); parse ext

abbrev resolve_as :
    FlashFile → Option ℕ → FlashFormat → Result (List ResolvedFlashRegion) FlashParseError
resolve_as file base_addr intel_hex = do
  content ← map_err file_read file.read_to_string
  parse_intel_hex content
resolve_as file base_addr srec = do
  content ← map_err file_read file.read_to_string
  parse_srec content
resolve_as file base_addr binary = do
  bytes ← map_err file_read file.read_bytes
  base ← ok_or base_addr missing_binary_base
  found ← parse_raw_binary bytes base
  ok (found ∷ [])

unfoldable pub resolve_flash_file :
    FlashFile → Option Text → Option ℕ → Result (List ResolvedFlashRegion) FlashParseError
unfolding infer
resolve_flash_file file format base_addr = do
  flash_format ← infer file format
  resolve_as file base_addr flash_format
