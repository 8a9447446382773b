-- ===== src/Flash/Types.antt =====
-- The data types of runtime/src/load/mod.rs. Each message of an error is a constructor with the
-- values that the message shows.
use agent_sim.Base.{ℕ, List, Option, Text}

pub record ResolvedFlashRegion : Type 0 where
  pub base_addr : ℕ
  pub data_bytes : List ℕ

pub record LoadSpec : Type 0 where
  pub libpath : Text
  pub env_tag : Option Text
  pub flash : List ResolvedFlashRegion

pub data FlashFormat : Type 0 where
  intel_hex srec binary : FlashFormat

-- What `decode_hex_bytes` reports. `split_char` is no value of the program: the slice of a `str`
-- that cuts a character in two panics.
pub data HexError : Type 0 where
  odd_length : HexError
  bad_pair : ℕ → ℕ → HexError
  split_char : HexError

-- The `message` of the errors about one line.
pub data LineError : Type 0 where
  bad_start bad_hex_length checksum_mismatch : LineError
  bad_hex : HexError → LineError
  length_mismatch : ℕ → ℕ → LineError
  segment_length linear_length : LineError
  unsupported_type : ℕ → LineError
  odd_payload missing_count too_short : LineError

pub data FlashParseError : Type 0 where
  unsupported_format invalid_address : Text → FlashParseError
  missing_binary_base : FlashParseError
  address_overflow : ℕ → ℕ → FlashParseError
  invalid_intel_hex invalid_srec : ℕ → LineError → FlashParseError
  file_read load_spec : Text → FlashParseError
  -- The thread panics: a slice off a character boundary, or an index out of range.
  panicked : FlashParseError
