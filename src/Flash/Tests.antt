-- ===== src/Flash/Tests.antt =====
-- Runs of the flash parsers on the inputs of the tests of runtime/src/load/mod.rs, and the theorems
-- at concrete inputs.
use agent_sim.Base.Map.{get, nat_order}
use agent_sim.Base.{
  ℕ, ◌<◌, ◌≡◌, refl, ◌≢◌, none, List, [], ◌∷◌, ◌++◌, arith, length, All, negsuc, ok, err, codes,
  utf8, to_digit,
}
use agent_sim.Flash.Format.{parse_address}
use agent_sim.Flash.Format.Inline.{
  encode_inline_u32, encode_inline_i32, le_value, signed32, encode_inline_u32-value,
  encode_inline_i32-value,
}
use agent_sim.Flash.Hex.{decode_hex_bytes}
use agent_sim.Flash.IntelHex.{parse_line, parse_intel_hex}
use agent_sim.Flash.IntelHex.Image.{parse_intel_hex-Reads}
use agent_sim.Flash.IntelHex.RoundTrip.{
  Record, block_at, end_of_file, linear, segment, render, parse_intel_hex-render,
}
use agent_sim.Flash.IntelHex.Safe.{parse_intel_hex_ascii, parse_line-panics}
use agent_sim.Flash.Memory.{region, write_bytes, into_regions, merge_regions, write}
use agent_sim.Flash.Memory.Cells.{cells}
use agent_sim.Flash.Memory.Compact.{IsCompact, Fits}
use agent_sim.Flash.Memory.Merge.{
  written, merge_regions-written, merge_regions_idem, merge_regions_total, merge_regions_overflow,
}
use agent_sim.Flash.Srec.{parse_srec}
use agent_sim.Flash.Types.{
  ResolvedFlashRegion, address_overflow, panicked, checksum_mismatch, invalid_intel_hex,
}

-- Overlapping and disjoint writes, as in `flash_memory_last_write_wins_and_regions_compact`.
abbrev overlapping : List ResolvedFlashRegion
overlapping = region 0x1000 (1 ∷ 2 ∷ 3 ∷ []) ∷ region 0x1001 (9 ∷ []) ∷ region 0x2000 (7 ∷ []) ∷ []

abbrev compacted : List ResolvedFlashRegion
compacted = region 0x1000 (1 ∷ 9 ∷ 3 ∷ []) ∷ region 0x2000 (7 ∷ []) ∷ []

merge_regions-overlapping : merge_regions overlapping ≡ ok compacted
unfolding merge_regions
merge_regions-overlapping = refl

parse_intel_hex_runs :
    (parse_intel_hex (codes ":0400000001020304F2\n:00000001FF\n")
      ≡ ok (region 0 (1 ∷ 2 ∷ 3 ∷ 4 ∷ []) ∷ []))
    × (parse_intel_hex (codes ":0400000001020304F3\n")
        ≡ err (invalid_intel_hex 1 checksum_mismatch))
unfolding parse_intel_hex to_digit utf8 write
parse_intel_hex_runs = (refl, refl)

parse_srec_runs :
    parse_srec (codes "S00600004844521B\nS107123401020304A8\nS9030000FC\n")
    ≡ ok (region 0x1234 (1 ∷ 2 ∷ 3 ∷ 4 ∷ []) ∷ [])
unfolding parse_srec to_digit utf8
parse_srec_runs = refl

parse_address_runs :
    (parse_address (codes "0x08000000") ≡ ok 0x08000000) × (parse_address (codes "4096") ≡ ok 4096)
unfolding parse_address to_digit
parse_address_runs = (refl, refl)

merge_regions-written_example :
    ((a : ℕ) → get a (cells compacted) ≡ written a overlapping none)
    × IsCompact compacted
    × Fits compacted
merge_regions-written_example = merge_regions-written overlapping merge_regions-overlapping

merge_regions_idem_example : merge_regions compacted ≡ ok compacted
merge_regions_idem_example = merge_regions_idem overlapping merge_regions-overlapping

merge_regions_total_example :
    (out : List ResolvedFlashRegion) × (merge_regions overlapping ≡ ok out)
merge_regions_total_example = merge_regions_total overlapping (omega arith)

merge_regions_overflow_example :
    merge_regions (overlapping ++ region 0xFFFFFFFF (1 ∷ 2 ∷ []) ∷ [])
    ≡ err (address_overflow 0xFFFFFFFF 2)
merge_regions_overflow_example =
    merge_regions_overflow overlapping (region 0xFFFFFFFF (1 ∷ 2 ∷ [])) [] (omega arith)
      (omega arith) (omega arith)

abbrev image : List Record
image =
    linear 0x0800
    ∷ block_at 0x10 (0xDE ∷ 0xAD ∷ [])
    ∷ segment 0x1000
    ∷ block_at 1 (5 ∷ [])
    ∷ end_of_file
    ∷ []

end_line_runs : render (end_of_file ∷ []) ≡ codes ":00000001FF\n"
end_line_runs = refl

image_runs :
    parse_intel_hex (render image)
    ≡ ok (region 0x10001 (5 ∷ []) ∷ region 0x08000010 (0xDE ∷ 0xAD ∷ []) ∷ [])
unfolding into_regions write_bytes
image_runs = parse_intel_hex-render image (omega arith)

parse_intel_hex-Reads_example :
    (out : List ResolvedFlashRegion) × (parse_intel_hex (render image) ≡ ok out)
    × ((a : ℕ)
        → get a (cells out)
          ≡ written a (region 0x08000010 (0xDE ∷ 0xAD ∷ []) ∷ region 0x10001 (5 ∷ []) ∷ []) none)
    × IsCompact out
    × Fits out
parse_intel_hex-Reads_example = parse_intel_hex-Reads image (omega arith)

overflow_runs :
    parse_intel_hex (render (linear 0xFFFF ∷ block_at 0xFFFF (1 ∷ 2 ∷ []) ∷ []))
    ≡ err (address_overflow 0xFFFFFFFF 2)
overflow_runs =
    parse_intel_hex-Reads (linear 0xFFFF ∷ block_at 0xFFFF (1 ∷ 2 ∷ []) ∷ []) (omega arith)

parse_intel_hex_ascii_example : parse_intel_hex (codes ":zz\n") ≢ err panicked
parse_intel_hex_ascii_example = parse_intel_hex_ascii (codes ":zz\n") (omega arith)

parse_line-panics_example :
    parse_line 1 (b':' ∷ b'0' ∷ 0xE9 ∷ codes "0000000") (record { upper_addr = 0; memory = [] })
    ≡ err panicked
unfolding utf8
parse_line-panics_example =
    parse_line-panics 1 b'0' 0xE9 (codes "0000000") (record { upper_addr = 0; memory = [] })
      (omega arith) (omega arith) (omega arith) (omega arith) refl

encode_inline_u32-value_runs :
    (le_value (encode_inline_u32 0x12345678) ≡ 0x12345678)
    × (length (encode_inline_u32 0x12345678) ≡ 4)
    × All (λ b. b < 256) (encode_inline_u32 0x12345678)
encode_inline_u32-value_runs = encode_inline_u32-value 0x12345678 (omega arith)

encode_inline_i32-value_runs : signed32 (le_value (encode_inline_i32 (negsuc 1))) ≡ negsuc 1
encode_inline_i32-value_runs = encode_inline_i32-value (negsuc 1) (omega arith) (omega arith)

encode_inline_i32_runs : encode_inline_i32 (negsuc 1) ≡ 0xFE ∷ 0xFF ∷ 0xFF ∷ 0xFF ∷ []
unfolding encode_inline_i32
encode_inline_i32_runs = refl

-- A plus sign is accepted for the first digit of a byte.
decode_plus : decode_hex_bytes (codes "+5") ≡ ok (5 ∷ [])
unfolding decode_hex_bytes to_digit
decode_plus = refl
