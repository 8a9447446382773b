-- ===== src/Flash/IntelHex/Image.antt =====
-- The image that an Intel HEX file describes, address by address.
use agent_sim.Base.Map.{get, nat_order}
use agent_sim.Base.{
  ℕ, ◌+◌, ◌-◌, ◌*◌, ◌^◌, ◌≤◌, ◌≡◌, refl, inl, inr, Option, none, some, List, [], ◌∷◌, arith, ltb,
  if◌then◌else◌, Bool-cases, length, All, Result, ok, err, ◌>>=◌,
}
use agent_sim.Flash.IntelHex.{parse_intel_hex}
use agent_sim.Flash.IntelHex.RoundTrip.{
  Record, block_at, end_of_file, segment, linear, start_segment, start_linear, IsEncodable, render,
  execute, parse_intel_hex-render,
}
use agent_sim.Flash.Memory.{
  FlashMemory, region, write_bytes, into_regions, write_regions, merge_regions,
}
use agent_sim.Flash.Memory.Cells.{cells}
use agent_sim.Flash.Memory.Compact.{IsCompact, Fits}
use agent_sim.Flash.Memory.Merge.{written, write_fits, merge_regions-written}
use agent_sim.Flash.Types.{ResolvedFlashRegion, FlashParseError, address_overflow}

-- The blocks in front of the end-of-file record, each at the base of the last address record plus its
-- offset.
abbrev pub placed : ℕ → List Record → List ResolvedFlashRegion
placed base [] = []
placed base (block_at offset values ∷ rs) = region (base + offset) values ∷ placed base rs
placed base (end_of_file ∷ rs) = []
placed base (segment s ∷ rs) = placed (s * 16) rs
placed base (linear s ∷ rs) = placed (s * 65536) rs
placed base (start_segment values ∷ rs) = placed base rs
placed base (start_linear values ∷ rs) = placed base rs

-- The error of a block that leaves the 32-bit addresses: with its start or with its end.
abbrev block_overflow : ℕ → ℕ → ℕ → Option FlashParseError
block_overflow base offset len =
    if ltb (2 ^ 32 - 1) (base + offset)
    then some (address_overflow base offset)
    else if ltb (2 ^ 32) (base + offset + len)
    then some (address_overflow (base + offset) len)
    else none

abbrev or_else : Option FlashParseError → Option FlashParseError → Option FlashParseError
or_else (some e) later = some e
or_else none later = later

-- That of the first such block in front of the end-of-file record.
abbrev pub overflow : ℕ → List Record → Option FlashParseError
overflow base [] = none
overflow base (block_at offset values ∷ rs) =
    or_else (block_overflow base offset (length values)) (overflow base rs)
overflow base (end_of_file ∷ rs) = none
overflow base (segment s ∷ rs) = overflow (s * 16) rs
overflow base (linear s ∷ rs) = overflow (s * 65536) rs
overflow base (start_segment values ∷ rs) = overflow base rs
overflow base (start_linear values ∷ rs) = overflow base rs

-- Without an overflow there are regions with the bytes that the blocks write in turn, and no others.
abbrev pub Reads :
    Option FlashParseError
    → List ResolvedFlashRegion
    → Result (List ResolvedFlashRegion) FlashParseError
    → Type 0
Reads (some e) blocks result = result ≡ err e
Reads none blocks result =
    (out : List ResolvedFlashRegion) × (result ≡ ok out)
    × ((a : ℕ) → get a (cells out) ≡ written a blocks none)
    × IsCompact out
    × Fits out

-- What `execute` comes to, by the overflow of the records.
abbrev Executes :
    Option FlashParseError
    → List ResolvedFlashRegion
    → FlashMemory
    → Result FlashMemory FlashParseError
    → Type 0
Executes (some e) blocks memory result = result ≡ err e
Executes none blocks memory result =
    (m : FlashMemory) × (result ≡ ok m) × (write_regions blocks memory ≡ ok m)

cons-Executes :
    (o : Option FlashParseError) (base : ℕ) (values : List ℕ) (blocks : List ResolvedFlashRegion)
    (memory : FlashMemory) (result : Result FlashMemory FlashParseError)
    → base + length values ≤ 2 ^ 32
    → Executes o blocks (write_bytes base values memory) result
    → Executes o (region base values ∷ blocks) memory result
unfolding write_regions
cons-Executes (some e) base values blocks memory result fits h = h
cons-Executes none base values blocks memory result fits (m, done, wrote) =
    (m, done, rw (write_fits base values memory fits) wrote)

execute-Executes :
    (rs : List Record) (base : ℕ) (memory : FlashMemory)
    → Executes (overflow base rs) (placed base rs) memory (execute rs base memory)
execute-Executes [] base memory = (memory, refl, unfold write_regions in refl)
execute-Executes (block_at offset values ∷ rs) base memory =
    elim (Bool-cases (ltb (2 ^ 32 - 1) (base + offset))) [
      | inl far ↦ rw far refl
      | inr near ↦ elim (Bool-cases (ltb (2 ^ 32) (base + offset + length values))) [
        | inl long ↦ rw (near, long) refl
        | inr fits ↦
            rw (near, fits)
              (cons-Executes (overflow base rs) (base + offset) values (placed base rs) memory
                (execute rs base (write_bytes (base + offset) values memory)) (ground arith)
                (execute-Executes rs base (write_bytes (base + offset) values memory)))
      ]
    ]
execute-Executes (end_of_file ∷ rs) base memory = (memory, refl, unfold write_regions in refl)
execute-Executes (segment s ∷ rs) base memory = execute-Executes rs (s * 16) memory
execute-Executes (linear s ∷ rs) base memory = execute-Executes rs (s * 65536) memory
execute-Executes (start_segment values ∷ rs) base memory = execute-Executes rs base memory
execute-Executes (start_linear values ∷ rs) base memory = execute-Executes rs base memory

Reads-Executes :
    (o : Option FlashParseError) (blocks : List ResolvedFlashRegion)
    (result : Result FlashMemory FlashParseError)
    → Executes o blocks [] result
    → Reads o blocks (result >>= λ memory. ok (into_regions memory))
unfolding merge_regions
Reads-Executes (some e) blocks result h = rw h refl
Reads-Executes none blocks result (m, done, wrote) =
    let merged : merge_regions blocks ≡ ok (into_regions m) = rw (wrote, merge_regions) refl in
    let (bytes_are, compact, fits) = merge_regions-written blocks merged in
    (into_regions m, rw done refl, bytes_are, compact, fits)

-- A file printed from encodable records, with their byte counts and checksums, is read as regions that
-- have at each address the byte that the last block over it stores, each block at the base of the last
-- address record plus its offset, and no other byte; nothing counts after the end-of-file record. The
-- regions are ascending, not empty, at least one address apart, and end within the 32-bit space. When a
-- block leaves that space, with its start or its end, the first such block is the error.
pub parse_intel_hex-Reads :
    (rs : List Record)
    → All IsEncodable rs
    → Reads (overflow 0 rs) (placed 0 rs) (parse_intel_hex (render rs))
parse_intel_hex-Reads rs h =
    rw (parse_intel_hex-render rs h)
      (Reads-Executes (overflow 0 rs) (placed 0 rs) (execute rs 0 []) (execute-Executes rs 0 []))
