-- ===== src/Flash/Memory.antt =====
-- runtime/src/load/mod.rs, `FlashMemory`: the bytes of a flash image by address, and the regions
-- that they form.
pub mod Write
pub mod Cells
pub mod Compact
pub mod Merge
use agent_sim.Base.Map.{insert, nat_order}
use agent_sim.Base.{
  ℕ, suc, ◌+◌, ◌-◌, ◌^◌, min, true, false, Option, none, some, List, [], ◌∷◌, ◌++◌, length, ltb,
  ◌==◌, if◌then◌else◌, Result, ok, err, ◌>>=◌, reject, ◌>>◌,
}
use agent_sim.Flash.Types.{ResolvedFlashRegion, FlashParseError, address_overflow}

abbrev pub u32_max : ℕ
u32_max = 2 ^ 32 - 1

-- `BTreeMap<u32, u8>`.
abbrev pub FlashMemory : Type 0
FlashMemory = List (ℕ × ℕ)

unfoldable pub ensure_address_range : ℕ → ℕ → Result (Unit {0}) FlashParseError
ensure_address_range base_addr len =
    if len == 0
    then ok tt
    else if ltb u32_max (base_addr + len - 1)
    then err (address_overflow base_addr len)
    else ok tt

-- The loop of `write`; after the check no address wraps.
unfoldable pub write_bytes : ℕ → List ℕ → FlashMemory → FlashMemory
write_bytes addr [] memory = memory
write_bytes addr (value ∷ values) memory = write_bytes (addr + 1) values (insert addr value memory)

unfoldable pub write : ℕ → List ℕ → FlashMemory → Result FlashMemory FlashParseError
unfolding ensure_address_range write_bytes
write base_addr values memory = do
  ensure_address_range base_addr (length values)
  ok (write_bytes base_addr values memory)

abbrev pub region : ℕ → List ℕ → ResolvedFlashRegion
region base values = record { base_addr = base; data_bytes = values }

-- The loop of `into_regions`: the base of the region at hand, the address before, its bytes so
-- far, and the regions done.
unfoldable pub regions_loop :
    Option ℕ → ℕ → List ℕ → List ResolvedFlashRegion → FlashMemory → List ResolvedFlashRegion
regions_loop none previous current regions [] = regions
regions_loop (some base) previous current regions [] = regions ++ region base current ∷ []
regions_loop none previous current regions ((addr, value) ∷ rest) =
    regions_loop (some addr) addr (current ++ value ∷ []) regions rest
regions_loop (some base) previous current regions ((addr, value) ∷ rest) =
    elim (addr == min (previous + 1) u32_max) [
      | true ↦ regions_loop (some base) addr (current ++ value ∷ []) regions rest
      | false ↦
          regions_loop (some addr) addr (value ∷ []) (regions ++ region base current ∷ []) rest
    ]

unfoldable pub into_regions : FlashMemory → List ResolvedFlashRegion
unfolding regions_loop
into_regions = regions_loop none 0 [] []

unfoldable pub write_regions :
    List ResolvedFlashRegion → FlashMemory → Result FlashMemory FlashParseError
unfolding write
write_regions [] memory = ok memory
write_regions (r ∷ rs) memory = do
  next ← write r.base_addr r.data_bytes memory
  write_regions rs next

unfoldable pub merge_regions :
    List ResolvedFlashRegion → Result (List ResolvedFlashRegion) FlashParseError
unfolding write_regions into_regions
merge_regions regions = do memory ← write_regions regions []; ok (into_regions memory)
