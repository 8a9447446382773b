-- ===== src/Load/Tests.antt =====
-- A file system of one file, and the theorems at concrete inputs.
use agent_sim.Base.{
  ◌≡◌, refl, ◌↔◌, true, none, some, List, [], ◌∷◌, ◌++◌, if◌then◌else◌, ok, err, Text, codes,
  text_eq, is_whitespace, trim_start, trim, starts_with, to_digit, from_digits, from_str_radix,
}
use agent_sim.Base.Map.{get, nat_order, text_order}
use agent_sim.Flash.Types.{ResolvedFlashRegion, LoadSpec}
use agent_sim.Flash.Memory.{
  region, ensure_address_range, write_bytes, write, write_regions, regions_loop, into_regions,
  merge_regions,
}
use agent_sim.Flash.Memory.Cells.{cells}
use agent_sim.Flash.Memory.Compact.{Fits}
use agent_sim.Flash.Format.{FlashFile, parse_address}
use agent_sim.Flash.Format.Inline.{encode_inline_u32, encode_inline_bool}
use agent_sim.Load.Paths.{
  Paths, canonicalize_runtime_path, canonicalize_runtime_candidate, first_existing,
  shared_library_fallbacks, resolve_runtime_path,
}
use agent_sim.Load.Entry.{
  parse_cli_flash_entry, joined, Splits, parse_cli_flash_entry-append, parse_cli_flash_entry_iff,
}
use agent_sim.Load.Resolve.{
  FlashBlockDef, inline_u32, inline_bool, EnvInstance, block_regions, collect_blocks,
  resolve_flash_blocks, resolve_env_load_specs, resolve_env_member_load_spec,
}
use agent_sim.Load.Resolve.Image.{
  image, resolve_flash_blocks-image, Specified, resolve_env_load_specs-Specified,
}

abbrev no_file : FlashFile
no_file = record { extension = none; display = []; read_to_string = err []; read_bytes = err [] }

-- Only the path /libecu.so exists.
abbrev one_file : Paths
one_file = record {
  PathBuf = Text;
  from_text = λ t. t;
  is_absolute = λ p. starts_with (codes "/") p;
  join = λ base p. base ++ codes "/" ++ p;
  current_dir = some [];
  canonicalize = λ p. if text_eq p (codes "/libecu.so") then ok p else err (codes "missing");
  display = λ p. p;
  to_string_lossy = λ p. p;
  extension_of = λ p. none;
  with_extension = λ p e. p ++ codes "." ++ e;
  native_extension = codes "so";
  open_file = λ p. no_file;
}

fallback_runs :
    canonicalize_runtime_path one_file (codes "libecu") none (codes "shared library")
    ≡ ok (codes "/libecu.so")
unfolding canonicalize_runtime_path canonicalize_runtime_candidate first_existing
    shared_library_fallbacks resolve_runtime_path
fallback_runs = refl

windows_path :
    parse_cli_flash_entry (codes "C:/blob.bin:0x08040000")
    ≡ (codes "C:/blob.bin", some (codes "0x08040000"))
windows_path = parse_cli_flash_entry-append (codes "C:/blob.bin") (codes "0x08040000") refl refl

trailing_colon : parse_cli_flash_entry (codes "./blob.bin:") ≡ (codes "./blob.bin:", none)
unfolding parse_cli_flash_entry
trailing_colon = refl

parse_cli_flash_entry_iff_example :
    ((parse_cli_flash_entry (codes "C:/blob.bin:0x0804")
        ≡ (codes "C:/blob.bin", some (codes "0x0804")))
      ↔ Splits (codes "C:/blob.bin:0x0804") (codes "C:/blob.bin") (codes "0x0804"))
    × (joined (parse_cli_flash_entry (codes "C:/blob.bin:0x0804")) ≡ codes "C:/blob.bin:0x0804")
parse_cli_flash_entry_iff_example =
    parse_cli_flash_entry_iff (codes "C:/blob.bin:0x0804") (codes "C:/blob.bin") (codes "0x0804")

abbrev blocks : List FlashBlockDef
blocks = inline_u32 0x11223344 (codes "0x1000") ∷ inline_bool true (codes "0x1001") ∷ []

abbrev merged : List ResolvedFlashRegion
merged = region 0x1000 (0x44 ∷ 1 ∷ 0x22 ∷ 0x11 ∷ []) ∷ []

resolve_flash_blocks-image_example :
    (get 0x1001 (cells merged) ≡ image one_file none 0x1001 blocks none) × Fits merged
unfolding resolve_flash_blocks collect_blocks block_regions parse_address encode_inline_u32
    encode_inline_bool merge_regions write_regions write ensure_address_range write_bytes
    into_regions regions_loop trim trim_start is_whitespace from_str_radix from_digits to_digit
resolve_flash_blocks-image_example =
    resolve_flash_blocks-image one_file none blocks merged 0x1001 refl

abbrev member : EnvInstance
member = record { member_name = codes "ecu-a"; lib = some (codes "libecu"); device = none }

abbrev specs : List (Text × LoadSpec)
specs =
    (
      codes "ecu-a",
      record { libpath = codes "/libecu.so"; env_tag = some (codes "bench"); flash = [] },
    )
    ∷ []

resolve_env_load_specs-Specified_example :
    Specified one_file none (codes "bench") (member ∷ []) [] specs
unfolding resolve_env_load_specs resolve_env_member_load_spec canonicalize_runtime_path
    canonicalize_runtime_candidate first_existing shared_library_fallbacks resolve_runtime_path
resolve_env_load_specs-Specified_example =
    resolve_env_load_specs-Specified one_file none (codes "bench") (member ∷ []) [] specs refl
