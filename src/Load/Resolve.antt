-- ===== src/Load/Resolve.antt =====
-- runtime/src/load/resolve.rs: the load specifications of a standalone instance and of the members
-- of an environment, with the definitions of runtime/src/config/recipe.rs that they read.
pub mod Image
use agent_sim.Base.{
  ℕ, Bool, Option, none, some, List, [], ◌∷◌, ◌++◌, map, if◌then◌else◌, ℤ, Result, ok, err, ◌>>=◌,
  ◌>>◌, ok_or, map_err, Text, codes, is_empty,
}
use agent_sim.Base.Map.{get, text_order}
use agent_sim.Flash.Types.{ResolvedFlashRegion, LoadSpec, FlashParseError}
use agent_sim.Flash.Memory.{region, merge_regions}
use agent_sim.Flash.Format.{parse_address, resolve_flash_file}
use agent_sim.Flash.Format.Inline.{
  encode_inline_u32, encode_inline_i32, encode_inline_f32, encode_inline_bool,
}
use agent_sim.Load.Paths.{
  Paths, PathError, resolve_runtime_path, canonicalize_existing_path, canonicalize_runtime_path,
}
use agent_sim.Load.Entry.{parse_cli_flash_entry}

pub record FlashFileBlockDef : Type 0 where
  pub file : Text
  pub format : Option Text
  pub base : Option Text

pub data FlashBlockDef : Type 0 where
  file_block : FlashFileBlockDef → FlashBlockDef
  inline_u32 inline_f32 : ℕ → Text → FlashBlockDef
  inline_i32 : ℤ → Text → FlashBlockDef
  inline_bool : Bool → Text → FlashBlockDef

pub record DeviceDef : Type 0 where
  pub device_lib : Text
  pub device_flash : List FlashBlockDef

pub record EnvInstance : Type 0 where
  pub member_name : Text
  pub lib : Option Text
  pub device : Option Text

-- The defaults for loading, `[defaults.load]`.
pub record LoadDefaults : Type 0 where
  pub default_lib : Option Text
  pub default_flash : List FlashBlockDef

pub data LoadResolveError : Type 0 where
  no_library_path : LoadResolveError
  both_lib_and_device neither_lib_nor_device : Text → LoadResolveError
  missing_device : Text → Text → LoadResolveError
  bad_path : PathError → LoadResolveError
  bad_flash : FlashParseError → LoadResolveError

module _ (S : Paths) (config_base_dir : Option S.PathBuf) where
  -- `explicit_base.map(parse_address).transpose()`.
  abbrev optional_address : Option Text → Result (Option ℕ) LoadResolveError
  optional_address none = ok none
  optional_address (some raw) = do
    address ← map_err bad_flash (parse_address raw)
    ok (some address)

  unfoldable pub resolve_flash_file_block :
      FlashFileBlockDef → Result (List ResolvedFlashRegion) LoadResolveError
  resolve_flash_file_block block = do
    path ← map_err bad_path (
        canonicalize_existing_path S (resolve_runtime_path S block.file config_base_dir)
          (codes "flash file"))
    base_addr ← optional_address block.base
    map_err bad_flash (resolve_flash_file (S.open_file path) block.format base_addr)

  abbrev inline_region : Text → List ℕ → Result (List ResolvedFlashRegion) LoadResolveError
  inline_region addr bytes = do
    base ← map_err bad_flash (parse_address addr)
    ok (region base bytes ∷ [])

  -- The regions of one block.
  unfoldable pub block_regions : FlashBlockDef → Result (List ResolvedFlashRegion) LoadResolveError
  block_regions (file_block file) = resolve_flash_file_block file
  block_regions (inline_u32 value addr) = inline_region addr (encode_inline_u32 value)
  block_regions (inline_i32 value addr) = inline_region addr (encode_inline_i32 value)
  block_regions (inline_f32 value addr) = inline_region addr (encode_inline_f32 value)
  block_regions (inline_bool value addr) = inline_region addr (encode_inline_bool value)

  -- The loop over the blocks.
  unfoldable pub collect_blocks :
      List FlashBlockDef → Result (List ResolvedFlashRegion) LoadResolveError
  collect_blocks [] = ok []
  collect_blocks (block ∷ blocks) = do
    here ← block_regions block
    rest ← collect_blocks blocks
    ok (here ++ rest)

  unfoldable pub resolve_flash_blocks :
      List FlashBlockDef → Result (List ResolvedFlashRegion) LoadResolveError
  resolve_flash_blocks blocks = do
    regions ← collect_blocks blocks
    map_err bad_flash (merge_regions regions)

  unfoldable pub cli_regions : Text → Result (List ResolvedFlashRegion) LoadResolveError
  cli_regions entry = do
    path ← map_err bad_path (
        canonicalize_existing_path S
          (resolve_runtime_path S (parse_cli_flash_entry entry).0 config_base_dir)
          (codes "flash file"))
    base_addr ← optional_address (parse_cli_flash_entry entry).1
    map_err bad_flash (resolve_flash_file (S.open_file path) none base_addr)

  unfoldable pub collect_entries : List Text → Result (List ResolvedFlashRegion) LoadResolveError
  collect_entries [] = ok []
  collect_entries (entry ∷ entries) = do
    here ← cli_regions entry
    rest ← collect_entries entries
    ok (here ++ rest)

  unfoldable pub resolve_cli_flash_entries :
      List Text → Result (List ResolvedFlashRegion) LoadResolveError
  resolve_cli_flash_entries entries = do
    regions ← collect_entries entries
    map_err bad_flash (merge_regions regions)

  abbrev pub library : Text → Result Text LoadResolveError
  library raw =
      map_err bad_path (canonicalize_runtime_path S raw config_base_dir (codes "shared library"))

  abbrev spec : Text → Option Text → List ResolvedFlashRegion → LoadSpec
  spec path tag regions = record { libpath = path; env_tag = tag; flash = regions }

  abbrev or_else {ℓ} : {A : Type ℓ} → Option A → Option A → Option A
  or_else (some a) other = some a
  or_else none other = other

  abbrev lib_of : Option LoadDefaults → Option Text
  lib_of none = none
  lib_of (some d) = d.default_lib

  abbrev flash_of : Option LoadDefaults → List FlashBlockDef
  flash_of none = []
  flash_of (some d) = d.default_flash

  unfoldable pub resolve_standalone_load_spec :
      Option LoadDefaults → Option Text → List Text → Option Text → Result LoadSpec LoadResolveError
  resolve_standalone_load_spec defaults cli_libpath cli_flash env_tag = do
    raw_libpath ← ok_or (or_else cli_libpath (lib_of defaults)) no_library_path
    libpath ← library raw_libpath
    flash ←
        (if is_empty cli_flash
          then resolve_flash_blocks (flash_of defaults)
          else resolve_cli_flash_entries cli_flash)
    ok (spec libpath env_tag flash)

  abbrev pub member_with :
      Text
      → List (Text × DeviceDef)
      → Option Text
      → Option Text
      → Option Text
      → Result LoadSpec LoadResolveError
  member_with name devices tag (some lib) (some device) = err (both_lib_and_device name)
  member_with name devices tag none none = err (neither_lib_nor_device name)
  member_with name devices tag (some lib) none = do path ← library lib; ok (spec path tag [])
  member_with name devices tag none (some device_name) = do
    device ← ok_or (get device_name devices) (missing_device name device_name)
    path ← library device.device_lib
    flash ← resolve_flash_blocks device.device_flash
    ok (spec path tag flash)

  unfoldable pub resolve_env_member_load_spec :
      EnvInstance → List (Text × DeviceDef) → Option Text → Result LoadSpec LoadResolveError
  resolve_env_member_load_spec member devices env_tag =
      member_with member.member_name devices env_tag member.lib member.device

  unfoldable pub resolve_env_load_specs :
      Text
      → List EnvInstance
      → List (Text × DeviceDef)
      → Result (List (Text × LoadSpec)) LoadResolveError
  resolve_env_load_specs env_name [] devices = ok []
  resolve_env_load_specs env_name (member ∷ members) devices = do
    found ← resolve_env_member_load_spec member devices (some env_name)
    rest ← resolve_env_load_specs env_name members devices
    ok ((member.member_name, found) ∷ rest)
