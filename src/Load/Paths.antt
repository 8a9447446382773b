-- ===== src/Load/Paths.antt =====
-- runtime/src/load/resolve.rs: `resolve_runtime_path`, `canonicalize_runtime_path` and what they
-- call. Paths and the file system are those of the standard library, a parameter.
use agent_sim.Base.{
  Bool, false, Option, none, some, List, [], ◌∷◌, ◌++◌, if◌then◌else◌, Result, ok, err, ◌>>=◌,
  map_err, Text, codes, text_eq,
}
use agent_sim.Flash.Format.{FlashFile}

-- `extension` is `none` without an extension, and `some none` for one that is no text. The platform
-- gives `native_extension`.
pub record Paths : Type 1 where
  pub PathBuf : Type 0
  pub from_text : Text → PathBuf
  pub is_absolute : PathBuf → Bool
  pub join : PathBuf → PathBuf → PathBuf
  pub current_dir : Option PathBuf
  pub canonicalize : PathBuf → Result PathBuf Text
  pub display : PathBuf → Text
  pub to_string_lossy : PathBuf → Text
  pub extension_of : PathBuf → Option (Option Text)
  pub with_extension : PathBuf → Text → PathBuf
  pub native_extension : Text
  pub open_file : PathBuf → FlashFile

pub data PathError : Type 0 where
  unresolved : Text → Text → Text → PathError

module _ (S : Paths) where
  unfoldable pub resolve_runtime_path : Text → Option S.PathBuf → S.PathBuf
  resolve_runtime_path raw_path config_base_dir =
      let path = S.from_text raw_path in
      if S.is_absolute path then path else elim config_base_dir [
        | some base_dir ↦ S.join base_dir path
        | none ↦ elim (S.current_dir) [
          | some dir ↦ S.join dir path
          | none ↦ S.join (S.from_text (codes ".")) path
        ]
      ]

  unfoldable pub canonicalize_existing_path : S.PathBuf → Text → Result S.PathBuf PathError
  canonicalize_existing_path path kind =
      map_err (unresolved kind (S.display path)) (S.canonicalize path)

  abbrev is_native : Option Text → Bool
  is_native none = false
  is_native (some e) = text_eq e S.native_extension

  unfoldable pub shared_library_fallbacks : S.PathBuf → List S.PathBuf
  shared_library_fallbacks path = elim (S.extension_of path) [
    | some ext ↦ if is_native ext then [] else S.with_extension path S.native_extension ∷ []
    | none ↦ S.from_text (S.display path ++ codes "." ++ S.native_extension) ∷ []
  ]

  -- The loop over the fallbacks, and what follows it.
  unfoldable pub first_existing :
      List S.PathBuf → Result S.PathBuf PathError → Result S.PathBuf PathError
  first_existing [] otherwise = otherwise
  first_existing (path ∷ paths) otherwise = elim (S.canonicalize path) [
    | ok canonical ↦ ok canonical
    | err e ↦ first_existing paths otherwise
  ]

  abbrev pub shared_library : Text
  shared_library = codes "shared library"

  unfoldable pub canonicalize_runtime_candidate : S.PathBuf → Text → Result S.PathBuf PathError
  canonicalize_runtime_candidate path kind = elim (S.canonicalize path) [
    | ok canonical ↦ ok canonical
    | err e ↦
        first_existing (if text_eq kind shared_library then shared_library_fallbacks path else [])
          (canonicalize_existing_path path kind)
  ]

  unfoldable pub canonicalize_runtime_path : Text → Option S.PathBuf → Text → Result Text PathError
  canonicalize_runtime_path raw_path config_base_dir kind = do
    canonical ← canonicalize_runtime_candidate (resolve_runtime_path raw_path config_base_dir) kind
    ok (S.to_string_lossy canonical)
