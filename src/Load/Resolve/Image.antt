-- ===== src/Load/Resolve/Image.antt =====
-- The flash image of a list of blocks, and the specifications of an environment's members.
use agent_sim.Base.{
  ℕ, ◌≡◌, refl, sym, ◌∙◌, Option, none, some, List, [], ◌∷◌, ◌++◌, Result, ok, err, ok_or, map_err,
  >>=-eq-ok, ok_injective, Text,
}
use agent_sim.Base.Map.{get, nat_order, text_order}
use agent_sim.Flash.Types.{ResolvedFlashRegion, LoadSpec}
use agent_sim.Flash.Memory.{merge_regions}
use agent_sim.Flash.Memory.Cells.{cells}
use agent_sim.Flash.Memory.Compact.{Fits}
use agent_sim.Flash.Memory.Merge.{written, merge_regions-written}
use agent_sim.Load.Paths.{Paths}
use agent_sim.Load.Resolve.{
  FlashBlockDef, DeviceDef, EnvInstance, bad_flash, block_regions, collect_blocks,
  resolve_flash_blocks, resolve_env_load_specs, resolve_env_member_load_spec, member_with, library,
  missing_device,
}

map_err-eq_ok {ℓ κ μ} :
    {A : Type ℓ} {E : Type κ} {F : Type μ} (f : E → F) (r : Result A E) {a : A}
    → map_err f r ≡ ok a
    → r ≡ ok a
map_err-eq_ok f (ok b) h = rw (ok_injective h) refl
map_err-eq_ok f (err e) h = absurd (cc)

module _ (S : Paths) (config_base_dir : Option S.PathBuf) where
  -- The byte that the last block over an address gives it, from the byte that it had.
  abbrev pub image : ℕ → List FlashBlockDef → Option ℕ → Option ℕ
  image a [] old = old
  image a (block ∷ blocks) old = elim (block_regions S config_base_dir block) [
    | ok regions ↦ image a blocks (written a regions old)
    | err e ↦ image a blocks old
  ]

  written-append :
      (a : ℕ) (rs ss : List ResolvedFlashRegion) (old : Option ℕ)
      → written a (rs ++ ss) old ≡ written a ss (written a rs old)
  written-append a [] ss old = refl
  written-append a (r ∷ rs) ss old = written-append a rs ss _

  image-cons :
      (a : ℕ) (block : FlashBlockDef) (blocks : List FlashBlockDef) (old : Option ℕ)
      {here : List ResolvedFlashRegion}
      → block_regions S config_base_dir block ≡ ok here
      → image a (block ∷ blocks) old ≡ image a blocks (written a here old)
  image-cons a block blocks old e = rw (e, image) refl

  collect_blocks-image :
      (a : ℕ) (blocks : List FlashBlockDef) (old : Option ℕ) {regions : List ResolvedFlashRegion}
      → collect_blocks S config_base_dir blocks ≡ ok regions
      → written a regions old ≡ image a blocks old
  unfolding collect_blocks
  collect_blocks-image a [] old {regions} e = rw⁻¹ (ok_injective e) refl
  collect_blocks-image a (block ∷ blocks) old {regions} e =
      let (here, e1, next) = >>=-eq-ok (block_regions S config_base_dir block) _ e in
      let (rest, e2, last) = >>=-eq-ok (collect_blocks S config_base_dir blocks) _ next in
      rw⁻¹ (ok_injective last) (
        written-append a here rest old
        ∙ collect_blocks-image a blocks (written a here old) e2
        ∙ sym (image-cons a block blocks old e1))

  -- When the blocks are resolved, the image has at each address the byte that the last block over
  -- that address gives it, and no other byte, and ends within the 32-bit space.
  pub resolve_flash_blocks-image :
      (blocks : List FlashBlockDef) (out : List ResolvedFlashRegion) (a : ℕ)
      → resolve_flash_blocks S config_base_dir blocks ≡ ok out
      → (get a (cells out) ≡ image a blocks none) × Fits out
  unfolding resolve_flash_blocks
  resolve_flash_blocks-image blocks out a e =
      let (regions, collected, merged) = >>=-eq-ok (collect_blocks S config_base_dir blocks) _ e in
      let (bytes, compact, fits) =
        merge_regions-written regions (map_err-eq_ok bad_flash (merge_regions regions) merged) in
      (bytes a ∙ collect_blocks-image a blocks none collected, fits)

  member_with-tag :
      (name : Text) (devices : List (Text × DeviceDef)) (tag lib device : Option Text)
      (found : LoadSpec)
      → member_with S config_base_dir name devices tag lib device ≡ ok found
      → found.env_tag ≡ tag
  member_with-tag name devices tag (some lib) (some device) found e = absurd (cc)
  member_with-tag name devices tag none none found e = absurd (cc)
  member_with-tag name devices tag (some lib) none found e =
      let (path, _, last) = >>=-eq-ok (library S config_base_dir lib) _ e in
      rw⁻¹ (ok_injective last) refl
  member_with-tag name devices tag none (some device) found e =
      let (d, _, e1) = >>=-eq-ok (ok_or (get device devices) (missing_device name device)) _ e in
      let (path, _, e2) = >>=-eq-ok (library S config_base_dir d.device_lib) _ e1 in
      let (regions, _, last) =
        >>=-eq-ok (resolve_flash_blocks S config_base_dir d.device_flash) _ e2 in
      rw⁻¹ (ok_injective last) refl

  member-tag :
      (m : EnvInstance) (devices : List (Text × DeviceDef)) (tag : Option Text) (found : LoadSpec)
      → resolve_env_member_load_spec S config_base_dir m devices tag ≡ ok found
      → found.env_tag ≡ tag
  unfolding resolve_env_member_load_spec
  member-tag m devices tag found e =
      member_with-tag m.member_name devices tag m.lib m.device found e

  -- Every member's specification, in the order of the members, under its name and the environment's.
  abbrev pub Specified :
      Text → List EnvInstance → List (Text × DeviceDef) → List (Text × LoadSpec) → Type 0
  Specified env [] devices [] = Unit
  Specified env [] devices (s ∷ specs) = ⊥
  Specified env (m ∷ members) devices [] = ⊥
  Specified env (m ∷ members) devices (s ∷ specs) =
      (s.0 ≡ m.member_name)
      × (s.1.env_tag ≡ some env)
      × (resolve_env_member_load_spec S config_base_dir m devices (some env) ≡ ok s.1)
      × Specified env members devices specs

  -- The specifications of an environment are one for each member, in the order of the members, under
  -- its name, tagged with the environment, and each what the member alone resolves to.
  pub resolve_env_load_specs-Specified :
      (env : Text) (members : List EnvInstance) (devices : List (Text × DeviceDef))
      (specs : List (Text × LoadSpec))
      → resolve_env_load_specs S config_base_dir env members devices ≡ ok specs
      → Specified env members devices specs
  unfolding resolve_env_load_specs
  resolve_env_load_specs-Specified env [] devices specs e = rw⁻¹ (ok_injective e) tt
  resolve_env_load_specs-Specified env (m ∷ members) devices specs e =
      let (found, here, next) =
        >>=-eq-ok (resolve_env_member_load_spec S config_base_dir m devices (some env)) _ e in
      let (rest, others, last) =
        >>=-eq-ok (resolve_env_load_specs S config_base_dir env members devices) _ next in
      rw⁻¹ (ok_injective last) (
        refl,
        member-tag m devices (some env) found here,
        here,
        resolve_env_load_specs-Specified env members devices rest others,
      )
