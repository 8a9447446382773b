-- ===== src/Flash/Memory/Compact.antt =====
-- The regions of `into_regions` are as few as can be: each is not empty, and between two of them
-- at least one address is free. Such a list is the only one with its cells.
use agent_sim.Base.Map.{Above, IsSorted, nat_order}
use agent_sim.Base.{
  ℕ, ◌+◌, ◌≤◌, ◌<◌, min, ◌≡◌, refl, ap, ◌∙◌, inl, inr, true, false, none, some, List, [], ◌∷◌, ◌++◌,
  append-nil, append_assoc, arith, ◌==◌, Bool-cases, length, length-append,
}
use agent_sim.Flash.Memory.{FlashMemory, u32_max, region, regions_loop, into_regions}
use agent_sim.Flash.Memory.Cells.{block, cells, InRange, regions_loop-done, next_iff}
use agent_sim.Flash.Types.{ResolvedFlashRegion}

-- No region is empty, the first one starts at `limit` or later, and each later one behind a gap
-- after the end of the one before.
abbrev pub Apart : ℕ → List ResolvedFlashRegion → Type 0
Apart limit [] = Unit
Apart limit (r ∷ rs) =
    (limit ≤ r.base_addr)
    × (0 < length r.data_bytes)
    × Apart (r.base_addr + length r.data_bytes + 1) rs

abbrev pub IsCompact : List ResolvedFlashRegion → Type 0
IsCompact = Apart 0

-- The end of every region is within the 32-bit address space.
abbrev pub Fits : List ResolvedFlashRegion → Type 0
Fits [] = Unit
Fits (r ∷ rs) = (r.base_addr + length r.data_bytes ≤ u32_max + 1) × Fits rs

regions_loop-Apart :
    (m : FlashMemory) (limit b p : ℕ) (c : List ℕ)
    → limit ≤ b
    → 0 < length c
    → p + 1 ≡ b + length c
    → Above p m
    → IsSorted m
    → InRange m
    → Apart limit (regions_loop (some b) p c [] m)
unfolding regions_loop
regions_loop-Apart [] limit b p c lb lc e above s r = (lb, lc, tt)
regions_loop-Apart ((a, v) ∷ m) limit b p c lb lc e above s r =
    let lt : p < a = ground arith in
    let len : length (c ++ v ∷ []) ≡ length c + 1 = omega (arith, length-append c (v ∷ [])) in
    elim (Bool-cases (a == min (p + 1) u32_max)) [
      | inl next ↦
          let at : a ≡ p + 1 = (next_iff p a lt r.0).0 next in
          rw (next, regions_loop)
            (regions_loop-Apart m limit b a (c ++ v ∷ []) lb (omega arith) (omega arith) s.0 s.1
              r.1)
      | inr gap ↦
          let far : b + length c + 1 ≤ a = ground (arith, next_iff p a) in
          let rest =
            regions_loop-Apart m (b + length c + 1) a a (v ∷ []) far (omega arith) (omega arith) s.0
              s.1 r.1 in
          rw (gap, regions_loop)
            (rw (regions_loop-done (some a) a (v ∷ []) (region b c ∷ []) m) (lb, lc, rest))
    ]

pub into_regions-IsCompact : (m : FlashMemory) → IsSorted m → InRange m → IsCompact (into_regions m)
unfolding into_regions regions_loop
into_regions-IsCompact [] s r = tt
into_regions-IsCompact ((a, v) ∷ m) s r =
    regions_loop-Apart m 0 a a (v ∷ []) (omega arith) (omega arith) (omega arith) s.0 s.1 r.1

-- The loop takes the rest of a block into the region at hand.
regions_loop-block :
    (vs : List ℕ) (b p q : ℕ) (c : List ℕ) (m : FlashMemory)
    → q ≡ p + length vs
    → q ≤ u32_max
    → regions_loop (some b) p c [] (block (p + 1) vs ++ m) ≡ regions_loop (some b) q (c ++ vs) [] m
unfolding regions_loop
regions_loop-block [] b p q c m e k = let e' : q ≡ p = omega arith in rw (e', append-nil)
regions_loop-block (v ∷ vs) b p q c m e k =
    let next : (p + 1 == min (p + 1) u32_max) ≡ true = ground arith in
    rw (next, regions_loop)
      (regions_loop-block vs b (p + 1) q (c ++ v ∷ []) m (omega arith) k ∙ rw append_assoc)

-- The start of a block, given what the loop makes of the cells behind it.
regions_loop-start :
    (a : ℕ) (values : List ℕ) (rs : List ResolvedFlashRegion)
    → 0 < length values
    → a + length values ≤ u32_max + 1
    → ((p : ℕ) (c : List ℕ)
        → p + 1 ≡ a + length values
        → regions_loop (some a) p c [] (cells rs) ≡ region a c ∷ rs)
    → regions_loop none 0 [] [] (block a values ++ cells rs) ≡ region a values ∷ rs
unfolding regions_loop
regions_loop-start a [] rs h f ih = absurd (omega arith)
regions_loop-start a (v ∷ vs) rs h f ih =
    regions_loop-block vs a a (a + length vs) (v ∷ []) (cells rs) refl (omega arith)
    ∙ ih (a + length vs) (v ∷ vs) (omega arith)

-- A block behind a gap closes the region at hand.
regions_loop-gap :
    (b p a : ℕ) (c values : List ℕ) (m : FlashMemory)
    → p + 2 ≤ a
    → a ≤ u32_max
    → 0 < length values
    → regions_loop (some b) p c [] (block a values ++ m)
      ≡ region b c ∷ regions_loop none 0 [] [] (block a values ++ m)
unfolding regions_loop
regions_loop-gap b p a c [] m h k l = absurd (omega arith)
regions_loop-gap b p a c (v ∷ vs) m h k l =
    let gap : (a == min (p + 1) u32_max) ≡ false = ground arith in
    rw (gap, regions_loop) (regions_loop-done (some a) a (v ∷ []) (region b c ∷ []) _)

regions_loop-compact :
    (rs : List ResolvedFlashRegion) (b p : ℕ) (c : List ℕ)
    → Apart (p + 2) rs
    → Fits rs
    → regions_loop (some b) p c [] (cells rs) ≡ region b c ∷ rs
regions_loop-compact [] b p c h f = unfold regions_loop in refl
regions_loop-compact (r ∷ rs) b p c h f =
    regions_loop-gap b p r.base_addr c r.data_bytes (cells rs) h.0 (omega arith) h.1
    ∙ ap (◌∷◌ (region b c)) (
        regions_loop-start r.base_addr r.data_bytes rs h.1 f.0 λ q d e.
          regions_loop-compact rs r.base_addr q d
            (let e' : q + 2 ≡ r.base_addr + length r.data_bytes + 1 = omega arith in rw e' h.2) f.1)

-- A compact list of regions is recovered from its cells.
pub into_regions-cells :
    (rs : List ResolvedFlashRegion) → IsCompact rs → Fits rs → into_regions (cells rs) ≡ rs
unfolding into_regions
into_regions-cells [] h f = unfold regions_loop in refl
into_regions-cells (r ∷ rs) h f = regions_loop-start r.base_addr r.data_bytes rs h.1 f.0 λ q d e.
    regions_loop-compact rs r.base_addr q d
      (let e' : q + 2 ≡ r.base_addr + length r.data_bytes + 1 = omega arith in rw e' h.2) f.1
