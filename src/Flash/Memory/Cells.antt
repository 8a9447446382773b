-- ===== src/Flash/Memory/Cells.antt =====
-- The cells that a list of regions describes, and what `into_regions` keeps of them.
use agent_sim.Base.Map.{Above, IsSorted, nat_order}
use agent_sim.Base.{
  ℕ, ◌+◌, ◌≤◌, ◌<◌, min, ◌≡◌, refl, sym, ap, ◌∙◌, ◌↔◌, inl, inr, true, Option, none, some, List, [],
  ◌∷◌, ◌++◌, append-nil, append_assoc, arith, ◌==◌, Bool-cases, length, length-append,
}
use agent_sim.Flash.Memory.{FlashMemory, u32_max, region, regions_loop, into_regions}
use agent_sim.Flash.Types.{ResolvedFlashRegion}

abbrev pub block : ℕ → List ℕ → FlashMemory
block base [] = []
block base (v ∷ vs) = (base, v) ∷ block (base + 1) vs

abbrev pub cells : List ResolvedFlashRegion → FlashMemory
cells [] = []
cells (r ∷ rs) = block r.base_addr r.data_bytes ++ cells rs

-- Every address fits in 32 bits.
abbrev pub InRange : FlashMemory → Type 0
InRange [] = Unit
InRange ((a, v) ∷ m) = (a ≤ u32_max) × InRange m

pub block-concat :
    (base : ℕ) (vs : List ℕ) (a v : ℕ)
    → a ≡ base + length vs
    → block base (vs ++ v ∷ []) ≡ block base vs ++ (a, v) ∷ []
block-concat base [] a v e = let e' : a ≡ base = omega arith in rw e'
block-concat base (w ∷ vs) a v e = ap (◌∷◌ (base, w)) (block-concat (base + 1) vs a v (omega arith))

pub cells-append : (rs qs : List ResolvedFlashRegion) → cells (rs ++ qs) ≡ cells rs ++ cells qs
cells-append [] qs = refl
cells-append (r ∷ rs) qs = simp (cells-append rs qs, append_assoc)

-- The regions that are done stay in front.
pub regions_loop-done :
    (o : Option ℕ) (previous : ℕ) (current : List ℕ) (done : List ResolvedFlashRegion)
    (m : FlashMemory)
    → regions_loop o previous current done m ≡ done ++ regions_loop o previous current [] m
unfolding regions_loop
regions_loop-done none p c done [] = rw append-nil
regions_loop-done (some b) p c done [] = refl
regions_loop-done none p c done ((a, v) ∷ m) = regions_loop-done (some a) a (c ++ v ∷ []) done m
regions_loop-done (some b) p c done ((a, v) ∷ m) = elim (Bool-cases (a == min (p + 1) u32_max)) [
  | inl next ↦ rw (next, regions_loop) (regions_loop-done (some b) a (c ++ v ∷ []) done m)
  | inr gap ↦
      rw (gap, regions_loop)
        (regions_loop-done (some a) a (v ∷ []) (done ++ region b c ∷ []) m
          ∙ rw append_assoc
              (ap (◌++◌ done) (sym (regions_loop-done (some a) a (v ∷ []) (region b c ∷ []) m))))
]

-- An address that follows in a sorted map continues the block just when the test says so.
pub next_iff : (p a : ℕ) → p < a → a ≤ u32_max → ((a == min (p + 1) u32_max) ≡ true) ↔ (a ≡ p + 1)
next_iff p a h k = ground arith

regions_loop-cells :
    (b p : ℕ) (c : List ℕ) (m : FlashMemory)
    → p + 1 ≡ b + length c
    → Above p m
    → IsSorted m
    → InRange m
    → cells (regions_loop (some b) p c [] m) ≡ block b c ++ m
unfolding regions_loop
regions_loop-cells b p c [] e above s r = refl
regions_loop-cells b p c ((a, v) ∷ m) e above s r =
    let lt : p < a = ground arith in
    elim (Bool-cases (a == min (p + 1) u32_max)) [
      | inl next ↦
          let at : a ≡ b + length c = omega (arith, (next_iff p a lt r.0).0 next) in
          let len : length (c ++ v ∷ []) ≡ length c + 1 = omega (arith, length-append c (v ∷ [])) in
          rw (next, regions_loop)
            (regions_loop-cells b a (c ++ v ∷ []) m (omega arith) s.0 s.1 r.1
              ∙ rw (block-concat b c a v at) (rw append_assoc))
      | inr gap ↦
          rw (gap, regions_loop)
            (ap cells (regions_loop-done (some a) a (v ∷ []) (region b c ∷ []) m)
              ∙ ap (◌++◌ (block b c)) (regions_loop-cells a a (v ∷ []) m (omega arith) s.0 s.1 r.1))
    ]

-- The regions hold the bytes of the map, in the order of their addresses, and nothing else.
pub cells-into_regions : (m : FlashMemory) → IsSorted m → InRange m → cells (into_regions m) ≡ m
unfolding into_regions regions_loop
cells-into_regions [] s r = refl
cells-into_regions ((a, v) ∷ m) s r = regions_loop-cells a a (v ∷ []) m (omega arith) s.0 s.1 r.1
