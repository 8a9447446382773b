-- ===== src/Flash/Memory/Merge.antt =====
-- `merge_regions`: later regions win, the result is compact, and merging it again changes nothing.
use agent_sim.Base.Map.{get, insert, IsSorted, nat_order}
use agent_sim.Base.{
  ℕ, ◌+◌, ◌-◌, ◌≤◌, ◌<◌, ◌≡◌, refl, ap, subst, ◌∙◌, ◌⊎◌, inl, ◌&&◌, Option, none, List, [], ◌∷◌,
  ◌++◌, append-nil, append_assoc, arith, ltb, leb, if◌then◌else◌, length, get_elem?, ok, err,
  >>=-eq-ok,
}
use agent_sim.Flash.Memory.{
  FlashMemory, u32_max, ensure_address_range, write_bytes, write, into_regions, write_regions,
  merge_regions,
}
use agent_sim.Flash.Memory.Cells.{block, cells, InRange, cells-into_regions}
use agent_sim.Flash.Memory.Compact.{
  Apart, IsCompact, Fits, into_regions-IsCompact, into_regions-cells,
}
use agent_sim.Flash.Memory.Write.{get-write_bytes, write_bytes-IsSorted}
use agent_sim.Flash.Types.{ResolvedFlashRegion, address_overflow}

InRange-insert : (a v : ℕ) (m : FlashMemory) → a ≤ u32_max → InRange m → InRange (insert a v m)
InRange-insert a v [] h r = (h, tt)
InRange-insert a v ((b, w) ∷ m) h r = ground (arith, InRange-insert a v m h r.1)

InRange-write_bytes :
    (base : ℕ) (vs : List ℕ) (m : FlashMemory)
    → base + length vs ≤ u32_max + 1
    → InRange m
    → InRange (write_bytes base vs m)
unfolding write_bytes
InRange-write_bytes base [] m h r = r
InRange-write_bytes base (v ∷ vs) m h r =
    InRange-write_bytes (base + 1) vs (insert base v m) (omega arith)
      (InRange-insert base v m (omega arith) r)

-- What `write` has done when it succeeds.
pub write-eq_ok :
    (base : ℕ) (vs : List ℕ) (m : FlashMemory) {m' : FlashMemory}
    → write base vs m ≡ ok m'
    → (m' ≡ write_bytes base vs m) × ((length vs ≡ 0) ⊎ (base + length vs ≤ u32_max + 1))
unfolding write ensure_address_range
write-eq_ok base [] m h = (ground arith, inl refl)
write-eq_ok base (v ∷ vs) m h = ground arith

pub write_fits :
    (base : ℕ) (vs : List ℕ) (m : FlashMemory)
    → base + length vs ≤ u32_max + 1
    → write base vs m ≡ ok (write_bytes base vs m)
unfolding write ensure_address_range
write_fits base [] m h = ground arith
write_fits base (v ∷ vs) m h = ground arith

write_overflow :
    (base : ℕ) (vs : List ℕ) (m : FlashMemory)
    → 0 < length vs
    → u32_max + 1 < base + length vs
    → write base vs m ≡ err (address_overflow base (length vs))
unfolding write ensure_address_range
write_overflow base [] m k h = absurd (omega arith)
write_overflow base (v ∷ vs) m k h = ground arith

-- The byte at an address after writing the regions in turn over `old`.
abbrev pub written : ℕ → List ResolvedFlashRegion → Option ℕ → Option ℕ
written a [] old = old
written a (r ∷ rs) old = written a rs (
    if leb r.base_addr a && ltb a (r.base_addr + length r.data_bytes)
    then get_elem? r.data_bytes (a - r.base_addr)
    else old)

record Written (rs : List ResolvedFlashRegion) (m m' : FlashMemory) : Type 0 where
  bytes_are : (a : ℕ) → get a m' ≡ written a rs (get a m)
  sorted : IsSorted m → IsSorted m'
  in_range : InRange m → InRange m'

write-InRange :
    (base : ℕ) (vs : List ℕ) (m : FlashMemory)
    → (length vs ≡ 0) ⊎ (base + length vs ≤ u32_max + 1)
    → InRange m
    → InRange (write_bytes base vs m)
write-InRange base [] m h r = unfold write_bytes in r
write-InRange base (v ∷ vs) m h r = InRange-write_bytes base (v ∷ vs) m (ground arith) r

write_regions-Written :
    (rs : List ResolvedFlashRegion) (m : FlashMemory) {m' : FlashMemory}
    → write_regions rs m ≡ ok m'
    → Written rs m m'
unfolding write_regions
write_regions-Written [] m {m'} h =
    let e : m ≡ m' = cc in
    subst (Written [] m) e (record { bytes_are = λ a. refl; sorted = λ s. s; in_range = λ r. r })
write_regions-Written (r ∷ rs) m {m'} h =
    let (n, first, later) = >>=-eq-ok (write r.base_addr r.data_bytes m) (write_regions rs) h in
    let (e, fits) = write-eq_ok r.base_addr r.data_bytes m first in
    let rest = write_regions-Written rs n later in
    record {
      bytes_are = λ a. rest.bytes_are a ∙ rw e (rw (get-write_bytes r.base_addr a r.data_bytes m));
      sorted = λ s. rest.sorted (rw e (write_bytes-IsSorted r.base_addr r.data_bytes m s));
      in_range = λ s. rest.in_range (rw e (write-InRange r.base_addr r.data_bytes m fits s));
    }

InRange-append :
    (b : ℕ) (vs : List ℕ) (m : FlashMemory)
    → InRange (block b vs ++ m)
    → ((0 < length vs) → (b + length vs ≤ u32_max + 1)) × InRange m
InRange-append b [] m r = (λ h. absurd (omega arith), r)
InRange-append b (v ∷ []) m r = (λ h. omega arith, r.1)
InRange-append b (v ∷ w ∷ vs) m r =
    let rest = InRange-append (b + 1) (w ∷ vs) m r.1 in
    (λ h. omega (arith, rest.0 (omega arith)), rest.1)

Fits-cells :
    (rs : List ResolvedFlashRegion) (limit : ℕ) → Apart limit rs → InRange (cells rs) → Fits rs
Fits-cells [] limit h r = tt
Fits-cells (q ∷ qs) limit h r =
    let parts = InRange-append q.base_addr q.data_bytes (cells qs) r in
    (parts.0 h.1, Fits-cells qs _ h.2 parts.1)

-- When `merge_regions` succeeds, its result has at each address the byte that the last region over
-- that address wrote, and no other byte. Its regions are ascending, not empty, at least one address
-- apart, and end within the 32-bit space.
pub merge_regions-written :
    (rs : List ResolvedFlashRegion) {out : List ResolvedFlashRegion}
    → merge_regions rs ≡ ok out
    → ((a : ℕ) → get a (cells out) ≡ written a rs none) × IsCompact out × Fits out
unfolding merge_regions
merge_regions-written rs {out} h =
    let (m, wrote, made) = >>=-eq-ok (write_regions rs []) (λ m. ok (into_regions m)) h in
    let w = write_regions-Written rs [] wrote in
    let s = w.sorted tt in
    let r = w.in_range tt in
    let e : into_regions m ≡ out = cc in
    let c : cells out ≡ m = rw (← e) (cells-into_regions m s r) in
    let compact : IsCompact out = rw (← e) (into_regions-IsCompact m s r) in
    (λ a. rw c (w.bytes_are a), compact, Fits-cells out 0 compact (rw c r))

-- Every key of the map is under `b`.
abbrev Under : ℕ → FlashMemory → Type 0
Under b [] = Unit
Under b ((a, v) ∷ m) = (a < b) × Under b m

insert_end : (a v : ℕ) (m : FlashMemory) → Under a m → insert a v m ≡ m ++ (a, v) ∷ []
insert_end a v [] u = refl
insert_end a v ((b, w) ∷ m) u = ground (arith, insert_end a v m u.1)

Under-concat : (b a v : ℕ) (m : FlashMemory) → Under a m → a < b → Under b (m ++ (a, v) ∷ [])
Under-concat b a v [] u h = (h, tt)
Under-concat b a v ((c, w) ∷ m) u h = (omega arith, Under-concat b a v m u.1 h)

write_bytes_end :
    (b : ℕ) (vs : List ℕ) (m : FlashMemory) → Under b m → write_bytes b vs m ≡ m ++ block b vs
unfolding write_bytes
write_bytes_end b [] m u = rw append-nil
write_bytes_end b (v ∷ vs) m u = rw (insert_end b v m u) (
    write_bytes_end (b + 1) vs (m ++ (b, v) ∷ []) (Under-concat (b + 1) b v m u (omega arith))
    ∙ rw append_assoc)

Under-mono : (b c : ℕ) (m : FlashMemory) → b ≤ c → Under b m → Under c m
Under-mono b c [] h u = tt
Under-mono b c ((a, v) ∷ m) h u = (omega arith, Under-mono b c m h u.1)

Under-block :
    (b c : ℕ) (vs : List ℕ) (m : FlashMemory)
    → Under b m
    → b + length vs ≤ c
    → Under c (m ++ block b vs)
Under-block b c [] m u h = rw append-nil (Under-mono b c m (omega arith) u)
Under-block b c (v ∷ vs) m u h =
    let e : m ++ block b (v ∷ vs) ≡ (m ++ (b, v) ∷ []) ++ block (b + 1) vs = rw append_assoc in
    rw e (Under-block (b + 1) c vs _ (Under-concat (b + 1) b v m u (omega arith)) (omega arith))

write_regions-cells :
    (rs : List ResolvedFlashRegion) (limit : ℕ) (m : FlashMemory)
    → Apart limit rs
    → Fits rs
    → Under limit m
    → write_regions rs m ≡ ok (m ++ cells rs)
unfolding write_regions
write_regions-cells [] limit m h f u = rw append-nil
write_regions-cells (r ∷ rs) limit m h f u =
    let under = Under-mono limit r.base_addr m h.0 u in
    rw (write_fits r.base_addr r.data_bytes m f.0, write_bytes_end r.base_addr r.data_bytes m under)
      (write_regions-cells rs (r.base_addr + length r.data_bytes + 1)
          (m ++ block r.base_addr r.data_bytes) h.2 f.1
          (Under-block r.base_addr _ r.data_bytes m under (omega arith))
        ∙ rw append_assoc)

-- Compact regions within the address space are merged into themselves.
pub merge_regions-IsCompact :
    (rs : List ResolvedFlashRegion) → IsCompact rs → Fits rs → merge_regions rs ≡ ok rs
unfolding merge_regions
merge_regions-IsCompact rs h f =
    rw (write_regions-cells rs 0 [] h f tt) (ap ok (into_regions-cells rs h f))

-- So merging what `merge_regions` returned gives it back.
pub merge_regions_idem :
    (rs : List ResolvedFlashRegion) {out : List ResolvedFlashRegion}
    → merge_regions rs ≡ ok out
    → merge_regions out ≡ ok out
merge_regions_idem rs {out} h =
    let (_, compact, fits) = merge_regions-written rs h in merge_regions-IsCompact out compact fits

write_regions_total :
    (rs : List ResolvedFlashRegion) (m : FlashMemory)
    → Fits rs
    → (m' : FlashMemory) × (write_regions rs m ≡ ok m')
unfolding write_regions
write_regions_total [] m f = (m, refl)
write_regions_total (r ∷ rs) m f =
    rw (write_fits r.base_addr r.data_bytes m f.0)
      (write_regions_total rs (write_bytes r.base_addr r.data_bytes m) f.1)

write_regions_overflow :
    (before : List ResolvedFlashRegion) (r : ResolvedFlashRegion) (after : List ResolvedFlashRegion)
    (m : FlashMemory)
    → Fits before
    → 0 < length r.data_bytes
    → u32_max + 1 < r.base_addr + length r.data_bytes
    → write_regions (before ++ r ∷ after) m
      ≡ err (address_overflow r.base_addr (length r.data_bytes))
unfolding write_regions
write_regions_overflow [] r after m f k h = rw (write_overflow r.base_addr r.data_bytes m k h)
write_regions_overflow (q ∷ qs) r after m f k h =
    rw (write_fits q.base_addr q.data_bytes m f.0)
      (write_regions_overflow qs r after (write_bytes q.base_addr q.data_bytes m) f.1 k h)

-- Merging succeeds when every region ends within the 32-bit space.
pub merge_regions_total :
    (rs : List ResolvedFlashRegion)
    → Fits rs
    → (out : List ResolvedFlashRegion) × (merge_regions rs ≡ ok out)
unfolding merge_regions
merge_regions_total rs f = let (m, e) = write_regions_total rs [] f in (into_regions m, rw e)

-- If some region holds a byte past the 32-bit space, the first such region is reported, by its base
-- and its length.
pub merge_regions_overflow :
    (before : List ResolvedFlashRegion) (r : ResolvedFlashRegion) (after : List ResolvedFlashRegion)
    → Fits before
    → 0 < length r.data_bytes
    → u32_max + 1 < r.base_addr + length r.data_bytes
    → merge_regions (before ++ r ∷ after) ≡ err (address_overflow r.base_addr (length r.data_bytes))
unfolding merge_regions
merge_regions_overflow before r after f k h = rw (write_regions_overflow before r after [] f k h)
