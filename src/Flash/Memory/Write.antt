-- ===== src/Flash/Memory/Write.antt =====
-- The address map after writes.
use agent_sim.Base.Map.{
  get, insert, nat_order, get-insert_self, get-insert_ne, IsSorted, insert-IsSorted,
}
use agent_sim.Base.{
  ℕ, suc, ◌+◌, ◌-◌, ◌≤◌, ◌≡◌, ◌≢◌, ◌∙◌, ◌&&◌, List, [], ◌∷◌, length, get_elem?, ltb, leb, ◌==◌,
  Bool-cases, inl, inr, if◌then◌else◌, arith,
}
use agent_sim.Flash.Memory.{FlashMemory, write_bytes}

get_elem?-tail :
    (base a v : ℕ) (vs : List ℕ)
    → base + 1 ≤ a
    → get_elem? (v ∷ vs) (a - base) ≡ get_elem? vs (a - (base + 1))
get_elem?-tail base a v vs h = let e : a - base ≡ suc (a - (base + 1)) = omega arith in rw e

-- A lookup after a write: inside the block its byte, elsewhere what was there.
pub get-write_bytes :
    (base a : ℕ) (values : List ℕ) (m : FlashMemory)
    → get a (write_bytes base values m) ≡ (
        if leb base a && ltb a (base + length values) then get_elem? values (a - base) else get a m)
unfolding write_bytes
get-write_bytes base a [] m = ground arith
get-write_bytes base a (v ∷ vs) m = elim (Bool-cases (base == a)) [
  | inl same ↦
      let e : base ≡ a = ground arith in
      let self = get-insert_self base v m in
      let z : a - base ≡ 0 = omega arith in
      get-write_bytes (base + 1) a vs (insert base v m) ∙ rw z (rw (← e) (ground (arith, self)))
  | inr other ↦
      let ne : base ≢ a = ground arith in
      get-write_bytes (base + 1) a vs (insert base v m)
      ∙ ground (arith, get-insert_ne base a v m ne, get_elem?-tail base a v vs)
]

pub write_bytes-IsSorted :
    (base : ℕ) (values : List ℕ) (m : FlashMemory)
    → IsSorted m
    → IsSorted (write_bytes base values m)
unfolding write_bytes
write_bytes-IsSorted base [] m s = s
write_bytes-IsSorted base (v ∷ vs) m s =
    write_bytes-IsSorted (base + 1) vs (insert base v m) (insert-IsSorted base v m s)
