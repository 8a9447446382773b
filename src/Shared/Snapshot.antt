-- ===== src/Shared/Snapshot.antt =====
-- A published snapshot is what an undisturbed reader gets.
use agent_sim.Base.{
  ℕ, suc, ◌%◌, ◌≡◌, refl, ap, ◌∙◌, Bool, true, not, some, List, [], ◌∷◌, map, arith, ◌==◌, ==_iff,
  length, if◌then◌else◌, set, All, ok, err, reject-eq_ok,
}
use agent_sim.Sim.Types.{SimSharedSlotRaw, SimSharedSlot, raw_of_slot}
use agent_sim.Sim.Types.RoundTrip.{IsValue, slot_of_raw-raw_of_slot}
use agent_sim.Shared.{
  Region, WriteStep, set_generation, put_slot, write_step, write_steps, put_slots, publish_steps,
  wrapping_add, check_slots, check_slot_ids, publish, flush_failed, wrong_count, wrong_slot_id,
  decode_slots, read_attempt, read_snapshot, read_rounds, observe,
}

-- The raw slots with the first ones replaced.
abbrev overwrite : List SimSharedSlotRaw → List SimSharedSlot → ℕ → List SimSharedSlotRaw
overwrite raws [] idx = raws
overwrite raws (s ∷ ss) idx = overwrite (set raws idx (raw_of_slot s)) ss (suc idx)

put_slots-region :
    (slots : List SimSharedSlot) (idx : ℕ) (rest : List WriteStep) (r : Region)
    → write_steps (put_slots idx slots rest) r
      ≡ write_steps rest (record {
        generation = r.generation;
        slot_count = r.slot_count;
        initialized = r.initialized;
        writer_session = r.writer_session;
        slots = overwrite r.slots slots idx;
      })
unfolding put_slots write_steps write_step
put_slots-region [] idx rest r = refl
put_slots-region (s ∷ ss) idx rest r =
    put_slots-region ss (suc idx) rest (write_step (put_slot idx (raw_of_slot s)) r)

overwrite-cons :
    (raw : SimSharedSlotRaw) (raws : List SimSharedSlotRaw) (slots : List SimSharedSlot) (idx : ℕ)
    → overwrite (raw ∷ raws) slots (suc idx) ≡ raw ∷ overwrite raws slots idx
overwrite-cons raw raws [] idx = refl
overwrite-cons raw raws (s ∷ ss) idx =
    overwrite-cons raw (set raws idx (raw_of_slot s)) ss (suc idx)

overwrite-all :
    (raws : List SimSharedSlotRaw) (slots : List SimSharedSlot)
    → length slots ≡ length raws
    → overwrite raws slots 0 ≡ map raw_of_slot slots
overwrite-all [] [] e = refl
overwrite-all (raw ∷ raws) [] e = absurd (omega arith)
overwrite-all [] (s ∷ ss) e = absurd (omega arith)
overwrite-all (raw ∷ raws) (s ∷ ss) e =
    overwrite-cons (raw_of_slot s) raws ss 0
    ∙ ap (◌∷◌ (raw_of_slot s)) (overwrite-all raws ss (omega arith))

decode_slots-map :
    (expected : ℕ) (slots : List SimSharedSlot)
    → check_slot_ids expected slots ≡ ok tt
    → All (λ s. IsValue s.value) slots
    → decode_slots expected (map raw_of_slot slots) ≡ ok slots
unfolding decode_slots check_slot_ids
decode_slots-map expected [] c h = refl
decode_slots-map expected (s ∷ ss) c h =
    let (same, rest) =
      reject-eq_ok (not (s.slot_id == expected)) (wrong_slot_id s.slot_id expected) _ c in
    rw (slot_of_raw-raw_of_slot s h.0, same, decode_slots-map (suc expected) ss rest h.1) refl

-- The region after a publication that was accepted.
abbrev published : List SimSharedSlot → Region → Region
published slots r = record {
  generation = wrapping_add r.generation 2;
  slot_count = r.slot_count;
  initialized = 1;
  writer_session = r.writer_session;
  slots = map raw_of_slot slots;
}

write_steps-publish_steps :
    (slots : List SimSharedSlot) (r : Region)
    → length slots ≡ length r.slots
    → write_steps (publish_steps r.generation slots) r ≡ published slots r
unfolding write_steps write_step publish_steps
write_steps-publish_steps slots r e =
    put_slots-region slots 0 _ (write_step (set_generation (wrapping_add r.generation 1)) r)
    ∙ rw (overwrite-all r.slots slots e) refl

check_slots-eq_ok :
    (slots : List SimSharedSlot) (r : Region)
    → check_slots (length r.slots) slots ≡ ok tt
    → ((length slots == length r.slots) ≡ true) × (check_slot_ids 0 slots ≡ ok tt)
unfolding check_slots
check_slots-eq_ok slots r c =
    let (same, ids) =
      reject-eq_ok (not (length slots == length r.slots))
        (wrong_count (length slots) (length r.slots)) _ c in
    (ground arith, ids)

quiet-read_attempt :
    (r : Region) (slots : List SimSharedSlot)
    → r.generation % 2 ≡ 0
    → r.initialized ≡ 1
    → decode_slots 0 r.slots ≡ ok slots
    → read_attempt (observe r) ≡ some (ok slots)
unfolding read_attempt
quiet-read_attempt r slots even ready decoded =
    let stable : (r.generation == r.generation) ≡ true = ground arith in
    rw (even, ready, decoded) (rw (stable, even) refl)

quiet-read_snapshot :
    (r : Region) (slots : List SimSharedSlot)
    → read_attempt (observe r) ≡ some (ok slots)
    → read_snapshot (λ _. observe r) ≡ ok slots
unfolding read_snapshot read_rounds
quiet-read_snapshot r slots e = rw (e, read_rounds) refl

-- Publishing slots that the checks accept into a region whose generation is even fails only when the
-- flush of the mapping does; in both cases the generation is even behind it, also where it wraps, and an
-- undisturbed reader then gets these slots.
pub read_snapshot-publish :
    (flushes : Region → Bool) (slots : List SimSharedSlot) (r : Region)
    → r.generation % 2 ≡ 0
    → check_slots (length r.slots) slots ≡ ok tt
    → All (λ s. IsValue s.value) slots
    → ((publish flushes slots r).1
        ≡ (if flushes (publish flushes slots r).0 then ok tt else err flush_failed))
      × ((publish flushes slots r).0.generation % 2 ≡ 0)
      × (read_snapshot (λ _. observe (publish flushes slots r).0) ≡ ok slots)
unfolding publish
read_snapshot-publish flushes slots r even c h =
    let (count, ids) = check_slots-eq_ok slots r c in
    let all : length slots ≡ length r.slots = (==_iff _ _).0 count in
    let still : wrapping_add r.generation 2 % 2 ≡ 0 = omega arith in
    let written = write_steps (publish_steps r.generation slots) r in
    let done : publish flushes slots r
        ≡ (written, if flushes written then ok tt else err flush_failed) =
      rw (c, publish) refl in
    rw done (
      refl,
      rw (write_steps-publish_steps slots r all) still,
      quiet-read_snapshot (write_steps (publish_steps r.generation slots) r) slots (
          rw (write_steps-publish_steps slots r all) (
            quiet-read_attempt (published slots r) slots still refl
              (decode_slots-map 0 slots ids h))),
    )
