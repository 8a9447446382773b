-- ===== src/Shared.antt =====
-- runtime/src/shared/mod.rs: the memory region through which one writer publishes snapshots to
-- readers. The operating system's files and mappings are not modelled: a file is its length with the
-- region in it.
pub mod Snapshot
pub mod Interleaving
mod Tests
use agent_sim.Base.{
  ℕ, zero, suc, ◌+◌, ◌-◌, ◌*◌, ◌%◌, ◌^◌, min, Bool, true, not, ◌&&◌, Option, none, some, List, [],
  ◌∷◌, ◌++◌, ◌==◌, if◌then◌else◌, length, set, take, replicate, Result, ok, err, ◌>>=◌, ◌>>◌,
  reject, map_err, Text, utf8,
}
use agent_sim.Sim.Types.{
  SimValueRaw, SimSharedSlotRaw, SimSharedSlot, SharedSlotDecodeError, raw_of_slot, slot_of_raw,
}

-- The header and the slots.
pub record Region : Type 0 where
  pub generation : ℕ
  pub slot_count : ℕ
  pub initialized : ℕ
  pub writer_session : List ℕ
  pub slots : List SimSharedSlotRaw

pub data PublishError : Type 0 where
  wrong_count : ℕ → ℕ → PublishError
  wrong_slot_id : ℕ → ℕ → PublishError
  flush_failed : PublishError

pub data OpenError : Type 0 where
  not_initialized_yet : OpenError
  wrong_size wrong_slot_count : ℕ → ℕ → OpenError

unfoldable pub encode_writer : Text → List ℕ
encode_writer writer_session =
    let bytes = utf8 writer_session in
    let len = min (length bytes) 63 in take len bytes ++ replicate (64 - len) 0

-- The sizes of the header and of a slot in the layout of C.
abbrev pub byte_len : ℕ → ℕ
byte_len slot_count = 80 + slot_count * 24

abbrev pub zero_slot : SimSharedSlotRaw
zero_slot = record {
  raw_slot_id = 0;
  slot_type = 0;
  raw_value = record { signal_type = 0; bits = 0 };
}

unfoldable pub initial_region : ℕ → Text → Region
initial_region slot_count writer_session = record {
  generation = 0;
  slot_count = slot_count % 2 ^ 32;
  initialized = 0;
  writer_session = encode_writer writer_session;
  slots = replicate slot_count zero_slot;
}

-- `SharedRegion::open` on a file, if there is one, of some length.
unfoldable pub open_region : ℕ → Text → Bool → Option (ℕ × Region) → Result Region OpenError
open_region slot_count writer_session initialize none =
    if not initialize
    then err not_initialized_yet
    else ok (initial_region slot_count writer_session)
open_region slot_count writer_session initialize (some (current_len, region)) =
    if current_len == 0
    then (if not initialize
        then err not_initialized_yet
        else ok (initial_region slot_count writer_session))
    else if not (current_len == byte_len slot_count)
    then err (wrong_size current_len (byte_len slot_count))
    else if initialize
    then ok (initial_region slot_count writer_session)
    else if not (region.slot_count == slot_count)
    then err (wrong_slot_count region.slot_count slot_count)
    else ok region

-- The stores into the region, one by one.
pub data WriteStep : Type 0 where
  set_generation : ℕ → WriteStep
  put_slot : ℕ → SimSharedSlotRaw → WriteStep
  set_initialized : Bool → WriteStep

unfoldable pub write_step : WriteStep → Region → Region
write_step (set_generation value) r = record {
  generation = value;
  slot_count = r.slot_count;
  initialized = r.initialized;
  writer_session = r.writer_session;
  slots = r.slots;
}
write_step (put_slot idx raw) r = record {
  generation = r.generation;
  slot_count = r.slot_count;
  initialized = r.initialized;
  writer_session = r.writer_session;
  slots = set r.slots idx raw;
}
write_step (set_initialized value) r = record {
  generation = r.generation;
  slot_count = r.slot_count;
  initialized = if value then 1 else 0;
  writer_session = r.writer_session;
  slots = r.slots;
}

unfoldable pub write_steps : List WriteStep → Region → Region
write_steps [] r = r
write_steps (s ∷ ss) r = write_steps ss (write_step s r)

-- The loop over the identifiers of the slots.
unfoldable pub check_slot_ids : ℕ → List SimSharedSlot → Result (Unit {0}) PublishError
check_slot_ids expected [] = ok tt
check_slot_ids expected (s ∷ ss) = do
  reject (not (s.slot_id == expected)) (wrong_slot_id s.slot_id expected)
  check_slot_ids (suc expected) ss

unfoldable pub check_slots : ℕ → List SimSharedSlot → Result (Unit {0}) PublishError
check_slots slot_count slots = do
  reject (not (length slots == slot_count)) (wrong_count (length slots) slot_count)
  check_slot_ids 0 slots

-- The loop that stores the slots, and what follows it.
unfoldable pub put_slots : ℕ → List SimSharedSlot → List WriteStep → List WriteStep
put_slots idx [] rest = rest
put_slots idx (s ∷ ss) rest = put_slot idx (raw_of_slot s) ∷ put_slots (suc idx) ss rest

abbrev pub wrapping_add : ℕ → ℕ → ℕ
wrapping_add a b = (a + b) % 2 ^ 64

unfoldable pub publish_steps : ℕ → List SimSharedSlot → List WriteStep
publish_steps generation slots =
    set_generation (wrapping_add generation 1)
    ∷ put_slots 0 slots (set_initialized true ∷ set_generation (wrapping_add generation 2) ∷ [])

-- What the asynchronous flush of the mapping says, which the operating system decides, ends the
-- publication; the stores are done by then.
unfoldable pub publish :
    (Region → Bool) → List SimSharedSlot → Region → Region × Result (Unit {0}) PublishError
publish flushes slots r = elim (check_slots (length r.slots) slots) [
  | err e ↦ (r, err e)
  | ok u ↦
      let written = write_steps (publish_steps r.generation slots) r in
      (written, if flushes written then ok tt else err flush_failed)
]

pub data SharedSnapshotError : Type 0 where
  busy : ℕ → SharedSnapshotError
  uninitialized : SharedSnapshotError
  invalid_slot : ℕ → SharedSlotDecodeError → SharedSnapshotError
  reported_slot_id : ℕ → ℕ → SharedSnapshotError

-- What one round of the loop of `read_snapshot` loads.
pub record Observation : Type 0 where
  pub before : ℕ
  pub seen_initialized : ℕ
  pub seen_slots : List SimSharedSlotRaw
  pub after : ℕ

unfoldable pub decode_slots :
    ℕ → List SimSharedSlotRaw → Result (List SimSharedSlot) SharedSnapshotError
decode_slots expected [] = ok []
decode_slots expected (raw ∷ raws) = do
  decoded ← map_err (invalid_slot expected) (slot_of_raw raw)
  reject (not (decoded.slot_id == expected)) (reported_slot_id expected decoded.slot_id)
  rest ← decode_slots (suc expected) raws
  ok (decoded ∷ rest)

abbrev pub accept :
    Observation
    → Result (List SimSharedSlot) SharedSnapshotError
    → Option (Result (List SimSharedSlot) SharedSnapshotError)
accept o (err e) = some (err e)
accept o (ok snapshot) =
    if o.before == o.after && o.after % 2 == 0 then some (ok snapshot) else none

-- One round; `none` goes on to the next.
unfoldable pub read_attempt : Observation → Option (Result (List SimSharedSlot) SharedSnapshotError)
unfolding decode_slots
read_attempt o =
    if not (o.before % 2 == 0)
    then none
    else if o.seen_initialized == 0
    then some (err uninitialized)
    else accept o (decode_slots 0 o.seen_slots)

abbrev pub max_snapshot_spins : ℕ
max_snapshot_spins = 32

-- The rounds that are left, from the round `i`.
unfoldable pub read_rounds :
    ℕ → ℕ → (ℕ → Observation) → Result (List SimSharedSlot) SharedSnapshotError
read_rounds zero i rounds = err (busy max_snapshot_spins)
read_rounds (suc left) i rounds = elim (read_attempt (rounds i)) [
  | some result ↦ result
  | none ↦ read_rounds left (suc i) rounds
]

unfoldable pub read_snapshot : (ℕ → Observation) → Result (List SimSharedSlot) SharedSnapshotError
read_snapshot rounds = read_rounds max_snapshot_spins 0 rounds

-- A round during which nothing is written.
abbrev pub observe : Region → Observation
observe r = record {
  before = r.generation;
  seen_initialized = r.initialized;
  seen_slots = r.slots;
  after = r.generation;
}
