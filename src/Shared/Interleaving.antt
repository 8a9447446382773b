-- ===== src/Shared/Interleaving.antt =====
-- A reader between the stores of the writer. The loads of a reader and the stores of the writer
-- follow one another in some order; between two loads the writer takes any number of steps.
use agent_sim.Base.{
  ℕ, zero, suc, ◌+◌, ◌%◌, ◌^◌, ◌≤◌, ◌<◌, ◌≡◌, refl, sym, ap, ap₂, ◌∙◌, inl, inr, none, some, List,
  [], ◌∷◌, arith, ◌==◌, ==_iff, Bool-cases, length, get_elem?, Result, ok, err, Result-cases,
}
use agent_sim.Sim.Types.{SimSharedSlotRaw, SimSharedSlot}
use agent_sim.Shared.{
  Region, WriteStep, set_generation, put_slot, set_initialized, write_step, put_slots,
  publish_steps, wrapping_add, check_slots, zero_slot, PublishError, Observation,
  SharedSnapshotError, read_attempt, decode_slots, accept, observe,
}

-- The region and the stores that the running call of `publish` still has to make.
pub record Writer : Type 0 where
  pub region : Region
  pub todo : List WriteStep

pub data Event : Type 0 where
  begin : List SimSharedSlot → Event
  proceed : Event

abbrev begin_checked : Writer → List SimSharedSlot → Result (Unit {0}) PublishError → Writer
begin_checked w slots (err e) = w
begin_checked w slots (ok u) = record {
  region = w.region;
  todo = publish_steps w.region.generation slots;
}

-- A call begins when the last one is over, and only with slots that it accepts.
abbrev begin_publish : Writer → List SimSharedSlot → List WriteStep → Writer
begin_publish w slots [] = begin_checked w slots (check_slots (length w.region.slots) slots)
begin_publish w slots (s ∷ ss) = w

abbrev proceed_with : Writer → List WriteStep → Writer
proceed_with w [] = w
proceed_with w (s ∷ ss) = record { region = write_step s w.region; todo = ss }

unfoldable pub writer_step : Event → Writer → Writer
writer_step (begin slots) w = begin_publish w slots w.todo
writer_step proceed w = proceed_with w w.todo

unfoldable pub run_writer : List Event → Writer → Writer
run_writer [] w = w
run_writer (e ∷ es) w = run_writer es (writer_step e w)

-- The generations of the pending stores count up from the present one, every other store happens at
-- an odd generation, and the last generation is even.
abbrev pub Chain : ℕ → List WriteStep → Type 0
Chain g [] = g % 2 ≡ 0
Chain g (set_generation v ∷ ss) = (v ≡ wrapping_add g 1) × Chain v ss
Chain g (put_slot i raw ∷ ss) = (g % 2 ≡ 1) × Chain g ss
Chain g (set_initialized b ∷ ss) = (g % 2 ≡ 1) × Chain g ss

pub record IsWriter (w : Writer) : Type 0 where
  pub chain : Chain w.region.generation w.todo
  pub fits : w.region.generation < 2 ^ 64

-- The writer moved on, and stored `count` generations on the way.
pub record Moved (w v : Writer) (count : ℕ) : Type 0 where
  pub counted : v.region.generation ≡ wrapping_add w.region.generation count
  pub sound : IsWriter v
  pub still : count ≡ 0 → w.region.generation % 2 ≡ 0 → v.region ≡ w.region

-- It did so in at most `n` steps.
abbrev MovedIn : Writer → Writer → ℕ → Type 0
MovedIn w v n = (count : ℕ) × (count ≤ n) × Moved w v count

Moved-refl : (w : Writer) → IsWriter w → Moved w w 0
Moved-refl w h = record { counted = omega (arith, h.fits); sound = h; still = λ _ _. refl }

Moved-trans : (u v w : Writer) (a b : ℕ) → Moved u v a → Moved v w b → Moved u w (a + b)
Moved-trans u v w a b first second = record {
  counted = omega (arith, first.counted, second.counted);
  sound = second.sound;
  still = λ zero even.
      let r = first.still (omega arith) even in second.still (omega arith) (rw r even) ∙ r;
}

Chain-put_slots :
    (g idx : ℕ) (slots : List SimSharedSlot) (rest : List WriteStep)
    → g % 2 ≡ 1
    → Chain g rest
    → Chain g (put_slots idx slots rest)
unfolding put_slots
Chain-put_slots g idx [] rest odd h = h
Chain-put_slots g idx (s ∷ ss) rest odd h = (odd, Chain-put_slots g (suc idx) ss rest odd h)

Chain-publish_steps :
    (g : ℕ) (slots : List SimSharedSlot) → g % 2 ≡ 0 → g < 2 ^ 64 → Chain g (publish_steps g slots)
unfolding publish_steps
Chain-publish_steps g slots even small =
    let odd : wrapping_add g 1 % 2 ≡ 1 = omega arith in
    (refl, Chain-put_slots (wrapping_add g 1) 0 slots _ odd (odd, (omega arith, omega arith)))

begin-Moved :
    (w : Writer) (slots : List SimSharedSlot) (todo : List WriteStep)
    → w.todo ≡ todo
    → IsWriter w
    → Moved w (begin_publish w slots todo) 0
begin-Moved w slots (s ∷ ss) e h = Moved-refl w h
begin-Moved w slots [] e h = elim (Result-cases (check_slots (length w.region.slots) slots)) [
  | inl (u, fine) ↦
      let even : w.region.generation % 2 ≡ 0 = rw e at h.chain in
      rw fine (record {
        counted = omega (arith, h.fits);
        sound = record {
          chain = Chain-publish_steps w.region.generation slots even h.fits;
          fits = h.fits;
        };
        still = λ _ _. refl;
      })
  | inr (x, bad) ↦ rw bad (Moved-refl w h)
]

-- A store other than of the generation.
store-Moved :
    (w v : Writer)
    → v.region.generation ≡ w.region.generation
    → w.region.generation % 2 ≡ 1
    → IsWriter v
    → MovedIn w v 1
store-Moved w v same odd h = (
  0,
  omega arith,
  record { counted = omega (arith, h.fits); sound = h; still = λ _ even. absurd (omega arith) },
)

proceed-Moved :
    (w : Writer) (todo : List WriteStep)
    → w.todo ≡ todo
    → IsWriter w
    → MovedIn w (proceed_with w todo) 1
unfolding write_step
proceed-Moved w [] e h = (0, omega arith, Moved-refl w h)
proceed-Moved w (set_generation v ∷ ss) e h =
    let (next, rest) = rw e at h.chain in
    (
      1,
      omega arith,
      record {
        counted = next;
        sound = record { chain = rest; fits = omega arith };
        still = λ one. absurd (omega arith);
      },
    )
proceed-Moved w (put_slot i raw ∷ ss) e h =
    let (odd, rest) = rw e at h.chain in
    store-Moved w (proceed_with w (put_slot i raw ∷ ss)) refl odd
      (record { chain = rest; fits = h.fits })
proceed-Moved w (set_initialized b ∷ ss) e h =
    let (odd, rest) = rw e at h.chain in
    store-Moved w (proceed_with w (set_initialized b ∷ ss)) refl odd
      (record { chain = rest; fits = h.fits })

writer_step-Moved : (ev : Event) (w : Writer) → IsWriter w → MovedIn w (writer_step ev w) 1
unfolding writer_step
writer_step-Moved (begin slots) w h = (0, omega arith, begin-Moved w slots w.todo refl h)
writer_step-Moved proceed w h = proceed-Moved w w.todo refl h

run_writer-Moved :
    (es : List Event) (w : Writer) → IsWriter w → MovedIn w (run_writer es w) (length es)
unfolding run_writer
run_writer-Moved [] w h = (0, omega arith, Moved-refl w h)
run_writer-Moved (e ∷ es) w h =
    let (a, few, first) = writer_step-Moved e w h in
    let (b, rest_few, rest) = run_writer-Moved es (writer_step e w) first.sound in
    (
      a + b,
      omega arith,
      Moved-trans w (writer_step e w) (run_writer es (writer_step e w)) a b first rest,
    )

abbrev pub slot_at : ℕ → List SimSharedSlotRaw → SimSharedSlotRaw
slot_at i slots = elim (get_elem? slots i) [ none ↦ zero_slot | some raw ↦ raw ]

-- The slots that the reader loads from the slot `i` on, with what happens before each load.
abbrev pub load_slots : ℕ → List (List Event) → Writer → List SimSharedSlotRaw × Writer
load_slots i [] w = ([], w)
load_slots i (es ∷ gaps) w =
    let later = load_slots (suc i) gaps (run_writer es w) in
    (slot_at i (run_writer es w).region.slots ∷ later.0, later.1)

-- One round of the reader: the first generation is loaded at once, and events come before the load
-- of the flag, before each slot and before the second load of the generation.
abbrev pub interleaved : Writer → List Event → List (List Event) → List Event → Observation
interleaved w flag_gap slot_gaps last_gap =
    let flagged = run_writer flag_gap w in
    let loaded = load_slots 0 slot_gaps flagged in
    record {
      before = w.region.generation;
      seen_initialized = flagged.region.initialized;
      seen_slots = loaded.0;
      after = (run_writer last_gap loaded.1).region.generation;
    }

abbrev total : List (List Event) → ℕ
total [] = 0
total (es ∷ gaps) = length es + total gaps

-- The slots of a region that nobody writes.
abbrev slots_from : ℕ → ℕ → List SimSharedSlotRaw → List SimSharedSlotRaw
slots_from i zero slots = []
slots_from i (suc n) slots = slot_at i slots ∷ slots_from (suc i) n slots

-- Loading takes at most as many generations as there are events, and if it takes none from an even
-- generation, the slots are those of the region that it began with.
abbrev Loaded : ℕ → List (List Event) → Writer → Type 0
Loaded i gaps w =
    (count : ℕ) × (count ≤ total gaps)
    × Moved w (load_slots i gaps w).1 count
    × (count ≡ 0
        → w.region.generation % 2 ≡ 0
        → (load_slots i gaps w).0 ≡ slots_from i (length gaps) w.region.slots)

load_slots-Loaded : (i : ℕ) (gaps : List (List Event)) (w : Writer) → IsWriter w → Loaded i gaps w
load_slots-Loaded i [] w h = (0, omega arith, Moved-refl w h, λ _ _. refl)
load_slots-Loaded i (es ∷ gaps) w h =
    let (a, few, first) = run_writer-Moved es w h in
    let (b, rest_few, rest, same) = load_slots-Loaded (suc i) gaps (run_writer es w) first.sound in
    (
      a + b,
      omega arith,
      Moved-trans w (run_writer es w) (load_slots (suc i) gaps (run_writer es w)).1 a b first rest,
      λ zero even.
          let r = first.still (omega arith) even in
          let later = same (omega arith) (rw r even) in ap₂ ◌∷◌ (rw r refl) (later ∙ rw r refl),
    )

slots_from-cons :
    (i n : ℕ) (raw : SimSharedSlotRaw) (slots : List SimSharedSlotRaw)
    → slots_from (suc i) n (raw ∷ slots) ≡ slots_from i n slots
slots_from-cons i zero raw slots = refl
slots_from-cons i (suc n) raw slots =
    ap (◌∷◌ (slot_at i slots)) (slots_from-cons (suc i) n raw slots)

slots_from-all : (slots : List SimSharedSlotRaw) → slots_from 0 (length slots) slots ≡ slots
slots_from-all [] = refl
slots_from-all (raw ∷ slots) =
    ap (◌∷◌ raw) (slots_from-cons 0 (length slots) raw slots ∙ slots_from-all slots)

-- If the two loads of the generation agree on an even value, the writer stored nothing in between.
same_generation :
    (w v : Writer) (count : ℕ)
    → IsWriter w
    → Moved w v count
    → count < 2 ^ 64
    → v.region.generation ≡ w.region.generation
    → count ≡ 0
same_generation w v count h m few e = omega (arith, m.counted, h.fits)

observed_still :
    (w : Writer) (flag_gap : List Event) (slot_gaps : List (List Event)) (last_gap : List Event)
    → IsWriter w
    → length flag_gap + total slot_gaps + length last_gap < 2 ^ 64
    → length slot_gaps ≡ length w.region.slots
    → w.region.generation % 2 ≡ 0
    → (interleaved w flag_gap slot_gaps last_gap).after ≡ w.region.generation
    → interleaved w flag_gap slot_gaps last_gap ≡ observe w.region
observed_still w flag_gap slot_gaps last_gap h few all even e =
    let flagged = run_writer flag_gap w in
    let loaded = (load_slots 0 slot_gaps flagged).1 in
    let (a, few_a, first) = run_writer-Moved flag_gap w h in
    let (b, few_b, second, same) = load_slots-Loaded 0 slot_gaps flagged first.sound in
    let (c, few_c, third) = run_writer-Moved last_gap loaded second.sound in
    let both = Moved-trans w flagged loaded a b first second in
    let whole = Moved-trans w loaded (run_writer last_gap loaded) (a + b) c both third in
    let none_stored =
      same_generation w (run_writer last_gap loaded) (a + b + c) h whole (omega arith) e in
    let r : flagged.region ≡ w.region = first.still (omega arith) even in
    let slots : (load_slots 0 slot_gaps flagged).0 ≡ w.region.slots =
      same (omega arith) (rw r even) ∙ rw (r, all) (slots_from-all w.region.slots) in
    rw (slots, e) (rw r refl)

accept-even :
    (o : Observation) (decoded : Result (List SimSharedSlot) SharedSnapshotError)
    (snapshot : List SimSharedSlot)
    → accept o decoded ≡ some (ok snapshot)
    → o.after ≡ o.before
accept-even o (err x) snapshot e = absurd (cc)
accept-even o (ok d) snapshot e = elim (Bool-cases (o.before == o.after)) [
  | inl same ↦ sym ((==_iff _ _).0 same)
  | inr other ↦ absurd (let bad = rw other at e in cc)
]

read_attempt-even :
    (o : Observation) (snapshot : List SimSharedSlot)
    → read_attempt o ≡ some (ok snapshot)
    → (o.before % 2 ≡ 0) × (o.after ≡ o.before)
unfolding read_attempt
read_attempt-even o snapshot e = elim (Bool-cases (o.before % 2 == 0)) [
  | inr odd ↦ absurd (let bad = rw odd at e in cc)
  | inl even ↦ elim (Bool-cases (o.seen_initialized == 0)) [
    | inl fresh ↦ absurd (let bad = rw (even, fresh) at e in cc)
    | inr ready ↦ (
      (==_iff _ _).0 even,
      accept-even o (decode_slots 0 o.seen_slots) snapshot (rw (even, ready) at e),
    )
  ]
]

-- Between fewer than 2^64 events of the writer, a round that returns a snapshot returns the one that
-- the region held, finished, when the round began: no mixture of two snapshots is returned.
pub read_attempt_untorn :
    (w : Writer) (flag_gap : List Event) (slot_gaps : List (List Event)) (last_gap : List Event)
    (snapshot : List SimSharedSlot)
    → IsWriter w
    → length flag_gap + total slot_gaps + length last_gap < 2 ^ 64
    → length slot_gaps ≡ length w.region.slots
    → read_attempt (interleaved w flag_gap slot_gaps last_gap) ≡ some (ok snapshot)
    → (read_attempt (observe w.region) ≡ some (ok snapshot)) × (w.region.generation % 2 ≡ 0)
read_attempt_untorn w flag_gap slot_gaps last_gap snapshot h few all e =
    let (even, same) = read_attempt-even (interleaved w flag_gap slot_gaps last_gap) snapshot e in
    (rw⁻¹ (observed_still w flag_gap slot_gaps last_gap h few all even same) e, even)
