-- ===== src/Shared/Tests.antt =====
-- A region to publish into, and the theorems at concrete inputs.
use agent_sim.Base.{
  ◌-◌, ◌%◌, ◌^◌, ◌≡◌, refl, Bool, true, false, some, List, [], ◌∷◌, map, arith, ok, err, codes,
}
use agent_sim.Sim.Types.{
  bool_value, f32_value, SimSharedSlot, raw_of_slot, slot_of_raw, raw_of_value, value_of_raw,
  type_of_tag, type_tag,
}
use agent_sim.Shared.{
  Region, initial_region, check_slots, check_slot_ids, publish, flush_failed, publish_steps,
  put_slots, write_steps, write_step, read_snapshot, read_rounds, read_attempt, decode_slots,
  observe, uninitialized, busy,
}
use agent_sim.Shared.Snapshot.{read_snapshot-publish}
use agent_sim.Shared.Interleaving.{Writer, begin, run_writer, writer_step, read_attempt_untorn}

abbrev two_slots : List SimSharedSlot
two_slots =
    record { slot_id = 0; value = f32_value 0x41480000 }
    ∷ record { slot_id = 1; value = bool_value true }
    ∷ []

-- The generation is about to wrap.
abbrev old : Region
old = record {
  generation = 2 ^ 64 - 2;
  slot_count = 2;
  initialized = 1;
  writer_session = [];
  slots = map raw_of_slot two_slots;
}

abbrev flushes : Region → Bool
flushes _ = true

unpublished : read_snapshot (λ _. observe (initial_region 2 (codes "writer"))) ≡ err uninitialized
unfolding read_snapshot read_rounds read_attempt initial_region
unpublished = refl

never_finished :
    read_snapshot (λ _. record { before = 1; seen_initialized = 1; seen_slots = []; after = 1 })
    ≡ err (busy 32)
unfolding read_snapshot read_rounds read_attempt
never_finished = refl

read_snapshot-publish_example :
    ((publish flushes two_slots old).1 ≡ ok tt)
    × ((publish flushes two_slots old).0.generation % 2 ≡ 0)
    × (read_snapshot (λ _. observe (publish flushes two_slots old).0) ≡ ok two_slots)
unfolding check_slots check_slot_ids
read_snapshot-publish_example = read_snapshot-publish flushes two_slots old refl refl (omega arith)

-- The flush fails, but the slots are there.
unflushed_runs :
    ((publish (λ _. false) two_slots old).1 ≡ err flush_failed)
    × ((publish (λ _. false) two_slots old).0.generation ≡ 0)
unfolding publish publish_steps put_slots write_steps write_step check_slots check_slot_ids
unflushed_runs = (refl, refl)

abbrev idle : Writer
idle = record { region = old; todo = [] }

-- The writer begins a call while the slots are loaded, but stores nothing before the round ends.
read_attempt_untorn_example :
    (read_attempt (observe old) ≡ some (ok two_slots)) × (old.generation % 2 ≡ 0)
unfolding read_attempt decode_slots slot_of_raw raw_of_slot raw_of_value value_of_raw type_of_tag
    type_tag run_writer writer_step check_slots check_slot_ids
read_attempt_untorn_example =
    read_attempt_untorn idle [] ([] ∷ (begin two_slots ∷ []) ∷ []) [] two_slots
      (record { chain = refl; fits = omega arith }) (omega arith) refl refl
