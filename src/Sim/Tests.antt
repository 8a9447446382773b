-- ===== src/Sim/Tests.antt =====
-- Slots, declarations and engines to run the definitions on, and the theorems at concrete inputs.
use agent_sim.Base.{
  ℕ, ◌+◌, ◌-◌, ◌*◌, ◌≤◌, ◌<◌, ◌≡◌, refl, ◌≢◌, ◌↔◌, ◌⊎◌, false, none, some, List, [], ◌∷◌, arith,
  All, Pairwise, pos, ok, err, Text, codes, is_whitespace, trim_start, trim,
}
use agent_sim.Base.Float.Ints.{ints}
use agent_sim.Sim.Types.{
  f32, type_tag, type_of_tag, parse_type, print_type, u32_value, SimSharedSlot, SimSharedSlotRaw,
  raw_of_slot, slot_of_raw, value_of_raw, type_of_value, slot_panicked, mismatched_type_tags,
}
use agent_sim.Sim.Types.RoundTrip.{
  slot_of_raw-raw_of_slot, slot_of_raw-no_panic, slot_of_raw-tags, parse_type-print_type,
}
use agent_sim.Sim.Error.{error_of_code, unknown_status, error_of_code_iff}
use agent_sim.Sim.Validation.{
  SignalMeta, SimCanBusDesc, SimSharedDesc, validate_signal_metadata, validate_can_metadata,
  validate_shared_metadata, validate_entries, duplicate_id, reserved_namespace,
}
use agent_sim.Sim.Validation.Unique.{
  IsNamed, IsSignal, IsChannel, validate_signal_metadata_iff, validate_can_metadata_iff,
  validate_shared_metadata_iff,
}
use agent_sim.Sim.Time.{StepResult, default_engine, step_ticks}
use agent_sim.Sim.Time.Engine.{
  IsEngine, call_start, call_due, call_pause, calls, calls-IsEngine, step_ticks-covers,
}

abbrev slot : SimSharedSlot
slot = record { slot_id = 3; value = u32_value 42 }

slot_of_raw-raw_of_slot_example : slot_of_raw (raw_of_slot slot) ≡ ok slot
slot_of_raw-raw_of_slot_example = slot_of_raw-raw_of_slot slot (omega arith)

-- The slot's tag is that of `bool`, the value's that of `f32`.
abbrev torn : SimSharedSlotRaw
torn = record { raw_slot_id = 1; slot_type = 0; raw_value = record { signal_type = 3; bits = 7 } }

torn_runs : slot_of_raw torn ≡ err (mismatched_type_tags 1 0 3)
unfolding slot_of_raw type_of_tag type_tag
torn_runs = refl

slot_of_raw-no_panic_example : slot_of_raw torn ≢ err slot_panicked
slot_of_raw-no_panic_example = slot_of_raw-no_panic torn

abbrev whole : SimSharedSlotRaw
whole = record { raw_slot_id = 3; slot_type = 1; raw_value = record { signal_type = 1; bits = 42 } }

slot_of_raw-tags_example :
    (whole.slot_type ≡ whole.raw_value.signal_type)
    × (whole.slot_type ≡ type_tag (type_of_value slot.value))
    × (slot.slot_id ≡ whole.raw_slot_id)
unfolding slot_of_raw type_of_tag type_tag value_of_raw
slot_of_raw-tags_example = slot_of_raw-tags whole slot refl

parse_type-print_type_runs : parse_type (print_type f32) ≡ some f32
parse_type-print_type_runs = parse_type-print_type f32

abbrev code : ℕ
code = 6

error_of_code_iff_runs :
    (error_of_code code ≡ err (unknown_status code)) ↔ ((code ≡ 0) ⊎ ((5 < code) × (code ≢ 255)))
error_of_code_iff_runs = error_of_code_iff code

abbrev signal : ℕ → Text → SignalMeta
signal i name = record { id = i; name = name; signal_type = f32; units = none }

abbrev two_signals : List SignalMeta
two_signals = signal 1 (codes "a") ∷ signal 2 (codes "b") ∷ []

duplicate_runs :
    validate_signal_metadata (signal 1 (codes "a") ∷ signal 1 (codes "b") ∷ [])
    ≡ err (duplicate_id 1)
unfolding validate_signal_metadata validate_entries trim trim_start is_whitespace
duplicate_runs = refl

reserved_runs :
    validate_signal_metadata (signal 1 (codes "can.speed") ∷ [])
    ≡ err (reserved_namespace (codes "can.speed"))
unfolding validate_signal_metadata validate_entries trim trim_start is_whitespace
reserved_runs = refl

validate_signal_metadata_iff_example :
    (validate_signal_metadata two_signals ≡ ok tt)
    ↔ (All IsSignal two_signals × Pairwise (λ a b. (a.id ≢ b.id) × (a.name ≢ b.name)) two_signals)
validate_signal_metadata_iff_example = validate_signal_metadata_iff two_signals

abbrev buses : List SimCanBusDesc
buses =
    record {
      bus_id = 7;
      bus_name = codes "internal";
      bitrate = 500000;
      bitrate_data = 0;
      fd_capable = false;
    }
    ∷ []

validate_can_metadata_iff_example : (validate_can_metadata buses ≡ ok tt) ↔ (
    All (λ b. IsNamed b.bus_name) buses
    × Pairwise (λ a b. (a.bus_id ≢ b.bus_id) × (a.bus_name ≢ b.bus_name)) buses)
validate_can_metadata_iff_example = validate_can_metadata_iff buses

abbrev channels : List SimSharedDesc
channels = record { channel_id = 1; channel_name = codes "sensor_feed"; slot_count = 2 } ∷ []

validate_shared_metadata_iff_example : (validate_shared_metadata channels ≡ ok tt) ↔ (
    All IsChannel channels
    × Pairwise (λ a b. (a.channel_id ≢ b.channel_id) × (a.channel_name ≢ b.channel_name)) channels)
validate_shared_metadata_iff_example = validate_shared_metadata_iff channels

default-IsEngine : IsEngine ints (default_engine ints)
unfolding default_engine
default-IsEngine = record { clock = (refl, refl); good_speed = refl; ticks_fit = omega arith }

calls-IsEngine_example : IsEngine ints (
    calls ints
      (λ last now. pos (now - last))
      (call_start 5 ∷ call_due 20 9 ∷ call_pause ∷ [])
      (default_engine ints))
calls-IsEngine_example =
    calls-IsEngine ints (λ last now. pos (now - last))
      (call_start 5 ∷ call_due 20 9 ∷ call_pause ∷ []) (default_engine ints) refl default-IsEngine

abbrev tick : ℕ
tick = 20

step_ticks-covers_example :
    (r : StepResult) × (step_ticks ints tick 105 (default_engine ints) ≡ ok r)
    × (r.requested_us ≡ 105)
    × (r.advanced_us ≡ r.advanced_ticks * tick)
    × (r.advanced_us ≤ 105)
    × (((tick ≡ 0) × (r.advanced_ticks ≡ 0) × (r.advanced_us ≡ 0)) ⊎ (105 < r.advanced_us + tick))
unfolding default_engine
step_ticks-covers_example = step_ticks-covers ints tick 105 (default_engine ints) (omega arith) refl
