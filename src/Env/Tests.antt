-- ===== src/Env/Tests.antt =====
-- A schedule to run the definitions on, and the theorem at a concrete input.
mod Bench
use agent_sim.Base.{
  ℕ, ◌+◌, ◌*◌, ◌^◌, ◌≤◌, ◌<◌, ◌≡◌, refl, true, Option, none, some, [], ◌∷◌, replicate, ℤ, pos, ok,
  err, Text, codes, is_whitespace, trim_start, trim, to_digit, from_digits, from_str_radix,
}
use agent_sim.Base.Float.Ints.{ints}
use agent_sim.Env.Duration.{
  invalid_duration, split_unit, ticks_of, parse_duration_us, duration_to_env_ticks,
  duration_to_env_ticks-covers,
}
use agent_sim.Can.{SimCanFrame}
use agent_sim.Env.Schedule.{CanScheduleJob, is_due, send_due, stop_schedule}
use agent_sim.Env.Schedule.Period.{takes_all}

abbrev heartbeat : SimCanFrame
heartbeat = record { arb_id = 0x700; len = 1; flags = 0; bytes = 5 ∷ replicate 63 0 }

abbrev job : CanScheduleJob
job = record {
  job_id = codes "heartbeat";
  arb_id = 0x700;
  flags = 0;
  data_hex = codes "05";
  frame = heartbeat;
  every_ticks = 3;
  next_due_tick = 10;
  enabled = true;
}

send_due_runs : (send_due takes_all 12 tt (job ∷ [])).emitted ≡ heartbeat ∷ []
unfolding send_due is_due
send_due_runs = refl

stopped_runs : (send_due takes_all 12 tt (stop_schedule job ∷ [])).emitted ≡ []
unfolding send_due is_due stop_schedule
stopped_runs = refl

-- Whole numbers only.
abbrev parse_whole : Text → Option ℤ
parse_whole s = elim (from_str_radix 10 (2 ^ 64) s) [ none ↦ none | some n ↦ some (pos n) ]

bad_unit_runs :
    parse_duration_us ints parse_whole (codes "5min") ≡ err (invalid_duration (codes "5min"))
unfolding parse_duration_us split_unit trim trim_start is_whitespace
bad_unit_runs = refl

duration_to_env_ticks-covers_example :
    (duration_us : ℕ) × (parse_duration_us ints parse_whole (codes " 5ms ") ≡ ok duration_us)
    × (0 < 2)
    × (duration_us ≤ 2 * 3000)
    × (2 * 3000 < duration_us + 3000)
unfolding duration_to_env_ticks parse_duration_us split_unit ticks_of trim trim_start is_whitespace
    from_str_radix from_digits to_digit
duration_to_env_ticks-covers_example =
    duration_to_env_ticks-covers ints parse_whole 3000 2 (codes " 5ms ") refl
