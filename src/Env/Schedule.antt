-- ===== src/Env/Schedule.antt =====
-- runtime/src/envd/server.rs and runtime/src/envd/server/tick.rs: `CanScheduleJob` and the part of
-- `advance_single_tick` that sends what is due. The socket is a parameter, with `send`, which fails or leaves the
-- socket as it is then; the jobs of a bus stand in the order of their names.
pub mod Period
use agent_sim.Base.{
  ℕ, max, Bool, true, false, not, ◌||◌, Option, none, some, List, [], ◌∷◌, ltb, if◌then◌else◌, Text,
}
use agent_sim.Can.{SimCanFrame}
use agent_sim.Sim.Time.{saturating_add}

pub record CanScheduleJob : Type 0 where
  pub job_id : Text
  pub arb_id : ℕ
  pub flags : ℕ
  pub data_hex : Text
  pub frame : SimCanFrame
  pub every_ticks : ℕ
  pub next_due_tick : ℕ
  pub enabled : Bool

abbrev with_due : CanScheduleJob → ℕ → Bool → CanScheduleJob
with_due job next enabled = record {
  job_id = job.job_id;
  arb_id = job.arb_id;
  flags = job.flags;
  data_hex = job.data_hex;
  frame = job.frame;
  every_ticks = job.every_ticks;
  next_due_tick = next;
  enabled = enabled;
}

unfoldable pub update_schedule : ℕ → Text → SimCanFrame → ℕ → ℕ → CanScheduleJob → CanScheduleJob
update_schedule arb_id data_hex frame every_ticks current_tick job = record {
  job_id = job.job_id;
  arb_id = arb_id;
  flags = frame.flags;
  data_hex = data_hex;
  frame = frame;
  every_ticks = every_ticks;
  next_due_tick = current_tick;
  enabled = job.enabled;
}

unfoldable pub start_schedule : CanScheduleJob → CanScheduleJob
start_schedule job = with_due job job.next_due_tick true

-- `CanScheduleStop`, and the part of `reset_env_can_state` about a job.
unfoldable pub stop_schedule : CanScheduleJob → CanScheduleJob
stop_schedule job = with_due job job.next_due_tick false

unfoldable pub reset_schedule : CanScheduleJob → CanScheduleJob
reset_schedule job = with_due job 0 job.enabled

unfoldable pub is_due : ℕ → CanScheduleJob → Bool
is_due current_tick job = not (not job.enabled || ltb current_tick job.next_due_tick)

unfoldable pub postpone : ℕ → CanScheduleJob → CanScheduleJob
postpone current_tick job =
    with_due job (saturating_add current_tick (max job.every_ticks 1)) job.enabled

-- What the loop over the jobs of a bus leaves: the jobs, the frames that it sent, the socket, and
-- whether it reached the end.
pub record Sent (S : Type 0) : Type 0 where
  pub jobs : List CanScheduleJob
  pub emitted : List SimCanFrame
  pub socket : S
  pub finished : Bool

module _ {S : Type 0} where
  abbrev after_job : CanScheduleJob → Sent S → Sent S
  after_job job s = record s { jobs = job ∷ s.jobs }

  abbrev after_send : CanScheduleJob → SimCanFrame → Sent S → Sent S
  after_send job frame s = record s { jobs = job ∷ s.jobs; emitted = frame ∷ s.emitted }

  unfoldable pub send_due : (S → SimCanFrame → Option S) → ℕ → S → List CanScheduleJob → Sent S
  send_due send current_tick socket [] = record {
    jobs = [];
    emitted = [];
    socket = socket;
    finished = true;
  }
  send_due send current_tick socket (job ∷ jobs) = elim (is_due current_tick job) [
    | false ↦ after_job job (send_due send current_tick socket jobs)
    | true ↦ elim (send socket job.frame) [
      | none ↦ record { jobs = job ∷ jobs; emitted = []; socket = socket; finished = false }
      | some next ↦
          after_send (postpone current_tick job) job.frame (send_due send current_tick next jobs)
    ]
  ]
