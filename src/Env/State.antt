-- ===== src/Env/State.antt =====
-- runtime/src/envd/server.rs: the state of the daemon of an environment, and the helpers of its
-- requests. The path of the socket is left out.
use agent_sim.Base.{
  ℕ, ◌-◌, Bool, false, not, ◌||◌, Option, none, some, List, [], ◌∷◌, ◌++◌, if◌then◌else◌, length,
  replicate, Result, ok, err, ◌>>=◌, reject, ok_or, map_err, Text, text_eq,
}
use agent_sim.Base.Map.{text_order, get, insert, contains_key}
use agent_sim.Can.{SimCanFrame, CanError, parse_data_hex, validate_frame}
use agent_sim.Sim.Time.{TimeEngine, TimeError}
use agent_sim.Selectors.{EnvSignalCatalog, SelectorError}
use agent_sim.Trace.{CsvTraceWriter, TraceError}
use agent_sim.Env.Duration.{DurationError}
use agent_sim.Env.World.{World}
use agent_sim.Env.Schedule.{CanScheduleJob}
use agent_sim.Env.Bus.{EnvCanBusState, map_values, send_on_bus, observe_bus, reset_bus, each_bus}

pub record EnvTraceSignal : Type 0 where
  pub instance_name : Text
  pub local_id : ℕ
  pub name : Text

pub record ActiveEnvTrace : Type 0 where
  pub writer : CsvTraceWriter
  pub period_ticks : ℕ
  pub period_us : ℕ
  pub next_due_tick : ℕ
  pub signals : List EnvTraceSignal

pub record EnvTraceState : Type 0 where
  pub active : Option ActiveEnvTrace
  pub last_path : Option Text
  pub last_row_count : ℕ
  pub last_signal_count : ℕ
  pub last_period_us : Option ℕ

pub record EnvState (W : World) : Type 0 where
  pub name : Text
  pub tick_duration_us : ℕ
  pub instances : List Text
  pub signal_catalog : EnvSignalCatalog
  pub instance_workers : W.Workers
  pub time : TimeEngine W.D
  pub realtime_tick_backlog : ℕ
  pub can_buses : List (Text × EnvCanBusState W)
  pub trace : EnvTraceState
  pub shutdown : Bool

-- A job, with the bus that it stands on and the name of the bus.
pub record Located (W : World) : Type 0 where
  pub place : Text
  pub bus : EnvCanBusState W
  pub job : CanScheduleJob

pub data EnvError : Type 0 where
  wrong_env bus_not_found schedule_not_found schedule_exists dbc_failed : Text → EnvError
  worker_missing reply_missing unexpected_payload : Text → EnvError
  socket_failed trace_active period_is_zero missing_value : EnvError
  trace_path trace_remove : Text → EnvError
  value_count : Text → ℕ → ℕ → EnvError
  value_id : Text → ℕ → ℕ → ℕ → EnvError
  bad_frame : CanError → EnvError
  bad_duration : DurationError → EnvError
  bad_time : TimeError → EnvError
  bad_selector : SelectorError → EnvError
  bad_trace : TraceError → EnvError

-- The data of a frame are 64 bytes, zero behind the payload.
abbrev pub frame_of : ℕ → ℕ → List ℕ → SimCanFrame
frame_of arb_id flags payload = record {
  arb_id = arb_id;
  len = length payload;
  flags = flags;
  bytes = payload ++ replicate (64 - length payload) 0;
}

module _ {W : World} where
  unfoldable pub validate_env_frame : EnvState W → Text → SimCanFrame → Result (Unit {0}) EnvError
  validate_env_frame state bus_name frame = do
    bus ← ok_or (get bus_name state.can_buses) (bus_not_found bus_name)
    map_err bad_frame (validate_frame bus.bus_name bus.fd_capable frame)

  unfoldable pub parse_env_frame : EnvState W → Text → ℕ → Text → ℕ → Result SimCanFrame EnvError
  parse_env_frame state bus_name arb_id data_hex flags = do
    payload ← map_err bad_frame (parse_data_hex data_hex)
    _ ← validate_env_frame state bus_name (frame_of arb_id flags payload)
    ok (frame_of arb_id flags payload)

  abbrev pub with_bus : Text → EnvCanBusState W → EnvState W → EnvState W
  with_bus bus_name bus state = record state { can_buses = insert bus_name bus state.can_buses }

  unfoldable pub send_env_frame : EnvState W → Text → SimCanFrame → Result (EnvState W) EnvError
  send_env_frame state bus_name frame = do
    bus ← ok_or (get bus_name state.can_buses) (bus_not_found bus_name)
    after ← ok_or (send_on_bus frame bus) socket_failed
    ok (with_bus bus_name after state)

  abbrev pub with_buses :
      EnvState W → Bool × List (Text × EnvCanBusState W) → Result (Unit {0}) EnvError × EnvState W
  with_buses state (went, buses) =
      (if went then ok tt else err socket_failed, record state { can_buses = buses })

  unfoldable pub observe_env_bus_frames : EnvState W → Result (Unit {0}) EnvError × EnvState W
  observe_env_bus_frames state = with_buses state (each_bus observe_bus state.can_buses)

  unfoldable pub reset_env_can_state : EnvState W → EnvState W
  reset_env_can_state state = record state { can_buses = map_values reset_bus state.can_buses }

  -- The job of the first bus, or what was found on the later ones.
  abbrev pub located :
      Text → EnvCanBusState W → Option CanScheduleJob → Option (Located W) → Option (Located W)
  located name bus none later = later
  located name bus (some job) later = some (record { place = name; bus = bus; job = job })

  -- The first bus that has the job. `locate_schedule_mut` finds the same one.
  unfoldable pub find_schedule : Text → List (Text × EnvCanBusState W) → Option (Located W)
  find_schedule job_id [] = none
  find_schedule job_id ((name, bus) ∷ buses) =
      located name bus (get job_id bus.schedules) (find_schedule job_id buses)

  abbrev pub locate_schedule : EnvState W → Text → Result (Located W) EnvError
  locate_schedule state job_id =
      ok_or (find_schedule job_id state.can_buses) (schedule_not_found job_id)

  abbrev pub any_schedule : Text → List (Text × EnvCanBusState W) → Bool
  any_schedule job_id [] = false
  any_schedule job_id ((name, bus) ∷ buses) =
      contains_key job_id bus.schedules || any_schedule job_id buses

  unfoldable pub ensure_unique_schedule_job_id : EnvState W → Text → Result (Unit {0}) EnvError
  ensure_unique_schedule_job_id state job_id =
      reject (any_schedule job_id state.can_buses) (schedule_exists job_id)

  unfoldable pub ensure_env_name : EnvState W → Text → Result (Unit {0}) EnvError
  ensure_env_name state requested =
      reject (not (text_eq state.name requested)) (wrong_env requested)
