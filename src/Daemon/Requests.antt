-- ===== src/Daemon/Requests.antt =====
-- runtime/src/daemon/server/action_router.rs and runtime/src/daemon/server/tick_ops.rs: the requests that
-- move the clock of an instance, and the real-time part of its loop.
pub mod Steps
use agent_sim.Base.{
  ℕ, ◌-◌, min, true, Option, none, some, Result, ok, err, map_err, and_then, guarded, Text,
}
use agent_sim.Sim.Time.{
  TimeEngine, TimeError, TimeStatus, StepResult, default_engine, status, start, pause, set_speed,
  step_ticks, tick_realtime_due, saturating_add,
}
use agent_sim.Env.Duration.{DurationError, parse_duration_us}
use agent_sim.Daemon.Device.{Device}
use agent_sim.Daemon.State.{DaemonState, DaemonError}
use agent_sim.Daemon.Buses.{with_project}
use agent_sim.Daemon.Tick.{
  TickStepError, advance_single_project_tick, count_tick, advance_project_ticks,
}

pub data RequestError : Type 0 where
  env_controls_time : Text → RequestError
  bad_duration : DurationError → RequestError
  bad_time : TimeError → RequestError
  ticks_failed : DaemonError → RequestError
  reset_failed : Text → RequestError

abbrev pub with_request_error : {S A E F : Type 0} → (E → F) → Result A E × S → Result A F × S
with_request_error f (r, s) = (map_err f r, s)

module _ {V : Device} where
  unfoldable pub reject_local_time_control : DaemonState V → Result (Unit {0}) RequestError
  reject_local_time_control state = elim (state.env) [
    | none ↦ ok tt
    | some name ↦ err (env_controls_time name)
  ]

  abbrev pub with_time : DaemonState V → TimeEngine V.D → DaemonState V
  with_time state time = record state { time = time; realtime_tick_backlog = 0 }

  abbrev pub time_status : DaemonState V → TimeStatus V.D
  time_status state = status V.D state.time V.tick_duration_us

  abbrev changed :
      DaemonState V
      → Result (TimeEngine V.D) TimeError
      → Result (TimeStatus V.D) RequestError × DaemonState V
  changed state r = guarded (reject_local_time_control state) state (λ _.
      guarded (map_err bad_time r) state
        (λ time. (ok (time_status (with_time state time)), with_time state time)))

  unfoldable pub start_request :
      ℕ → DaemonState V → Result (TimeStatus V.D) RequestError × DaemonState V
  start_request clock state = changed state (start V.D clock state.time)

  unfoldable pub pause_request :
      DaemonState V → Result (TimeStatus V.D) RequestError × DaemonState V
  pause_request state = changed state (pause V.D state.time)

  unfoldable pub step_request :
      Text → DaemonState V → Result StepResult RequestError × DaemonState V
  step_request duration state = guarded (reject_local_time_control state) state (λ _.
      guarded (map_err bad_duration (parse_duration_us V.D V.parse_f64 duration)) state
        (λ duration_us.
          let idle : DaemonState V = record state { realtime_tick_backlog = 0 } in
          guarded (map_err bad_time (step_ticks V.D V.tick_duration_us duration_us state.time)) idle
            (λ step.
              and_then
                (with_request_error ticks_failed (advance_project_ticks step.advanced_ticks idle))
                (λ _ next. (ok step, next)))))

  unfoldable pub speed_request :
      Option V.D.F64 → DaemonState V → Result V.D.F64 RequestError × DaemonState V
  speed_request multiplier state = guarded (reject_local_time_control state) state (λ _.
      elim multiplier [
        | none ↦ (ok state.time.speed, state)
        | some speed ↦
            guarded (map_err bad_time (set_speed V.D speed state.time)) state
              (λ time. (ok time.speed, record state { time = time }))
      ])

  unfoldable pub reset_request : DaemonState V → Result (Unit {0}) RequestError × DaemonState V
  reset_request state =
      let (r, project) = V.reset state.project in
      guarded (map_err reset_failed r) (with_project V state project)
        (λ _. (ok tt, with_time (with_project V state project) (default_engine V.D)))

  -- `WorkerAction::Step`. Here a tick that fails is not counted, wherever it fails.
  abbrev pub counted :
      Result (Unit {0}) TickStepError × DaemonState V
      → Result (Unit {0}) DaemonError × DaemonState V
  counted (err e, state) = (err e.message, state)
  counted (ok _, state) = (ok tt, count_tick state)

  unfoldable pub worker_step : DaemonState V → Result (Unit {0}) DaemonError × DaemonState V
  worker_step state = counted (advance_single_project_tick state)

  -- The part of a turn of `run_tick_task` behind the requests.
  abbrev pub with_due : (ℕ → ℕ → V.D.F64) → ℕ → DaemonState V → DaemonState V
  with_due seconds clock state =
      let (due, time) = tick_realtime_due V.D seconds V.tick_duration_us clock state.time in
      record state {
        time = time;
        realtime_tick_backlog = saturating_add state.realtime_tick_backlog due;
      }

  abbrev pub settled : ℕ → Result (Unit {0}) DaemonError × DaemonState V → DaemonState V
  settled batch (err e, state) = record state { shutdown = true }
  settled batch (ok _, state) = record state {
    realtime_tick_backlog = state.realtime_tick_backlog - batch;
  }

  unfoldable pub tick_turn : (ℕ → ℕ → V.D.F64) → ℕ → DaemonState V → DaemonState V
  tick_turn seconds clock state =
      let due = with_due seconds clock state in
      let batch = min due.realtime_tick_backlog 64 in
      settled batch (advance_project_ticks batch due)
