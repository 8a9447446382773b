-- ===== src/Daemon/Tick.antt =====
-- runtime/src/daemon/server/action_router.rs and runtime/src/daemon/server/tick_ops.rs: one tick of an
-- instance, and several. A tick that fails behind the one of the project still counts.
use agent_sim.Base.{
  ℕ, zero, suc, Bool, true, false, Option, none, some, ltb, if◌then◌else◌, length, Result, ok, err,
  map_err, and_then, guarded,
}
use agent_sim.Sim.Time.{status, advance_ticks, saturating_add, saturating_mul}
use agent_sim.Trace.{write_row}
use agent_sim.Daemon.Device.{Device}
use agent_sim.Daemon.State.{
  DaemonState, DaemonError, DaemonTraceState, ActiveDaemonTrace, tick_failed, values_failed,
  trace_failed,
}
use agent_sim.Daemon.Buses.{with_project, process_can_rx, process_can_tx}
use agent_sim.Daemon.Channels.{process_shared_rx, process_shared_tx}

pub record TickStepError : Type 0 where
  pub message : DaemonError
  pub advance_tick : Bool

abbrev pub pre_tick : DaemonError → TickStepError
pre_tick message = record { message = message; advance_tick = false }

abbrev pub post_tick : DaemonError → TickStepError
post_tick message = record { message = message; advance_tick = true }

abbrev pub with_error : {S A E F : Type 0} → (E → F) → Result A E × S → Result A F × S
with_error f (r, s) = (map_err f r, s)

-- `update_trace_history_from_active`.
unfoldable pub trace_history : ActiveDaemonTrace → DaemonTraceState
trace_history a = record {
  active = some a;
  last_path = some a.writer.path;
  last_row_count = a.writer.row_count;
  last_signal_count = length a.signal_ids;
  last_period_us = some a.period_us;
}

module _ {V : Device} where
  abbrev pub now : DaemonState V → ℕ
  now state = (status V.D state.time V.tick_duration_us).status_ticks

  abbrev pub sample_active :
      ℕ → ActiveDaemonTrace → DaemonState V → Result (Unit {0}) DaemonError × DaemonState V
  sample_active sample_tick a state =
      let (values, project) = V.read_many a.signal_ids state.project in
      let next = with_project V state project in
      guarded (map_err values_failed values) next (λ vs.
        guarded
          (map_err trace_failed (
            write_row V.writes V.print_float sample_tick
              (saturating_mul sample_tick V.tick_duration_us) vs a.writer))
          next
          (λ writer.
            let sampled = record a {
              writer = writer;
              next_due_tick = saturating_add sample_tick a.period_ticks;
            } in
            (ok tt, record next { trace = trace_history sampled })))

  abbrev pub sample_trace :
      ℕ → Option ActiveDaemonTrace → DaemonState V → Result (Unit {0}) DaemonError × DaemonState V
  sample_trace sample_tick none state = (ok tt, state)
  sample_trace sample_tick (some a) state =
      if ltb sample_tick a.next_due_tick then (ok tt, state) else sample_active sample_tick a state

  unfoldable pub sample_instance_trace_after_tick :
      ℕ → DaemonState V → Result (Unit {0}) DaemonError × DaemonState V
  sample_instance_trace_after_tick sample_tick state =
      sample_trace sample_tick state.trace.active state

  unfoldable pub tick_project : DaemonState V → Result (Unit {0}) DaemonError × DaemonState V
  tick_project state =
      let (r, project) = V.tick state.project in
      (map_err tick_failed r, with_project V state project)

  unfoldable pub advance_single_project_tick :
      DaemonState V → Result (Unit {0}) TickStepError × DaemonState V
  advance_single_project_tick state =
      and_then (with_error pre_tick (process_can_rx V state)) (λ _ received.
        and_then (with_error pre_tick (process_shared_rx V received)) (λ _ ready.
          and_then (with_error pre_tick (tick_project ready)) (λ _ ticked.
            and_then
              (with_error post_tick
                (sample_instance_trace_after_tick (saturating_add (now ticked) 1) ticked))
              (λ _ sampled.
                and_then (with_error post_tick (process_can_tx V sampled))
                  (λ _ sent. with_error post_tick (process_shared_tx V sent))))))

  abbrev pub count_tick : DaemonState V → DaemonState V
  count_tick state = record state { time = advance_ticks V.D 1 state.time }

  abbrev pub behind_tick :
      (DaemonState V → Result (Unit {0}) DaemonError × DaemonState V)
      → Result (Unit {0}) TickStepError × DaemonState V
      → Result (Unit {0}) DaemonError × DaemonState V
  behind_tick rest (ok _, state) = rest (count_tick state)
  behind_tick rest (err e, state) =
      (err e.message, if e.advance_tick then count_tick state else state)

  -- Also `advance_project_ticks_for_request`, which has the same body.
  unfoldable pub advance_project_ticks :
      ℕ → DaemonState V → Result (Unit {0}) DaemonError × DaemonState V
  advance_project_ticks zero state = (ok tt, state)
  advance_project_ticks (suc n) state =
      behind_tick (advance_project_ticks n) (advance_single_project_tick state)
