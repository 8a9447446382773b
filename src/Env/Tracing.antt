-- ===== src/Env/Tracing.antt =====
-- runtime/src/envd/server/dispatch.rs: the trace of an environment.
use agent_sim.Base.{
  ℕ, Bool, true, false, not, Option, none, some, List, [], ◌∷◌, ltb, ◌==◌, if◌then◌else◌, length,
  Result, ok, ◌>>=◌, ◌>>◌, reject, map_err, and_then, guarded, Text,
}
use agent_sim.Sim.Time.{status, saturating_mul, saturating_add}
use agent_sim.Selectors.{EnvSignalCatalogEntry}
use agent_sim.Trace.{create, write_row, flush}
use agent_sim.Env.Duration.{parse_duration_us, div_ceil}
use agent_sim.Env.World.{World}
use agent_sim.Env.State.{
  EnvState, EnvTraceSignal, EnvTraceState, ActiveEnvTrace, EnvError, trace_active, trace_path,
  trace_remove, period_is_zero, bad_duration, bad_trace,
}
use agent_sim.Env.Workers.{read_values}

abbrev pub trace_signals : List EnvSignalCatalogEntry → List EnvTraceSignal
trace_signals [] = []
trace_signals (e ∷ es) =
    record { instance_name = e.instance_name; local_id = e.local_id; name = e.qualified_name }
    ∷ trace_signals es

abbrev pub requests_of : List EnvTraceSignal → List (Text × ℕ)
requests_of [] = []
requests_of (s ∷ ss) = (s.instance_name, s.local_id) ∷ requests_of ss

abbrev pub headers_of : List EnvTraceSignal → List Text
headers_of [] = []
headers_of (s ∷ ss) = s.name ∷ headers_of ss

-- `update_env_trace_history` with the trace that is active.
unfoldable pub history : ActiveEnvTrace → Option ActiveEnvTrace → EnvTraceState
history a active = record {
  active = active;
  last_path = some a.writer.path;
  last_row_count = a.writer.row_count;
  last_signal_count = length a.signals;
  last_period_us = some a.period_us;
}

-- The file of the trace, and its removal.
abbrev pub trace_file : EnvTraceState → Option Text
trace_file t = elim (t.active) [ none ↦ t.last_path | some a ↦ some a.writer.path ]

abbrev pub removed : (Text → Bool) → Option Text → Result (Unit {0}) EnvError
removed removes none = ok tt
removed removes (some path) = reject (not (removes path)) (trace_remove path)

-- The flush of the trace that is active.
abbrev pub flush_active : (Text → Text → Bool) → Option ActiveEnvTrace → Result (Unit {0}) EnvError
flush_active flushes none = ok tt
flush_active flushes (some a) = map_err bad_trace (flush flushes a.writer)

module _ {W : World} where
  abbrev pub with_trace : EnvTraceState → EnvState W → EnvState W
  with_trace trace state = record state { trace = trace }

  abbrev pub sample_active :
      ℕ → ActiveEnvTrace → EnvState W → Result (Unit {0}) EnvError × EnvState W
  sample_active sample_tick a state =
      and_then (read_values (requests_of a.signals) state) (λ values next.
        guarded
          (map_err bad_trace (
            write_row W.writes W.print_float sample_tick
              (saturating_mul sample_tick state.tick_duration_us) values a.writer))
          next
          (λ writer.
            let sampled = record a {
              writer = writer;
              next_due_tick = saturating_add sample_tick a.period_ticks;
            } in
            (ok tt, with_trace (history sampled (some sampled)) next)))

  unfoldable pub sample_env_trace_after_tick :
      ℕ → EnvState W → Result (Unit {0}) EnvError × EnvState W
  sample_env_trace_after_tick sample_tick state = elim (state.trace.active) [
    | none ↦ (ok tt, state)
    | some a ↦
        if ltb sample_tick a.next_due_tick
        then (ok tt, state)
        else sample_active sample_tick a state
  ]

  abbrev pub check_start : EnvState W → Text → Text → Result ℕ EnvError
  check_start state path period = do
    reject (elim (state.trace.active) [ none ↦ false | some _ ↦ true ]) trace_active
    reject (not (W.is_absolute path)) (trace_path path)
    period_us ← map_err bad_duration (parse_duration_us W.D W.parse_f64 period)
    reject (period_us == 0) period_is_zero
    ok period_us

  -- The first row is written at once. The tick duration is not zero in an environment that was started.
  unfoldable pub start_env_trace :
      Text → Text → EnvState W → Result (Unit {0}) EnvError × EnvState W
  start_env_trace path period state =
      let signals = trace_signals state.signal_catalog.entries in
      let now = status W.D state.time state.tick_duration_us in
      guarded (check_start state path period) state (λ period_us.
        guarded (map_err bad_trace (create W.writes path (headers_of signals))) state (λ writer.
          and_then (read_values (requests_of signals) state) (λ values next.
            guarded
              (map_err bad_trace (
                write_row W.writes W.print_float now.status_ticks now.elapsed_time_us values
                  writer))
              next
              (λ written.
                let ticks = div_ceil period_us state.tick_duration_us in
                let a : ActiveEnvTrace = record {
                  writer = written;
                  period_ticks = ticks;
                  period_us = period_us;
                  next_due_tick = saturating_add now.status_ticks ticks;
                  signals = signals;
                } in
                (ok tt, with_trace (history a (some a)) next)))))

  -- A trace that cannot be flushed stays active.
  unfoldable pub stop_env_trace : EnvState W → Result (Unit {0}) EnvError × EnvState W
  stop_env_trace state = elim (state.trace.active) [
    | none ↦ (ok tt, state)
    | some a ↦
        guarded (flush_active W.flushes (some a)) state
          (λ _. (ok tt, with_trace (history a none) state))
  ]

  unfoldable pub clear_env_trace : EnvState W → Result (Unit {0}) EnvError × EnvState W
  clear_env_trace state =
      let idle = record state.trace { active = none } in
      let cleared : EnvTraceState = record {
        active = none;
        last_path = none;
        last_row_count = 0;
        last_signal_count = 0;
        last_period_us = none;
      } in
      guarded (flush_active W.flushes state.trace.active) state (λ _.
        guarded (removed W.removes (trace_file state.trace)) (with_trace idle state)
          (λ _. (ok tt, with_trace cleared state)))
