-- ===== src/Env/Aside/Traced.antt =====
-- The trace of an environment changes its workers and its trace only.
use agent_sim.Base.{
  ℕ, inl, inr, none, some, ltb, Bool-cases, Option-cases, map_err, and_then-keeps, guarded-keeps,
  Text,
}
use agent_sim.Sim.Time.{status}
use agent_sim.Trace.{create, write_row}
use agent_sim.Env.World.{World}
use agent_sim.Env.State.{EnvState, ActiveEnvTrace, bad_trace}
use agent_sim.Env.Workers.{read_values}
use agent_sim.Env.Tracing.{
  sample_env_trace_after_tick, sample_active, start_env_trace, stop_env_trace, clear_env_trace,
  trace_signals, requests_of, headers_of, check_start, trace_file, removed, history, flush_active,
}
use agent_sim.Env.Aside.{Aside, Aside-trace, read_values-Aside}

module _ {W : World} (s : EnvState W) where
  sample_active-Aside :
      (tick : ℕ) (a : ActiveEnvTrace) (t : EnvState W)
      → Aside s t
      → Aside s (sample_active tick a t).1
  sample_active-Aside tick a t h =
      and_then-keeps (Aside s) (read_values (requests_of a.signals) t) _
        (read_values-Aside s (requests_of a.signals) t h)
        (λ values u k. guarded-keeps (Aside s) _ u _ k (λ writer _. Aside-trace s u _ k))

  pub sample_env_trace_after_tick-Aside :
      (tick : ℕ) (t : EnvState W) → Aside s t → Aside s (sample_env_trace_after_tick tick t).1
  unfolding sample_env_trace_after_tick
  sample_env_trace_after_tick-Aside tick t h = elim (Option-cases t.trace.active) [
    | inl idle ↦ rw (idle, sample_env_trace_after_tick) h
    | inr (a, active) ↦ elim (Bool-cases (ltb tick a.next_due_tick)) [
      | inl early ↦ rw (active, sample_env_trace_after_tick, early) h
      | inr due ↦ rw (active, sample_env_trace_after_tick, due) (sample_active-Aside tick a t h)
    ]
  ]

  pub start_env_trace-Aside :
      (path period : Text) (t : EnvState W) → Aside s t → Aside s (start_env_trace path period t).1
  unfolding start_env_trace
  start_env_trace-Aside path period t h =
      let signals = trace_signals t.signal_catalog.entries in
      let now = status W.D t.time t.tick_duration_us in
      guarded-keeps (Aside s) (check_start t path period) t _ h (λ period_us _.
        guarded-keeps (Aside s) (map_err bad_trace (create W.writes path (headers_of signals))) t _
          h
          (λ writer _.
            and_then-keeps (Aside s) (read_values (requests_of signals) t) _
              (read_values-Aside s (requests_of signals) t h)
              (λ values u k.
                guarded-keeps (Aside s)
                  (map_err bad_trace (
                    write_row W.writes W.print_float now.status_ticks now.elapsed_time_us values
                      writer))
                  u _ k (λ written _. Aside-trace s u _ k))))

  pub stop_env_trace-Aside : (t : EnvState W) → Aside s t → Aside s (stop_env_trace t).1
  unfolding stop_env_trace
  stop_env_trace-Aside t h = elim (Option-cases t.trace.active) [
    | inl idle ↦ rw (idle, stop_env_trace) h
    | inr (a, active) ↦
        rw (active, stop_env_trace)
          (guarded-keeps (Aside s) (flush_active W.flushes (some a)) t _ h
            (λ _ _. Aside-trace s t (history a none) h))
  ]

  pub clear_env_trace-Aside : (t : EnvState W) → Aside s t → Aside s (clear_env_trace t).1
  unfolding clear_env_trace
  clear_env_trace-Aside t h =
      guarded-keeps (Aside s) (flush_active W.flushes t.trace.active) t _ h (λ _ _.
        guarded-keeps (Aside s) (removed W.removes (trace_file t.trace)) _ _ (Aside-trace s t _ h)
          (λ _ _. Aside-trace s t _ h))
