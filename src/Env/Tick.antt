-- ===== src/Env/Tick.antt =====
-- runtime/src/envd/server/tick.rs: one tick of an environment.
use agent_sim.Base.{ℕ, zero, suc, true, false, Result, ok, and_then}
use agent_sim.Sim.Time.{status, saturating_add}
use agent_sim.Sim.Time.{advance_ticks}
use agent_sim.Env.World.{World, step_instance}
use agent_sim.Env.State.{EnvState, EnvError, with_buses, observe_env_bus_frames}
use agent_sim.Env.Bus.{tick_bus, each_bus}
use agent_sim.Env.Workers.{ask_all}
use agent_sim.Env.Tracing.{sample_env_trace_after_tick}

module _ {W : World} where
  abbrev pub current_tick : EnvState W → ℕ
  current_tick state = (status W.D state.time state.tick_duration_us).status_ticks

  abbrev pub send_due_frames : ℕ → EnvState W → Result (Unit {0}) EnvError × EnvState W
  send_due_frames tick state = with_buses state (each_bus (tick_bus tick) state.can_buses)

  abbrev advanced : ℕ → EnvState W → EnvState W
  advanced ticks state = record state { time = advance_ticks W.D ticks state.time }

  unfoldable pub advance_single_tick : EnvState W → Result (Unit {0}) EnvError × EnvState W
  advance_single_tick state =
      let now = current_tick state in
      and_then (observe_env_bus_frames state) (λ _ observed.
        and_then (send_due_frames now observed) (λ _ emitted.
          and_then (ask_all step_instance emitted) (λ _ stepped.
            and_then (observe_env_bus_frames stepped) (λ _ settled.
              and_then (sample_env_trace_after_tick (saturating_add now 1) settled)
                (λ _ sampled. (ok tt, advanced 1 sampled))))))

  unfoldable pub advance_due_ticks : ℕ → EnvState W → Result (Unit {0}) EnvError × EnvState W
  advance_due_ticks zero state = (ok tt, state)
  advance_due_ticks (suc n) state = elim (state.shutdown) [
    | true ↦ (ok tt, state)
    | false ↦ and_then (advance_single_tick state) (λ _ next. advance_due_ticks n next)
  ]
