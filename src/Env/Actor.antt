-- ===== src/Env/Actor.antt =====
-- runtime/src/envd/server.rs: the loop that serves the requests to an environment and advances it in real
-- time. A turn ends where the loop yields or sleeps; `now` is the clock of a turn.
pub mod Drain
pub mod Reached
use agent_sim.Base.{
  ℕ, zero, suc, ◌-◌, min, inl, inr, Bool, true, false, List, [], ◌∷◌, Bool-cases, Result, ok, err,
  Text,
}
use agent_sim.Base.Float.{Floats}
use agent_sim.Sim.Time.{TimeEngine, saturating_add, tick_realtime_due}
use agent_sim.Env.World.{World}
use agent_sim.Env.State.{EnvState, EnvError}
use agent_sim.Env.Tick.{advance_due_ticks}
use agent_sim.Env.Dispatch.{EnvAction, EnvAnswer, dispatch_action}
use agent_sim.Env.Invariant.Ticks.{Holds, advance_due_ticks-Holds}
use agent_sim.Env.Invariant.Requests.{dispatch_action-Holds}
use agent_sim.Env.Clock.{Advanced, WentOn, advance_due_ticks-WentOn}

abbrev pub max_env_actions_per_turn : ℕ
max_env_actions_per_turn = 16

abbrev pub max_env_ticks_per_turn : ℕ
max_env_ticks_per_turn = 64

-- A request with the id that it is given for a job without one.
pub record ActionMessage (F64 : Type 0) : Type 0 where
  pub env : Text
  pub action : EnvAction F64
  pub fresh_id : Text

-- What a batch leaves in the queue, its answers, and the state.
pub record Batch (W : World) : Type 0 where
  pub left : List (ActionMessage W.D.F64)
  pub answers : List (Result (EnvAnswer W) EnvError)
  pub state : EnvState W

module _ {W : World} where
  abbrev answered : Result (EnvAnswer W) EnvError → Batch W → Batch W
  answered answer b = record b { answers = answer ∷ b.answers }

  unfoldable pub process_env_action_batch :
      ℕ → ℕ → List (ActionMessage W.D.F64) → EnvState W → Batch W
  process_env_action_batch now zero queue state = record {
    left = queue;
    answers = [];
    state = state;
  }
  process_env_action_batch now (suc n) [] state = record { left = []; answers = []; state = state }
  process_env_action_batch now (suc n) (m ∷ queue) state =
      let (answer, after) = dispatch_action m.fresh_id m.env m.action now state in
      elim (after.shutdown) [
        | true ↦ record { left = queue; answers = answer ∷ []; state = after }
        | false ↦ answered answer (process_env_action_batch now n queue after)
      ]

  -- The state with the ticks that have come due.
  abbrev pub with_due : (ℕ → ℕ → W.D.F64) → ℕ → EnvState W → EnvState W
  with_due seconds now state =
      let (due, time) = tick_realtime_due W.D seconds state.tick_duration_us now state.time in
      record state {
        time = time;
        realtime_tick_backlog = saturating_add state.realtime_tick_backlog due;
      }

  abbrev pub tick_batch : EnvState W → ℕ
  tick_batch state = min state.realtime_tick_backlog max_env_ticks_per_turn

  abbrev pub settle : ℕ → Result (Unit {0}) EnvError × EnvState W → EnvState W
  settle batch (err e, state) = record state { shutdown = true }
  settle batch (ok _, state) = record state {
    realtime_tick_backlog = state.realtime_tick_backlog - batch;
  }

  unfoldable pub advance_turn : EnvState W → EnvState W
  advance_turn state = settle (tick_batch state) (advance_due_ticks (tick_batch state) state)

  -- Behind the requests, unless one of them closed the environment.
  abbrev pub after_batch : (ℕ → ℕ → W.D.F64) → ℕ → Batch W → Bool → Batch W
  after_batch seconds now b true = b
  after_batch seconds now b false = record b { state = advance_turn (with_due seconds now b.state) }

  unfoldable pub run_actor_turn :
      (ℕ → ℕ → W.D.F64) → ℕ → List (ActionMessage W.D.F64) → EnvState W → Batch W
  run_actor_turn seconds now queue state =
      let b = process_env_action_batch now max_env_actions_per_turn queue state in
      after_batch seconds now b b.state.shutdown

  process_env_action_batch-Holds :
      (now n : ℕ) (queue : List (ActionMessage W.D.F64)) (state : EnvState W)
      → Holds state
      → Holds (process_env_action_batch now n queue state).state
  unfolding process_env_action_batch
  process_env_action_batch-Holds now zero queue state h = h
  process_env_action_batch-Holds now (suc n) [] state h = h
  process_env_action_batch-Holds now (suc n) (m ∷ queue) state h =
      let out = dispatch_action m.fresh_id m.env m.action now state in
      let k : Holds out.1 = dispatch_action-Holds m.fresh_id m.env m.action now state h in
      elim (Bool-cases out.1.shutdown) [
        | inl down ↦ simp (down, process_env_action_batch) k
        | inr up ↦
            simp (up, process_env_action_batch) (process_env_action_batch-Holds now n queue out.1 k)
      ]

  settle-Holds :
      (batch : ℕ) (out : Result (Unit {0}) EnvError × EnvState W)
      → Holds out.1
      → Holds (settle batch out)
  settle-Holds batch (err e, state) h = h
  settle-Holds batch (ok _, state) h = h

  advance_turn-Holds : (state : EnvState W) → Holds state → Holds (advance_turn state)
  unfolding advance_turn
  advance_turn-Holds state h =
      settle-Holds (tick_batch state) (advance_due_ticks (tick_batch state) state)
        (advance_due_ticks-Holds (tick_batch state) state h)

  after_batch-Holds :
      (seconds : ℕ → ℕ → W.D.F64) (now : ℕ) (b : Batch W) (down : Bool)
      → Holds b.state
      → Holds (after_batch seconds now b down).state
  after_batch-Holds seconds now b true h = h
  after_batch-Holds seconds now b false h = advance_turn-Holds (with_due seconds now b.state) h

  -- When the jobs of an environment can be sent on their buses and have periods, and no two buses have jobs
  -- of one name, then it is so behind a turn of the loop, whatever requests are in the queue.
  pub run_actor_turn-Holds :
      (seconds : ℕ → ℕ → W.D.F64) (now : ℕ) (queue : List (ActionMessage W.D.F64))
      (state : EnvState W)
      → Holds state
      → Holds (run_actor_turn seconds now queue state).state
  unfolding run_actor_turn
  run_actor_turn-Holds seconds now queue state h =
      let b = process_env_action_batch now max_env_actions_per_turn queue state in
      after_batch-Holds seconds now b b.state.shutdown
        (process_env_action_batch-Holds now max_env_actions_per_turn queue state h)
