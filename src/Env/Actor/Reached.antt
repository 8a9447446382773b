-- ===== src/Env/Actor/Reached.antt =====
-- The states that an environment comes to: it starts without jobs, and takes turns.
use agent_sim.Base.{ℕ, List}
use agent_sim.Base.Map.{text_order, IsSorted}
use agent_sim.Env.World.{World}
use agent_sim.Env.State.{EnvState}
use agent_sim.Env.Invariant.{Idle, Idle-IsEnv}
use agent_sim.Env.Invariant.Ticks.{Holds}
use agent_sim.Env.Actor.{ActionMessage, run_actor_turn, run_actor_turn-Holds}

module _ {W : World} (seconds : ℕ → ℕ → W.D.F64) where
  -- The queue of a turn is any list of requests, and its clock any number.
  pub data Reached : EnvState W → Type 0 where
    begun : (state : EnvState W) → IsSorted state.can_buses → Idle state.can_buses → Reached state
    turned :
        (now : ℕ) (queue : List (ActionMessage W.D.F64)) (state : EnvState W)
        → Reached state
        → Reached (run_actor_turn seconds now queue state).state

  -- In every state that an environment comes to by turns of its loop, from one without jobs, each job stands
  -- under its name on a bus that its frame can be sent on and has a period, and no two buses have jobs of one
  -- name.
  pub Reached-Holds : (state : EnvState W) → Reached state → Holds state
  Reached-Holds state (begun s sorted idle) = Idle-IsEnv s.can_buses sorted idle
  Reached-Holds state (turned now queue s before) =
      run_actor_turn-Holds seconds now queue s (Reached-Holds s before)
