-- ===== src/Env/Actor/Drain.antt =====
-- The loop of an environment catches up: the ticks that are owed are done, at most 64 in a turn.
use agent_sim.Base.{
  ℕ, zero, suc, ◌+◌, ◌-◌, ◌*◌, ◌^◌, ◌≤◌, ◌<◌, ◌≡◌, refl, ap, ◌∙◌, inl, inr, true, false, ◌||◌, List,
  [], ◌∷◌, arith, ◌==◌, Bool-cases, Option-cases, length, pos, Result, ok, err,
}
use agent_sim.Base.Float.{Floats}
use agent_sim.Sim.Time.{TimeEngine, is_running, zero_f64, due_ticks, tick_realtime_due}
use agent_sim.Env.World.{World}
use agent_sim.Env.State.{EnvState, EnvError}
use agent_sim.Env.Tick.{advance_due_ticks}
use agent_sim.Env.Clock.{WentOn, advance_due_ticks-WentOn}
use agent_sim.Env.Actor.{
  Batch, tick_batch, settle, advance_turn, with_due, after_batch, process_env_action_batch,
  run_actor_turn,
}

-- Asking for the ticks that are due does not count them.
module _ (D : Floats) where
  due_ticks-elapsed :
      (e : TimeEngine D) (tick now : ℕ) (remainder : D.F64)
      → (due_ticks D e tick now remainder).1.elapsed_ticks ≡ e.elapsed_ticks
  due_ticks-elapsed e tick now remainder =
      let tick_us = D.of_int (pos tick) in
      elim (Bool-cases (D.lt tick_us (zero_f64 D) || D.eq tick_us (zero_f64 D))) [
        | inl none_due ↦ rw none_due refl
        | inr positive ↦ elim (Bool-cases (D.to_u64 (D.floor (D.div remainder tick_us)) == 0)) [
          | inl small ↦ rw (positive, small) refl
          | inr due ↦ rw (positive, due) refl
        ]
      ]

  tick_realtime_due-elapsed :
      (seconds : ℕ → ℕ → D.F64) (tick now : ℕ) (e : TimeEngine D)
      → (tick_realtime_due D seconds tick now e).1.elapsed_ticks ≡ e.elapsed_ticks
  unfolding tick_realtime_due
  tick_realtime_due-elapsed seconds tick now e = elim (Bool-cases (is_running e.state)) [
    | inr p ↦ rw (p, tick_realtime_due) refl
    | inl r ↦ elim (Option-cases e.last_wallclock) [
      | inl first ↦ rw (r, first, tick_realtime_due) refl
      | inr (last, l) ↦ rw (r, l, tick_realtime_due) (due_ticks-elapsed e tick now _)
    ]
  ]

module _ {W : World} where
  -- What a turn does to the ticks.
  record Caught (batch : ℕ) (s t : EnvState W) : Type 0 where
    elapsed : t.time.elapsed_ticks ≡ s.time.elapsed_ticks + batch
    backlog : t.realtime_tick_backlog ≡ s.realtime_tick_backlog - batch

  settle-Caught :
      (batch : ℕ) (s : EnvState W) (out : Result (Unit {0}) EnvError × EnvState W)
      → WentOn batch s out
      → (settle batch out).shutdown ≡ false
      → Caught batch s (settle batch out)
  settle-Caught batch s (err e, t) w up = absurd (cc)
  settle-Caught batch s (ok _, t) w up = record {
    elapsed = w.elapsed;
    backlog = omega (arith, w.backlog);
  }

  down_stays :
      (batch : ℕ) (s : EnvState W)
      → s.shutdown ≡ true
      → (settle batch (advance_due_ticks batch s)).shutdown ≡ true
  unfolding advance_due_ticks
  down_stays zero s down = down
  down_stays (suc n) s down = simp (down, advance_due_ticks) refl

  advance_turn-Caught :
      (s : EnvState W)
      → s.shutdown ≡ false
      → s.time.elapsed_ticks + s.realtime_tick_backlog < 2 ^ 64
      → (advance_turn s).shutdown ≡ false
      → Caught (tick_batch s) s (advance_turn s)
  unfolding advance_turn
  advance_turn-Caught s here small up =
      settle-Caught (tick_batch s) s (advance_due_ticks (tick_batch s) s)
        (advance_due_ticks-WentOn (tick_batch s) s here (omega arith)) up

  module _ (seconds : ℕ → ℕ → W.D.F64) where
    -- A turn of the loop at a clock, without requests.
    abbrev pub idle_turn : ℕ → EnvState W → EnvState W
    idle_turn now state = (run_actor_turn seconds now [] state).state

    abbrev pub idle_turns : List ℕ → EnvState W → EnvState W
    idle_turns [] state = state
    idle_turns (now ∷ clocks) state = idle_turns clocks (idle_turn now state)

    -- The ticks that come due by the clock of a turn, and those of all turns.
    abbrev pub due_at : ℕ → EnvState W → ℕ
    due_at now state = (tick_realtime_due W.D seconds state.tick_duration_us now state.time).0

    abbrev pub total_due : List ℕ → EnvState W → ℕ
    total_due [] state = 0
    total_due (now ∷ clocks) state = due_at now state + total_due clocks (idle_turn now state)

    idle_turn-down :
        (now : ℕ) (s : EnvState W) → s.shutdown ≡ true → (idle_turn now s).shutdown ≡ true
    unfolding run_actor_turn process_env_action_batch
    idle_turn-down now s down = simp (down, run_actor_turn, process_env_action_batch) refl

    idle_turns-down :
        (clocks : List ℕ) (s : EnvState W)
        → s.shutdown ≡ true
        → (idle_turns clocks s).shutdown ≡ true
    idle_turns-down [] s down = down
    idle_turns-down (now ∷ clocks) s down =
        idle_turns-down clocks (idle_turn now s) (idle_turn-down now s down)

    still_up :
        (clocks : List ℕ) (s : EnvState W)
        → (idle_turns clocks s).shutdown ≡ false
        → s.shutdown ≡ false
    still_up clocks s up = elim (Bool-cases s.shutdown) [
      | inr here ↦ here
      | inl down ↦ absurd (let k = idle_turns-down clocks s down in cc)
    ]

    idle_turn-advance :
        (now : ℕ) (s : EnvState W)
        → s.shutdown ≡ false
        → idle_turn now s ≡ advance_turn (with_due seconds now s)
    unfolding run_actor_turn process_env_action_batch
    idle_turn-advance now s up =
        let b : Batch W = record { left = []; answers = []; state = s } in
        ap (λ down. (after_batch seconds now b down).state) up

    -- What a turn does to the ticks, with those that come due in it.
    record Turned (due : ℕ) (s t : EnvState W) : Type 0 where
      counted :
          t.time.elapsed_ticks + t.realtime_tick_backlog
          ≡ s.time.elapsed_ticks + s.realtime_tick_backlog + due
      at_most : t.realtime_tick_backlog ≡ s.realtime_tick_backlog + due - 64

    idle_turn-Turned :
        (now : ℕ) (s : EnvState W)
        → s.time.elapsed_ticks + s.realtime_tick_backlog + due_at now s < 2 ^ 64
        → (idle_turn now s).shutdown ≡ false
        → Turned (due_at now s) s (idle_turn now s)
    idle_turn-Turned now s small up =
        let here = still_up (now ∷ []) s up in
        let same = idle_turn-advance now s here in
        let asked = tick_realtime_due-elapsed W.D seconds s.tick_duration_us now s.time in
        let c =
          advance_turn-Caught (with_due seconds now s) here (omega (arith, asked))
            (rw (← same) up) in
        rw same (record {
          counted = omega (arith, asked, c.elapsed, c.backlog);
          at_most = omega (arith, asked, c.elapsed, c.backlog);
        })

    -- Over turns of the loop without requests, none of which fails, the ticks that are done and those that
    -- are still owed are those from before and the ticks that came due by the clock, and no others, as long
    -- as they stay within 64 bits. A turn does up to 64 of the ticks owed, so that the turns leave at most
    -- the ticks that came due in them and what 64 ticks for each of them could not do.
    pub idle_turns-drain :
        (clocks : List ℕ) (s : EnvState W)
        → s.time.elapsed_ticks + s.realtime_tick_backlog + total_due clocks s < 2 ^ 64
        → (idle_turns clocks s).shutdown ≡ false
        → ((idle_turns clocks s).time.elapsed_ticks + (idle_turns clocks s).realtime_tick_backlog
            ≡ s.time.elapsed_ticks + s.realtime_tick_backlog + total_due clocks s)
          × ((idle_turns clocks s).realtime_tick_backlog
              ≤ total_due clocks s + (s.realtime_tick_backlog - length clocks * 64))
    idle_turns-drain [] s small up = (omega arith, omega arith)
    idle_turns-drain (now ∷ clocks) s small up =
        let t = idle_turn-Turned now s (omega arith) (still_up clocks (idle_turn now s) up) in
        let rest = idle_turns-drain clocks (idle_turn now s) (omega (arith, t.counted)) up in
        (rest.0 ∙ omega (arith, t.counted), omega (arith, rest.1, t.at_most))
