-- ===== src/Env/Clock.antt =====
-- The clock of an environment: how many ticks it has seen behind the ticks that are due and behind a step.
use agent_sim.Base.{
  ℕ, zero, suc, ◌+◌, ◌/◌, ◌^◌, ◌≤◌, ◌<◌, ◌≡◌, refl, sym, ap, subst, ◌∙◌, false, arith, Result, ok,
  err, map_err, ok_injective, and_then, guarded, Text,
}
use agent_sim.Sim.Time.{TimeEngine, StepResult, advance_ticks, saturating_add, step_ticks}
use agent_sim.Env.Duration.{parse_duration_us}
use agent_sim.Env.World.{World, step_instance}
use agent_sim.Env.State.{EnvState, EnvError, bad_duration, bad_time, observe_env_bus_frames}
use agent_sim.Env.Workers.{ask_all}
use agent_sim.Env.Tracing.{sample_env_trace_after_tick}
use agent_sim.Env.Tick.{current_tick, send_due_frames, advance_single_tick, advance_due_ticks}
use agent_sim.Env.Dispatch.{Outcome, step_action, advanced}
use agent_sim.Env.Aside.{Aside, Aside-refl, Aside-time, ask_all-Aside}
use agent_sim.Env.Aside.Traced.{sample_env_trace_after_tick-Aside}

-- A property of an outcome behind steps; an error has every such property.
module _ {S A B E : Type 0} (P : S → Type 0) (Q : Result B E × S → Type 0)
    (failed : (e : E) (s : S) → Q (err e, s)) where
  and_then-leads :
      (first : Result A E × S) (next : A → S → Result B E × S)
      → P first.1
      → ((a : A) (s : S) → P s → Q (next a s))
      → Q (and_then first next)
  and_then-leads (err e, s) next h k = failed e s
  and_then-leads (ok a, s) next h k = k a s h

  guarded-leads :
      (r : Result A E) (s : S) (next : A → Result B E × S)
      → ((a : A) → r ≡ ok a → Q (next a))
      → Q (guarded r s next)
  guarded-leads (err e) s next k = failed e s
  guarded-leads (ok a) s next k = k a refl

module _ {W : World} where
  -- The clock stands still.
  record Still (s t : EnvState W) : Type 0 where
    same_time : t.time ≡ s.time
    same_shutdown : t.shutdown ≡ s.shutdown
    same_backlog : t.realtime_tick_backlog ≡ s.realtime_tick_backlog

  Still-trans : (s t u : EnvState W) → Still s t → Still t u → Still s u
  Still-trans s t u h k = record {
    same_time = k.same_time ∙ h.same_time;
    same_shutdown = k.same_shutdown ∙ h.same_shutdown;
    same_backlog = k.same_backlog ∙ h.same_backlog;
  }

  Still-Aside : (s t u : EnvState W) → Still s t → Aside t u → Still s u
  Still-Aside s t u h a =
      let k = Aside-time t u a in
      Still-trans s t u h (record { same_time = k.0; same_shutdown = k.1; same_backlog = k.2 })

  Still-observe : (s t : EnvState W) → Still s t → Still s (observe_env_bus_frames t).1
  unfolding observe_env_bus_frames
  Still-observe s t h = record {
    same_time = h.same_time;
    same_shutdown = h.same_shutdown;
    same_backlog = h.same_backlog;
  }

  -- What `n` ticks leave of the clock.
  pub record Advanced (n : ℕ) (s t : EnvState W) : Type 0 where
    pub elapsed : t.time.elapsed_ticks ≡ s.time.elapsed_ticks + n
    pub state : t.time.state ≡ s.time.state
    pub speed : t.time.speed ≡ s.time.speed
    pub shutdown : t.shutdown ≡ s.shutdown
    pub backlog : t.realtime_tick_backlog ≡ s.realtime_tick_backlog

  -- The same of an outcome that is no error.
  abbrev pub WentOn : {B : Type 0} → ℕ → EnvState W → Result B EnvError × EnvState W → Type 0
  WentOn n s (err e, t) = Unit
  WentOn n s (ok b, t) = Advanced n s t

  advance_single_tick-WentOn :
      (s : EnvState W) → s.time.elapsed_ticks + 1 < 2 ^ 64 → WentOn 1 s (advance_single_tick s)
  unfolding advance_single_tick advance_ticks
  advance_single_tick-WentOn s small =
      let now = current_tick s in
      let start : Still s s = record {
        same_time = refl;
        same_shutdown = refl;
        same_backlog = refl;
      } in
      and_then-leads (Still s) (WentOn 1 s) (λ _ _. tt) (observe_env_bus_frames s) _
        (Still-observe s s start)
        (λ _ observed h1.
          and_then-leads (Still s) (WentOn 1 s) (λ _ _. tt) (send_due_frames now observed) _
            (record {
              same_time = h1.same_time;
              same_shutdown = h1.same_shutdown;
              same_backlog = h1.same_backlog;
            })
            (λ _ emitted h2.
              and_then-leads (Still s) (WentOn 1 s) (λ _ _. tt) (ask_all step_instance emitted) _
                (Still-Aside s emitted _ h2
                  (ask_all-Aside emitted step_instance emitted (Aside-refl emitted)))
                (λ _ stepped h3.
                  and_then-leads (Still s) (WentOn 1 s) (λ _ _. tt) (observe_env_bus_frames stepped)
                    _ (Still-observe s stepped h3)
                    (λ _ settled h4.
                      and_then-leads (Still s) (WentOn 1 s) (λ _ _. tt)
                        (sample_env_trace_after_tick (saturating_add now 1) settled) _
                        (Still-Aside s settled _ h4 (
                          sample_env_trace_after_tick-Aside settled (saturating_add now 1) settled
                            (Aside-refl settled)))
                        (λ _ sampled h5. record {
                          elapsed =
                              let e : sampled.time.elapsed_ticks ≡ s.time.elapsed_ticks =
                                ap (λ (x : TimeEngine W.D). x.elapsed_ticks) h5.same_time in
                              omega arith;
                          state = ap (λ (x : TimeEngine W.D). x.state) h5.same_time;
                          speed = ap (λ (x : TimeEngine W.D). x.speed) h5.same_time;
                          shutdown = h5.same_shutdown;
                          backlog = h5.same_backlog;
                        })))))

  Advanced-trans :
      (a b : ℕ) (s t u : EnvState W) → Advanced a s t → Advanced b t u → Advanced (a + b) s u
  Advanced-trans a b s t u h k = record {
    elapsed = omega (arith, h.elapsed, k.elapsed);
    state = k.state ∙ h.state;
    speed = k.speed ∙ h.speed;
    shutdown = k.shutdown ∙ h.shutdown;
    backlog = k.backlog ∙ h.backlog;
  }

  WentOn-trans :
      {B : Type 0} (a b total : ℕ) (s t : EnvState W) (out : Result B EnvError × EnvState W)
      → a + b ≡ total
      → Advanced a s t
      → WentOn b t out
      → WentOn total s out
  WentOn-trans a b total s t (err e, u) sum h k = tt
  WentOn-trans a b total s t (ok x, u) sum h k =
      subst (λ n. Advanced n s u) sum (Advanced-trans a b s t u h k)

  and_then-WentOn :
      {A B : Type 0} (a b total : ℕ) (s : EnvState W) (first : Result A EnvError × EnvState W)
      (next : A → EnvState W → Result B EnvError × EnvState W)
      → a + b ≡ total
      → WentOn a s first
      → ((x : A) (t : EnvState W) → Advanced a s t → WentOn b t (next x t))
      → WentOn total s (and_then first next)
  and_then-WentOn a b total s (err e, t) next sum h k = tt
  and_then-WentOn a b total s (ok x, t) next sum h k =
      WentOn-trans a b total s t (next x t) sum h (k x t h)

  pub advance_due_ticks-WentOn :
      (n : ℕ) (s : EnvState W)
      → s.shutdown ≡ false
      → s.time.elapsed_ticks + n < 2 ^ 64
      → WentOn n s (advance_due_ticks n s)
  unfolding advance_due_ticks
  advance_due_ticks-WentOn zero s up small = record {
    elapsed = omega arith;
    state = refl;
    speed = refl;
    shutdown = refl;
    backlog = refl;
  }
  advance_due_ticks-WentOn (suc n) s up small =
      simp (up, advance_due_ticks)
        (and_then-WentOn 1 n (suc n) s (advance_single_tick s) _ (omega arith)
          (advance_single_tick-WentOn s (omega arith))
          (λ _ t h. advance_due_ticks-WentOn n t (h.shutdown ∙ up) (omega (arith, h.elapsed))))

  -- The answer to a step says how far the clock went.
  abbrev pub idle : EnvState W → EnvState W
  idle s = record s { realtime_tick_backlog = 0 }

  abbrev pub Stepped : EnvState W → Outcome W → Type 0
  Stepped s (err e, t) = Unit
  Stepped s (ok (advanced step), t) = Advanced step.advanced_ticks (idle s) t
  Stepped s (ok _, t) = ⊥

  answer-Stepped :
      {A : Type 0} (step : StepResult) (s : EnvState W) (out : Result A EnvError × EnvState W)
      → WentOn step.advanced_ticks (idle s) out
      → Stepped s (and_then out (λ _ next. (ok (advanced step), next)))
  answer-Stepped step s (err e, t) h = tt
  answer-Stepped step s (ok a, t) h = h

  -- When an environment that was not shut down answers a step and its ticks stay within 64 bits, then it
  -- has seen exactly as many ticks more as the answer says, its engine has the same state and speed, and no
  -- tick is owed any more.
  pub step_action-Stepped :
      (duration : Text) (duration_us : ℕ) (s : EnvState W)
      → s.shutdown ≡ false
      → parse_duration_us W.D W.parse_f64 duration ≡ ok duration_us
      → s.time.elapsed_ticks + duration_us / s.tick_duration_us < 2 ^ 64
      → Stepped s (step_action duration s)
  unfolding step_action step_ticks
  step_action-Stepped duration duration_us s up parsed small =
      guarded-leads (λ _. Unit) (Stepped s) (λ _ _. tt)
        (map_err bad_duration (parse_duration_us W.D W.parse_f64 duration)) s _
        (λ us got.
          guarded-leads (λ _. Unit) (Stepped s) (λ _ _. tt)
            (map_err bad_time (step_ticks W.D s.tick_duration_us us s.time)) (idle s) _
            (λ step done.
              let same : us ≡ duration_us = ok_injective (sym got ∙ rw parsed refl) in
              let few : step.advanced_ticks ≤ duration_us / s.tick_duration_us = ground arith in
              answer-Stepped step s (advance_due_ticks step.advanced_ticks (idle s))
                (advance_due_ticks-WentOn step.advanced_ticks (idle s) up (omega arith))))
