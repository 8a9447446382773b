-- ===== src/Sim/Time/Engine.antt =====
-- The engine under any sequence of its operations.
use agent_sim.Base.{
  ℕ, zero, suc, ◌+◌, ◌*◌, ◌/◌, ◌%◌, ◌^◌, ◌≤◌, ◌<◌, ◌≡◌, refl, ◌≢◌, ◌⊎◌, inl, inr, true, false, ◌||◌,
  Option, none, some, List, [], ◌∷◌, arith, ◌==◌, Bool-cases, Option-cases, pos, Result, ok, err,
}
use native.Mathlib.Nat.{mod-add-div', mod-lt}
use agent_sim.Base.Float.{Floats}
use agent_sim.Sim.Time.{
  TimeStateData, running, paused, TimeError, StepResult, is_running, saturating_mul, TimeEngine,
  zero_f64, default_engine, start, pause, valid_speed, set_speed, step_ticks, with_clock, due_ticks,
  tick_realtime_due, advance_ticks,
}

module _ (D : Floats) where
  -- A call of one of the operations that change the engine.
  pub data Call : Type 0 where
    call_reset call_pause : Call
    call_start call_advance : ℕ → Call
    call_set_speed : D.F64 → Call
    call_due : ℕ → ℕ → Call

  -- An operation that fails leaves the engine as it was.
  abbrev kept : TimeEngine D → Result (TimeEngine D) TimeError → TimeEngine D
  kept e (ok after) = after
  kept e (err x) = e

  unfoldable pub call : (ℕ → ℕ → D.F64) → Call → TimeEngine D → TimeEngine D
  call seconds call_reset e = default_engine D
  call seconds call_pause e = kept e (pause D e)
  call seconds (call_start now) e = kept e (start D now e)
  call seconds (call_advance ticks) e = advance_ticks D ticks e
  call seconds (call_set_speed speed) e = kept e (set_speed D speed e)
  call seconds (call_due tick now) e = (tick_realtime_due D seconds tick now e).1

  unfoldable pub calls : (ℕ → ℕ → D.F64) → List Call → TimeEngine D → TimeEngine D
  calls seconds [] e = e
  calls seconds (c ∷ cs) e = calls seconds cs (call seconds c e)

  -- The fields that hang on the state.
  abbrev Clock : TimeStateData → D.F64 → Option ℕ → Type 0
  Clock running remainder last = last ≢ none
  Clock paused remainder last = (remainder ≡ zero_f64 D) × (last ≡ none)

  pub record IsEngine (e : TimeEngine D) : Type 0 where
    pub clock : Clock e.state e.remainder_us e.last_wallclock
    pub good_speed : valid_speed D e.speed ≡ true
    pub ticks_fit : e.elapsed_ticks < 2 ^ 64

  state-cases : (s : TimeStateData) → (is_running s ≡ true) ⊎ (is_running s ≡ false)
  state-cases running = inl refl
  state-cases paused = inr refl

  Clock-some :
      (s : TimeStateData) (remainder : D.F64) (now : ℕ)
      → is_running s ≡ true
      → Clock s remainder (some now)
  Clock-some running remainder now h = λ bad. cc
  Clock-some paused remainder now h = absurd (cc)

  start-IsEngine : (now : ℕ) (e : TimeEngine D) → IsEngine e → IsEngine (kept e (start D now e))
  unfolding start
  start-IsEngine now e h = elim (state-cases e.state) [
    | inl r ↦ rw (r, start) h
    | inr p ↦
        rw (p, start)
          (record { clock = λ bad. cc; good_speed = h.good_speed; ticks_fit = h.ticks_fit })
  ]

  pause-IsEngine : (e : TimeEngine D) → IsEngine e → IsEngine (kept e (pause D e))
  unfolding pause
  pause-IsEngine e h = elim (state-cases e.state) [
    | inl r ↦
        rw (r, pause)
          (record { clock = (refl, refl); good_speed = h.good_speed; ticks_fit = h.ticks_fit })
    | inr p ↦ rw (p, pause) h
  ]

  set_speed-IsEngine :
      (speed : D.F64) (e : TimeEngine D) → IsEngine e → IsEngine (kept e (set_speed D speed e))
  unfolding set_speed
  set_speed-IsEngine speed e h = elim (Bool-cases (valid_speed D speed)) [
    | inl good ↦
        rw (good, set_speed)
          (record { clock = h.clock; good_speed = good; ticks_fit = h.ticks_fit })
    | inr bad ↦ rw (bad, set_speed) h
  ]

  due_ticks-IsEngine :
      (e : TimeEngine D) (tick now : ℕ) (remainder : D.F64)
      → is_running e.state ≡ true
      → IsEngine e
      → IsEngine (due_ticks D e tick now remainder).1
  due_ticks-IsEngine e tick now remainder r h =
      let tick_us = D.of_int (pos tick) in
      let go : (rem : D.F64) → IsEngine (with_clock D e rem now) = λ rem. record {
        clock = Clock-some e.state rem now r;
        good_speed = h.good_speed;
        ticks_fit = h.ticks_fit;
      } in
      elim (Bool-cases (D.lt tick_us (zero_f64 D) || D.eq tick_us (zero_f64 D))) [
        | inl none_due ↦ rw none_due (go remainder)
        | inr positive ↦ elim (Bool-cases (D.to_u64 (D.floor (D.div remainder tick_us)) == 0)) [
          | inl small ↦ rw (positive, small) (go remainder)
          | inr due ↦ rw (positive, due) (go _)
        ]
      ]

  tick_realtime_due-IsEngine :
      (seconds : ℕ → ℕ → D.F64) (tick now : ℕ) (e : TimeEngine D)
      → IsEngine e
      → IsEngine (tick_realtime_due D seconds tick now e).1
  unfolding tick_realtime_due
  tick_realtime_due-IsEngine seconds tick now e h = elim (state-cases e.state) [
    | inl r ↦ elim (Option-cases e.last_wallclock) [
      | inl n ↦
          rw (r, n, tick_realtime_due)
            (record {
              clock = Clock-some e.state e.remainder_us now r;
              good_speed = h.good_speed;
              ticks_fit = h.ticks_fit;
            })
      | inr (last, l) ↦ rw (r, l, tick_realtime_due) (due_ticks-IsEngine e tick now _ r h)
    ]
    | inr p ↦ rw (p, tick_realtime_due) h
  ]

  call-IsEngine :
      (seconds : ℕ → ℕ → D.F64) (c : Call) (e : TimeEngine D)
      → valid_speed D (D.of_int (pos 1)) ≡ true
      → IsEngine e
      → IsEngine (call seconds c e)
  unfolding call default_engine advance_ticks
  call-IsEngine seconds call_reset e one h = record {
    clock = (refl, refl);
    good_speed = one;
    ticks_fit = omega arith;
  }
  call-IsEngine seconds call_pause e one h = pause-IsEngine e h
  call-IsEngine seconds (call_start now) e one h = start-IsEngine now e h
  call-IsEngine seconds (call_advance ticks) e one h = record {
    clock = h.clock;
    good_speed = h.good_speed;
    ticks_fit = omega arith;
  }
  call-IsEngine seconds (call_set_speed speed) e one h = set_speed-IsEngine speed e h
  call-IsEngine seconds (call_due tick now) e one h =
      tick_realtime_due-IsEngine seconds tick now e h

  -- When 1.0 is a valid speed, every sequence of calls on a sound engine leaves it sound: paused it
  -- has no clock reading and no remainder, running it has a clock reading, the speed is valid, and the
  -- tick count fits 64 bits.
  pub calls-IsEngine :
      (seconds : ℕ → ℕ → D.F64) (cs : List Call) (e : TimeEngine D)
      → valid_speed D (D.of_int (pos 1)) ≡ true
      → IsEngine e
      → IsEngine (calls seconds cs e)
  unfolding calls
  calls-IsEngine seconds [] e one h = h
  calls-IsEngine seconds (c ∷ cs) e one h =
      calls-IsEngine seconds cs (call seconds c e) one (call-IsEngine seconds c e one h)

  -- A step of a paused engine answers with the 64-bit duration it was asked for; it covers all whole
  -- ticks of the duration and leaves less than one tick. Without a tick duration it counts no tick and
  -- covers nothing.
  pub step_ticks-covers :
      (tick_us duration_us : ℕ) (e : TimeEngine D)
      → duration_us < 2 ^ 64
      → is_running e.state ≡ false
      → (r : StepResult) × (step_ticks D tick_us duration_us e ≡ ok r)
        × (r.requested_us ≡ duration_us)
        × (r.advanced_us ≡ r.advanced_ticks * tick_us)
        × (r.advanced_us ≤ duration_us)
        × (((tick_us ≡ 0) × (r.advanced_ticks ≡ 0) × (r.advanced_us ≡ 0))
            ⊎ (duration_us < r.advanced_us + tick_us))
  unfolding step_ticks
  step_ticks-covers zero duration_us e small p = (
    record { requested_us = duration_us; advanced_ticks = 0; advanced_us = 0 },
    rw (p, step_ticks) refl,
    refl,
    omega arith,
    omega arith,
    inl (refl, refl, refl),
  )
  step_ticks-covers (suc t) duration_us e small p =
      let whole = mod-add-div' duration_us (suc t) in
      let part : duration_us % suc t < suc t = mod-lt duration_us (omega arith) in
      let some_tick : (suc t == 0) ≡ false = ground arith in
      let fits : saturating_mul (duration_us / suc t) (suc t) ≡ duration_us / suc t * suc t =
        omega arith in
      (
        record {
          requested_us = duration_us;
          advanced_ticks = duration_us / suc t;
          advanced_us = saturating_mul (duration_us / suc t) (suc t);
        },
        rw (p, some_tick, step_ticks) refl,
        refl,
        fits,
        omega arith,
        inr (omega arith),
      )
