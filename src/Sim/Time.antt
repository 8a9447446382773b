-- ===== src/Sim/Time.antt =====
-- runtime/src/sim/time.rs: the engine of simulated time. Doubles are a parameter; so is the clock:
-- an `Instant` is a number, and `seconds` gives `duration_since(last).as_secs_f64()`.
pub mod Engine
use agent_sim.Base.{
  ℕ, ◌+◌, ◌-◌, ◌*◌, ◌/◌, ◌^◌, min, Bool, true, false, not, ◌||◌, Option, none, some, ◌==◌,
  if◌then◌else◌, pos, Result, ok, err,
}
use agent_sim.Base.Float.{Floats}

-- `TimeStateData` of runtime/src/protocol.rs.
pub data TimeStateData : Type 0 where
  running paused : TimeStateData

pub data TimeError : Type 0 where
  step_while_running already_running already_paused invalid_speed : TimeError

pub record StepResult : Type 0 where
  pub requested_us : ℕ
  pub advanced_ticks : ℕ
  pub advanced_us : ℕ

abbrev pub is_running : TimeStateData → Bool
is_running running = true
is_running paused = false

-- `u64::saturating_mul` and `u64::saturating_add`.
abbrev pub saturating_mul : ℕ → ℕ → ℕ
saturating_mul a b = min (a * b) (2 ^ 64 - 1)

abbrev pub saturating_add : ℕ → ℕ → ℕ
saturating_add a b = min (a + b) (2 ^ 64 - 1)

module _ (D : Floats) where
  pub record TimeEngine : Type 0 where
    pub state : TimeStateData
    pub speed : D.F64
    pub elapsed_ticks : ℕ
    pub remainder_us : D.F64
    pub last_wallclock : Option ℕ

  pub record TimeStatus : Type 0 where
    pub status_state : TimeStateData
    pub status_ticks : ℕ
    pub elapsed_time_us : ℕ
    pub status_speed : D.F64

  abbrev pub zero_f64 : D.F64
  zero_f64 = D.of_int (pos 0)

  unfoldable pub default_engine : TimeEngine
  default_engine = record {
    state = paused;
    speed = D.of_int (pos 1);
    elapsed_ticks = 0;
    remainder_us = zero_f64;
    last_wallclock = none;
  }

  unfoldable pub status : TimeEngine → ℕ → TimeStatus
  status e tick_duration_us = record {
    status_state = e.state;
    status_ticks = e.elapsed_ticks;
    elapsed_time_us = saturating_mul e.elapsed_ticks tick_duration_us;
    status_speed = e.speed;
  }

  unfoldable pub start : ℕ → TimeEngine → Result TimeEngine TimeError
  start now e =
      if is_running e.state
      then err already_running
      else ok (record {
        state = running;
        speed = e.speed;
        elapsed_ticks = e.elapsed_ticks;
        remainder_us = e.remainder_us;
        last_wallclock = some now;
      })

  unfoldable pub pause : TimeEngine → Result TimeEngine TimeError
  pause e =
      if not (is_running e.state)
      then err already_paused
      else ok (record {
        state = paused;
        speed = e.speed;
        elapsed_ticks = e.elapsed_ticks;
        remainder_us = zero_f64;
        last_wallclock = none;
      })

  -- A speed that is a positive finite number.
  abbrev pub valid_speed : D.F64 → Bool
  valid_speed speed = not (not (D.is_finite speed) || (D.lt speed zero_f64 || D.eq speed zero_f64))

  unfoldable pub set_speed : D.F64 → TimeEngine → Result TimeEngine TimeError
  set_speed speed e =
      if not (valid_speed speed)
      then err invalid_speed
      else ok (record {
        state = e.state;
        speed = speed;
        elapsed_ticks = e.elapsed_ticks;
        remainder_us = e.remainder_us;
        last_wallclock = e.last_wallclock;
      })

  unfoldable pub step_ticks : ℕ → ℕ → TimeEngine → Result StepResult TimeError
  step_ticks tick_us duration_us e =
      if is_running e.state
      then err step_while_running
      else let ticks = if tick_us == 0 then 0 else duration_us / tick_us in
        ok (record {
          requested_us = duration_us;
          advanced_ticks = ticks;
          advanced_us = saturating_mul ticks tick_us;
        })

  abbrev pub with_clock : TimeEngine → D.F64 → ℕ → TimeEngine
  with_clock e remainder now = record {
    state = e.state;
    speed = e.speed;
    elapsed_ticks = e.elapsed_ticks;
    remainder_us = remainder;
    last_wallclock = some now;
  }

  -- The end of `tick_realtime_due`, with the time that has come in added to the remainder.
  abbrev pub due_ticks : TimeEngine → ℕ → ℕ → D.F64 → ℕ × TimeEngine
  due_ticks e tick_duration_us now remainder =
      let tick_us = D.of_int (pos tick_duration_us) in
      let ticks = D.to_u64 (D.floor (D.div remainder tick_us)) in
      if D.lt tick_us zero_f64 || D.eq tick_us zero_f64
      then (0, with_clock e remainder now)
      else if ticks == 0
      then (0, with_clock e remainder now)
      else (ticks, with_clock e (D.sub remainder (D.mul (D.of_int (pos ticks)) tick_us)) now)

  unfoldable pub tick_realtime_due : (ℕ → ℕ → D.F64) → ℕ → ℕ → TimeEngine → ℕ × TimeEngine
  tick_realtime_due seconds tick_duration_us now e =
      if not (is_running e.state) then (0, e) else elim (e.last_wallclock) [
        | none ↦ (0, with_clock e e.remainder_us now)
        | some last ↦
            let delta = D.mul (D.mul (seconds last now) (D.of_int (pos 1000000))) e.speed in
            due_ticks e tick_duration_us now (D.add e.remainder_us delta)
      ]

  -- In microseconds.
  unfoldable pub realtime_poll_delay : ℕ → TimeEngine → ℕ
  realtime_poll_delay tick_duration_us e =
      let tick_us = D.of_int (pos tick_duration_us) in
      let left = D.sub tick_us e.remainder_us in
      let remaining = if D.lt zero_f64 left then left else zero_f64 in
      let wall =
        if D.lt zero_f64 e.speed then D.ceil (D.div remaining e.speed) else D.ceil tick_us in
      let least = D.of_int (pos 100) in
      let most = D.of_int (pos 1000000) in
      if not (is_running e.state)
      then 5000
      else if tick_duration_us == 0
      then 1000
      else D.to_u64 (if D.lt wall least then least else if D.lt most wall then most else wall)

  unfoldable pub advance_ticks : ℕ → TimeEngine → TimeEngine
  advance_ticks ticks e = record {
    state = e.state;
    speed = e.speed;
    elapsed_ticks = saturating_add e.elapsed_ticks ticks;
    remainder_us = e.remainder_us;
    last_wallclock = e.last_wallclock;
  }
