-- ===== src/Daemon/Requests/Steps.antt =====
-- A step that is asked of an instance, and its clock.
use agent_sim.Base.{
  ℕ, ◌+◌, ◌/◌, ◌^◌, ◌≤◌, ◌<◌, ◌≡◌, refl, sym, ap, ◌∙◌, arith, Result, ok, err, map_err,
  ok_injective, and_then, guarded, Text,
}
use agent_sim.Sim.Time.{TimeEngine, StepResult, step_ticks}
use agent_sim.Env.Duration.{parse_duration_us}
use agent_sim.Daemon.Device.{Device, IsTickCount}
use agent_sim.Daemon.State.{DaemonState, DaemonError}
use agent_sim.Daemon.Tick.{advance_project_ticks}
use agent_sim.Daemon.Clock.{Counted, advance_project_ticks-Counted}
use agent_sim.Daemon.Requests.{
  RequestError, bad_duration, bad_time, ticks_failed, with_request_error, reject_local_time_control,
  step_request,
}

module _ (V : Device) (count : V.Project → ℕ) (c : IsTickCount V count) where
  -- The clock and the project have gone on by the same number of ticks, and by as many as an answer says.
  abbrev pub Answered : DaemonState V → Result StepResult RequestError × DaemonState V → Type 0
  Answered s (ok step, t) =
      (t.time.elapsed_ticks ≡ s.time.elapsed_ticks + step.advanced_ticks)
      × (count t.project ≡ count s.project + step.advanced_ticks)
  Answered s (err e, t) =
      (done : ℕ) × (t.time.elapsed_ticks ≡ s.time.elapsed_ticks + done)
      × (count t.project ≡ count s.project + done)

  from_idle :
      (n : ℕ) (s : DaemonState V) (out : Result (Unit {0}) DaemonError × DaemonState V)
      → Counted V count c n (record s { realtime_tick_backlog = 0 }) out
      → Counted V count c n s out
  from_idle n s (err e, t) h = h
  from_idle n s (ok _, t) h = h

  after_ticks :
      (step : StepResult) (s : DaemonState V) (out : Result (Unit {0}) DaemonError × DaemonState V)
      → Counted V count c step.advanced_ticks s out
      → Answered s (and_then (with_request_error ticks_failed out) (λ _ next. (ok step, next)))
  after_ticks step s (err e, t) (done, few, a, b) = (done, a, b)
  after_ticks step s (ok _, t) h = h

  guarded-Answered :
      {A : Type 0} (s t : DaemonState V) (r : Result A RequestError)
      (next : A → Result StepResult RequestError × DaemonState V)
      → t.time ≡ s.time
      → t.project ≡ s.project
      → ((a : A) → r ≡ ok a → Answered s (next a))
      → Answered s (guarded r t next)
  guarded-Answered s t (err e) next a b k =
      (0, ap (λ (x : TimeEngine V.D). x.elapsed_ticks) a ∙ omega arith, ap count b ∙ omega arith)
  guarded-Answered s t (ok x) next a b k = k x refl

  -- Whether a step of an instance is answered, refused or fails on the way, the clock goes on by as many ticks
  -- as the project does, and by as many as the answer says, when the ticks stay within 64 bits.
  pub step_request-Answered :
      (duration : Text) (duration_us : ℕ) (s : DaemonState V)
      → parse_duration_us V.D V.parse_f64 duration ≡ ok duration_us
      → s.time.elapsed_ticks + duration_us / V.tick_duration_us < 2 ^ 64
      → Answered s (step_request duration s)
  unfolding step_request step_ticks
  step_request-Answered duration duration_us s parsed small =
      let idle : DaemonState V = record s { realtime_tick_backlog = 0 } in
      guarded-Answered s s (reject_local_time_control s) _ refl refl (λ _ _.
        guarded-Answered s s (map_err bad_duration (parse_duration_us V.D V.parse_f64 duration)) _
          refl refl
          (λ us got.
            guarded-Answered s idle (map_err bad_time (step_ticks V.D V.tick_duration_us us s.time))
              _ refl refl
              (λ step done.
                let same : us ≡ duration_us = ok_injective (sym got ∙ rw parsed refl) in
                let few : step.advanced_ticks ≤ duration_us / V.tick_duration_us = ground arith in
                after_ticks step s (advance_project_ticks step.advanced_ticks idle) (
                  from_idle step.advanced_ticks s (advance_project_ticks step.advanced_ticks idle) (
                    advance_project_ticks-Counted V count c step.advanced_ticks idle
                      (omega arith))))))
