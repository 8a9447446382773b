-- ===== src/Env/Schedule/Period.antt =====
-- When a job of a schedule is sent, over successive ticks on a bus that takes every frame.
use agent_sim.Base.{
  ℕ, zero, suc, ◌+◌, ◌-◌, ◌%◌, ◌≤◌, max, ◌≡◌, true, Option, some, List, arith, ◌==◌, if◌then◌else◌,
}
use agent_sim.Can.{SimCanFrame}
use agent_sim.Env.Schedule.{CanScheduleJob, is_due, postpone, send_due}

-- A socket that takes every frame.
abbrev pub takes_all : Unit {0} → SimCanFrame → Option (Unit {0})
takes_all _ _ = some tt

-- One tick of a bus with a single job.
abbrev tick_job : ℕ → CanScheduleJob → CanScheduleJob
tick_job current job = if is_due current job then postpone current job else job

-- What `k` ticks from the tick `start` on leave of the jobs of a bus that takes every frame.
unfoldable pub jobs_after : ℕ → ℕ → List CanScheduleJob → List CanScheduleJob
jobs_after start zero jobs = jobs
jobs_after start (suc k) jobs = (send_due takes_all (start + k) tt (jobs_after start k jobs)).jobs

-- The same of a single job.
unfoldable job_after : ℕ → ℕ → CanScheduleJob → CanScheduleJob
job_after start zero job = job
job_after start (suc k) job = tick_job (start + k) (job_after start k job)

abbrev period : CanScheduleJob → ℕ
period job = max job.every_ticks 1

-- The ticks left before the job is due again, `k` ticks after it was due.
abbrev left : ℕ → ℕ → ℕ
left p k = if k % p == 0 then 0 else p - k % p

left-le : (p k : ℕ) → left p k ≤ p
left-le p k = ground arith

-- What `job_after` keeps, and when the job is due.
record Waits (start p k : ℕ) (job after : CanScheduleJob) : Type 0 where
  on : after.enabled ≡ true
  same_frame : after.frame ≡ job.frame
  same_period : period after ≡ p
  due_at : after.next_due_tick ≡ start + k + left p k
