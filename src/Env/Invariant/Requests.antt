-- ===== src/Env/Invariant/Requests.antt =====
-- Every request keeps the invariant of the buses, whether it succeeds or fails.
use agent_sim.Base.{
  ℕ, ◌<◌, ◌≡◌, refl, false, Option, none, some, List, arith, Result, ok, ok_or, map_err,
  and_then-keeps, guarded-keeps, Text,
}
use agent_sim.Base.Map.{text_order, get}
use agent_sim.Sim.Time.{TimeEngine, set_speed, step_ticks}
use agent_sim.Selectors.{resolve_selectors}
use agent_sim.Env.Duration.{parse_duration_us, duration_to_env_ticks, duration_to_env_ticks-covers}
use agent_sim.Env.World.{World, reset_instance, discard_pending_rx}
use agent_sim.Env.Schedule.{CanScheduleJob, update_schedule, start_schedule, stop_schedule}
use agent_sim.Env.State.{
  EnvState, EnvError, dbc_failed, bus_not_found, schedule_not_found, bad_duration, bad_time,
  bad_selector, parse_env_frame, send_env_frame, locate_schedule, find_schedule, any_schedule,
  ensure_unique_schedule_job_id, ensure_env_name,
}
use agent_sim.Env.Workers.{ask_all, read_values}
use agent_sim.Env.Tracing.{start_env_trace, stop_env_trace, clear_env_trace}
use agent_sim.Env.Tick.{current_tick, advance_due_ticks}
use agent_sim.Env.Aside.{Aside-refl, ask_all-Aside, read_values-Aside}
use agent_sim.Env.Aside.Traced.{start_env_trace-Aside, stop_env_trace-Aside, clear_env_trace-Aside}
use agent_sim.Env.Dispatch.{
  EnvAction, get_status, reset_env, time_start, time_pause, time_status, list_buses, time_speed,
  time_step, load_dbc_file, can_send, can_inspect, schedule_add, schedule_update, schedule_remove,
  schedule_stop, schedule_start, schedule_list, trace_start, trace_stop, trace_clear, trace_status,
  close_env, list_signals, get_signals, perform, dispatch_action, change_time, reset_action,
  speed_action, step_action, load_dbc_action, send_action, inspect_action, new_job, add_action,
  update_action, remove_action, switch_action, get_action, entries_at, reads_of, unwrap_or,
}
use agent_sim.Env.Invariant.Ticks.{
  Same, IsJob-Same, Holds, Holds-Aside, reset_env_can_state-Holds, advance_due_ticks-Holds,
}
use agent_sim.Env.Invariant.Jobs.{
  ok_or-eq_ok, map_err-eq_ok, with_bus-Holds, send_env_frame-Holds, find_schedule-Found,
  put_job-Holds, remove-Holds, parse_env_frame-valid, add-Holds,
}

-- A schedule has a period.
ticks-positive :
    (W : World) (tick ticks : ℕ) (every : Text)
    → map_err bad_duration (duration_to_env_ticks W.D W.parse_f64 tick every) ≡ ok ticks
    → 0 < ticks
ticks-positive W tick ticks every e =
    (duration_to_env_ticks-covers W.D W.parse_f64 tick ticks every
      (map_err-eq_ok bad_duration (duration_to_env_ticks W.D W.parse_f64 tick every) e)).2

stop-Same : (job : CanScheduleJob) → Same job (stop_schedule job)
unfolding stop_schedule
stop-Same job = (refl, refl, refl)

start-Same : (job : CanScheduleJob) → Same job (start_schedule job)
unfolding start_schedule
start-Same job = (refl, refl, refl)

module _ {W : World} where
  change_time-Holds :
      (state : EnvState W) (changed : Result (TimeEngine W.D) EnvError)
      → Holds state
      → Holds (change_time state changed).1
  change_time-Holds state changed h = guarded-keeps Holds changed state _ h (λ time _. h)

  reset_action-Holds : (state : EnvState W) → Holds state → Holds (reset_action state).1
  unfolding reset_action
  reset_action-Holds state h =
      and_then-keeps Holds (ask_all reset_instance state) _
        (Holds-Aside state _ (ask_all-Aside state reset_instance state (Aside-refl state)) h)
        (λ _ asked k.
          and_then-keeps Holds (ask_all discard_pending_rx asked) _
            (Holds-Aside asked _ (ask_all-Aside asked discard_pending_rx asked (Aside-refl asked))
              k)
            (λ _ next l. reset_env_can_state-Holds next l))

  speed_action-Holds :
      (multiplier : Option W.D.F64) (state : EnvState W)
      → Holds state
      → Holds (speed_action multiplier state).1
  unfolding speed_action
  speed_action-Holds none state h = h
  speed_action-Holds (some m) state h =
      guarded-keeps Holds (map_err bad_time (set_speed W.D m state.time)) state _ h (λ time _. h)

  step_action-Holds :
      (duration : Text) (state : EnvState W) → Holds state → Holds (step_action duration state).1
  unfolding step_action
  step_action-Holds duration state h =
      guarded-keeps Holds (map_err bad_duration (parse_duration_us W.D W.parse_f64 duration)) state
        _ h
        (λ duration_us _.
          let idle : EnvState W = record state { realtime_tick_backlog = 0 } in
          guarded-keeps Holds
            (map_err bad_time (step_ticks W.D state.tick_duration_us duration_us state.time)) idle _
            h
            (λ step _.
              and_then-keeps Holds (advance_due_ticks step.advanced_ticks idle) _
                (advance_due_ticks-Holds step.advanced_ticks idle h) (λ _ next k. k)))

  load_dbc_action-Holds :
      (bus_name path : Text) (state : EnvState W)
      → Holds state
      → Holds (load_dbc_action bus_name path state).1
  unfolding load_dbc_action
  load_dbc_action-Holds bus_name path state h =
      guarded-keeps Holds (ok_or (get bus_name state.can_buses) (bus_not_found bus_name)) state _ h
        (λ bus found.
          guarded-keeps Holds (ok_or (W.load_dbc path) (dbc_failed path)) state _ h (λ overlay _.
            with_bus-Holds state bus_name bus (record bus { dbc = some overlay })
              (ok_or-eq_ok (get bus_name state.can_buses) (bus_not_found bus_name) found)
              (record { ids = λ _ p. p; jobs = λ p. p }) h))

  send_action-Holds :
      (bus_name : Text) (arb_id : ℕ) (data_hex : Text) (flags : Option ℕ) (state : EnvState W)
      → Holds state
      → Holds (send_action bus_name arb_id data_hex flags state).1
  unfolding send_action
  send_action-Holds bus_name arb_id data_hex flags state h =
      guarded-keeps Holds (parse_env_frame state bus_name arb_id data_hex (unwrap_or 0 flags)) state
        _ h
        (λ frame _.
          guarded-keeps Holds (send_env_frame state bus_name frame) state _ h
            (λ next sent. send_env_frame-Holds state bus_name frame next sent h))

  inspect_action-Holds :
      (bus_name : Text) (state : EnvState W) → Holds state → Holds (inspect_action bus_name state).1
  unfolding inspect_action
  inspect_action-Holds bus_name state h =
      guarded-keeps Holds (ok_or (get bus_name state.can_buses) (bus_not_found bus_name)) state _ h
        (λ bus _. h)

  add_action-Holds :
      (fresh bus_name : Text) (job_id : Option Text) (arb_id : ℕ) (data_hex every : Text)
      (flags : Option ℕ) (state : EnvState W)
      → Holds state
      → Holds (add_action fresh bus_name job_id arb_id data_hex every flags state).1
  unfolding add_action ensure_unique_schedule_job_id
  add_action-Holds fresh bus_name job_id arb_id data_hex every flags state h =
      let id = unwrap_or fresh job_id in
      guarded-keeps Holds
        (map_err bad_duration (duration_to_env_ticks W.D W.parse_f64 state.tick_duration_us every))
        state _ h
        (λ ticks period.
          guarded-keeps Holds (parse_env_frame state bus_name arb_id data_hex (unwrap_or 0 flags))
            state _ h
            (λ frame parsed.
              guarded-keeps Holds (ensure_unique_schedule_job_id state id) state _ h (λ _ unique.
                guarded-keeps Holds (ok_or (get bus_name state.can_buses) (bus_not_found bus_name))
                  state _ h
                  (λ bus found.
                    let at =
                      ok_or-eq_ok (get bus_name state.can_buses) (bus_not_found bus_name) found in
                    let new : any_schedule id state.can_buses ≡ false = ground arith in
                    add-Holds state id bus_name bus
                      (new_job id arb_id data_hex frame ticks (current_tick state)) at new
                      (
                        refl,
                        parse_env_frame-valid state bus_name arb_id data_hex (unwrap_or 0 flags)
                            frame bus parsed at,
                        ticks-positive W state.tick_duration_us ticks every period,
                      )
                      h))))

  update_action-Holds :
      (job_id : Text) (arb_id : ℕ) (data_hex every : Text) (flags : Option ℕ) (state : EnvState W)
      → Holds state
      → Holds (update_action job_id arb_id data_hex every flags state).1
  unfolding update_action update_schedule
  update_action-Holds job_id arb_id data_hex every flags state h =
      guarded-keeps Holds
        (map_err bad_duration (duration_to_env_ticks W.D W.parse_f64 state.tick_duration_us every))
        state _ h
        (λ ticks period. guarded-keeps Holds (locate_schedule state job_id) state _ h (λ l found.
          guarded-keeps Holds (parse_env_frame state l.place arb_id data_hex (unwrap_or 0 flags))
            state _ h
            (λ frame parsed.
              let f = find_schedule-Found job_id state.can_buses l h.sorted (
                ok_or-eq_ok (find_schedule job_id state.can_buses) (schedule_not_found job_id)
                  found) in
              put_job-Holds state job_id l
                (update_schedule arb_id data_hex frame ticks (current_tick state) l.job) found
                (λ old. (
                  old.0,
                  parse_env_frame-valid state l.place arb_id data_hex (unwrap_or 0 flags) frame
                      l.bus parsed f.on_bus,
                  ticks-positive W state.tick_duration_us ticks every period,
                ))
                h)))

  remove_action-Holds :
      (job_id : Text) (state : EnvState W) → Holds state → Holds (remove_action job_id state).1
  unfolding remove_action
  remove_action-Holds job_id state h =
      guarded-keeps Holds (locate_schedule state job_id) state _ h
        (λ l found. remove-Holds state job_id l found h)

  switch_action-Holds :
      (change : CanScheduleJob → CanScheduleJob)
      → ((job : CanScheduleJob) → Same job (change job))
      → (job_id : Text) (state : EnvState W) → Holds state
      → Holds (switch_action change job_id state).1
  unfolding switch_action
  switch_action-Holds change same job_id state h =
      guarded-keeps Holds (locate_schedule state job_id) state _ h (λ l found.
        put_job-Holds state job_id l (change l.job) found
          (IsJob-Same l.bus.bus_name l.bus.fd_capable job_id l.job (change l.job) (same l.job)) h)

  get_action-Holds :
      (selectors : List Text) (state : EnvState W)
      → Holds state
      → Holds (get_action selectors state).1
  unfolding get_action
  get_action-Holds selectors state h =
      guarded-keeps Holds
        (map_err bad_selector (resolve_selectors W.compile_glob state.signal_catalog selectors))
        state _ h
        (λ indices _.
          let reads = reads_of (entries_at state.signal_catalog.entries indices) in
          and_then-keeps Holds (read_values reads state) _
            (Holds-Aside state _ (read_values-Aside state reads state (Aside-refl state)) h)
            (λ vs next k. k))

  perform-Holds :
      (fresh : Text) (action : EnvAction W.D.F64) (now : ℕ) (state : EnvState W)
      → Holds state
      → Holds (perform fresh action now state).1
  perform-Holds fresh get_status now state h = h
  perform-Holds fresh reset_env now state h = reset_action-Holds state h
  perform-Holds fresh time_start now state h = change_time-Holds state _ h
  perform-Holds fresh time_pause now state h = change_time-Holds state _ h
  perform-Holds fresh (time_speed multiplier) now state h = speed_action-Holds multiplier state h
  perform-Holds fresh time_status now state h = h
  perform-Holds fresh (time_step duration) now state h = step_action-Holds duration state h
  perform-Holds fresh list_buses now state h = h
  perform-Holds fresh (load_dbc_file bus_name path) now state h =
      load_dbc_action-Holds bus_name path state h
  perform-Holds fresh (can_send bus_name arb_id data_hex flags) now state h =
      send_action-Holds bus_name arb_id data_hex flags state h
  perform-Holds fresh (can_inspect bus_name) now state h = inspect_action-Holds bus_name state h
  perform-Holds fresh (schedule_add bus_name job_id arb_id data_hex every flags) now state h =
      add_action-Holds fresh bus_name job_id arb_id data_hex every flags state h
  perform-Holds fresh (schedule_update job_id arb_id data_hex every flags) now state h =
      update_action-Holds job_id arb_id data_hex every flags state h
  perform-Holds fresh (schedule_remove job_id) now state h = remove_action-Holds job_id state h
  perform-Holds fresh (schedule_stop job_id) now state h =
      switch_action-Holds stop_schedule stop-Same job_id state h
  perform-Holds fresh (schedule_start job_id) now state h =
      switch_action-Holds start_schedule start-Same job_id state h
  perform-Holds fresh (schedule_list bus_name) now state h = h
  perform-Holds fresh (trace_start path period) now state h =
      and_then-keeps Holds (start_env_trace path period state) _
        (Holds-Aside state _ (start_env_trace-Aside state path period state (Aside-refl state)) h)
        (λ _ next k. k)
  perform-Holds fresh trace_stop now state h =
      and_then-keeps Holds (stop_env_trace state) _
        (Holds-Aside state _ (stop_env_trace-Aside state state (Aside-refl state)) h)
        (λ _ next k. k)
  perform-Holds fresh trace_clear now state h =
      and_then-keeps Holds (clear_env_trace state) _
        (Holds-Aside state _ (clear_env_trace-Aside state state (Aside-refl state)) h)
        (λ _ next k. k)
  perform-Holds fresh trace_status now state h = h
  perform-Holds fresh (list_signals selectors) now state h =
      guarded-keeps Holds
        (map_err bad_selector (resolve_selectors W.compile_glob state.signal_catalog selectors))
        state _ h (λ indices _. h)
  perform-Holds fresh (get_signals selectors) now state h = get_action-Holds selectors state h
  perform-Holds fresh close_env now state h = h

  -- Whatever the request is and whether it succeeds or fails, if the jobs of an environment can be sent on
  -- their buses, have periods, and no two buses have jobs of one name, then it is so behind the request.
  pub dispatch_action-Holds :
      (fresh env : Text) (action : EnvAction W.D.F64) (now : ℕ) (state : EnvState W)
      → Holds state
      → Holds (dispatch_action fresh env action now state).1
  unfolding dispatch_action
  dispatch_action-Holds fresh env action now state h =
      guarded-keeps Holds (ensure_env_name state env) state _ h
        (λ _ _. perform-Holds fresh action now state h)
