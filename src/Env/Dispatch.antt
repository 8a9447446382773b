-- ===== src/Env/Dispatch.antt =====
-- runtime/src/envd/server/dispatch.rs: what each request does to an environment.
use agent_sim.Base.{
  ℕ, Bool, true, Option, none, some, List, [], ◌∷◌, ◌++◌, ltb, if◌then◌else◌, length, get_elem?,
  Result, ok, ok_or, map_err, and_then, guarded, Text, text_eq,
}
use agent_sim.Base.Map.{text_order, nat_order, get, insert, remove}
use agent_sim.Can.{SimCanFrame}
use agent_sim.Sim.Time.{
  TimeEngine, TimeStatus, StepResult, status, start, pause, set_speed, step_ticks, default_engine,
}
use agent_sim.Sim.Types.{SignalValue}
use agent_sim.Selectors.{EnvSignalCatalogEntry, resolve_selectors}
use agent_sim.Env.Duration.{parse_duration_us, duration_to_env_ticks}
use agent_sim.Env.World.{World, reset_instance, discard_pending_rx}
use agent_sim.Env.Schedule.{CanScheduleJob, update_schedule, start_schedule, stop_schedule}
use agent_sim.Env.Bus.{EnvCanBusState, values}
use agent_sim.Env.State.{
  EnvState, EnvError, EnvTraceState, bus_not_found, dbc_failed, bad_duration, bad_time,
  bad_selector, parse_env_frame, send_env_frame, reset_env_can_state, locate_schedule,
  ensure_unique_schedule_job_id, ensure_env_name, with_bus,
}
use agent_sim.Env.Workers.{ask_all, read_values}
use agent_sim.Env.Tracing.{start_env_trace, stop_env_trace, clear_env_trace}
use agent_sim.Env.Tick.{current_tick, advance_due_ticks}

-- `EnvAction`, without the name of the environment that each one carries.
pub data EnvAction (F64 : Type 0) : Type 0 where
  get_status reset_env time_start time_pause time_status list_buses : EnvAction F64
  time_speed : Option F64 → EnvAction F64
  time_step : Text → EnvAction F64
  load_dbc_file : Text → Text → EnvAction F64
  can_send : Text → ℕ → Text → Option ℕ → EnvAction F64
  can_inspect : Text → EnvAction F64
  schedule_add : Text → Option Text → ℕ → Text → Text → Option ℕ → EnvAction F64
  schedule_update : Text → ℕ → Text → Text → Option ℕ → EnvAction F64
  schedule_remove schedule_stop schedule_start : Text → EnvAction F64
  schedule_list : Option Text → EnvAction F64
  trace_start : Text → Text → EnvAction F64
  trace_stop trace_clear trace_status close_env : EnvAction F64
  list_signals get_signals : List Text → EnvAction F64

-- The answers of `ResponseData`.
pub data EnvAnswer (W : World) : Type 0 where
  ack : EnvAnswer W
  env_status : ℕ → ℕ → EnvAnswer W
  env_time : TimeStatus W.D → EnvAnswer W
  env_speed : W.D.F64 → EnvAnswer W
  advanced : StepResult → EnvAnswer W
  buses : List (Text × EnvCanBusState W) → EnvAnswer W
  dbc_loaded : Text → ℕ → EnvAnswer W
  sent : Text → ℕ → ℕ → EnvAnswer W
  frames : Text → List SimCanFrame → EnvAnswer W
  schedules : List (Text × CanScheduleJob) → EnvAnswer W
  trace : EnvTraceState → EnvAnswer W
  signals : List EnvSignalCatalogEntry → EnvAnswer W
  signal_values : List (EnvSignalCatalogEntry × SignalValue) → EnvAnswer W

abbrev pub unwrap_or {ℓ} : {A : Type ℓ} → A → Option A → A
unwrap_or a none = a
unwrap_or a (some b) = b

-- The stable sort by the id.
abbrev pub insert_frame : SimCanFrame → List SimCanFrame → List SimCanFrame
insert_frame f [] = f ∷ []
insert_frame f (g ∷ gs) =
    let rest = insert_frame f gs in if ltb f.arb_id g.arb_id then f ∷ g ∷ gs else g ∷ rest

abbrev pub sort_frames : List SimCanFrame → List SimCanFrame → List SimCanFrame
sort_frames sorted [] = sorted
sort_frames sorted (f ∷ fs) = sort_frames (insert_frame f sorted) fs

abbrev with_name : Text → List CanScheduleJob → List (Text × CanScheduleJob)
with_name name [] = []
with_name name (j ∷ js) = (name, j) ∷ with_name name js

abbrev is_requested : Option Text → Text → Bool
is_requested none name = true
is_requested (some requested) name = text_eq requested name

-- `state.signal_catalog.entries()[index]`, whose indices are places of the catalog.
abbrev pub entries_at : List EnvSignalCatalogEntry → List ℕ → List EnvSignalCatalogEntry
entries_at entries [] = []
entries_at entries (i ∷ is) =
    let rest = entries_at entries is in
    elim (get_elem? entries i) [ none ↦ rest | some e ↦ e ∷ rest ]

abbrev pub reads_of : List EnvSignalCatalogEntry → List (Text × ℕ)
reads_of [] = []
reads_of (e ∷ es) = (e.instance_name, e.local_id) ∷ reads_of es

abbrev pub zip_values :
    List EnvSignalCatalogEntry → List SignalValue → List (EnvSignalCatalogEntry × SignalValue)
zip_values [] vs = []
zip_values (e ∷ es) [] = []
zip_values (e ∷ es) (v ∷ vs) = (e, v) ∷ zip_values es vs

abbrev pub new_job : Text → ℕ → Text → SimCanFrame → ℕ → ℕ → CanScheduleJob
new_job job_id arb_id data_hex frame every_ticks next_due_tick = record {
  job_id = job_id;
  arb_id = arb_id;
  flags = frame.flags;
  data_hex = data_hex;
  frame = frame;
  every_ticks = every_ticks;
  next_due_tick = next_due_tick;
  enabled = true;
}

-- What a request answers, and the state behind it.
abbrev pub Outcome : World → Type 0
Outcome W = Result (EnvAnswer W) EnvError × EnvState W

module _ {W : World} where
  unfoldable pub env_time_status : EnvState W → EnvAnswer W
  env_time_status state = env_time (status W.D state.time state.tick_duration_us)

  abbrev list_schedules :
      Option Text → List (Text × EnvCanBusState W) → List (Text × CanScheduleJob)
  list_schedules requested [] = []
  list_schedules requested ((name, bus) ∷ rest) =
      (if is_requested requested name then with_name name (values bus.schedules) else [])
      ++ list_schedules requested rest

  -- The time engine after a request; the ticks that were owed are dropped.
  abbrev pub set_time : EnvState W → TimeEngine W.D → EnvState W
  set_time state time = record state { time = time; realtime_tick_backlog = 0 }

  abbrev pub change_time : EnvState W → Result (TimeEngine W.D) EnvError → Outcome W
  change_time state changed =
      guarded changed state
        (λ time. (ok (env_time_status (set_time state time)), set_time state time))

  unfoldable pub reset_action : EnvState W → Outcome W
  reset_action state = and_then (ask_all reset_instance state) (λ _ asked.
      and_then (ask_all discard_pending_rx asked)
        (λ _ next. (ok ack, set_time (reset_env_can_state next) (default_engine W.D))))

  unfoldable pub speed_action : Option W.D.F64 → EnvState W → Outcome W
  speed_action none state = (ok (env_speed state.time.speed), state)
  speed_action (some multiplier) state =
      guarded (map_err bad_time (set_speed W.D multiplier state.time)) state
        (λ time. (ok (env_speed time.speed), record state { time = time }))

  -- The backlog is dropped before the step is refused or done.
  unfoldable pub step_action : Text → EnvState W → Outcome W
  step_action duration state =
      guarded (map_err bad_duration (parse_duration_us W.D W.parse_f64 duration)) state
        (λ duration_us.
          let idle : EnvState W = record state { realtime_tick_backlog = 0 } in
          guarded (map_err bad_time (step_ticks W.D state.tick_duration_us duration_us state.time))
            idle
            (λ step.
              and_then (advance_due_ticks step.advanced_ticks idle)
                (λ _ next. (ok (advanced step), next))))

  unfoldable pub load_dbc_action : Text → Text → EnvState W → Outcome W
  load_dbc_action bus_name path state =
      guarded (ok_or (get bus_name state.can_buses) (bus_not_found bus_name)) state (λ bus.
        guarded (ok_or (W.load_dbc path) (dbc_failed path)) state (λ overlay. (
          ok (dbc_loaded bus_name (W.signal_count overlay)),
          with_bus bus_name (record bus { dbc = some overlay }) state,
        )))

  unfoldable pub send_action : Text → ℕ → Text → Option ℕ → EnvState W → Outcome W
  send_action bus_name arb_id data_hex flags state =
      guarded (parse_env_frame state bus_name arb_id data_hex (unwrap_or 0 flags)) state (λ frame.
        guarded (send_env_frame state bus_name frame) state
          (λ next. (ok (sent bus_name arb_id frame.len), next)))

  unfoldable pub inspect_action : Text → EnvState W → Outcome W
  inspect_action bus_name state =
      guarded (ok_or (get bus_name state.can_buses) (bus_not_found bus_name)) state
        (λ bus. (ok (frames bus_name (sort_frames [] (values bus.latest_frames))), state))

  abbrev pub with_schedules : EnvCanBusState W → List (Text × CanScheduleJob) → EnvCanBusState W
  with_schedules bus jobs = record bus { schedules = jobs }

  -- `fresh` is the id that a job without one is given.
  unfoldable pub add_action :
      Text → Text → Option Text → ℕ → Text → Text → Option ℕ → EnvState W → Outcome W
  add_action fresh bus_name job_id arb_id data_hex every flags state =
      let id = unwrap_or fresh job_id in
      guarded
        (map_err bad_duration (duration_to_env_ticks W.D W.parse_f64 state.tick_duration_us every))
        state
        (λ every_ticks.
          guarded (parse_env_frame state bus_name arb_id data_hex (unwrap_or 0 flags)) state
            (λ frame. guarded (ensure_unique_schedule_job_id state id) state (λ _.
              guarded (ok_or (get bus_name state.can_buses) (bus_not_found bus_name)) state (λ bus.
                let job = new_job id arb_id data_hex frame every_ticks (current_tick state) in
                (
                  ok ack,
                  with_bus bus_name (with_schedules bus (insert id job bus.schedules)) state,
                )))))

  -- A change of the job of that name, wherever it stands.
  abbrev pub put_job : EnvState W → Text → Text → EnvCanBusState W → CanScheduleJob → EnvState W
  put_job state job_id bus_name bus job =
      with_bus bus_name (with_schedules bus (insert job_id job bus.schedules)) state

  unfoldable pub update_action : Text → ℕ → Text → Text → Option ℕ → EnvState W → Outcome W
  update_action job_id arb_id data_hex every flags state =
      guarded
        (map_err bad_duration (duration_to_env_ticks W.D W.parse_f64 state.tick_duration_us every))
        state
        (λ every_ticks. guarded (locate_schedule state job_id) state (λ found.
          guarded (parse_env_frame state found.place arb_id data_hex (unwrap_or 0 flags)) state
            (λ frame. (
              ok ack,
              put_job state job_id found.place found.bus (
                  update_schedule arb_id data_hex frame every_ticks (current_tick state) found.job),
            ))))

  unfoldable pub remove_action : Text → EnvState W → Outcome W
  remove_action job_id state = guarded (locate_schedule state job_id) state (λ found. (
    ok ack,
    with_bus found.place (with_schedules found.bus (remove job_id found.bus.schedules)) state,
  ))

  unfoldable pub switch_action : (CanScheduleJob → CanScheduleJob) → Text → EnvState W → Outcome W
  switch_action change job_id state =
      guarded (locate_schedule state job_id) state
        (λ found. (ok ack, put_job state job_id found.place found.bus (change found.job)))

  unfoldable pub get_action : List Text → EnvState W → Outcome W
  get_action selectors state =
      guarded
        (map_err bad_selector (resolve_selectors W.compile_glob state.signal_catalog selectors))
        state
        (λ indices.
          let es = entries_at state.signal_catalog.entries indices in
          and_then (read_values (reads_of es) state)
            (λ vs next. (ok (signal_values (zip_values es vs)), next)))

  abbrev pub perform : Text → EnvAction W.D.F64 → ℕ → EnvState W → Outcome W
  perform fresh get_status now state =
      (ok (env_status (length state.instances) state.tick_duration_us), state)
  perform fresh reset_env now state = reset_action state
  perform fresh time_start now state =
      change_time state (map_err bad_time (start W.D now state.time))
  perform fresh time_pause now state = change_time state (map_err bad_time (pause W.D state.time))
  perform fresh (time_speed multiplier) now state = speed_action multiplier state
  perform fresh time_status now state = (ok (env_time_status state), state)
  perform fresh (time_step duration) now state = step_action duration state
  perform fresh list_buses now state = (ok (buses state.can_buses), state)
  perform fresh (load_dbc_file bus_name path) now state = load_dbc_action bus_name path state
  perform fresh (can_send bus_name arb_id data_hex flags) now state =
      send_action bus_name arb_id data_hex flags state
  perform fresh (can_inspect bus_name) now state = inspect_action bus_name state
  perform fresh (schedule_add bus_name job_id arb_id data_hex every flags) now state =
      add_action fresh bus_name job_id arb_id data_hex every flags state
  perform fresh (schedule_update job_id arb_id data_hex every flags) now state =
      update_action job_id arb_id data_hex every flags state
  perform fresh (schedule_remove job_id) now state = remove_action job_id state
  perform fresh (schedule_stop job_id) now state = switch_action stop_schedule job_id state
  perform fresh (schedule_start job_id) now state = switch_action start_schedule job_id state
  perform fresh (schedule_list bus_name) now state =
      (ok (schedules (list_schedules bus_name state.can_buses)), state)
  perform fresh (trace_start path period) now state =
      and_then (start_env_trace path period state) (λ _ next. (ok (trace next.trace), next))
  perform fresh trace_stop now state =
      and_then (stop_env_trace state) (λ _ next. (ok (trace next.trace), next))
  perform fresh trace_clear now state =
      and_then (clear_env_trace state) (λ _ next. (ok (trace next.trace), next))
  perform fresh trace_status now state = (ok (trace state.trace), state)
  perform fresh (list_signals selectors) now state =
      guarded
        (map_err bad_selector (resolve_selectors W.compile_glob state.signal_catalog selectors))
        state (λ indices. (ok (signals (entries_at state.signal_catalog.entries indices)), state))
  perform fresh (get_signals selectors) now state = get_action selectors state
  perform fresh close_env now state = (ok ack, record state { shutdown = true })

  unfoldable pub dispatch_action : Text → Text → EnvAction W.D.F64 → ℕ → EnvState W → Outcome W
  dispatch_action fresh env action now state =
      guarded (ensure_env_name state env) state (λ _. perform fresh action now state)
