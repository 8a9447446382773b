-- ===== src/Env/Tests/Bench.antt =====
-- A small environment to run the daemon on: one bus that takes every frame, whose socket keeps what was
-- sent, and workers that acknowledge every request and report the id of each signal as its value.
use agent_sim.Base.{
  ℕ, ◌+◌, ◌-◌, ◌^◌, ◌≤◌, ◌≡◌, refl, true, false, Option, none, some, List, [], ◌∷◌, ◌++◌, map,
  arith, length, ℤ, pos, err, Text, codes, utf8, is_whitespace, trim_start, trim, to_digit,
  from_digits, from_str_radix,
}
use agent_sim.Base.Float.Ints.{ints}
use agent_sim.Base.Map.{text_order, nat_order, get, insert}
use agent_sim.Can.{SimCanFrame, validate_frame, parse_data_hex, compact, parse_pairs}
use agent_sim.Sim.Time.{
  running, default_engine, status, step_ticks, advance_ticks, tick_realtime_due,
}
use agent_sim.Sim.Types.{u32_value}
use agent_sim.Env.Duration.{split_unit, ticks_of, parse_duration_us, duration_to_env_ticks}
use agent_sim.Env.World.{
  World, WorkerRequest, read_signals, WorkerSignalValueData, WorkerReply, ack, worker_signal_values,
}
use agent_sim.Env.Schedule.{is_due, postpone, send_due}
use agent_sim.Env.Bus.{EnvCanBusState, record_env_frame, observe_bus, tick_bus}
use agent_sim.Env.State.{
  EnvState, schedule_exists, EnvTraceState, validate_env_frame, parse_env_frame,
  ensure_unique_schedule_job_id, ensure_env_name, observe_env_bus_frames,
}
use agent_sim.Env.Workers.{begin_one, await_one, begin_all, await_acks, ask_all}
use agent_sim.Env.Tracing.{sample_env_trace_after_tick}
use agent_sim.Env.Tick.{advance_single_tick, advance_due_ticks}
use agent_sim.Env.Dispatch.{
  EnvAction, Outcome, schedule_add, time_step, dispatch_action, add_action, step_action,
}
use agent_sim.Env.Invariant.Ticks.{Holds}
use agent_sim.Env.Actor.Reached.{begun, turned, Reached-Holds}
use agent_sim.Env.Clock.{Stepped, step_action-Stepped}
use agent_sim.Env.Actor.{ActionMessage, run_actor_turn, process_env_action_batch, advance_turn}
use agent_sim.Env.Actor.Drain.{idle_turns, idle_turns-drain}

-- Whole numbers only.
abbrev parse_whole : Text → Option ℤ
parse_whole s = elim (from_str_radix 10 (2 ^ 64) s) [ none ↦ none | some n ↦ some (pos n) ]

abbrev reports : List ℕ → List WorkerSignalValueData
reports [] = []
reports (i ∷ is) = record { signal_id = i; signal_value = u32_value i } ∷ reports is

abbrev reply_to : WorkerRequest → WorkerReply
reply_to (read_signals ids) = worker_signal_values (reports ids)
reply_to _ = ack

-- A worker holds the reply to its last request.
abbrev bench : World
bench = record {
  D = ints;
  parse_f64 = parse_whole;
  Socket = List SimCanFrame;
  send = λ sent frame. some (frame ∷ sent);
  recv_all = λ sent. (some [], sent);
  Overlay = Unit;
  load_dbc = λ _. none;
  signal_count = λ _. 0;
  Workers = List (Text × WorkerReply);
  begin_request = λ name request replies. some (insert name (reply_to request) replies);
  await_reply = λ name replies. (get name replies, replies);
  compile_glob = err;
  is_absolute = λ _. true;
  print_float = λ _. [];
  writes = λ _ _. true;
  flushes = λ _ _. true;
  removes = λ _. true;
}

abbrev main_bus : EnvCanBusState bench
main_bus = record {
  bus_name = codes "main";
  vcan_iface = codes "vcan0";
  fd_capable = false;
  bitrate = 500000;
  bitrate_data = 0;
  socket = [];
  dbc = none;
  latest_frames = [];
  schedules = [];
}

abbrev no_trace : EnvTraceState
no_trace = record {
  active = none;
  last_path = none;
  last_row_count = 0;
  last_signal_count = 0;
  last_period_us = none;
}

abbrev fresh_env : EnvState bench
fresh_env = record {
  name = codes "bench";
  tick_duration_us = 1000;
  instances = codes "ecu" ∷ [];
  signal_catalog = record { entries = []; qualified_index = [] };
  instance_workers = [];
  time = default_engine ints;
  realtime_tick_backlog = 0;
  can_buses = (codes "main", main_bus) ∷ [];
  trace = no_trace;
  shutdown = false;
}

abbrev add_beat : EnvAction ℤ
add_beat = schedule_add (codes "main") (some (codes "beat")) 0x700 (codes "05") (codes "2ms") none

abbrev with_beat : EnvState bench
with_beat = (dispatch_action (codes "id-1") (codes "bench") add_beat 0 fresh_env).1

abbrev sent_by : List (Text × EnvCanBusState bench) → List ℕ
sent_by [] = []
sent_by ((name, bus) ∷ buses) = length bus.socket ∷ sent_by buses

-- A job of two ticks is sent at the ticks 0, 2 and 4.
step_runs :
    sent_by (dispatch_action [] (codes "bench") (time_step (codes "5ms")) 0 with_beat).1.can_buses
    ≡ 3 ∷ []
unfolding dispatch_action ensure_env_name add_action duration_to_env_ticks parse_duration_us
    split_unit ticks_of trim trim_start is_whitespace from_str_radix from_digits to_digit
    parse_env_frame parse_data_hex compact parse_pairs validate_env_frame validate_frame
    ensure_unique_schedule_job_id default_engine status step_action step_ticks advance_due_ticks
    advance_single_tick observe_env_bus_frames observe_bus tick_bus send_due is_due postpone
    record_env_frame ask_all begin_all begin_one await_acks await_one sample_env_trace_after_tick
    advance_ticks utf8
step_runs = refl

again_runs :
    (dispatch_action [] (codes "bench") add_beat 0 with_beat).0
    ≡ err (schedule_exists (codes "beat"))
unfolding dispatch_action ensure_env_name add_action duration_to_env_ticks parse_duration_us
    split_unit ticks_of trim trim_start is_whitespace from_str_radix from_digits to_digit
    parse_env_frame parse_data_hex compact parse_pairs validate_env_frame validate_frame
    ensure_unique_schedule_job_id default_engine status utf8
again_runs = refl

-- The clock stands.
abbrev no_time : ℕ → ℕ → ℤ
no_time last now = pos 0

abbrev queue : List (ActionMessage ℤ)
queue = record { env = codes "bench"; action = add_beat; fresh_id = codes "id-1" } ∷ []

abbrev behind_turn : EnvState bench
behind_turn = (run_actor_turn {W = bench} no_time 0 queue fresh_env).state

abbrev jobs_of : List (Text × EnvCanBusState bench) → List Text
jobs_of [] = []
jobs_of ((name, bus) ∷ buses) = map (λ e. e.0) bus.schedules ++ jobs_of buses

turn_runs : jobs_of behind_turn.can_buses ≡ codes "beat" ∷ []
unfolding run_actor_turn process_env_action_batch advance_turn tick_realtime_due dispatch_action
    ensure_env_name add_action duration_to_env_ticks parse_duration_us split_unit ticks_of trim
    trim_start is_whitespace from_str_radix from_digits to_digit parse_env_frame parse_data_hex
    compact parse_pairs validate_env_frame validate_frame ensure_unique_schedule_job_id
    default_engine status step_action step_ticks advance_due_ticks advance_single_tick
    observe_env_bus_frames observe_bus tick_bus send_due is_due postpone record_env_frame ask_all
    begin_all begin_one await_acks await_one sample_env_trace_after_tick advance_ticks utf8
turn_runs = refl

Reached-Holds_example : Holds behind_turn
Reached-Holds_example =
    Reached-Holds {W = bench} no_time behind_turn
      (turned 0 queue fresh_env (begun fresh_env (tt, tt) (refl, tt)))

abbrev answer_to_step : Outcome bench
answer_to_step = step_action (codes "5ms") with_beat

step_action-Stepped_example : Stepped with_beat answer_to_step
unfolding dispatch_action ensure_env_name add_action duration_to_env_ticks parse_duration_us
    split_unit ticks_of trim trim_start is_whitespace from_str_radix from_digits to_digit
    parse_env_frame parse_data_hex compact parse_pairs validate_env_frame validate_frame
    ensure_unique_schedule_job_id default_engine status step_action step_ticks advance_due_ticks
    advance_single_tick observe_env_bus_frames observe_bus tick_bus send_due is_due postpone
    record_env_frame ask_all begin_all begin_one await_acks await_one sample_env_trace_after_tick
    advance_ticks utf8
step_action-Stepped_example =
    step_action-Stepped {W = bench} (codes "5ms") 5000 with_beat refl refl (omega arith)

-- A clock in seconds, and an environment that owes 100 ticks of a second each while its engine runs.
abbrev between : ℕ → ℕ → ℤ
between last now = pos (now - last)

abbrev behind : EnvState bench
behind = record fresh_env {
  tick_duration_us = 1000000;
  realtime_tick_backlog = 100;
  time = record (default_engine ints) { state = running; last_wallclock = some 10 };
}

-- Five ticks come due in two turns.
idle_turns-drain_example :
    ((idle_turns {W = bench} between (13 ∷ 15 ∷ []) behind).time.elapsed_ticks
        + (idle_turns {W = bench} between (13 ∷ 15 ∷ []) behind).realtime_tick_backlog
      ≡ 105)
    × ((idle_turns {W = bench} between (13 ∷ 15 ∷ []) behind).realtime_tick_backlog ≤ 5)
unfolding run_actor_turn process_env_action_batch advance_turn tick_realtime_due default_engine
    advance_due_ticks advance_single_tick observe_env_bus_frames observe_bus tick_bus send_due
    record_env_frame ask_all begin_all begin_one await_acks await_one sample_env_trace_after_tick
    advance_ticks
idle_turns-drain_example =
    idle_turns-drain {W = bench} between (13 ∷ 15 ∷ []) behind (omega arith) refl
