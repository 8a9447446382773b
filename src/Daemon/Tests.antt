-- ===== src/Daemon/Tests.antt =====
-- An instance with one bus, whose project counts its ticks, sends a frame at each of them and fails to at
-- the third.
use agent_sim.Base.{
  ℕ, suc, ◌^◌, ◌≡◌, refl, sym, ap, true, false, Option, none, some, List, [], ◌∷◌, arith, ◌==◌,
  if◌then◌else◌, replicate, ℤ, pos, Result, ok, err, Text, codes, is_whitespace, trim_start, trim,
  to_digit, from_digits, from_str_radix,
}
use agent_sim.Base.Float.Ints.{ints}
use agent_sim.Base.Map.{text_order, nat_order}
use agent_sim.Can.{SimCanFrame, validate_frame}
use agent_sim.Sim.Time.{default_engine, status, advance_ticks}
use agent_sim.Sim.Validation.{SimCanBusDesc}
use agent_sim.Daemon.Device.{Device, IsTickCount}
use agent_sim.Daemon.State.{DaemonState, DaemonTraceState, DaemonError, tx_failed, record_frame}
use agent_sim.Daemon.Buses.{
  recv_can_frames, deliver_updates, deliver_can_frames, process_can_rx, send_frames, transmit,
  process_can_tx,
}
use agent_sim.Daemon.Channels.{read_channels, process_shared_rx, write_channels, process_shared_tx}
use agent_sim.Daemon.Tick.{
  sample_instance_trace_after_tick, tick_project, advance_single_project_tick,
  advance_project_ticks,
}
use agent_sim.Env.Duration.{parse_duration_us, split_unit}
use agent_sim.Daemon.Requests.{worker_step, step_request}
use agent_sim.Daemon.Requests.Steps.{Answered, step_request-Answered}
use agent_sim.Daemon.Clock.{Counted, advance_project_ticks-Counted}

abbrev beat : SimCanFrame
beat = record { arb_id = 0x123; len = 1; flags = 0; bytes = 7 ∷ replicate 63 0 }

abbrev third : ℕ
third = 3

-- Whole numbers only.
abbrev parse_whole : Text → Option ℤ
parse_whole s = elim (from_str_radix 10 (2 ^ 64) s) [ none ↦ none | some n ↦ some (pos n) ]

abbrev counter : Device
counter = record {
  D = ints;
  parse_f64 = parse_whole;
  Project = ℕ;
  reset = λ p. (ok tt, p);
  tick_duration_us = 1000;
  tick = λ p. (ok tt, suc p);
  can_rx = λ _ _ p. (ok tt, p);
  can_tx = λ _ p. (if p == third then err (codes "full") else ok (beat ∷ []), p);
  shared_read = λ _ _ p. (ok tt, p);
  shared_write = λ _ p. (ok [], p);
  read_many = λ _ p. (ok [], p);
  Socket = List SimCanFrame;
  send = λ sent frame. some (frame ∷ sent);
  recv_all = λ sent. (some [], sent);
  Region = Unit;
  read_snapshot = λ _. ok [];
  publish = λ _ r. (ok tt, r);
  print_float = λ _. [];
  writes = λ _ _. true;
}

abbrev ticks_done : ℕ → ℕ
ticks_done p = p

counter-IsTickCount : IsTickCount counter ticks_done
counter-IsTickCount = record {
  tick_ok = λ p q e. sym (ap (λ x. x.1) e);
  tick_err = λ p q e same. absurd (let k = ap (λ x. x.0) same in cc);
  rx = λ _ _ _. refl;
  tx = λ _ _. refl;
  read = λ _ _ _. refl;
  write = λ _ _. refl;
  reads = λ _ _. refl;
}

abbrev no_trace : DaemonTraceState
no_trace = record {
  active = none;
  last_path = none;
  last_row_count = 0;
  last_signal_count = 0;
  last_period_us = none;
}

abbrev main_bus : SimCanBusDesc
main_bus = record {
  bus_id = 1;
  bus_name = codes "main";
  bitrate = 500000;
  bitrate_data = 0;
  fd_capable = false;
}

abbrev fresh : DaemonState counter
fresh = record {
  env = none;
  project = 0;
  can_attached = (codes "main", record { meta = main_bus; socket = [] }) ∷ [];
  shared_attached = [];
  frame_state = [];
  trace = no_trace;
  time = default_engine ints;
  realtime_tick_backlog = 0;
  shutdown = false;
}

abbrev no_error : Result (Unit {0}) DaemonError
no_error = ok tt

two_run : (advance_project_ticks 2 fresh).0 ≡ no_error
unfolding advance_project_ticks advance_single_project_tick process_can_rx recv_can_frames
    deliver_can_frames deliver_updates process_shared_rx read_channels tick_project
    sample_instance_trace_after_tick process_can_tx transmit send_frames validate_frame
    process_shared_tx write_channels record_frame status advance_ticks default_engine
two_run = refl

-- The third tick fails, but the project has done it.
third_counts :
    ((advance_project_ticks 5 fresh).0 ≡ err (tx_failed (codes "main") (codes "full")))
    × ((advance_project_ticks 5 fresh).1.time.elapsed_ticks ≡ third)
unfolding advance_project_ticks advance_single_project_tick process_can_rx recv_can_frames
    deliver_can_frames deliver_updates process_shared_rx read_channels tick_project
    sample_instance_trace_after_tick process_can_tx transmit send_frames validate_frame
    process_shared_tx write_channels record_frame status advance_ticks default_engine
third_counts = (refl, refl)

advance_project_ticks-Counted_example :
    Counted counter ticks_done counter-IsTickCount 5 fresh (advance_project_ticks 5 fresh)
unfolding default_engine
advance_project_ticks-Counted_example =
    advance_project_ticks-Counted counter ticks_done counter-IsTickCount 5 fresh (omega arith)

abbrev behind_two : DaemonState counter
behind_two = (advance_project_ticks 2 fresh).1

-- The same tick, stepped by an environment, leaves the clock behind the project.
worker_step_lags :
    ((worker_step behind_two).1.time.elapsed_ticks ≡ 2)
    × ((worker_step behind_two).1.project ≡ third)
unfolding worker_step advance_project_ticks advance_single_project_tick process_can_rx
    recv_can_frames deliver_can_frames deliver_updates process_shared_rx read_channels tick_project
    sample_instance_trace_after_tick process_can_tx transmit send_frames validate_frame
    process_shared_tx write_channels record_frame status advance_ticks default_engine
worker_step_lags = (refl, refl)

step_request-Answered_example :
    Answered counter ticks_done counter-IsTickCount fresh (step_request (codes "5ms") fresh)
unfolding default_engine parse_duration_us split_unit trim trim_start is_whitespace from_str_radix
    from_digits to_digit
step_request-Answered_example =
    step_request-Answered counter ticks_done counter-IsTickCount (codes "5ms") 5000 fresh refl
      (omega arith)
