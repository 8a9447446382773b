-- ===== src/Daemon/State.antt =====
-- runtime/src/daemon/server.rs, runtime/src/daemon/server/can_ops.rs and
-- runtime/src/daemon/server/shared_ops.rs: the part of the state of an instance that a tick works on, and
-- what a tick does with CAN buses and shared channels.
use agent_sim.Base.{ℕ, Bool, Option, none, some, List, [], ◌∷◌, Result, ok, ◌>>◌, map_err, Text}
use agent_sim.Base.Map.{text_order, nat_order, get, insert}
use agent_sim.Can.{SimCanFrame, CanError, validate_frame}
use agent_sim.Dbc.Codec.{frame_key_from_frame}
use agent_sim.Sim.Time.{TimeEngine}
use agent_sim.Sim.Validation.{SimCanBusDesc, SimSharedDesc}
use agent_sim.Trace.{CsvTraceWriter, TraceError}
use agent_sim.Daemon.Device.{Device}

pub record AttachedCanBus (V : Device) : Type 0 where
  pub meta : SimCanBusDesc
  pub socket : V.Socket

pub record AttachedSharedChannel (V : Device) : Type 0 where
  pub meta : SimSharedDesc
  pub region : V.Region
  pub writer : Bool

pub record ActiveDaemonTrace : Type 0 where
  pub writer : CsvTraceWriter
  pub signal_ids : List ℕ
  pub period_ticks : ℕ
  pub period_us : ℕ
  pub next_due_tick : ℕ

pub record DaemonTraceState : Type 0 where
  pub active : Option ActiveDaemonTrace
  pub last_path : Option Text
  pub last_row_count : ℕ
  pub last_signal_count : ℕ
  pub last_period_us : Option ℕ

pub record DaemonState (V : Device) : Type 0 where
  pub env : Option Text
  pub project : V.Project
  pub can_attached : List (Text × AttachedCanBus V)
  pub shared_attached : List (Text × AttachedSharedChannel V)
  pub frame_state : List (Text × List (ℕ × SimCanFrame))
  pub trace : DaemonTraceState
  pub time : TimeEngine V.D
  pub realtime_tick_backlog : ℕ
  pub shutdown : Bool

pub data DaemonError : Type 0 where
  socket_failed : Text → DaemonError
  bad_frame : CanError → DaemonError
  rx_failed tx_failed read_failed write_failed snapshot_failed publish_failed :
      Text → Text → DaemonError
  tick_failed values_failed : Text → DaemonError
  trace_failed : TraceError → DaemonError

pub record ReceivedCanFrames : Type 0 where
  pub bus_name : Text
  pub bus_id : ℕ
  pub frames : List SimCanFrame

-- `record_frame`, on the frames by bus.
abbrev pub bus_frames : Option (List (ℕ × SimCanFrame)) → List (ℕ × SimCanFrame)
bus_frames none = []
bus_frames (some frames) = frames

unfoldable pub record_frame :
    Text → SimCanFrame → List (Text × List (ℕ × SimCanFrame)) → List (Text × List (ℕ × SimCanFrame))
record_frame bus_name frame state =
    insert bus_name (insert (frame_key_from_frame frame) frame (bus_frames (get bus_name state)))
      state

abbrev pub record_frames :
    Text
    → List SimCanFrame
    → List (Text × List (ℕ × SimCanFrame))
    → List (Text × List (ℕ × SimCanFrame))
record_frames bus_name [] state = state
record_frames bus_name (f ∷ fs) state = record_frames bus_name fs (record_frame bus_name f state)

abbrev pub record_received :
    List ReceivedCanFrames
    → List (Text × List (ℕ × SimCanFrame))
    → List (Text × List (ℕ × SimCanFrame))
record_received [] state = state
record_received (u ∷ us) state = record_received us (record_frames u.bus_name u.frames state)

abbrev pub check_frames : SimCanBusDesc → List SimCanFrame → Result (Unit {0}) DaemonError
check_frames meta [] = ok tt
check_frames meta (f ∷ fs) = do
  map_err bad_frame (validate_frame meta.bus_name meta.fd_capable f)
  check_frames meta fs
