-- ===== src/Env/World.antt =====
-- What the environment daemon of runtime/src/envd calls outside of itself, as one interface: doubles,
-- CAN sockets, the files of DBC descriptions and of traces, and the workers of the instances. A
-- worker takes a request and gives the reply later.
use agent_sim.Base.{ℕ, Bool, Option, List, Result, Text}
use agent_sim.Base.Float.{Floats}
use agent_sim.Can.{SimCanFrame}
use agent_sim.Sim.Types.{SignalValue}

-- `InstanceAction::Reset` and the `WorkerAction`s that the daemon sends.
pub data WorkerRequest : Type 0 where
  reset_instance discard_pending_rx step_instance : WorkerRequest
  read_signals : List ℕ → WorkerRequest

-- `WorkerSignalValueData`.
pub record WorkerSignalValueData : Type 0 where
  pub signal_id : ℕ
  pub signal_value : SignalValue

pub data WorkerReply : Type 0 where
  ack : WorkerReply
  worker_signal_values : List WorkerSignalValueData → WorkerReply
  other_reply : WorkerReply

pub record World : Type 1 where
  pub D : Floats
  pub parse_f64 : Text → Option D.F64
  pub Socket : Type 0
  pub send : Socket → SimCanFrame → Option Socket
  pub recv_all : Socket → Option (List SimCanFrame) × Socket
  pub Overlay : Type 0
  pub load_dbc : Text → Option Overlay
  pub signal_count : Overlay → ℕ
  pub Workers : Type 0
  -- No worker of that instance, or its channel is closed.
  pub begin_request : Text → WorkerRequest → Workers → Option Workers
  pub await_reply : Text → Workers → Option WorkerReply × Workers
  pub compile_glob : Text → Result (Text → Bool) Text
  pub is_absolute : Text → Bool
  pub print_float : SignalValue → Text
  -- Whether the buffered file at a path takes a text, whether its flush then succeeds, and whether a file
  -- that is there can be removed.
  pub writes : Text → Text → Bool
  pub flushes : Text → Text → Bool
  pub removes : Text → Bool
