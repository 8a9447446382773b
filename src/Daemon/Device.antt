-- ===== src/Daemon/Device.antt =====
-- What the daemon of an instance, runtime/src/daemon, calls outside of itself, as one interface: the
-- loaded project, CAN sockets, the regions of shared channels and the file of a trace. A call into the
-- project leaves it changed also when it fails.
use agent_sim.Base.{ℕ, suc, ◌≡◌, Bool, Option, List, Result, ok, err, Text}
use agent_sim.Base.Float.{Floats}
use agent_sim.Can.{SimCanFrame}
use agent_sim.Sim.Types.{SignalValue, SimSharedSlot}

pub record Device : Type 1 where
  pub D : Floats
  pub parse_f64 : Text → Option D.F64
  pub Project : Type 0
  pub reset : Project → Result (Unit {0}) Text × Project
  pub tick_duration_us : ℕ
  pub tick : Project → Result (Unit {0}) Text × Project
  pub can_rx : ℕ → List SimCanFrame → Project → Result (Unit {0}) Text × Project
  pub can_tx : ℕ → Project → Result (List SimCanFrame) Text × Project
  pub shared_read : ℕ → List SimSharedSlot → Project → Result (Unit {0}) Text × Project
  pub shared_write : ℕ → Project → Result (List SimSharedSlot) Text × Project
  pub read_many : List ℕ → Project → Result (List SignalValue) Text × Project
  pub Socket : Type 0
  pub send : Socket → SimCanFrame → Option Socket
  pub recv_all : Socket → Option (List SimCanFrame) × Socket
  pub Region : Type 0
  pub read_snapshot : Region → Result (List SimSharedSlot) Text
  pub publish : List SimSharedSlot → Region → Result (Unit {0}) Text × Region
  pub print_float : SignalValue → Text
  pub writes : Text → Text → Bool

-- A count of the ticks that a project has done: a tick that succeeds adds one, nothing else does.
pub record IsTickCount (V : Device) (count : V.Project → ℕ) : Type 0 where
  pub tick_ok : (p q : V.Project) → V.tick p ≡ (ok tt, q) → count q ≡ suc (count p)
  pub tick_err : (p q : V.Project) (e : Text) → V.tick p ≡ (err e, q) → count q ≡ count p
  pub rx :
      (id : ℕ) (frames : List SimCanFrame) (p : V.Project)
      → count (V.can_rx id frames p).1 ≡ count p
  pub tx : (id : ℕ) (p : V.Project) → count (V.can_tx id p).1 ≡ count p
  pub read :
      (id : ℕ) (slots : List SimSharedSlot) (p : V.Project)
      → count (V.shared_read id slots p).1 ≡ count p
  pub write : (id : ℕ) (p : V.Project) → count (V.shared_write id p).1 ≡ count p
  pub reads : (ids : List ℕ) (p : V.Project) → count (V.read_many ids p).1 ≡ count p
