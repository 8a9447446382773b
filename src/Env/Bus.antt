-- ===== src/Env/Bus.antt =====
-- runtime/src/envd/server.rs and runtime/src/envd/server/tick.rs: a CAN bus of an environment, with its
-- jobs and the latest frame of each id.
use agent_sim.Base.{ℕ, Bool, true, false, Option, none, some, List, [], ◌∷◌, if◌then◌else◌, Text}
use agent_sim.Base.Map.{text_order, nat_order, insert}
use agent_sim.Can.{SimCanFrame}
use agent_sim.Dbc.Codec.{frame_key_from_frame}
use agent_sim.Env.World.{World}
use agent_sim.Env.Schedule.{CanScheduleJob, Sent, send_due, reset_schedule}

pub record EnvCanBusState (W : World) : Type 0 where
  pub bus_name : Text
  pub vcan_iface : Text
  pub fd_capable : Bool
  pub bitrate : ℕ
  pub bitrate_data : ℕ
  pub socket : W.Socket
  pub dbc : Option W.Overlay
  pub latest_frames : List (ℕ × SimCanFrame)
  pub schedules : List (Text × CanScheduleJob)

-- The values of a map in the order of the keys, and other values under the same keys.
module _ {ℓ κ} {K : Type ℓ} {V : Type κ} where
  abbrev pub values : List (K × V) → List V
  values [] = []
  values ((k, v) ∷ m) = v ∷ values m

  abbrev pub with_values : List (K × V) → List V → List (K × V)
  with_values [] vs = []
  with_values ((k, v) ∷ m) [] = (k, v) ∷ m
  with_values ((k, v) ∷ m) (w ∷ vs) = (k, w) ∷ with_values m vs

  abbrev pub map_values : (V → V) → List (K × V) → List (K × V)
  map_values f [] = []
  map_values f ((k, v) ∷ m) = (k, f v) ∷ map_values f m

module _ {W : World} where
  unfoldable pub record_env_frame : SimCanFrame → EnvCanBusState W → EnvCanBusState W
  record_env_frame frame bus = record bus {
    latest_frames = insert (frame_key_from_frame frame) frame bus.latest_frames;
  }

  abbrev pub record_all : List SimCanFrame → EnvCanBusState W → EnvCanBusState W
  record_all [] bus = bus
  record_all (f ∷ fs) bus = record_all fs (record_env_frame f bus)

  abbrev pub after_send :
      SimCanFrame → EnvCanBusState W → Option W.Socket → Option (EnvCanBusState W)
  after_send frame bus none = none
  after_send frame bus (some socket) =
      some (record_env_frame frame (record bus { socket = socket }))

  -- `send_env_frame`, once the bus is found.
  unfoldable pub send_on_bus : SimCanFrame → EnvCanBusState W → Option (EnvCanBusState W)
  send_on_bus frame bus = after_send frame bus (W.send bus.socket frame)

  abbrev pub received :
      EnvCanBusState W → Option (List SimCanFrame) × W.Socket → Bool × EnvCanBusState W
  received bus (none, socket) = (false, record bus { socket = socket })
  received bus (some frames, socket) = (true, record_all frames (record bus { socket = socket }))

  -- The bodies of the loops over the buses say whether they came to the end.
  unfoldable pub observe_bus : EnvCanBusState W → Bool × EnvCanBusState W
  observe_bus bus = received bus (W.recv_all bus.socket)

  abbrev pub sent_on_bus : EnvCanBusState W → Sent W.Socket → EnvCanBusState W
  sent_on_bus bus s = record bus { socket = s.socket; schedules = with_values bus.schedules s.jobs }

  unfoldable pub tick_bus : ℕ → EnvCanBusState W → Bool × EnvCanBusState W
  tick_bus current_tick bus =
      let s = send_due W.send current_tick bus.socket (values bus.schedules) in
      if s.finished
      then (true, record_all s.emitted (sent_on_bus bus s))
      else (false, sent_on_bus bus s)

  -- An error of the socket is dropped here.
  unfoldable pub reset_bus : EnvCanBusState W → EnvCanBusState W
  reset_bus bus = record bus {
    socket = (W.recv_all bus.socket).1;
    latest_frames = [];
    schedules = map_values reset_schedule bus.schedules;
  }

  -- A loop over the buses, left when a body fails.
  abbrev pub each_bus :
      (EnvCanBusState W → Bool × EnvCanBusState W)
      → List (Text × EnvCanBusState W)
      → Bool × List (Text × EnvCanBusState W)
  each_bus body [] = (true, [])
  each_bus body ((name, bus) ∷ buses) =
      let (went, after) = body bus in
      let (rest_went, rest) = each_bus body buses in
      if went then (rest_went, (name, after) ∷ rest) else (false, (name, after) ∷ buses)
