-- ===== src/Daemon/Buses.antt =====
-- runtime/src/daemon/server/can_ops.rs: the frames that a tick takes from CAN buses and puts onto them. The
-- order of the buses is that of the list of those attached.
use agent_sim.Base.{
  Option, none, some, List, [], ◌∷◌, ◌++◌, Result, ok, err, ◌>>=◌, map_err, guarded, Text,
}
use agent_sim.Can.{SimCanFrame}
use agent_sim.Sim.Validation.{SimCanBusDesc}
use agent_sim.Daemon.Device.{Device}
use agent_sim.Daemon.State.{
  AttachedCanBus, DaemonState, DaemonError, socket_failed, rx_failed, tx_failed, ReceivedCanFrames,
  record_received, check_frames,
}

module _ (V : Device) where
  abbrev pub with_socket : AttachedCanBus V → V.Socket → AttachedCanBus V
  with_socket a socket = record a { socket = socket }

  -- What one bus received, if anything.
  abbrev pub received_from :
      Text
      → AttachedCanBus V
      → Option (List SimCanFrame) × V.Socket
      → Result (List ReceivedCanFrames) DaemonError × AttachedCanBus V
  received_from name a (none, socket) = (err (socket_failed name), with_socket a socket)
  received_from name a (some [], socket) = (ok [], with_socket a socket)
  received_from name a (some (f ∷ fs), socket) = (
    check_frames a.meta (f ∷ fs)
        >>= (λ _. ok (record { bus_name = name; bus_id = a.meta.bus_id; frames = f ∷ fs } ∷ [])),
    with_socket a socket,
  )

  abbrev pub next_bus :
      Text
      → List (Text × AttachedCanBus V)
      → Result (List ReceivedCanFrames) DaemonError × AttachedCanBus V
      → Result (List ReceivedCanFrames) DaemonError × List (Text × AttachedCanBus V)
      → Result (List ReceivedCanFrames) DaemonError × List (Text × AttachedCanBus V)
  next_bus name others (err e, a) rest = (err e, (name, a) ∷ others)
  next_bus name others (ok updates, a) (r, rest) =
      (r >>= (λ later. ok (updates ++ later)), (name, a) ∷ rest)

  unfoldable pub recv_can_frames :
      List (Text × AttachedCanBus V)
      → Result (List ReceivedCanFrames) DaemonError × List (Text × AttachedCanBus V)
  recv_can_frames [] = (ok [], [])
  recv_can_frames ((name, a) ∷ others) =
      next_bus name others (received_from name a (V.recv_all a.socket)) (recv_can_frames others)

  -- The calls into the project.
  unfoldable pub deliver_updates :
      List ReceivedCanFrames → V.Project → Result (Unit {0}) DaemonError × V.Project
  deliver_updates [] project = (ok tt, project)
  deliver_updates (u ∷ us) project =
      let (status, after) = V.can_rx u.bus_id u.frames project in
      guarded (map_err (rx_failed u.bus_name) status) after (λ _. deliver_updates us after)

  abbrev pub with_project : DaemonState V → V.Project → DaemonState V
  with_project state project = record state { project = project }

  unfoldable pub deliver_can_frames :
      List ReceivedCanFrames → DaemonState V → Result (Unit {0}) DaemonError × DaemonState V
  deliver_can_frames updates state =
      let (r, project) = deliver_updates updates state.project in
      guarded r (with_project state project) (λ _. (
        ok tt,
        record state { project = project; frame_state = record_received updates state.frame_state },
      ))

  unfoldable pub process_can_rx : DaemonState V → Result (Unit {0}) DaemonError × DaemonState V
  process_can_rx state =
      let (r, attached) = recv_can_frames state.can_attached in
      let next : DaemonState V = record state { can_attached = attached } in
      guarded r next (λ updates. deliver_can_frames updates next)

  -- `CanDiscardPendingRx`.
  unfoldable pub discard_can_rx : DaemonState V → Result (Unit {0}) DaemonError × DaemonState V
  discard_can_rx state =
      let (r, attached) = recv_can_frames state.can_attached in
      (r >>= (λ _. ok tt), record state { can_attached = attached })

  unfoldable pub send_frames :
      Text → SimCanBusDesc → List SimCanFrame → V.Socket → Result (Unit {0}) DaemonError × V.Socket
  send_frames name meta [] socket = (ok tt, socket)
  send_frames name meta (f ∷ fs) socket = guarded (check_frames meta (f ∷ [])) socket (λ _.
      elim (V.send socket f) [
        | none ↦ (err (socket_failed name), socket)
        | some next ↦ send_frames name meta fs next
      ])

  -- The buses, the project, and the frames that were sent, by bus.
  pub record Transmitted : Type 0 where
    pub buses : List (Text × AttachedCanBus V)
    pub device : V.Project
    pub sent : List ReceivedCanFrames

  abbrev pub all_sent :
      Text
      → AttachedCanBus V
      → List SimCanFrame
      → List (Text × AttachedCanBus V)
      → Transmitted
      → Transmitted
  all_sent name a frames others t = record {
    buses = (name, a) ∷ t.buses;
    device = t.device;
    sent = record { bus_name = name; bus_id = a.meta.bus_id; frames = frames } ∷ t.sent;
  }

  -- A bus with the frames that the project has for it, and the buses behind.
  abbrev pub transmit_bus :
      Text
      → AttachedCanBus V
      → List (Text × AttachedCanBus V)
      → (V.Project → Result (Unit {0}) DaemonError × Transmitted)
      → Result (List SimCanFrame) Text × V.Project
      → Result (Unit {0}) DaemonError × Transmitted
  transmit_bus name a others rest (err e, project) =
      (err (tx_failed name e), record { buses = (name, a) ∷ others; device = project; sent = [] })
  transmit_bus name a others rest (ok frames, project) =
      let (went, socket) = send_frames name a.meta frames a.socket in
      guarded went
        (record { buses = (name, with_socket a socket) ∷ others; device = project; sent = [] })
        (λ _.
          let (r, t) = rest project in (r, all_sent name (with_socket a socket) frames others t))

  unfoldable pub transmit :
      List (Text × AttachedCanBus V) → V.Project → Result (Unit {0}) DaemonError × Transmitted
  transmit [] project = (ok tt, record { buses = []; device = project; sent = [] })
  transmit ((name, a) ∷ others) project =
      transmit_bus name a others (transmit others) (V.can_tx a.meta.bus_id project)

  -- What was sent is recorded when all buses went well.
  unfoldable pub process_can_tx : DaemonState V → Result (Unit {0}) DaemonError × DaemonState V
  process_can_tx state =
      let (r, t) = transmit state.can_attached state.project in
      let next : DaemonState V = record state { can_attached = t.buses; project = t.device } in
      guarded r next
        (λ _. (ok tt, record next { frame_state = record_received t.sent state.frame_state }))
