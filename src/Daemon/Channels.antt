-- ===== src/Daemon/Channels.antt =====
-- runtime/src/daemon/server/shared_ops.rs: the shared channels of a tick. An instance writes some of its
-- channels and reads the others.
use agent_sim.Base.{
  ℕ, List, [], ◌∷◌, if◌then◌else◌, Result, ok, err, map_err, and_then, guarded, Text,
}
use agent_sim.Sim.Types.{SimSharedSlot}
use agent_sim.Daemon.Device.{Device}
use agent_sim.Daemon.State.{
  AttachedSharedChannel, DaemonState, DaemonError, read_failed, write_failed, snapshot_failed,
  publish_failed,
}
use agent_sim.Daemon.Buses.{with_project}

module _ (V : Device) where
  -- The slots of a channel into the project, if there are any.
  abbrev pub read_slots :
      Text → ℕ → List SimSharedSlot → V.Project → Result (Unit {0}) DaemonError × V.Project
  read_slots name id [] project = (ok tt, project)
  read_slots name id (s ∷ ss) project =
      let (status, after) = V.shared_read id (s ∷ ss) project in
      (map_err (read_failed name) status, after)

  abbrev pub read_channel :
      Text → AttachedSharedChannel V → V.Project → Result (Unit {0}) DaemonError × V.Project
  read_channel name a project =
      if a.writer
      then (ok tt, project)
      else guarded (map_err (snapshot_failed name) (V.read_snapshot a.region)) project
          (λ slots. read_slots name a.meta.channel_id slots project)

  unfoldable pub read_channels :
      List (Text × AttachedSharedChannel V) → V.Project → Result (Unit {0}) DaemonError × V.Project
  read_channels [] project = (ok tt, project)
  read_channels ((name, a) ∷ others) project =
      and_then (read_channel name a project) (λ _ after. read_channels others after)

  unfoldable pub process_shared_rx : DaemonState V → Result (Unit {0}) DaemonError × DaemonState V
  process_shared_rx state =
      let (r, project) = read_channels state.shared_attached state.project in
      (r, with_project V state project)

  abbrev pub Published : Type 0
  Published = List (Text × AttachedSharedChannel V) × V.Project

  abbrev publish_slots :
      Text
      → AttachedSharedChannel V
      → List SimSharedSlot
      → Result (Unit {0}) DaemonError × AttachedSharedChannel V
  publish_slots name a [] = (ok tt, a)
  publish_slots name a (s ∷ ss) =
      let (status, region) = V.publish (s ∷ ss) a.region in
      (map_err (publish_failed name) status, record a { region = region })

  abbrev pub write_out :
      Text
      → AttachedSharedChannel V
      → Result (List SimSharedSlot) Text × V.Project
      → Result (Unit {0}) DaemonError × (AttachedSharedChannel V × V.Project)
  write_out name a (err e, project) = (err (write_failed name e), (a, project))
  write_out name a (ok slots, project) =
      let (r, after) = publish_slots name a slots in (r, (after, project))

  abbrev pub write_channel :
      Text
      → AttachedSharedChannel V
      → V.Project
      → Result (Unit {0}) DaemonError × (AttachedSharedChannel V × V.Project)
  write_channel name a project =
      if a.writer
      then write_out name a (V.shared_write a.meta.channel_id project)
      else (ok tt, (a, project))

  abbrev pub after_channel :
      Text
      → List (Text × AttachedSharedChannel V)
      → (V.Project
          → Result (Unit {0}) DaemonError × (List (Text × AttachedSharedChannel V) × V.Project))
      → Result (Unit {0}) DaemonError × (AttachedSharedChannel V × V.Project)
      → Result (Unit {0}) DaemonError × (List (Text × AttachedSharedChannel V) × V.Project)
  after_channel name others rest (err e, (a, project)) = (err e, ((name, a) ∷ others, project))
  after_channel name others rest (ok _, (a, project)) =
      let (r, (channels, last)) = rest project in (r, ((name, a) ∷ channels, last))

  unfoldable pub write_channels :
      List (Text × AttachedSharedChannel V)
      → V.Project
      → Result (Unit {0}) DaemonError × (List (Text × AttachedSharedChannel V) × V.Project)
  write_channels [] project = (ok tt, ([], project))
  write_channels ((name, a) ∷ others) project =
      after_channel name others (write_channels others) (write_channel name a project)

  unfoldable pub process_shared_tx : DaemonState V → Result (Unit {0}) DaemonError × DaemonState V
  process_shared_tx state =
      let (r, (channels, project)) = write_channels state.shared_attached state.project in
      (r, record state { shared_attached = channels; project = project })
