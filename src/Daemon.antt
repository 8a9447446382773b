-- ===== src/Daemon.antt =====
-- runtime/src/daemon: the daemon of an instance, its ticks and the requests that move its clock.
pub mod Device
pub mod State
pub mod Buses
pub mod Channels
pub mod Tick
pub mod Clock
pub mod Requests
mod Tests
