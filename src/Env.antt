-- ===== src/Env.antt =====
-- runtime/src/envd: environments, which step several instances together and send frames by schedule;
-- the daemon of one, its requests, ticks and turns.
pub mod Schedule
pub mod Duration
pub mod World
pub mod Bus
pub mod State
pub mod Workers
pub mod Tracing
pub mod Tick
pub mod Dispatch
pub mod Aside
pub mod Clock
pub mod Invariant
pub mod Actor
mod Tests
