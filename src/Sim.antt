-- ===== src/Sim.antt =====
-- runtime/src/sim: the types of the simulation's interface, its errors, the checks on what a
-- simulation library declares, and the engine that keeps its time.
pub mod Types
pub mod Error
pub mod Validation
pub mod Time
mod Tests
