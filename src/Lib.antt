-- ===== src/Lib.antt =====
-- agent-sim loads the firmware of a device as a shared library, runs its ticks, and lets processes
-- read and write its signals, its CAN buses and its shared channels. This library models the logic of
-- the Rust runtime, runtime/src, that computes; each module is named for the part it models.
--
-- Flash (runtime/src/load/mod.rs): flash images. `Memory` is `FlashMemory`, the map from addresses to
--   bytes, with `merge_regions`; `IntelHex` and `Srec` are the parsers, `Hex` their `decode_hex_bytes`;
--   `Format` is `FlashFormat` and the inline values; `Print` is the printed form that the parser of
--   Intel HEX is compared with.
-- Can (runtime/src/can/mod.rs): the checks on frames and payloads, with the frame of
--   runtime/src/sim/types.rs; `Wire` is the frame between processes of runtime/src/protocol.rs.
-- Dbc (runtime/src/can/dbc.rs): signals inside frames. `Bits`, `Raw` and `Codec` follow `get_bit` and
--   `set_bit`, `insert_raw` and `extract_raw`, `encode_signal` and `decode_signal`; `Overlay` is
--   `DbcBusOverlay`. An encoded frame is what `Can.validate_frame` then sees.
-- Sim (runtime/src/sim): `Types` are the values and slots of the C interface, `Error` the status
--   codes, `Validation` the checks on what a library declares, `Time` the engine of simulated time.
-- Shared (runtime/src/shared/mod.rs): the memory region through which one process publishes slots, in
--   the raw form of `Sim.Types`, to others. `Interleaving` puts the loads of a reader between the
--   single stores of a writer.
-- Env (runtime/src/envd): the daemon of an environment. `World` is the interface to what it calls: CAN
--   sockets, DBC and trace files, and the workers of the instances, each of which takes a request and
--   gives its reply later. `State` and `Bus` are `EnvState` and `EnvCanBusState` of server.rs with their
--   helpers, `Schedule` the jobs, `Duration` their periods (with `parse_duration_us` of
--   runtime/src/protocol.rs), `Workers` and `Tracing` the requests to workers and the trace of
--   server/dispatch.rs, `Tick` server/tick.rs, `Dispatch` `dispatch_action`, and `Actor` the turns of
--   `run_actor_task`. `Aside`, `Invariant` and `Clock` hold proofs about them.
-- Load (runtime/src/load/resolve.rs, runtime/src/config/recipe.rs): the paths of libraries, the entries of
--   flash on the command line and in recipes, and the specifications that instances are loaded by. The
--   regions are those of `Flash`; paths and files are the interface `Paths`.
-- Selectors (runtime/src/signal_selectors.rs): the catalog of the signals of an environment and the
--   selectors into it, which the requests of `Env` resolve; `Instance` are the selectors of one instance,
--   with the maps over the signals of runtime/src/sim/project.rs. The glob matcher is a parameter.
-- Trace (runtime/src/trace.rs): the CSV text of a trace, which `Env.Tracing` writes; `Header` has a reader
--   of such text.
-- Daemon (runtime/src/daemon): a tick of an instance. `Device` is the interface to the loaded project, to
--   sockets, regions and files; `Buses` is server/can_ops.rs, `Channels` server/shared_ops.rs, and `Tick`
--   the ticks of server/action_router.rs and server/tick_ops.rs, `Requests` the requests
--   that move its clock and the real-time part of its loop. The frames are checked as in `Can`; the
--   slots of a region are those of `Sim.Types`, and `Shared` is what a region does.
-- Name (runtime/src/name.rs): the names of instances and environments.
-- Base: numbers, lists, results, texts, maps, and the interface `Floats` to doubles.
--
-- Numbers are the native ones, with the widths of Rust written out. A text is the list of its Unicode
-- scalar values; the messages of errors are constructors with the values they show. A function that
-- changes its argument returns the new value, also beside an error. Panics are an error of their own.
-- The 32 rounds of `read_snapshot` and the 16 requests and 64 ticks of a turn of an environment are
-- bounds that the source sets; the digits of a printed number have its size as fuel, and a number has no
-- more digits than that. All loops else are structural.
--
-- Not modelled: files, sockets, processes, memory mappings and the scheduling of asynchronous tasks around
-- this logic; the start and the end of an environment and its connections; the calls into the loaded
-- library; the requests to the daemon of an instance on signals, traces and attachments; the messages that serde reads and writes; the recipes of the
-- command line. The crates can_dbc and globset are represented by what they return, and doubles and the
-- clock by parameters: no law of their arithmetic is assumed.
mod Base
pub mod Flash
pub mod Can
pub mod Dbc
pub mod Sim
pub mod Name
pub mod Shared
pub mod Env
pub mod Load
pub mod Selectors
pub mod Trace
pub mod Daemon
