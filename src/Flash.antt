-- ===== src/Flash.antt =====
-- runtime/src/load/mod.rs: flash images. `Memory` is `FlashMemory` with `merge_regions`, `Hex` the
-- decoding of hex digits, `IntelHex` and `Srec` the two text formats, `Format` the rest.
pub mod Types
pub mod Memory
pub mod Hex
pub mod IntelHex
pub mod Srec
pub mod Print
pub mod Format
mod Tests
