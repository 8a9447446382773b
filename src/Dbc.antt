-- ===== src/Dbc.antt =====
-- runtime/src/can/dbc.rs: signals inside CAN frames. `Bits` is the access to single bits, `Raw` the
-- insertion and extraction of a raw value, `Codec` the encoding of a physical value. The types
-- `ByteOrder` and `ValueType` are those of the crate can_dbc.
pub mod Types
pub mod Bits
pub mod Raw
pub mod Codec
pub mod Overlay
mod Tests
