-- ===== src/Dbc/Types.antt =====
-- runtime/src/can/dbc.rs: `DbcSignalDef`, over a type of doubles, and the messages of the errors.
use agent_sim.Base.{ℕ, Bool, Option, ℤ, Text}

pub data ByteOrder : Type 0 where
  little_endian big_endian : ByteOrder

pub data ValueType : Type 0 where
  signed unsigned : ValueType

pub record DbcSignalDef (F64 : Type 0) : Type 0 where
  pub name : Text
  pub frame_key : ℕ
  pub arb_id : ℕ
  pub extended : Bool
  pub message_size : ℕ
  pub start_bit : ℕ
  pub size : ℕ
  pub byte_order : ByteOrder
  pub value_type : ValueType
  pub factor : F64
  pub offset : F64
  pub lowest : F64
  pub highest : F64
  pub unit : Option Text

pub data DbcError : Type 0 where
  bit_out_of_bounds : ℕ → DbcError
  size_too_large : Text → ℕ → DbcError
  not_finite out_of_range zero_factor : Text → DbcError
  exceeds_signed exceeds_unsigned : Text → ℤ → ℕ → DbcError
  negative_raw : Text → ℤ → DbcError
  -- Of loading a DBC file.
  message_size_invalid message_too_large : Text → ℕ → DbcError
  multiplexed : Text → Text → DbcError
  signal_size_invalid : Text → Text → ℕ → DbcError
  unreadable unparsable : Text → DbcError
