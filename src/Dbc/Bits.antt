-- ===== src/Dbc/Bits.antt =====
-- runtime/src/can/dbc.rs: `get_bit` and `set_bit` on the bytes of a frame. A byte shifted or masked
-- by a single bit stays a byte.
pub mod Laws
use agent_sim.Base.{
  ℕ, ◌-◌, ◌/◌, ◌%◌, ◌^◌, bit_and, bit_or, none, some, List, ◌==◌, if◌then◌else◌, get_elem?, set,
  Result, ok, err,
}
use agent_sim.Dbc.Types.{DbcError, bit_out_of_bounds}

unfoldable pub get_bit : List ℕ → ℕ → Result ℕ DbcError
get_bit bytes index = elim (get_elem? bytes (index / 8)) [
  | none ↦ err (bit_out_of_bounds index)
  | some byte ↦ ok (bit_and (byte / 2 ^ (index % 8)) 1)
]

-- `byte & !mask` or `byte | mask`.
unfoldable pub with_bit : ℕ → ℕ → ℕ → ℕ
with_bit bit k byte = if bit == 0 then bit_and byte (255 - 2 ^ k) else bit_or byte (2 ^ k)

unfoldable pub set_bit : List ℕ → ℕ → ℕ → Result (List ℕ) DbcError
unfolding with_bit
set_bit bytes index bit = elim (get_elem? bytes (index / 8)) [
  | none ↦ err (bit_out_of_bounds index)
  | some byte ↦ ok (set bytes (index / 8) (with_bit bit (index % 8) byte))
]
