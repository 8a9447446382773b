-- ===== src/Sim/Error.antt =====
-- runtime/src/sim/error.rs: `SimStatusRaw` and the errors that the status codes of a simulation
-- library stand for.
use agent_sim.Base.{
  ℕ, ◌<◌, ◌≡◌, ◌≢◌, ◌↔◌, ◌⊎◌, Option, none, some, arith, ◌==◌, if◌then◌else◌, Result, ok, err,
  ◌>>=◌, ok_or, Text, codes,
}
use agent_sim.Sim.Types.{SimTypeRaw}

pub data SimStatusRaw : Type 0 where
  status_ok status_not_initialized status_invalid_arg status_invalid_signal : SimStatusRaw
  status_type_mismatch status_buffer_too_small status_internal : SimStatusRaw

unfoldable pub status_of_code : ℕ → Option SimStatusRaw
status_of_code value =
    if value == 0
    then some status_ok
    else if value == 1
    then some status_not_initialized
    else if value == 2
    then some status_invalid_arg
    else if value == 3
    then some status_invalid_signal
    else if value == 4
    then some status_type_mismatch
    else if value == 5
    then some status_buffer_too_small
    else if value == 255
    then some status_internal
    else none

pub data SimError : Type 0 where
  not_initialized buffer_too_small internal : SimError
  invalid_arg ffi_contract invalid_signal : Text → SimError
  type_mismatch : Text → SimTypeRaw → SimTypeRaw → SimError
  unknown_status : ℕ → SimError

abbrev error_of_status : SimStatusRaw → Result SimError SimError
error_of_status status_ok = err (unknown_status 0)
error_of_status status_not_initialized = ok not_initialized
error_of_status status_invalid_arg = ok (invalid_arg (codes "invalid ffi argument"))
error_of_status status_invalid_signal = ok (invalid_signal (codes "<unknown>"))
error_of_status status_type_mismatch = ok internal
error_of_status status_buffer_too_small = ok buffer_too_small
error_of_status status_internal = ok internal

-- `ok` is the error that a status code stands for; `err` says that it stands for none.
unfoldable pub error_of_code : ℕ → Result SimError SimError
error_of_code value = do
  status ← ok_or (status_of_code value) (unknown_status value)
  error_of_status status

-- Exactly the codes 0, 6 to 254 and above 255 are reported as unknown, under their own number.
pub error_of_code_iff :
    (value : ℕ)
    → (error_of_code value ≡ err (unknown_status value))
      ↔ ((value ≡ 0) ⊎ ((5 < value) × (value ≢ 255)))
unfolding error_of_code status_of_code
error_of_code_iff value = ((λ h. ground arith), (λ h. ground arith))
