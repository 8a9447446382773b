-- ===== src/Sim/Validation.antt =====
-- runtime/src/sim/validation.rs: the checks on the signals, buses and shared channels that a
-- simulation library declares. The three loops differ in their checks of one entry only.
pub mod Unique
use agent_sim.Base.{
  ℕ, Bool, false, ◌||◌, Option, List, [], ◌∷◌, ◌==◌, Result, ok, ◌>>=◌, ◌>>◌, reject, Text, codes,
  text_eq, trim, starts_with, is_empty,
}
use agent_sim.Sim.Types.{SimTypeRaw}

pub record SignalMeta : Type 0 where
  pub id : ℕ
  pub name : Text
  pub signal_type : SimTypeRaw
  pub units : Option Text

pub record SimCanBusDesc : Type 0 where
  pub bus_id : ℕ
  pub bus_name : Text
  pub bitrate : ℕ
  pub bitrate_data : ℕ
  pub fd_capable : Bool

pub record SimSharedDesc : Type 0 where
  pub channel_id : ℕ
  pub channel_name : Text
  pub slot_count : ℕ

pub data MetadataError : Type 0 where
  empty_name : MetadataError
  reserved_namespace no_slots duplicate_name : Text → MetadataError
  duplicate_id : ℕ → MetadataError

-- Membership in a `HashSet`, whose values are listed.
abbrev pub seen_id : ℕ → List ℕ → Bool
seen_id x [] = false
seen_id x (y ∷ ys) = x == y || seen_id x ys

abbrev pub seen_name : Text → List Text → Bool
seen_name x [] = false
seen_name x (y ∷ ys) = text_eq x y || seen_name x ys

module _ {ℓ} {A : Type ℓ} (check : A → Result (Unit {0}) MetadataError) (id_of : A → ℕ)
    (name_of : A → Text) where
  unfoldable pub validate_entries : List ℕ → List Text → List A → Result (Unit {0}) MetadataError
  validate_entries ids names [] = ok tt
  validate_entries ids names (a ∷ entries) = do
    check a
    reject (seen_id (id_of a) ids) (duplicate_id (id_of a))
    reject (seen_name (name_of a) names) (duplicate_name (name_of a))
    validate_entries (id_of a ∷ ids) (name_of a ∷ names) entries

abbrev pub check_signal : SignalMeta → Result (Unit {0}) MetadataError
check_signal s = do
  reject (is_empty (trim s.name)) empty_name
  reject (starts_with (codes "can.") s.name) (reserved_namespace s.name)
  ok tt

abbrev pub check_bus : SimCanBusDesc → Result (Unit {0}) MetadataError
check_bus b = reject (is_empty (trim b.bus_name)) empty_name

abbrev pub check_channel : SimSharedDesc → Result (Unit {0}) MetadataError
check_channel c = do
  reject (is_empty (trim c.channel_name)) empty_name
  reject (c.slot_count == 0) (no_slots c.channel_name)
  ok tt

unfoldable pub validate_signal_metadata : List SignalMeta → Result (Unit {0}) MetadataError
unfolding validate_entries
validate_signal_metadata = validate_entries check_signal (λ s. s.id) (λ s. s.name) [] []

unfoldable pub validate_can_metadata : List SimCanBusDesc → Result (Unit {0}) MetadataError
unfolding validate_entries
validate_can_metadata = validate_entries check_bus (λ b. b.bus_id) (λ b. b.bus_name) [] []

unfoldable pub validate_shared_metadata : List SimSharedDesc → Result (Unit {0}) MetadataError
unfolding validate_entries
validate_shared_metadata =
    validate_entries check_channel (λ c. c.channel_id) (λ c. c.channel_name) [] []
