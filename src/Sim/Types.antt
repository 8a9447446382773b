-- ===== src/Sim/Types.antt =====
-- runtime/src/sim/types.rs: type tags, signal values and shared slots, with their raw forms of the
-- C interface. A float is its bit pattern. The union `SimValueDataRaw` is its eight bytes as a
-- little-endian number; the bytes that a smaller member leaves are taken as 0.
pub mod RoundTrip
use agent_sim.Base.{
  ℕ, ◌-◌, ◌%◌, ◌^◌, Bool, not, Option, none, some, ltb, ◌==◌, if◌then◌else◌, ℤ, pos, negsuc, Result,
  ok, ◌>>=◌, ◌>>◌, reject, ok_or, Text, codes, text_eq,
}

-- Also `SignalType`, which has the same members.
pub data SimTypeRaw : Type 0 where
  bool u32 i32 f32 f64 : SimTypeRaw

unfoldable pub type_tag : SimTypeRaw → ℕ
type_tag bool = 0
type_tag u32 = 1
type_tag i32 = 2
type_tag f32 = 3
type_tag f64 = 4

unfoldable pub type_of_tag : ℕ → Option SimTypeRaw
type_of_tag value =
    if value == 0
    then some bool
    else if value == 1
    then some u32
    else if value == 2
    then some i32
    else if value == 3
    then some f32
    else if value == 4
    then some f64
    else none

abbrev pub same_type : SimTypeRaw → SimTypeRaw → Bool
same_type a b = type_tag a == type_tag b

-- `SignalType::parse` and its `Display`.
unfoldable pub parse_type : Text → Option SimTypeRaw
parse_type value =
    if text_eq value (codes "bool")
    then some bool
    else if text_eq value (codes "u32")
    then some u32
    else if text_eq value (codes "i32")
    then some i32
    else if text_eq value (codes "f32")
    then some f32
    else if text_eq value (codes "f64")
    then some f64
    else none

unfoldable pub print_type : SimTypeRaw → Text
print_type bool = codes "bool"
print_type u32 = codes "u32"
print_type i32 = codes "i32"
print_type f32 = codes "f32"
print_type f64 = codes "f64"

pub data SignalValue : Type 0 where
  bool_value : Bool → SignalValue
  u32_value : ℕ → SignalValue
  i32_value : ℤ → SignalValue
  f32_value f64_value : ℕ → SignalValue

pub record SimValueRaw : Type 0 where
  pub signal_type : ℕ
  pub bits : ℕ

unfoldable pub type_of_value : SignalValue → SimTypeRaw
type_of_value (bool_value v) = bool
type_of_value (u32_value v) = u32
type_of_value (i32_value v) = i32
type_of_value (f32_value v) = f32
type_of_value (f64_value v) = f64

abbrev i32_bits : ℤ → ℕ
i32_bits (pos n) = n
i32_bits (negsuc n) = 2 ^ 32 - 1 - n

abbrev i32_of_bits : ℕ → ℤ
i32_of_bits bits = if ltb bits (2 ^ 31) then pos bits else negsuc (2 ^ 32 - 1 - bits)

unfoldable pub raw_of_value : SignalValue → SimValueRaw
unfolding type_tag
raw_of_value (bool_value v) = record { signal_type = type_tag bool; bits = if v then 1 else 0 }
raw_of_value (u32_value v) = record { signal_type = type_tag u32; bits = v }
raw_of_value (i32_value v) = record { signal_type = type_tag i32; bits = i32_bits v }
raw_of_value (f32_value v) = record { signal_type = type_tag f32; bits = v }
raw_of_value (f64_value v) = record { signal_type = type_tag f64; bits = v }

-- The member of the union that a type tag names.
abbrev pub member : ℕ → SimTypeRaw → SignalValue
member bits bool = bool_value (not (bits % 256 == 0))
member bits u32 = u32_value (bits % 2 ^ 32)
member bits i32 = i32_value (i32_of_bits (bits % 2 ^ 32))
member bits f32 = f32_value (bits % 2 ^ 32)
member bits f64 = f64_value (bits % 2 ^ 64)

unfoldable pub value_of_raw : SimValueRaw → Option SignalValue
unfolding type_of_tag
value_of_raw raw = elim (type_of_tag raw.signal_type) [
  | none ↦ none
  | some t ↦ some (member raw.bits t)
]

pub record SimSharedSlotRaw : Type 0 where
  pub raw_slot_id : ℕ
  pub slot_type : ℕ
  pub raw_value : SimValueRaw

pub record SimSharedSlot : Type 0 where
  pub slot_id : ℕ
  pub value : SignalValue

pub data SharedSlotDecodeError : Type 0 where
  invalid_type_tag : ℕ → ℕ → SharedSlotDecodeError
  mismatched_type_tags : ℕ → ℕ → ℕ → SharedSlotDecodeError
  -- The `expect` behind the checks.
  slot_panicked : SharedSlotDecodeError

unfoldable pub raw_of_slot : SimSharedSlot → SimSharedSlotRaw
raw_of_slot slot = record {
  raw_slot_id = slot.slot_id;
  slot_type = (raw_of_value slot.value).signal_type;
  raw_value = raw_of_value slot.value;
}

unfoldable pub slot_of_raw : SimSharedSlotRaw → Result SimSharedSlot SharedSlotDecodeError
slot_of_raw raw = do
  slot_type ← ok_or (type_of_tag raw.slot_type) (invalid_type_tag raw.raw_slot_id raw.slot_type)
  value_type ←
      ok_or (type_of_tag raw.raw_value.signal_type)
        (invalid_type_tag raw.raw_slot_id raw.raw_value.signal_type)
  reject (not (same_type slot_type value_type))
      (mismatched_type_tags raw.raw_slot_id raw.slot_type raw.raw_value.signal_type)
  value ← ok_or (value_of_raw raw.raw_value) slot_panicked
  ok (record { slot_id = raw.raw_slot_id; value = value })
