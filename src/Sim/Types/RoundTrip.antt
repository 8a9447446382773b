-- ===== src/Sim/Types/RoundTrip.antt =====
-- Values and slots survive the raw form, and a slot whose tags disagree is refused.
use agent_sim.Base.{
  ℕ, ◌^◌, ◌<◌, ◌≡◌, refl, sym, ◌∙◌, ◌≢◌, inl, inr, true, false, some, arith, ==_iff, Bool-cases,
  Option-cases, pos, negsuc, Result, ok, err,
}
use agent_sim.Sim.Types.{
  SimTypeRaw, bool, u32, i32, f32, f64, type_tag, type_of_tag, parse_type, print_type, SignalValue,
  bool_value, u32_value, i32_value, f32_value, f64_value, raw_of_value, value_of_raw,
  SimSharedSlotRaw, SimSharedSlot, SharedSlotDecodeError, slot_panicked, raw_of_slot, slot_of_raw,
  member, type_of_value, same_type,
}

-- The widths of the types of Rust.
abbrev pub IsValue : SignalValue → Type 0
IsValue (bool_value v) = Unit
IsValue (u32_value v) = v < 2 ^ 32
IsValue (i32_value (pos n)) = n < 2 ^ 31
IsValue (i32_value (negsuc n)) = n < 2 ^ 31
IsValue (f32_value v) = v < 2 ^ 32
IsValue (f64_value v) = v < 2 ^ 64

pub type_of_tag-type_tag : (t : SimTypeRaw) → type_of_tag (type_tag t) ≡ some t
unfolding type_of_tag type_tag
type_of_tag-type_tag bool = refl
type_of_tag-type_tag u32 = refl
type_of_tag-type_tag i32 = refl
type_of_tag-type_tag f32 = refl
type_of_tag-type_tag f64 = refl

-- A printed type name is parsed as the type.
pub parse_type-print_type : (t : SimTypeRaw) → parse_type (print_type t) ≡ some t
unfolding parse_type print_type
parse_type-print_type bool = refl
parse_type-print_type u32 = refl
parse_type-print_type i32 = refl
parse_type-print_type f32 = refl
parse_type-print_type f64 = refl

value_of_raw-raw_of_value : (v : SignalValue) → IsValue v → value_of_raw (raw_of_value v) ≡ some v
unfolding value_of_raw raw_of_value type_of_tag type_tag
value_of_raw-raw_of_value (bool_value true) h = refl
value_of_raw-raw_of_value (bool_value false) h = refl
value_of_raw-raw_of_value (u32_value v) h = ground arith
value_of_raw-raw_of_value (i32_value (pos n)) h = ground arith
value_of_raw-raw_of_value (i32_value (negsuc n)) h = ground arith
value_of_raw-raw_of_value (f32_value v) h = ground arith
value_of_raw-raw_of_value (f64_value v) h = ground arith

tag_of_raw : (v : SignalValue) → (raw_of_value v).signal_type ≡ type_tag (type_of_value v)
unfolding raw_of_value type_of_value
tag_of_raw (bool_value v) = refl
tag_of_raw (u32_value v) = refl
tag_of_raw (i32_value v) = refl
tag_of_raw (f32_value v) = refl
tag_of_raw (f64_value v) = refl

same_type_refl : (t : SimTypeRaw) → same_type t t ≡ true
same_type_refl t = ground arith

-- A slot whose value fits its type is read back from its raw form.
pub slot_of_raw-raw_of_slot :
    (slot : SimSharedSlot) → IsValue slot.value → slot_of_raw (raw_of_slot slot) ≡ ok slot
unfolding slot_of_raw raw_of_slot
slot_of_raw-raw_of_slot slot h =
    let t = tag_of_raw slot.value in
    let known = type_of_tag-type_tag (type_of_value slot.value) in
    let found : type_of_tag (raw_of_value slot.value).signal_type
        ≡ some (type_of_value slot.value) =
      rw t known in
    rw (found, same_type_refl (type_of_value slot.value), value_of_raw-raw_of_value slot.value h)
      refl

same_type-eq : (a b : SimTypeRaw) → same_type a b ≡ true → type_tag a ≡ type_tag b
same_type-eq a b h = (==_iff _ _).0 h

tag_of_type : (n : ℕ) {t : SimTypeRaw} → type_of_tag n ≡ some t → type_tag t ≡ n
unfolding type_of_tag type_tag
tag_of_type n {t} h = ground arith

type_of_value-member : (bits : ℕ) (t : SimTypeRaw) → type_of_value (member bits t) ≡ t
unfolding type_of_value
type_of_value-member bits bool = refl
type_of_value-member bits u32 = refl
type_of_value-member bits i32 = refl
type_of_value-member bits f32 = refl
type_of_value-member bits f64 = refl

abbrev Tagged : SimSharedSlotRaw → Result SimSharedSlot SharedSlotDecodeError → Type 0
Tagged raw (err e) = e ≢ slot_panicked
Tagged raw (ok slot) =
    (raw.slot_type ≡ raw.raw_value.signal_type)
    × (raw.slot_type ≡ type_tag (type_of_value slot.value))
    × (slot.slot_id ≡ raw.raw_slot_id)

slot_of_raw-Tagged : (raw : SimSharedSlotRaw) → Tagged raw (slot_of_raw raw)
unfolding slot_of_raw value_of_raw
slot_of_raw-Tagged raw = elim (Option-cases (type_of_tag raw.slot_type)) [
  | inl bad ↦ rw bad (λ e. cc)
  | inr (t, first) ↦ elim (Option-cases (type_of_tag raw.raw_value.signal_type)) [
    | inl bad ↦ rw (first, bad) (λ e. cc)
    | inr (u, second) ↦ elim (Bool-cases (same_type t u)) [
      | inl same ↦
          let a = tag_of_type raw.slot_type first in
          let b = tag_of_type raw.raw_value.signal_type second in
          let c = same_type-eq t u same in
          let v : value_of_raw raw.raw_value ≡ some (member raw.raw_value.bits u) =
            rw (second, value_of_raw) refl in
          rw (first, second, same, v)
            (sym a ∙ c ∙ b, rw (type_of_value-member raw.raw_value.bits u) (sym a ∙ c), refl)
      | inr other ↦ rw (first, second, other) (λ e. cc)
    ]
  ]
]

-- The `expect` in the reading of a raw slot is never reached without a value.
pub slot_of_raw-no_panic : (raw : SimSharedSlotRaw) → slot_of_raw raw ≢ err slot_panicked
slot_of_raw-no_panic raw bad = (rw bad at (slot_of_raw-Tagged raw)) refl

-- A raw slot that is read has one known tag in both places, the tag of the value, and its number.
pub slot_of_raw-tags :
    (raw : SimSharedSlotRaw) (slot : SimSharedSlot)
    → slot_of_raw raw ≡ ok slot
    → (raw.slot_type ≡ raw.raw_value.signal_type)
      × (raw.slot_type ≡ type_tag (type_of_value slot.value))
      × (slot.slot_id ≡ raw.raw_slot_id)
slot_of_raw-tags raw slot e = rw e at (slot_of_raw-Tagged raw)
