-- ===== src/Can/Validity.antt =====
-- The frames that `validate_frame` lets through, by the bits of their flags: bit 0 is the extended
-- identifier, bits 1 to 3 ask for CAN FD, bit 4 is a remote request, bits 5 to 7 are reserved.
use agent_sim.Base.{
  ℕ, ◌/◌, ◌%◌, ◌^◌, ◌≤◌, ◌<◌, bit_or, ◌≡◌, refl, ◌≢◌, ◌↔◌, ◌⊎◌, Bool, true, false, not, ◌||◌, arith,
  leb, ◌==◌, ok, all_below, all_below_sound, Text,
}
use agent_sim.Can.{
  SimCanFrame, validate_frame, has_flag, can_flag_reserved_mask, can_flag_extended, can_flag_fd,
  can_flag_brs, can_flag_esi, can_flag_rtr,
}

abbrev pub FdLength : ℕ → Type 0
FdLength n = (n ≤ 8) ⊎ (n ≡ 12) ⊎ (n ≡ 16) ⊎ (n ≡ 20) ⊎ (n ≡ 24) ⊎ (n ≡ 32) ⊎ (n ≡ 48) ⊎ (n ≡ 64)

pub record IsSendable (fd_capable : Bool) (f : SimCanFrame) : Type 0 where
  pub no_reserved : f.flags < 32
  pub id_in_range :
      ((f.flags % 2 ≡ 1) × (f.arb_id < 2 ^ 29)) ⊎ ((f.flags % 2 ≡ 0) × (f.arb_id < 2 ^ 11))
  pub length_fits :
      ((f.flags / 2 % 8 ≡ 0) × (f.len ≤ 8))
      ⊎ ((f.flags / 2 % 8 ≢ 0) × (fd_capable ≡ true) × FdLength f.len × (f.flags / 16 % 2 ≡ 0))

abbrev agree : Bool → Bool → Bool
agree true b = b
agree false b = not b

agree-eq : (a b : Bool) → agree a b ≡ true → a ≡ b
agree-eq true b h = ground arith
agree-eq false b h = ground arith

by_table :
    (p q : ℕ → Bool) (x : ℕ) → all_below 256 (λ k. agree (p k) (q k)) ≡ true → x < 256 → p x ≡ q x
by_table p q x h lt = agree-eq (p x) (q x) (all_below_sound 256 (λ k. agree (p k) (q k)) x h lt)

abbrev wants_fd : ℕ → Bool
wants_fd x = has_flag x can_flag_fd || has_flag x (bit_or can_flag_brs can_flag_esi)

-- The masks as tests on the digits of the flags.
pub flag-masks :
    (x : ℕ)
    → x < 256
    → (has_flag x can_flag_reserved_mask ≡ leb 32 x)
      × (has_flag x can_flag_extended ≡ (x % 2 == 1))
      × (wants_fd x ≡ not (x / 2 % 8 == 0))
      × (has_flag x can_flag_rtr ≡ (x / 16 % 2 == 1))
unfolding all_below
flag-masks x h = (
  by_table (λ k. has_flag k can_flag_reserved_mask) (λ k. leb 32 k) x refl h,
  by_table (λ k. has_flag k can_flag_extended) (λ k. k % 2 == 1) x refl h,
  by_table wants_fd (λ k. not (k / 2 % 8 == 0)) x refl h,
  by_table (λ k. has_flag k can_flag_rtr) (λ k. k / 16 % 2 == 1) x refl h,
)

-- A frame with a byte of flags passes just when it is sendable: no reserved flag, an identifier of
-- 29 or 11 bits, and a payload length that the bus and the kind of frame allow.
pub validate_frame_iff :
    (bus_name : Text) (fd_capable : Bool) (f : SimCanFrame)
    → f.flags < 256
    → (validate_frame bus_name fd_capable f ≡ ok tt) ↔ IsSendable fd_capable f
unfolding validate_frame
validate_frame_iff bus_name fd_capable f h =
    let (reserved, extended, fd, rtr) = flag-masks f.flags h in
    (
      (λ p. record {
        no_reserved = ground arith;
        id_in_range = ground arith;
        length_fits = ground arith;
      }),
      (λ s.
          rw (reserved, extended, fd, rtr)
            (ground (arith, s.no_reserved, s.id_in_range, s.length_fits))),
    )
