-- ===== src/Dbc/Bits/Laws.antt =====
-- What `set_bit` does to the bit at an index, and to all others.
use agent_sim.Base.{
  ℕ, zero, suc, ◌/◌, ◌%◌, ◌^◌, ◌≤◌, ◌<◌, ◌≡◌, refl, ap, ◌∙◌, inl, inr, Bool, true, false, ◌&&◌,
  none, some, List, [], ◌∷◌, arith, ltb, ◌==◌, if◌then◌else◌, ltb→lt, ==_iff, Bool-cases,
  &&-eq_true, length, get_elem?, set, All, length-set, get_elem?-some, get_elem?-none,
  All-get_elem?, All-set, ok, err, all_below, all_below_sound, bit_and-one,
}
use agent_sim.Dbc.Bits.{get_bit, with_bit, set_bit}
use agent_sim.Dbc.Types.{bit_out_of_bounds}

-- The bytes of a frame.
abbrev pub IsData : List ℕ → Type 0
IsData bytes = (length bytes ≡ 64) × All (λ b. b < 256) bytes

-- The bit at an index, 0 outside the bytes.
abbrev pub byte_at : List ℕ → ℕ → ℕ
byte_at bytes i = elim (get_elem? bytes i) [ none ↦ 0 | some b ↦ b ]

abbrev pub bit_at : List ℕ → ℕ → ℕ
bit_at bytes index = byte_at bytes (index / 8) / 2 ^ (index % 8) % 2

table_entry : ℕ → ℕ → ℕ → Bool
table_entry bit k byte =
    ltb (with_bit bit k byte) 256
    && all_below 8
        (λ j. with_bit bit k byte / 2 ^ j % 2 == (if k == j then bit else byte / 2 ^ j % 2))

table :
    all_below 2 (λ bit. all_below 8 (λ k. all_below 256 (λ byte. table_entry bit k byte))) ≡ true
unfolding all_below table_entry with_bit
table = refl

table-at : (bit k byte : ℕ) → bit < 2 → k < 8 → byte < 256 → table_entry bit k byte ≡ true
table-at bit k byte hb hk h =
    let bits =
      all_below_sound 2 (λ bit. all_below 8 (λ k. all_below 256 (λ byte. table_entry bit k byte)))
        bit table hb in
    let ks = all_below_sound 8 (λ k. all_below 256 (λ byte. table_entry bit k byte)) k bits hk in
    all_below_sound 256 (λ byte. table_entry bit k byte) byte ks h

with_bit-lt : (bit k byte : ℕ) → bit < 2 → k < 8 → byte < 256 → with_bit bit k byte < 256
unfolding table_entry
with_bit-lt bit k byte hb hk h = ltb→lt _ _ (&&-eq_true _ _ (table-at bit k byte hb hk h)).0

digit-with_bit :
    (bit k byte j : ℕ)
    → bit < 2
    → k < 8
    → byte < 256
    → j < 8
    → with_bit bit k byte / 2 ^ j % 2 ≡ (if k == j then bit else byte / 2 ^ j % 2)
unfolding table_entry
digit-with_bit bit k byte j hb hk h hj = (==_iff _ _).0 (
    all_below_sound 8
      (λ j. with_bit bit k byte / 2 ^ j % 2 == (if k == j then bit else byte / 2 ^ j % 2)) j
      (&&-eq_true _ _ (table-at bit k byte hb hk h)).1 hj)

byte_at-lt : (bytes : List ℕ) (i : ℕ) → All (λ b. b < 256) bytes → byte_at bytes i < 256
byte_at-lt [] i h = omega arith
byte_at-lt (b ∷ bs) zero h = h.0
byte_at-lt (b ∷ bs) (suc i) h = byte_at-lt bs i h.1

byte_at-set :
    (bytes : List ℕ) (i j v : ℕ)
    → i < length bytes
    → byte_at (set bytes i v) j ≡ (if i == j then v else byte_at bytes j)
byte_at-set [] i j v h = elim h [ ]
byte_at-set (b ∷ bs) zero zero v h = refl
byte_at-set (b ∷ bs) zero (suc j) v h = ground arith
byte_at-set (b ∷ bs) (suc i) zero v h = ground arith
byte_at-set (b ∷ bs) (suc i) (suc j) v h = ground (arith, byte_at-set bs i j v (omega arith))

-- Inside the frame a bit is read.
pub get_bit-bit_at :
    (bytes : List ℕ) (index : ℕ)
    → IsData bytes
    → index < 512
    → get_bit bytes index ≡ ok (bit_at bytes index)
unfolding get_bit
get_bit-bit_at bytes index h lt =
    let (b, e) = get_elem?-some bytes (index / 8) (omega arith) in
    rw (e, get_bit, byte_at) (ap ok (bit_and-one (b / 2 ^ (index % 8))))

-- Outside it is an error to read or to write one.
pub bit_out_of_bounds_lem :
    (bytes : List ℕ) (index bit : ℕ)
    → IsData bytes
    → 512 ≤ index
    → (get_bit bytes index ≡ err (bit_out_of_bounds index))
      × (set_bit bytes index bit ≡ err (bit_out_of_bounds index))
unfolding get_bit set_bit
bit_out_of_bounds_lem bytes index bit h le =
    let e = get_elem?-none bytes (index / 8) (omega arith) in (rw (e, get_bit), rw (e, set_bit))

bit_at-set :
    (bytes : List ℕ) (index bit j : ℕ)
    → IsData bytes
    → index < 512
    → bit < 2
    → bit_at (set bytes (index / 8) (with_bit bit (index % 8) (byte_at bytes (index / 8)))) j
      ≡ (if index == j then bit else bit_at bytes j)
bit_at-set bytes index bit j h lt hb =
    rw
      (byte_at-set bytes (index / 8) (j / 8) (with_bit bit (index % 8) (byte_at bytes (index / 8)))
        (omega arith))
      (elim (Bool-cases (index / 8 == j / 8)) [
        | inl same ↦
            let e : index / 8 ≡ j / 8 = (==_iff _ _).0 same in
            rw
              (
                same,
                digit-with_bit bit (index % 8) (byte_at bytes (index / 8)) (j % 8) hb (omega arith)
                    (byte_at-lt bytes (index / 8) h.1) (omega arith),
              )
              (elim (Bool-cases (index % 8 == j % 8)) [
                | inl k ↦ let i : (index == j) ≡ true = ground arith in rw (k, i)
                | inr k ↦ let i : (index == j) ≡ false = ground arith in rw (k, i, e)
              ])
        | inr other ↦ let i : (index == j) ≡ false = ground arith in rw (other, i)
      ])

abbrev pub SetsBit : List ℕ → ℕ → ℕ → Type 0
SetsBit bytes index bit =
    (after : List ℕ) × (set_bit bytes index bit ≡ ok after)
    × IsData after
    × ((j : ℕ) → bit_at after j ≡ (if index == j then bit else bit_at bytes j))

set_bit_at :
    (bytes : List ℕ) (index bit b : ℕ)
    → IsData bytes
    → index < 512
    → bit < 2
    → get_elem? bytes (index / 8) ≡ some b
    → SetsBit bytes index bit
unfolding set_bit
set_bit_at bytes index bit b h lt hb e =
    let at : byte_at bytes (index / 8) ≡ b = rw (e, byte_at) in
    let v =
      with_bit-lt bit (index % 8) b hb (omega arith)
        (All-get_elem? (λ b. b < 256) bytes (index / 8) h.1 e) in
    (
      set bytes (index / 8) (with_bit bit (index % 8) b),
      rw (e, set_bit),
      (length-set bytes (index / 8) _ ∙ h.0, All-set (λ b. b < 256) bytes (index / 8) _ h.1 v),
      λ j. rw at at (bit_at-set bytes index bit j h lt hb),
    )

-- Setting a bit of the frame sets that bit and no other, and leaves bytes.
pub set_bit-bit_at :
    (bytes : List ℕ) (index bit : ℕ)
    → IsData bytes
    → index < 512
    → bit < 2
    → SetsBit bytes index bit
set_bit-bit_at bytes index bit h lt hb =
    let (b, e) = get_elem?-some bytes (index / 8) (omega arith) in
    set_bit_at bytes index bit b h lt hb e
