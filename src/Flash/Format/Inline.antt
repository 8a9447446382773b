-- ===== src/Flash/Format/Inline.antt =====
-- runtime/src/load/mod.rs, the `encode_inline_…` functions: the bytes of a value, low byte first.
-- A signed value is an integer; a float is given by its 32-bit pattern.
use agent_sim.Base.{
  ℕ, ◌+◌, ◌-◌, ◌*◌, ◌/◌, ◌%◌, ◌^◌, ◌<◌, ◌≡◌, refl, Bool, true, false, List, [], ◌∷◌, arith, ltb,
  if◌then◌else◌, length, All, ℤ, pos, negsuc, ◌≤ℤ◌,
}

unfoldable pub encode_inline_u32 : ℕ → List ℕ
encode_inline_u32 value =
    value % 256 ∷ value / 256 % 256 ∷ value / 65536 % 256 ∷ value / 16777216 % 256 ∷ []

-- The two's complement of 32 bits.
abbrev pub bits_of : ℤ → ℕ
bits_of (pos n) = n % 2 ^ 32
bits_of (negsuc n) = 2 ^ 32 - 1 - n % 2 ^ 32

unfoldable pub encode_inline_i32 : ℤ → List ℕ
unfolding encode_inline_u32
encode_inline_i32 value = encode_inline_u32 (bits_of value)

unfoldable pub encode_inline_f32 : ℕ → List ℕ
unfolding encode_inline_u32
encode_inline_f32 pattern_bits = encode_inline_u32 pattern_bits

unfoldable pub encode_inline_bool : Bool → List ℕ
encode_inline_bool true = 1 ∷ []
encode_inline_bool false = 0 ∷ []

-- The number that the bytes stand for, low byte first.
abbrev pub le_value : List ℕ → ℕ
le_value [] = 0
le_value (b ∷ bs) = b + 256 * le_value bs

-- The integer that a 32-bit pattern stands for.
abbrev pub signed32 : ℕ → ℤ
signed32 w = if ltb w (2 ^ 31) then pos w else negsuc (2 ^ 32 - 1 - w)

-- An unsigned value is the number that its four bytes stand for.
pub encode_inline_u32-value :
    (n : ℕ)
    → n < 2 ^ 32
    → (le_value (encode_inline_u32 n) ≡ n)
      × (length (encode_inline_u32 n) ≡ 4)
      × All (λ b. b < 256) (encode_inline_u32 n)
unfolding encode_inline_u32
encode_inline_u32-value n h = (omega arith, refl, omega arith)

-- A signed 32-bit value is the integer that its four bytes stand for in two's complement.
pub encode_inline_i32-value :
    (z : ℤ)
    → negsuc (2 ^ 31 - 1) ≤ℤ z
    → z ≤ℤ pos (2 ^ 31 - 1)
    → signed32 (le_value (encode_inline_i32 z)) ≡ z
unfolding encode_inline_i32
encode_inline_i32-value (pos n) l h =
    rw ((encode_inline_u32-value (n % 2 ^ 32) (omega arith)).0) (ground arith)
encode_inline_i32-value (negsuc n) l h =
    rw ((encode_inline_u32-value (2 ^ 32 - 1 - n % 2 ^ 32) (omega arith)).0) (ground arith)
