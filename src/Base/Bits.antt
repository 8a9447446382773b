-- ===== src/Base/Bits.antt =====
-- Laws of `bit_and` and `bit_or` at variables, and a check of every value below a bound.
use Prim.Native.Nat.{
  ℕ, zero, suc, ◌+◌, ◌-◌, ◌*◌, ◌/◌, ◌%◌, ◌^◌, ◌≤◌, ◌<◌, min, max, bit_and, bit_or, digits,
  bit_and-bitwise, bit_or-bitwise,
}
use mathlib.Core.Path.{◌≡◌, refl, sym, ap, ◌∙◌}
use mathlib.Core.Bool.{Bool, true, ◌&&◌}
use native.Mathlib.Omega.{arith}
use native.Mathlib.Nat.{pow-suc, div-div-eq-div-mul, mod-add-div', one-le-pow}

-- Whether a test holds of every number under a bound.
unfoldable pub all_below : ℕ → (ℕ → Bool) → Bool
all_below zero test = true
all_below (suc bound) test = test bound && all_below bound test

pub all_below_sound :
    (bound : ℕ) (test : ℕ → Bool) (k : ℕ) → all_below bound test ≡ true → k < bound → test k ≡ true
unfolding all_below
all_below_sound zero test k all under = absurd (omega arith)
all_below_sound (suc bound) test k all under = ground (arith, all_below_sound bound test k)

-- Fuel beyond the first number changes nothing in the recursion that the operations stand for.
module _ (last : ℕ → ℕ) (digit : ℕ → ℕ → ℕ) where
  digits-suc :
      (fuel x y : ℕ) → x ≤ fuel → digits last digit fuel x y ≡ digits last digit (suc fuel) x y
  digits-suc zero zero y enough = refl
  digits-suc (suc fuel) zero y enough = refl
  digits-suc zero (suc x) y enough = absurd (omega arith)
  digits-suc (suc fuel) (suc x) y enough = rw (digits-suc fuel (suc x / 2) (y / 2) (omega arith))

  digits_more :
      (extra fuel total x y : ℕ)
      → extra + fuel ≡ total
      → x ≤ fuel
      → digits last digit fuel x y ≡ digits last digit total x y
  digits_more zero fuel total x y sum enough = let e : fuel ≡ total = omega arith in rw e
  digits_more (suc extra) fuel total x y sum enough =
      digits-suc fuel x y enough
      ∙ digits_more extra (suc fuel) total x y (omega arith) (omega arith)

  digits_half :
      (x y : ℕ) → digits last digit (suc x / 2) (suc x / 2) y ≡ digits last digit x (suc x / 2) y
  digits_half x y =
      digits_more (x - suc x / 2) (suc x / 2) x (suc x / 2) y (omega arith) (omega arith)

zero-bit_and : (b : ℕ) → bit_and 0 b ≡ 0
zero-bit_and b = bit_and-bitwise 0 b

zero-bit_or : (b : ℕ) → bit_or 0 b ≡ b
zero-bit_or b = bit_or-bitwise 0 b

-- The lowest digit apart.
bit_and_step : (x y : ℕ) → bit_and x y ≡ bit_and (x / 2) (y / 2) * 2 + min (x % 2) (y % 2)
bit_and_step zero y = omega (arith, zero-bit_and y, zero-bit_and (y / 2))
bit_and_step (suc x) y =
    let whole = bit_and-bitwise (suc x) y in
    let rest = bit_and-bitwise (suc x / 2) (y / 2) in
    omega (arith, whole, rest, digits_half (λ _. 0) min x (y / 2))

bit_or_step : (x y : ℕ) → bit_or x y ≡ bit_or (x / 2) (y / 2) * 2 + max (x % 2) (y % 2)
bit_or_step zero y = omega (arith, zero-bit_or y, zero-bit_or (y / 2))
bit_or_step (suc x) y =
    let whole = bit_or-bitwise (suc x) y in
    let rest = bit_or-bitwise (suc x / 2) (y / 2) in
    omega (arith, whole, rest, digits_half (λ d. d) max x (y / 2))

zero_fuel : (n a : ℕ) → a ≤ n → (bit_and a 0 ≡ 0) × (bit_or a 0 ≡ a)
zero_fuel n zero h = (refl, refl)
zero_fuel zero (suc a) h = absurd (omega arith)
zero_fuel (suc n) (suc a) h =
    let rest = zero_fuel n (suc a / 2) (omega arith) in
    (omega (arith, bit_and_step (suc a) 0), omega (arith, bit_or_step (suc a) 0))

pub bit_and-one : (a : ℕ) → bit_and a 1 ≡ a % 2
bit_and-one a = omega (arith, bit_and_step a 1, (zero_fuel (a / 2) (a / 2) (omega arith)).0)

pub bit_or-zero : (a : ℕ) → bit_or a 0 ≡ a
bit_or-zero a = (zero_fuel a a (omega arith)).1

bit_or-double : (a x : ℕ) → bit_or a (x * 2) ≡ bit_or (a / 2) x * 2 + a % 2
bit_or-double a x =
    let half : x * 2 / 2 ≡ x = omega arith in bit_or_step a (x * 2) ∙ rw half (omega arith)

times-pow_suc : (b i : ℕ) → b * 2 ^ suc i ≡ b * 2 ^ i * 2
times-pow_suc b i = rw (pow-suc 2 i) (omega arith)

-- A bit above all digits of a number is added by `or`.
pub bit_or-high : (i a b : ℕ) → a < 2 ^ i → b < 2 → bit_or a (b * 2 ^ i) ≡ a + b * 2 ^ i
bit_or-high zero zero b h k = zero-bit_or (b * 2 ^ 0) ∙ omega arith
bit_or-high zero (suc a) b h k = absurd (omega arith)
bit_or-high (suc i) a b h k =
    let low : a / 2 < 2 ^ i = omega (arith, pow-suc 2 i) in
    rw (times-pow_suc b i)
      (bit_or-double a (b * 2 ^ i) ∙ omega (arith, bit_or-high i (a / 2) b low k))

-- Shifting in one bit at the low end.
pub bit_or-low : (a b : ℕ) → b < 2 → bit_or (a * 2) b ≡ a * 2 + b
bit_or-low a b k =
    let high : a * 2 / 2 ≡ a = omega arith in
    let low : b / 2 ≡ 0 = omega arith in
    bit_or_step (a * 2) b ∙ rw (high, low, bit_or-zero a) (omega arith)

mod_low : (a m : ℕ) → a % (m * 2) ≡ a / 2 % m * 2 + a % 2
mod_low a m =
    let whole : a % (m * 2) + a / 2 / m * (m * 2) ≡ a =
      rw (div-div-eq-div-mul a 2 m, div-swap a m) (mod-add-div' a (m * 2)) in
    omega (arith, whole, ap (λ t. t * 2) (mod-add-div' (a / 2) m))
  where
    div-swap : (a m : ℕ) → a / (2 * m) ≡ a / (m * 2)
    div-swap a m = let e : 2 * m ≡ m * 2 = omega arith in rw e

-- A mask of the lowest `k` bits keeps the remainder.
pub bit_and-mask : (k a : ℕ) → bit_and a (2 ^ k - 1) ≡ a % 2 ^ k
bit_and-mask zero a = (zero_fuel a a (omega arith)).0 ∙ omega arith
bit_and-mask (suc k) a =
    let half : (2 ^ suc k - 1) / 2 ≡ 2 ^ k - 1 = omega (arith, pow-suc 2 k) in
    let odd : (2 ^ suc k - 1) % 2 ≡ 1 = omega (arith, pow-suc 2 k, one-le-pow k 2 (omega arith)) in
    bit_and_step a (2 ^ suc k - 1)
    ∙ rw (half, odd, bit_and-mask k (a / 2)) (rw (pow-suc 2 k) (omega (arith, mod_low a (2 ^ k))))

-- A mask of the single bit `k` keeps that bit.
pub bit_and-pow : (k a : ℕ) → bit_and a (2 ^ k) ≡ a / 2 ^ k % 2 * 2 ^ k
bit_and-pow zero a = bit_and-one a ∙ omega arith
bit_and-pow (suc k) a =
    let half : 2 ^ suc k / 2 ≡ 2 ^ k = omega (arith, pow-suc 2 k) in
    let even : 2 ^ suc k % 2 ≡ 0 = omega (arith, pow-suc 2 k) in
    let shift : a / 2 ^ suc k ≡ a / 2 / 2 ^ k = rw (pow-suc 2 k) (div_half a (2 ^ k)) in
    bit_and_step a (2 ^ suc k)
    ∙ rw (half, even, bit_and-pow k (a / 2), shift) (rw (pow-suc 2 k) (omega arith))
  where
    div_half : (a m : ℕ) → a / (m * 2) ≡ a / 2 / m
    div_half a m = let e : m * 2 ≡ 2 * m = omega arith in rw e (sym (div-div-eq-div-mul a 2 m))

pub pow_add : (a b : ℕ) → 2 ^ (a + b) ≡ 2 ^ a * 2 ^ b
pow_add zero b = let e : 0 + b ≡ b = omega arith in rw e (omega arith)
pow_add (suc a) b =
    let e : suc a + b ≡ suc (a + b) = omega arith in
    rw (e, pow-suc 2 a, pow-suc 2 (a + b), pow_add a b) (omega arith)
