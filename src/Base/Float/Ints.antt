-- ===== src/Base/Float/Ints.antt =====
-- Integers in place of the doubles, to run the definitions on.
use Prim.Native.Nat.{suc, ◌+◌, ◌*◌, ◌/◌}
use mathlib.Core.Bool.{true, ◌&&◌}
use agent_sim.Base.Tests.{◌==◌}
use agent_sim.Base.Int.{ℤ, pos, negsuc, pos_part, neg_part, sub_ℕ, ltb_ℤ}
use agent_sim.Base.Float.{Floats}

abbrev div_ℤ : ℤ → ℤ → ℤ
div_ℤ a (pos n) = sub_ℕ (pos_part a / n) (neg_part a / n)
div_ℤ a (negsuc n) = sub_ℕ (neg_part a / suc n) (pos_part a / suc n)

abbrev pub ints : Floats
ints = record {
  F64 = ℤ;
  is_finite = λ a. true;
  lt = ltb_ℤ;
  eq = λ a b. pos_part a == pos_part b && neg_part a == neg_part b;
  add = λ a b. sub_ℕ (pos_part a + pos_part b) (neg_part a + neg_part b);
  sub = λ a b. sub_ℕ (pos_part a + neg_part b) (neg_part a + pos_part b);
  mul = λ a b.
      sub_ℕ (pos_part a * pos_part b + neg_part a * neg_part b)
        (pos_part a * neg_part b + neg_part a * pos_part b);
  div = div_ℤ;
  round = λ a. a;
  floor = λ a. a;
  ceil = λ a. a;
  of_int = λ a. a;
  to_i64 = λ a. a;
  to_u64 = pos_part;
}
