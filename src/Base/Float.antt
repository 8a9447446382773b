-- ===== src/Base/Float.antt =====
-- IEEE doubles, which the calculus does not have: a type with the operations that the program
-- applies. No law of rounding is assumed.
pub mod Ints
use Prim.Native.Nat.{ℕ}
use mathlib.Core.Bool.{Bool}
use agent_sim.Base.Int.{ℤ}

pub record Floats : Type 1 where
  pub F64 : Type 0
  pub is_finite : F64 → Bool
  pub lt : F64 → F64 → Bool
  pub eq : F64 → F64 → Bool
  pub add : F64 → F64 → F64
  pub sub : F64 → F64 → F64
  pub mul : F64 → F64 → F64
  pub div : F64 → F64 → F64
  pub round : F64 → F64
  pub floor : F64 → F64
  pub ceil : F64 → F64
  -- `as f64` of an integer, and the saturating casts back.
  pub of_int : ℤ → F64
  pub to_i64 : F64 → ℤ
  pub to_u64 : F64 → ℕ
