-- ===== src/Env/Duration.antt =====
-- `parse_duration_us` of runtime/src/protocol.rs and `duration_to_env_ticks` of
-- runtime/src/envd/server.rs. Doubles and the parsing of one are parameters.
use agent_sim.Base.{
  ℕ, ◌+◌, ◌-◌, ◌*◌, ◌/◌, ◌^◌, ◌≤◌, ◌<◌, ◌≡◌, sym, inl, inr, not, ◌||◌, Option, none, some, [], ◌∷◌,
  arith, ◌==◌, if◌then◌else◌, ==_iff, Bool-cases, pos, Result, ok, ◌>>=◌, ◌>>◌, reject, ok_or,
  >>=-eq-ok, ok_injective, reject-eq_ok, Text, codes, text_eq, trim,
}
use native.Mathlib.Nat.{mod-add-div', mod-lt}
use agent_sim.Base.Float.{Floats}

pub data DurationError : Type 0 where
  invalid_duration : Text → DurationError
  period_is_zero tick_is_zero : DurationError

-- `str::strip_suffix`.
abbrev pub strip_suffix : Text → Text → Option Text
strip_suffix suffix [] = if text_eq [] suffix then some [] else none
strip_suffix suffix (c ∷ s) =
    let rest = strip_suffix suffix s in
    if text_eq (c ∷ s) suffix
    then some []
    else elim rest [ none ↦ none | some front ↦ some (c ∷ front) ]

-- The part in front of the unit, with the microseconds of the unit.
unfoldable pub split_unit : Text → Option (Text × ℕ)
split_unit trimmed = elim (strip_suffix (codes "ms") trimmed) [
  | some v ↦ some (trim v, 1000)
  | none ↦ elim (strip_suffix (codes "us") trimmed) [
    | some v ↦ some (trim v, 1)
    | none ↦ elim (strip_suffix (codes "s") trimmed) [
      | some v ↦ some (trim v, 1000000)
      | none ↦ none
    ]
  ]
]

-- Rounded up, as `u64::div_ceil`.
abbrev pub div_ceil : ℕ → ℕ → ℕ
div_ceil a b = (a + (b - 1)) / b

unfoldable pub ticks_of : ℕ → ℕ → Result ℕ DurationError
ticks_of tick_duration_us duration_us = do
  reject (duration_us == 0) period_is_zero
  reject (tick_duration_us == 0) tick_is_zero
  ok (div_ceil duration_us tick_duration_us)

module _ (D : Floats) (parse_f64 : Text → Option D.F64) where
  abbrev in_us : D.F64 → ℕ → D.F64
  in_us value scale = if scale == 1 then value else D.mul value (D.of_int (pos scale))

  unfoldable pub parse_duration_us : Text → Result ℕ DurationError
  parse_duration_us input = do
    split ← ok_or (split_unit (trim input)) (invalid_duration (trim input))
    value ← ok_or (parse_f64 split.0) (invalid_duration (trim input))
    reject (not (D.is_finite value) || D.lt value (D.of_int (pos 0)))
        (invalid_duration (trim input))
    reject (D.lt (D.of_int (pos (2 ^ 64 - 1))) (in_us value split.1))
        (invalid_duration (trim input))
    ok (D.to_u64 (D.floor (in_us value split.1)))

  unfoldable pub duration_to_env_ticks : ℕ → Text → Result ℕ DurationError
  duration_to_env_ticks tick_duration_us raw = do
    duration_us ← parse_duration_us raw
    ticks_of tick_duration_us duration_us

  ceil-pos : (duration tick : ℕ) → 0 < tick → 0 < duration → 0 < div_ceil duration tick
  ceil-pos duration tick t d = elim (Bool-cases (div_ceil duration tick == 0)) [
    | inr some_ticks ↦ ground arith
    | inl no_ticks ↦
        let z : div_ceil duration tick ≡ 0 = (==_iff _ _).0 no_ticks in
        let whole = mod-add-div' (duration + (tick - 1)) tick in
        let part = mod-lt (duration + (tick - 1)) t in
        let none_covered : div_ceil duration tick * tick ≡ 0 = rw z (omega arith) in
        absurd (omega arith)
  ]

  ticks_of-covers :
      (tick duration ticks : ℕ)
      → ticks_of tick duration ≡ ok ticks
      → (0 < ticks) × (duration ≤ ticks * tick) × (ticks * tick < duration + tick)
  unfolding ticks_of
  ticks_of-covers tick duration ticks e =
      let (some_time, e1) = reject-eq_ok (duration == 0) period_is_zero _ e in
      let (some_tick, e2) = reject-eq_ok (tick == 0) tick_is_zero _ e1 in
      let t : 0 < tick = ground arith in
      let d : 0 < duration = ground arith in
      let n : ticks ≡ div_ceil duration tick = sym (ok_injective e2) in
      let whole = mod-add-div' (duration + (tick - 1)) tick in
      let part = mod-lt (duration + (tick - 1)) t in
      let covered : duration ≤ div_ceil duration tick * tick = omega arith in
      let tight : div_ceil duration tick * tick < duration + tick = omega arith in
      rw n (ceil-pos duration tick t d, covered, tight)

  -- The ticks of a period are at least one, cover the whole duration, and are the fewest that do.
  pub duration_to_env_ticks-covers :
      (tick_duration_us ticks : ℕ) (raw : Text)
      → duration_to_env_ticks tick_duration_us raw ≡ ok ticks
      → (duration_us : ℕ) × (parse_duration_us raw ≡ ok duration_us)
        × (0 < ticks)
        × (duration_us ≤ ticks * tick_duration_us)
        × (ticks * tick_duration_us < duration_us + tick_duration_us)
  unfolding duration_to_env_ticks
  duration_to_env_ticks-covers tick ticks raw e =
      let (duration, parsed, rest) = >>=-eq-ok (parse_duration_us raw) (ticks_of tick) e in
      let (positive, covered, tight) = ticks_of-covers tick duration ticks rest in
      (duration, parsed, positive, covered, tight)
