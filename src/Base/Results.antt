-- ===== src/Base/Results.antt =====
-- Rust's `Result<A, E>` with its `?`, and `Option` turned into a result.
use mathlib.Core.Path.{◌≡◌, refl}
use mathlib.Core.Option.{Option, none, some}
use mathlib.Core.Bool.{Bool, true, false}
use mathlib.Core.Logic.{◌⊎◌, inl, inr}

pub data Result {ℓ κ} (A : Type ℓ) (E : Type κ) : Type (ℓ ⊔ κ) where
  ok : A → Result A E
  err : E → Result A E

-- An early return of an error when the test holds.
abbrev pub reject {μ} : {E : Type μ} → Bool → E → Result (Unit {0}) E
reject true e = err e
reject false e = ok tt

-- The operator `?`: the error leaves the function, the value goes on.
infixl 5 ◌>>=◌
abbrev pub ◌>>=◌ {ℓ κ μ} :
    {A : Type ℓ} {B : Type κ} {E : Type μ} → Result A E → (A → Result B E) → Result B E
◌>>=◌ (err e) next = err e
◌>>=◌ (ok a) next = next a

infixl 5 ◌>>◌
abbrev pub ◌>>◌ {κ μ} : {B : Type κ} {E : Type μ} → Result (Unit {0}) E → Result B E → Result B E
check >> next = check >>= λ _. next

abbrev pub ok_or {ℓ μ} : {A : Type ℓ} {E : Type μ} → Option A → E → Result A E
ok_or none e = err e
ok_or (some a) e = ok a

abbrev pub map_err {ℓ κ μ} :
    {A : Type ℓ} {E : Type κ} {F : Type μ} → (E → F) → Result A E → Result A F
map_err f (ok a) = ok a
map_err f (err e) = err (f e)

-- What a chain that ended well went through.
pub >>=-eq-ok {ℓ κ μ} :
    {A : Type ℓ} {B : Type κ} {E : Type μ} (r : Result A E) (next : A → Result B E) {out : B}
    → (r >>= next) ≡ ok out
    → (a : A) × (r ≡ ok a) × (next a ≡ ok out)
>>=-eq-ok (err e) next same = cc
>>=-eq-ok (ok a) next same = (a, refl, same)

pub Result-cases {ℓ κ} :
    {A : Type ℓ} {E : Type κ} (r : Result A E) → ((a : A) × (r ≡ ok a)) ⊎ ((e : E) × (r ≡ err e))
Result-cases (ok a) = inl (a, refl)
Result-cases (err e) = inr (e, refl)

pub ok_injective {ℓ κ} :
    {A : Type ℓ} {E : Type κ} {a b : A} → ◌≡◌ {A = Result A E} (ok a) (ok b) → a ≡ b
ok_injective e = cc

-- A test that let the rest of the function run.
pub reject-eq_ok {κ μ} :
    {B : Type κ} {E : Type μ} (test : Bool) (e : E) (rest : Result B E) {out : B}
    → (reject test e >> rest) ≡ ok out
    → (test ≡ false) × (rest ≡ ok out)
reject-eq_ok true e rest same = absurd (cc)
reject-eq_ok false e rest same = (refl, same)

-- A step on a state, and the step behind it when it went well.
abbrev pub and_then :
    {S A B E : Type 0} → Result A E × S → (A → S → Result B E × S) → Result B E × S
and_then (err e, s) next = (err e, s)
and_then (ok a, s) next = next a s

-- A test in front of a step.
abbrev pub guarded : {S A B E : Type 0} → Result A E → S → (A → Result B E × S) → Result B E × S
guarded (err e) s next = (err e, s)
guarded (ok a) s next = next a

-- A property of the state behind steps that follow each other.
module _ {S A B E : Type 0} (P : S → Type 0) where
  pub and_then-keeps :
      (first : Result A E × S) (next : A → S → Result B E × S)
      → P first.1
      → ((a : A) (s : S) → P s → P (next a s).1)
      → P (and_then first next).1
  and_then-keeps (err e, s) next h k = h
  and_then-keeps (ok a, s) next h k = k a s h

  pub guarded-keeps :
      (r : Result A E) (s : S) (next : A → Result B E × S)
      → P s
      → ((a : A) → r ≡ ok a → P (next a).1)
      → P (guarded r s next).1
  guarded-keeps (err e) s next h k = h
  guarded-keeps (ok a) s next h k = k a refl
