-- ===== src/Base/Plain.antt =====
-- Texts of visible ASCII characters, on which the functions of `Strings` do little, and what those
-- functions keep of every character.
use Prim.Native.Nat.{ℕ, ◌<◌, ◌≤◌}
use mathlib.Core.Path.{◌≡◌, refl, sym, ap, ◌∙◌}
use mathlib.Core.Bool.{false}
use mathlib.Core.Logic.{inl, inr}
use mathlib.Core.List.{
  List, [], ◌∷◌, ◌++◌, reverse, reverse-cons, reverse-reverse, append-nil, append_assoc,
}
use native.Mathlib.Omega.{arith}
use agent_sim.Base.Tests.{◌==◌, Bool-cases}
use agent_sim.Base.Lists.{All, All-append}
use agent_sim.Base.Strings.{
  Text, utf8, is_whitespace, trim_start, trim, strip_cr, lines_onto, lines,
}

abbrev pub IsPlain : ℕ → Type 0
IsPlain c = (0x21 ≤ c) × (c < 0x7F)

abbrev pub IsAscii : ℕ → Type 0
IsAscii c = c < 0x80

pub All-reverse {ℓ κ} : {A : Type ℓ} (P : A → Type κ) (xs : List A) → All P xs → All P (reverse xs)
All-reverse P [] h = tt
All-reverse P (x ∷ xs) h =
    let whole : All P (reverse xs ++ x ∷ []) =
      All-append P (reverse xs) (x ∷ []) (All-reverse P xs h.1) (h.0, tt) in
    rw (reverse-cons x xs) whole

pub utf8_ascii : (s : Text) → All IsAscii s → utf8 s ≡ s
unfolding utf8
utf8_ascii [] h = refl
utf8_ascii (c ∷ s) h = ground (arith, utf8_ascii s h.1)

pub plain-IsAscii : (s : Text) → All IsPlain s → All IsAscii s
plain-IsAscii [] h = tt
plain-IsAscii (c ∷ s) h = (omega arith, plain-IsAscii s h.1)

trim_start_plain : (s : Text) → All IsPlain s → trim_start s ≡ s
unfolding trim_start is_whitespace
trim_start_plain [] h = refl
trim_start_plain (c ∷ s) h = ground arith

pub trim_plain : (s : Text) → All IsPlain s → trim s ≡ s
unfolding trim
trim_plain s h =
    rw (trim_start_plain s h, trim_start_plain (reverse s) (All-reverse IsPlain s h))
      (reverse-reverse s)

strip_cr_plain : (s : Text) → All IsPlain s → strip_cr s ≡ s
unfolding strip_cr
strip_cr_plain [] h = refl
strip_cr_plain (c ∷ []) h = ground arith
strip_cr_plain (c ∷ d ∷ s) h = ap (◌∷◌ c) (strip_cr_plain (d ∷ s) h.1)

lines_onto_plain :
    (line s rest : Text)
    → All IsPlain s
    → lines_onto line (s ++ b'\n' ∷ rest) ≡ strip_cr (reverse line ++ s) ∷ lines rest
unfolding lines_onto lines
lines_onto_plain line [] rest h =
    ap (λ t. strip_cr t ∷ lines_onto [] rest) (sym (append-nil (reverse line)))
lines_onto_plain line (c ∷ s) rest h =
    let other : (c == b'\n') ≡ false = ground arith in
    rw (other, lines_onto)
      (lines_onto_plain (c ∷ line) s rest h.1
        ∙ ap (λ t. strip_cr t ∷ lines rest)
            (ap (λ t. t ++ s) (reverse-cons c line) ∙ append_assoc (reverse line) (c ∷ []) s))

-- A line of visible characters, with its newline, is the first line.
pub lines_plain : (s rest : Text) → All IsPlain s → lines (s ++ b'\n' ∷ rest) ≡ s ∷ lines rest
unfolding lines
lines_plain s rest h = lines_onto_plain [] s rest h ∙ ap (λ t. t ∷ lines rest) (strip_cr_plain s h)

module _ {ℓ} (P : ℕ → Type ℓ) where
  All-trim_start : (s : Text) → All P s → All P (trim_start s)
  unfolding trim_start
  All-trim_start [] h = tt
  All-trim_start (c ∷ s) h = elim (Bool-cases (is_whitespace c)) [
    | inl blank ↦ rw (blank, trim_start) (All-trim_start s h.1)
    | inr other ↦ rw (other, trim_start) h
  ]

  pub All-trim : (s : Text) → All P s → All P (trim s)
  unfolding trim
  All-trim s h =
      All-reverse P _ (All-trim_start _ (All-reverse P (trim_start s) (All-trim_start s h)))

  All-strip_cr : (s : Text) → All P s → All P (strip_cr s)
  unfolding strip_cr
  All-strip_cr [] h = tt
  All-strip_cr (c ∷ []) h = elim (Bool-cases (c == b'\r')) [
    | inl e ↦ rw (e, strip_cr) tt
    | inr e ↦ rw (e, strip_cr) h
  ]
  All-strip_cr (c ∷ d ∷ s) h = (h.0, All-strip_cr (d ∷ s) h.1)

  All-lines_onto : (line s : Text) → All P line → All P s → All (All P) (lines_onto line s)
  unfolding lines_onto
  All-lines_onto [] [] l h = tt
  All-lines_onto (c ∷ line) [] l h = (All-reverse P (c ∷ line) l, tt)
  All-lines_onto line (c ∷ s) l h = elim (Bool-cases (c == b'\n')) [
    | inl e ↦
        rw (e, lines_onto)
          (All-strip_cr (reverse line) (All-reverse P line l), All-lines_onto [] s tt h.1)
    | inr e ↦ rw (e, lines_onto) (All-lines_onto (c ∷ line) s (h.0, l) h.1)
  ]

  pub All-lines : (s : Text) → All P s → All (All P) (lines s)
  unfolding lines
  All-lines s h = All-lines_onto [] s tt h
