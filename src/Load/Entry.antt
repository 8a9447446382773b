-- ===== src/Load/Entry.antt =====
-- runtime/src/load/resolve.rs: `parse_cli_flash_entry`, a path with an optional address behind a
-- colon.
use agent_sim.Base.{
  ℕ, ◌≤◌, ◌≡◌, refl, sym, ap, subst, ◌∙◌, ◌≢◌, ◌↔◌, ◌⊎◌, inl, inr, Bool, true, false, not, ◌&&◌,
  ◌||◌, Option, none, some, [], ◌∷◌, ◌++◌, arith, leb, ◌==◌, if◌then◌else◌, &&-eq_true, All,
  all_true, Text, codes, starts_with, contains_char, is_empty,
}

-- `str::rsplit_once`: the text in front of the last `c` and behind it.
abbrev pub rsplit_once : ℕ → Text → Option (Text × Text)
rsplit_once c [] = none
rsplit_once c (d ∷ s) = elim (rsplit_once c s) [
  | some (front, back) ↦ some (d ∷ front, back)
  | none ↦ if d == c then some ([], s) else none
]

abbrev pub is_ascii_digit : ℕ → Bool
is_ascii_digit c = leb b'0' c && leb c b'9'

-- Whether the part behind the colon is meant as an address.
abbrev pub is_base : Text → Bool
is_base s =
    starts_with (codes "0x") s
    || starts_with (codes "0X") s
    || (not (is_empty s) && all_true is_ascii_digit s)

abbrev entry_parts : Text → Option (Text × Text) → Text × Option Text
entry_parts raw none = (raw, none)
entry_parts raw (some (path, maybe_base)) =
    if is_base maybe_base then (path, some maybe_base) else (raw, none)

unfoldable pub parse_cli_flash_entry : Text → Text × Option Text
parse_cli_flash_entry raw = entry_parts raw (rsplit_once b':' raw)

-- A text without a character has no part behind its last one.
rsplit_once-none : (c : ℕ) (s : Text) → contains_char c s ≡ false → rsplit_once c s ≡ none
rsplit_once-none c [] h = refl
rsplit_once-none c (d ∷ s) h = ground (arith, rsplit_once-none c s)

rsplit_once-append :
    (c : ℕ) (front back : Text)
    → contains_char c back ≡ false
    → rsplit_once c (front ++ c ∷ back) ≡ some (front, back)
rsplit_once-append c [] back h =
    let same : (c == c) ≡ true = ground arith in rw (rsplit_once-none c back h, same) refl
rsplit_once-append c (d ∷ front) back h = rw (rsplit_once-append c front back h) refl

-- A path of any characters with a colon and an address behind it is taken apart again.
pub parse_cli_flash_entry-append :
    (path base : Text)
    → is_base base ≡ true
    → contains_char b':' base ≡ false
    → parse_cli_flash_entry (path ++ b':' ∷ base) ≡ (path, some base)
unfolding parse_cli_flash_entry
parse_cli_flash_entry-append path base h k = rw (rsplit_once-append b':' path base k, h) refl

abbrev IsSplit : ℕ → Text → Option (Text × Text) → Type 0
IsSplit c s none = contains_char c s ≡ false
IsSplit c s (some (front, back)) = (s ≡ front ++ c ∷ back) × (contains_char c back ≡ false)

rsplit_once-IsSplit : (c : ℕ) (s : Text) → IsSplit c s (rsplit_once c s)
rsplit_once-IsSplit c [] = refl
rsplit_once-IsSplit c (d ∷ s) = ground (arith, rsplit_once-IsSplit c s)

abbrev pub joined : Text × Option Text → Text
joined (path, none) = path
joined (path, some base) = path ++ b':' ∷ base

abbrev IsDigit : ℕ → Type 0
IsDigit c = (b'0' ≤ c) × (c ≤ b'9')

-- What is meant as an address: hexadecimal digits by their prefix, or decimal digits.
abbrev pub IsBase : Text → Type 0
IsBase s =
    ((digits : Text) × (s ≡ b'0' ∷ b'x' ∷ digits))
    ⊎ ((digits : Text) × (s ≡ b'0' ∷ b'X' ∷ digits))
    ⊎ ((s ≢ []) × All IsDigit s)

digit : {c : ℕ} → is_ascii_digit c ≡ true → IsDigit c
digit h = ground arith

digits_iff : (s : Text) → (all_true is_ascii_digit s ≡ true) ↔ All IsDigit s
digits_iff [] = ((λ _. tt), λ _. refl)
digits_iff (c ∷ s) = (
  (λ h. let (here, rest) = &&-eq_true _ _ h in (digit here, (digits_iff s).0 rest)),
  λ h. let rest = (digits_iff s).1 h.1 in rw rest (ground arith),
)

starts_with-two :
    (a b : ℕ) (s : Text) → starts_with (a ∷ b ∷ []) s ≡ true → (rest : Text) × (s ≡ a ∷ b ∷ rest)
starts_with-two a b [] h = absurd (cc)
starts_with-two a b (c ∷ []) h = absurd (ground arith)
starts_with-two a b (c ∷ d ∷ s) h =
    let first : c ≡ a = ground arith in
    let second : d ≡ b = ground arith in (s, rw (first, second) refl)

two-starts_with : (a b : ℕ) (rest : Text) → starts_with (a ∷ b ∷ []) (a ∷ b ∷ rest) ≡ true
two-starts_with a b rest = ground arith

prefix_iff :
    (a b : ℕ) (s : Text)
    → (starts_with (a ∷ b ∷ []) s ≡ true) ↔ ((rest : Text) × (s ≡ a ∷ b ∷ rest))
prefix_iff a b s =
    (starts_with-two a b s, λ (rest, e). ap (starts_with (a ∷ b ∷ [])) e ∙ two-starts_with a b rest)

decimal_iff :
    (s : Text)
    → ((not (is_empty s) && all_true is_ascii_digit s) ≡ true) ↔ ((s ≢ []) × All IsDigit s)
decimal_iff [] = ((λ h. absurd (cc)), λ h. absurd (h.0 refl))
decimal_iff (c ∷ s) =
    ((λ h. ((λ e. cc), (digits_iff (c ∷ s)).0 h)), λ h. (digits_iff (c ∷ s)).1 h.1)

||-iff :
    {P Q R : Type 0} (p q r : Bool)
    → (p ≡ true) ↔ P
    → (q ≡ true) ↔ Q
    → (r ≡ true) ↔ R
    → ((p || q || r) ≡ true) ↔ (P ⊎ Q ⊎ R)
||-iff true q r h k l = ((λ _. inl (h.0 refl)), λ _. refl)
||-iff false true r h k l = ((λ _. inr (inl (k.0 refl))), λ _. refl)
||-iff false false true h k l = ((λ _. inr (inr (l.0 refl))), λ _. refl)
||-iff false false false h k l = (
  (λ e. absurd (cc)),
  λ one. elim one [ inl p ↦ h.1 p | inr (inl q) ↦ k.1 q | inr (inr r) ↦ l.1 r ],
)

is_base_iff : (s : Text) → (is_base s ≡ true) ↔ IsBase s
is_base_iff s =
    ||-iff (starts_with (codes "0x") s) (starts_with (codes "0X") s)
      (not (is_empty s) && all_true is_ascii_digit s) (prefix_iff b'0' b'x' s)
      (prefix_iff b'0' b'X' s) (decimal_iff s)

-- A path with a colon and an address behind it, which holds no colon itself.
abbrev pub Splits : Text → Text → Text → Type 0
Splits raw path base = (raw ≡ path ++ b':' ∷ base) × IsBase base × (contains_char b':' base ≡ false)

-- An entry with an address was split there.
abbrev Found : Text → Text × Option Text → Type 0
Found raw (path, none) = Unit
Found raw (path, some base) = Splits raw path base

Found-if :
    (here : Bool) (raw front back : Text)
    → (here ≡ true → Splits raw front back)
    → Found raw (if here then (front, some back) else (raw, none))
Found-if true raw front back h = h refl
Found-if false raw front back h = tt

Found-entry_parts :
    (raw : Text) (split : Option (Text × Text))
    → IsSplit b':' raw split
    → Found raw (entry_parts raw split)
Found-entry_parts raw none h = tt
Found-entry_parts raw (some (front, back)) h =
    Found-if (is_base back) raw front back (λ meant. (h.0, (is_base_iff back).0 meant, h.1))

joined-if :
    (base : Bool) (raw front back : Text)
    → raw ≡ front ++ b':' ∷ back
    → joined (if base then (front, some back) else (raw, none)) ≡ raw
joined-if true raw front back h = sym h
joined-if false raw front back h = refl

joined-entry_parts :
    (raw : Text) (split : Option (Text × Text))
    → IsSplit b':' raw split
    → joined (entry_parts raw split) ≡ raw
joined-entry_parts raw none h = refl
joined-entry_parts raw (some (front, back)) h = joined-if (is_base back) raw front back h.0

joined-parse_cli_flash_entry : (raw : Text) → joined (parse_cli_flash_entry raw) ≡ raw
unfolding parse_cli_flash_entry
joined-parse_cli_flash_entry raw =
    joined-entry_parts raw (rsplit_once b':' raw) (rsplit_once-IsSplit b':' raw)

-- An entry is taken as a path with an address exactly when it is that path, a colon, and a part that is
-- meant as an address and holds no colon; and whatever the entry is, its path and its address, joined by a
-- colon, are the entry again, so that one without such a part is a path as a whole.
pub parse_cli_flash_entry_iff :
    (raw path base : Text)
    → ((parse_cli_flash_entry raw ≡ (path, some base)) ↔ Splits raw path base)
      × (joined (parse_cli_flash_entry raw) ≡ raw)
unfolding parse_cli_flash_entry
parse_cli_flash_entry_iff raw path base = (
  (
    (λ e.
        subst (Found raw) e
          (Found-entry_parts raw (rsplit_once b':' raw) (rsplit_once-IsSplit b':' raw))),
    λ (whole, meant, last).
        ap parse_cli_flash_entry whole
        ∙ parse_cli_flash_entry-append path base ((is_base_iff base).1 meant) last,
  ),
  joined-parse_cli_flash_entry raw,
)
