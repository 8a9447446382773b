-- ===== src/Name.antt =====
-- runtime/src/name.rs: the names of instances and environments.
mod Tests
use agent_sim.Base.{
  ℕ, ◌≤◌, ◌<◌, ◌≡◌, refl, ◌≢◌, ◌↔◌, ◌⊎◌, Bool, true, not, ◌&&◌, ◌||◌, [], ◌∷◌, arith, leb, ◌==◌,
  if◌then◌else◌, &&-eq_true, All, all_true, Result, ok, err, Text, codes, is_empty,
}

abbrev is_ascii_alphanumeric : ℕ → Bool
is_ascii_alphanumeric c =
    (leb b'0' c && leb c b'9') || (leb b'A' c && leb c b'Z') || (leb b'a' c && leb c b'z')

unfoldable pub is_allowed_name_char : ℕ → Bool
is_allowed_name_char c = is_ascii_alphanumeric c || c == b'_' || c == b'-'

-- The error shows the kind and the name.
unfoldable pub validate_runtime_name : Text → Text → Result (Unit {0}) (Text × Text)
validate_runtime_name name kind =
    if is_empty name || not (all_true is_allowed_name_char name) then err (kind, name) else ok tt

unfoldable pub validate_instance_name : Text → Result (Unit {0}) (Text × Text)
validate_instance_name name = validate_runtime_name name (codes "instance")

unfoldable pub validate_env_name : Text → Result (Unit {0}) (Text × Text)
validate_env_name name = validate_runtime_name name (codes "env")

-- Letters, digits, underscores and dashes of ASCII.
abbrev IsNameChar : ℕ → Type 0
IsNameChar c =
    ((b'0' ≤ c) × (c ≤ b'9'))
    ⊎ ((b'A' ≤ c) × (c ≤ b'Z'))
    ⊎ ((b'a' ≤ c) × (c ≤ b'z'))
    ⊎ (c ≡ b'_')
    ⊎ (c ≡ b'-')

-- One segment of a path: ASCII without separators, dots, colons and spaces.
abbrev pub IsSegment : ℕ → Type 0
IsSegment c = (c < 128) × (c ≢ b'/') × (c ≢ b'.') × (c ≢ b':') × (c ≢ b' ') × (c ≢ 92)

abbrev pub IsName : Text → Type 0
IsName name = (name ≢ []) × All IsNameChar name

char_iff : (c : ℕ) → (is_allowed_name_char c ≡ true) ↔ IsNameChar c
unfolding is_allowed_name_char
char_iff c = ground arith

chars_iff : (name : Text) → (all_true is_allowed_name_char name ≡ true) ↔ All IsNameChar name
chars_iff [] = ((λ _. tt), λ _. refl)
chars_iff (c ∷ cs) = (
  (λ h. let (here, rest) = &&-eq_true _ _ h in ((char_iff c).0 here, (chars_iff cs).0 rest)),
  λ h. rw ((char_iff c).1 h.0) ((chars_iff cs).1 h.1),
)

validate_runtime_name_iff :
    (name kind : Text) → (validate_runtime_name name kind ≡ ok tt) ↔ IsName name
unfolding validate_runtime_name
validate_runtime_name_iff [] kind = ((λ h. absurd (cc)), λ h. absurd (h.0 refl))
validate_runtime_name_iff (c ∷ cs) kind = (
  (λ h.
      let all : all_true is_allowed_name_char (c ∷ cs) ≡ true = ground arith in
      ((λ e. cc), (chars_iff (c ∷ cs)).0 all)),
  λ h. rw ((chars_iff (c ∷ cs)).1 h.1) refl,
)

char-IsSegment : (c : ℕ) → IsNameChar c → IsSegment c
char-IsSegment c h = ground arith

-- Such a name is one segment of a path.
pub chars-IsSegment : (name : Text) → All IsNameChar name → All IsSegment name
chars-IsSegment [] h = tt
chars-IsSegment (c ∷ cs) h = (char-IsSegment c h.0, chars-IsSegment cs h.1)

-- A name is accepted for an instance, and likewise for an environment, exactly when it is not empty and
-- all its characters are letters, digits, underscores and dashes of ASCII.
pub validate-IsName_iff :
    (name : Text)
    → ((validate_instance_name name ≡ ok tt) ↔ IsName name)
      × ((validate_env_name name ≡ ok tt) ↔ IsName name)
unfolding validate_instance_name validate_env_name
validate-IsName_iff name = (
  validate_runtime_name_iff name (codes "instance"),
  validate_runtime_name_iff name (codes "env"),
)
