-- ===== src/Selectors/Instance.antt =====
-- runtime/src/signal_selectors.rs: `select_instance_signal_ids`, over the part of the `Project` of
-- runtime/src/sim/project.rs that finds signals. The set of ids is a map to nothing.
pub mod Sound
use agent_sim.Base.{
  ℕ, suc, ◌*◌, ◌^◌, ◌≡◌, Bool, true, false, Option, none, some, List, [], ◌∷◌, map, ◌==◌,
  if◌then◌else◌, get_elem?, set, Result, ok, err, ◌>>=◌, ◌>>◌, reject, ok_or, map_err, Text, codes,
  text_eq, strip_prefix, is_empty, from_str_radix,
}
use agent_sim.Base.Map.{
  Order, nat_order, text_order, get, insert, get-insert, IsSorted, insert-IsSorted,
}
use agent_sim.Sim.Validation.{SignalMeta}
use agent_sim.Selectors.{contains_glob}

pub data SelectError : Type 0 where
  no_selectors : SelectError
  bad_id not_found bad_pattern nothing_matched : Text → SelectError

-- The two maps over the signals, in whose order they are filled.
abbrev pub index_by {ℓ κ} :
    {K : Type ℓ} {V : Type κ}
    → ⦃o : Order K⦄ → (SignalMeta → K)
    → (ℕ → SignalMeta → V)
    → ℕ
    → List SignalMeta
    → List (K × V)
    → List (K × V)
index_by key value idx [] m = m
index_by key value idx (s ∷ ss) m = index_by key value (suc idx) ss (insert (key s) (value idx s) m)

abbrev pub id_of : SignalMeta → ℕ
id_of s = s.id

abbrev pub name_of : SignalMeta → Text
name_of s = s.name

abbrev pub signal_at : List SignalMeta → Option ℕ → Option SignalMeta
signal_at signals none = none
signal_at signals (some idx) = get_elem? signals idx

unfoldable pub signal_by_id : List SignalMeta → ℕ → Option SignalMeta
signal_by_id signals id = signal_at signals (get id (index_by id_of (λ idx _. idx) 0 signals []))

unfoldable pub signal_id_by_name : List SignalMeta → Text → Option ℕ
signal_id_by_name signals name = get name (index_by name_of (λ _ s. s.id) 0 signals [])

-- The loop over the signals with a matcher.
unfoldable pub matching_ids : (Text → Bool) → List SignalMeta → List ℕ
matching_ids matches [] = []
matching_ids matches (s ∷ ss) =
    let rest = matching_ids matches ss in if matches s.name then s.id ∷ rest else rest

abbrev pub add_ids : List ℕ → List (ℕ × Unit {0}) → List (ℕ × Unit {0})
add_ids [] ids = ids
add_ids (i ∷ is) ids = add_ids is (insert i tt ids)

abbrev pub existing_id : List SignalMeta → Text → ℕ → Result (List ℕ) SelectError
existing_id signals selector id = elim (signal_by_id signals id) [
  | none ↦ err (not_found selector)
  | some _ ↦ ok (id ∷ [])
]

abbrev pub named_id : Text → Option ℕ → Result (List ℕ) SelectError
named_id selector none = err (not_found selector)
named_id selector (some id) = ok (id ∷ [])

-- The id is that of a signal for which the test holds.
abbrev pub IsOf : List SignalMeta → (SignalMeta → Bool) → ℕ → Type 0
IsOf signals test id =
    (k : ℕ) × (s : SignalMeta) × (get_elem? signals k ≡ some s) × (s.id ≡ id) × (test s ≡ true)

module _ (compile_glob : Text → Result (Text → Bool) Text) (signals : List SignalMeta) where
  abbrev pub glob_ids : Text → Result (List ℕ) SelectError
  glob_ids selector = do
    matches ← map_err (λ _. bad_pattern selector) (compile_glob selector)
    reject (is_empty (matching_ids matches signals)) (nothing_matched selector)
    ok (matching_ids matches signals)

  -- The ids that one selector inserts.
  unfoldable pub selector_ids : Text → Result (List ℕ) SelectError
  selector_ids selector =
      if text_eq selector (codes "*")
      then ok (map id_of signals)
      else elim (strip_prefix (codes "#") selector) [
        | some raw_id ↦
            ok_or (from_str_radix 10 (2 ^ 32) raw_id) (bad_id selector)
            >>= existing_id signals selector
        | none ↦
            if contains_glob selector
            then glob_ids selector
            else named_id selector (signal_id_by_name signals selector)
      ]

  unfoldable pub collect_ids :
      List (ℕ × Unit {0}) → List Text → Result (List (ℕ × Unit {0})) SelectError
  collect_ids ids [] = ok ids
  collect_ids ids (s ∷ ss) = selector_ids s >>= λ found. collect_ids (add_ids found ids) ss

  unfoldable pub select_instance_signal_ids : List Text → Result (List (ℕ × Unit {0})) SelectError
  select_instance_signal_ids selectors = do
    reject (is_empty selectors) no_selectors
    collect_ids [] selectors

  -- Whether a selector stands for a signal.
  abbrev pub stands_for : Text → SignalMeta → Bool
  stands_for selector s =
      if text_eq selector (codes "*") then true else elim (strip_prefix (codes "#") selector) [
        | some raw_id ↦ elim (from_str_radix 10 (2 ^ 32) raw_id) [
          | none ↦ false
          | some id ↦ s.id == id
        ]
        | none ↦
            if contains_glob selector
            then elim (compile_glob selector) [ ok glob ↦ glob s.name | err _ ↦ false ]
            else text_eq s.name selector
      ]
