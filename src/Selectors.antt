-- ===== src/Selectors.antt =====
-- runtime/src/signal_selectors.rs: the signals of an environment by qualified name, and the
-- selectors that stand for some of them. The matcher of the crate globset is a parameter.
pub mod Catalog
pub mod Resolve
pub mod Instance
mod Tests
use agent_sim.Base.{
  ℕ, zero, suc, ◌*◌, Bool, false, not, ◌&&◌, ◌||◌, Option, none, some, List, [], ◌∷◌, ◌++◌, ◌==◌,
  if◌then◌else◌, length, Result, ok, err, ◌>>=◌, ◌>>◌, reject, map_err, Text, codes, text_eq,
  strip_prefix, starts_with, contains_char, is_empty,
}
use Prim.Native.Nat.{Ordering}
use agent_sim.Base.Map.{get, insert, text_order, text_cmp}
use agent_sim.Sim.Types.{SimTypeRaw}

pub record EnvSignalCatalogEntry : Type 0 where
  pub instance_name : Text
  pub local_id : ℕ
  pub signal_name : Text
  pub qualified_name : Text
  pub signal_type : SimTypeRaw
  pub units : Option Text

pub record EnvSignalCatalog : Type 0 where
  pub entries : List EnvSignalCatalogEntry
  pub qualified_index : List (Text × ℕ)

pub data SelectorError : Type 0 where
  reserved_colon invalid_qualified : Text → Text → SelectorError
  duplicate_qualified : Text → ℕ → ℕ → SelectorError
  missing_selectors : SelectorError
  invalid_selector local_id_selector env_signal_not_found matched_nothing : Text → SelectorError
  bad_glob : Text → Text → SelectorError

-- The stable sort by the qualified name.
abbrev pub insert_sorted :
    EnvSignalCatalogEntry → List EnvSignalCatalogEntry → List EnvSignalCatalogEntry
insert_sorted e [] = e ∷ []
insert_sorted e (f ∷ fs) = elim (text_cmp f.qualified_name e.qualified_name) [
  | Ordering.gt ↦ e ∷ f ∷ fs
  | _ ↦ f ∷ insert_sorted e fs
]

unfoldable pub sort_entries :
    List EnvSignalCatalogEntry → List EnvSignalCatalogEntry → List EnvSignalCatalogEntry
sort_entries sorted [] = sorted
sort_entries sorted (e ∷ es) = sort_entries (insert_sorted e sorted) es

-- Whether the qualified name is the instance and, behind it, a colon.
abbrev pub is_qualified : EnvSignalCatalogEntry → Bool
is_qualified e = elim (strip_prefix e.instance_name e.qualified_name) [
  | none ↦ false
  | some rest ↦ starts_with (codes ":") rest
]

abbrev fresh_name : Text → ℕ → Option ℕ → Result (Unit {0}) SelectorError
fresh_name name idx none = ok tt
fresh_name name idx (some existing) = err (duplicate_qualified name existing idx)

-- The loop over the sorted entries.
unfoldable pub index_entries :
    ℕ → List EnvSignalCatalogEntry → List (Text × ℕ) → Result (List (Text × ℕ)) SelectorError
index_entries idx [] qualified_index = ok qualified_index
index_entries idx (e ∷ es) qualified_index = do
  reject (contains_char b':' e.signal_name) (reserved_colon e.signal_name e.instance_name)
  reject (not (is_qualified e)) (invalid_qualified e.qualified_name e.instance_name)
  fresh_name e.qualified_name idx (get e.qualified_name qualified_index)
  index_entries (suc idx) es (insert e.qualified_name idx qualified_index)

unfoldable pub build : List EnvSignalCatalogEntry → Result EnvSignalCatalog SelectorError
build entries = do
  qualified_index ← index_entries 0 (sort_entries [] entries) []
  ok (record { entries = sort_entries [] entries; qualified_index = qualified_index })

-- `str::split_once`.
abbrev pub split_once : ℕ → Text → Option (Text × Text)
split_once c [] = none
split_once c (d ∷ s) =
    let rest = split_once c s in
    if d == c
    then some ([], s)
    else elim rest [ none ↦ none | some (front, back) ↦ some (d ∷ front, back) ]

unfoldable pub contains_glob : Text → Bool
contains_glob value =
    contains_char b'*' value || contains_char b'?' value || contains_char b'[' value

-- `0..n`.
abbrev pub range : ℕ → ℕ → List ℕ
range from zero = []
range from (suc n) = from ∷ range (suc from) n

-- The loop over the entries.
unfoldable pub matching : (Text → Bool) → (Text → Bool) → ℕ → List EnvSignalCatalogEntry → List ℕ
matching instance_matches signal_matches idx [] = []
matching instance_matches signal_matches idx (e ∷ es) =
    let rest = matching instance_matches signal_matches (suc idx) es in
    if not (instance_matches e.instance_name)
    then rest
    else if not (signal_matches e.signal_name)
    then rest
    else idx ∷ rest

abbrev pub seen_index : ℕ → List ℕ → Bool
seen_index i [] = false
seen_index i (j ∷ js) = i == j || seen_index i js

-- The loop over the indices of a selector; `resolved` and `seen` have the same indices.
unfoldable pub add_indices : List ℕ → List ℕ → List ℕ
add_indices resolved [] = resolved
add_indices resolved (i ∷ is) =
    add_indices (if seen_index i resolved then resolved else resolved ++ i ∷ []) is

-- The lookup of a selector without a pattern.
abbrev pub found_index : Text → Option ℕ → Result (List ℕ) SelectorError
found_index selector (some index) = ok (index ∷ [])
found_index selector none = err (env_signal_not_found selector)

module _ (compile_glob : Text → Result (Text → Bool) Text) where
  -- `string_matches` with the glob of a part of a selector, if it is one.
  unfoldable pub part_matcher : Text → Text → Result (Text → Bool) SelectorError
  unfolding contains_glob
  part_matcher selector part =
      if contains_glob part
      then map_err (bad_glob selector) (compile_glob part)
      else ok (λ value. text_eq value part)

  abbrev pub glob_indices : EnvSignalCatalog → Text → Text → Text → Result (List ℕ) SelectorError
  glob_indices catalog selector instance_selector signal_selector = do
    instance_matches ← part_matcher selector instance_selector
    signal_matches ← part_matcher selector signal_selector
    reject (is_empty (matching instance_matches signal_matches 0 catalog.entries))
        (matched_nothing selector)
    ok (matching instance_matches signal_matches 0 catalog.entries)

  abbrev pub pair_indices : EnvSignalCatalog → Text → Text × Text → Result (List ℕ) SelectorError
  pair_indices catalog selector (instance_selector, signal_selector) =
      if is_empty instance_selector || is_empty signal_selector
      then err (invalid_selector selector)
      else if starts_with (codes "#") signal_selector
      then err (local_id_selector selector)
      else if not (contains_glob instance_selector) && not (contains_glob signal_selector)
      then found_index selector
          (get (instance_selector ++ b':' ∷ signal_selector) catalog.qualified_index)
      else glob_indices catalog selector instance_selector signal_selector

  unfoldable pub resolve_selector_indices : EnvSignalCatalog → Text → Result (List ℕ) SelectorError
  resolve_selector_indices catalog selector =
      if text_eq selector (codes "*")
      then ok (range 0 (length catalog.entries))
      else elim (split_once b':' selector) [
        | none ↦ err (invalid_selector selector)
        | some parts ↦ pair_indices catalog selector parts
      ]

  unfoldable pub add_selectors :
      EnvSignalCatalog → List ℕ → List Text → Result (List ℕ) SelectorError
  add_selectors catalog resolved [] = ok resolved
  add_selectors catalog resolved (s ∷ ss) = do
    indices ← resolve_selector_indices catalog s
    add_selectors catalog (add_indices resolved indices) ss

  unfoldable pub resolve_selectors : EnvSignalCatalog → List Text → Result (List ℕ) SelectorError
  resolve_selectors catalog selectors = do
    reject (is_empty selectors) missing_selectors
    add_selectors catalog [] selectors
