-- ===== src/Selectors/Tests.antt =====
-- A catalog and a project to run the selectors on, with a matcher that knows one pattern.
use agent_sim.Base.{
  ℕ, ◌<◌, ◌≡◌, refl, ◌≢◌, Bool, true, none, some, List, [], ◌∷◌, ◌++◌, if◌then◌else◌, length,
  get_elem?, All, Pairwise, Result, ok, err, Text, codes, text_eq, to_digit, from_digits,
  from_str_radix,
}
use agent_sim.Base.Map.{get, IsSorted, nat_order, text_order}
use agent_sim.Sim.Types.{f32}
use agent_sim.Sim.Validation.{SignalMeta}
use agent_sim.Selectors.{
  EnvSignalCatalogEntry, EnvSignalCatalog, duplicate_qualified, sort_entries, index_entries, build,
  contains_glob, part_matcher, matching, resolve_selector_indices, add_indices, add_selectors,
  resolve_selectors, seen_index,
}
use agent_sim.Selectors.Resolve.{chosen_by, resolve_selectors-exact}
use agent_sim.Selectors.Catalog.{IsCatalog, build-IsCatalog}
use agent_sim.Selectors.Instance.{
  not_found, signal_by_id, signal_id_by_name, selector_ids, collect_ids, select_instance_signal_ids,
}
use agent_sim.Selectors.Instance.Sound.{Among, select_instance_signal_ids_sound}

abbrev star_only : Text → Result (Text → Bool) Text
star_only pattern = if text_eq pattern (codes "*") then ok (λ _. true) else err pattern

abbrev entry : Text → ℕ → Text → EnvSignalCatalogEntry
entry inst id name = record {
  instance_name = inst;
  local_id = id;
  signal_name = name;
  qualified_name = inst ++ b':' ∷ name;
  signal_type = f32;
  units = none;
}

abbrev a_alpha : EnvSignalCatalogEntry
a_alpha = entry (codes "a") 1 (codes "alpha")

abbrev a_beta : EnvSignalCatalogEntry
a_beta = entry (codes "a") 2 (codes "beta")

abbrev b_alpha : EnvSignalCatalogEntry
b_alpha = entry (codes "b") 3 (codes "alpha")

abbrev catalog : EnvSignalCatalog
catalog = record {
  entries = a_alpha ∷ a_beta ∷ b_alpha ∷ [];
  qualified_index = (codes "a:alpha", 0) ∷ (codes "a:beta", 1) ∷ (codes "b:alpha", 2) ∷ [];
}

build_runs : build (b_alpha ∷ a_beta ∷ a_alpha ∷ []) ≡ ok catalog
unfolding build sort_entries index_entries
build_runs = refl

duplicate_runs :
    build (b_alpha ∷ a_beta ∷ b_alpha ∷ []) ≡ err (duplicate_qualified (codes "b:alpha") 1 2)
unfolding build sort_entries index_entries
duplicate_runs = refl

build-IsCatalog_runs : IsCatalog catalog
build-IsCatalog_runs = build-IsCatalog (b_alpha ∷ a_beta ∷ a_alpha ∷ []) catalog build_runs

abbrev chosen_selectors : List Text
chosen_selectors = codes "b:alpha" ∷ codes "*:*" ∷ []

abbrev indices : List ℕ
indices = 2 ∷ 0 ∷ 1 ∷ []

abbrev selected : List (ℕ × Unit {0})
selected = (3, tt) ∷ (7, tt) ∷ []

resolve_runs : resolve_selectors star_only catalog chosen_selectors ≡ ok indices
unfolding resolve_selectors add_selectors resolve_selector_indices add_indices part_matcher matching
    contains_glob
resolve_runs = refl

resolve_selectors-exact_example :
    Pairwise (λ i j. i ≢ j) indices
    × All (λ i. i < length catalog.entries) indices
    × ((j : ℕ) (e : EnvSignalCatalogEntry)
        → get_elem? catalog.entries j ≡ some e
        → seen_index j indices ≡ chosen_by star_only e chosen_selectors)
resolve_selectors-exact_example =
    resolve_selectors-exact star_only (b_alpha ∷ a_beta ∷ a_alpha ∷ []) catalog chosen_selectors
      indices build_runs resolve_runs

abbrev signal : ℕ → Text → SignalMeta
signal id name = record { id = id; name = name; signal_type = f32; units = none }

abbrev signals : List SignalMeta
signals = signal 7 (codes "speed") ∷ signal 3 (codes "torque") ∷ signal 5 (codes "temp") ∷ []

abbrev wanted : List Text
wanted = codes "speed" ∷ codes "#3" ∷ codes "speed" ∷ []

missing_runs :
    select_instance_signal_ids star_only signals (codes "#4" ∷ []) ≡ err (not_found (codes "#4"))
unfolding select_instance_signal_ids collect_ids selector_ids signal_by_id from_str_radix
    from_digits to_digit
missing_runs = refl

select_runs : select_instance_signal_ids star_only signals wanted ≡ ok selected
unfolding select_instance_signal_ids collect_ids selector_ids signal_by_id signal_id_by_name
    contains_glob from_str_radix from_digits to_digit
select_runs = refl

select_instance_signal_ids_sound_example :
    IsSorted selected × ((id : ℕ) → get id selected ≡ some tt → Among star_only signals wanted id)
select_instance_signal_ids_sound_example =
    select_instance_signal_ids_sound star_only signals wanted selected select_runs
