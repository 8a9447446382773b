-- ===== src/Sim/Validation/Unique.antt =====
-- The lists that the checks accept, without the sets of the loops.
use agent_sim.Base.{
  ℕ, ◌≡◌, refl, sym, ◌≢◌, ◌↔◌, inl, inr, false, List, [], ◌∷◌, arith, Bool-cases, All, Pairwise,
  Result, ok, >>=-eq-ok, reject-eq_ok, Text, codes, text_eq, text_eq_iff, trim, starts_with,
  is_empty,
}
use agent_sim.Sim.Validation.{
  SignalMeta, SimCanBusDesc, SimSharedDesc, MetadataError, duplicate_id, duplicate_name, seen_id,
  seen_name, validate_entries, check_signal, check_bus, check_channel, validate_signal_metadata,
  validate_can_metadata, validate_shared_metadata,
}

module _ {A : Type 0} (check : A → Result (Unit {0}) MetadataError) (id_of : A → ℕ)
    (name_of : A → Text) where
  abbrev pub Apart : A → A → Type 0
  Apart a b = (id_of a ≢ id_of b) × (name_of a ≢ name_of b)

  abbrev Fresh : List ℕ → List Text → A → Type 0
  Fresh ids names a = (seen_id (id_of a) ids ≡ false) × (seen_name (name_of a) names ≡ false)

  abbrev Accepted : List ℕ → List Text → List A → Type 0
  Accepted ids names es =
      All (λ a. check a ≡ ok tt) es × All (Fresh ids names) es × Pairwise Apart es

  text_apart : (s t : Text) → (text_eq s t ≡ false) ↔ (s ≢ t)
  text_apart s t = (
    (λ h e. let k = (text_eq_iff s t).1 e in cc),
    (λ h. elim (Bool-cases (text_eq s t)) [
      | inl k ↦ absurd (h ((text_eq_iff s t).0 k))
      | inr k ↦ k
    ]),
  )

  Fresh-cons :
      (a : A) (ids : List ℕ) (names : List Text) (es : List A)
      → All (Fresh (id_of a ∷ ids) (name_of a ∷ names)) es
        ↔ (All (Apart a) es × All (Fresh ids names) es)
  Fresh-cons a ids names [] = ((λ h. (tt, tt)), (λ h. tt))
  Fresh-cons a ids names (b ∷ bs) =
      let rest = Fresh-cons a ids names bs in
      let t = text_apart (name_of b) (name_of a) in
      (
        (λ h.
            let out = rest.0 h.1 in
            (
              (((λ e. ground arith), (λ e. t.0 (ground arith) (sym e))), out.0),
              ((ground arith, ground arith), out.1),
            )),
        (λ h.
            let apart : text_eq (name_of b) (name_of a) ≡ false = t.1 (λ e. h.0.0.1 (sym e)) in
            let others = rest.1 (h.0.1, h.1.1) in ((ground arith, ground arith), others)),
      )

  validate_entries_iff :
      (ids : List ℕ) (names : List Text) (es : List A)
      → (validate_entries check id_of name_of ids names es ≡ ok tt) ↔ Accepted ids names es
  unfolding validate_entries
  validate_entries_iff ids names [] = ((λ h. (tt, tt, tt)), (λ h. refl))
  validate_entries_iff ids names (a ∷ es) =
      let rest = validate_entries_iff (id_of a ∷ ids) (name_of a ∷ names) es in
      let split = Fresh-cons a ids names es in
      (
        (λ h.
            let (u, c, e1) = >>=-eq-ok (check a) _ h in
            let (i, e2) = reject-eq_ok (seen_id (id_of a) ids) (duplicate_id (id_of a)) _ e1 in
            let (n, e3) =
              reject-eq_ok (seen_name (name_of a) names) (duplicate_name (name_of a)) _ e2 in
            let (checks, fresh, apart) = rest.0 e3 in
            let (here, others) = split.0 fresh in ((c, checks), ((i, n), others), (here, apart))),
        (λ h.
            let (checks, fresh, apart) = h in
            let later = rest.1 (checks.1, split.1 (apart.0, fresh.1), apart.1) in
            rw (checks.0, fresh.0.0, fresh.0.1) later),
      )

  unseen : (es : List A) → All (Fresh [] []) es
  unseen [] = tt
  unseen (e ∷ es) = ((refl, refl), unseen es)

  pub accepted_iff :
      (es : List A)
      → (validate_entries check id_of name_of [] [] es ≡ ok tt)
        ↔ (All (λ a. check a ≡ ok tt) es × Pairwise Apart es)
  accepted_iff es =
      let both = validate_entries_iff [] [] es in
      ((λ h. let (c, f, p) = both.0 h in (c, p)), (λ h. both.1 (h.0, unseen es, h.1)))

-- The name is not only white space.
abbrev pub IsNamed : Text → Type 0
IsNamed name = is_empty (trim name) ≡ false

module _ {A : Type 0} (P Q : A → Type 0) (both : (a : A) → P a ↔ Q a) where
  All-iff : (es : List A) → All P es ↔ All Q es
  All-iff [] = ((λ h. tt), (λ h. tt))
  All-iff (e ∷ es) =
      let rest = All-iff es in
      ((λ h. ((both e).0 h.0, rest.0 h.1)), (λ h. ((both e).1 h.0, rest.1 h.1)))

abbrev pub IsSignal : SignalMeta → Type 0
IsSignal s = IsNamed s.name × (starts_with (codes "can.") s.name ≡ false)

abbrev pub IsChannel : SimSharedDesc → Type 0
IsChannel c = IsNamed c.channel_name × (c.slot_count ≢ 0)

-- Signals are accepted just when every name has a visible character and is outside the namespace
-- `can.`, and all identifiers and all names are different.
pub validate_signal_metadata_iff :
    (signals : List SignalMeta)
    → (validate_signal_metadata signals ≡ ok tt)
      ↔ (All IsSignal signals × Pairwise (λ a b. (a.id ≢ b.id) × (a.name ≢ b.name)) signals)
unfolding validate_signal_metadata
validate_signal_metadata_iff signals =
    let both = accepted_iff check_signal (λ s. s.id) (λ s. s.name) signals in
    let each =
      All-iff (λ s. check_signal s ≡ ok tt) IsSignal
        (λ s. ((λ h. ground arith), (λ h. ground arith))) signals in
    ((λ h. let out = both.0 h in (each.0 out.0, out.1)), (λ h. both.1 (each.1 h.0, h.1)))

-- Buses are accepted just when every name has a visible character, and all identifiers and all
-- names are different.
pub validate_can_metadata_iff :
    (buses : List SimCanBusDesc)
    → (validate_can_metadata buses ≡ ok tt) ↔ (
        All (λ b. IsNamed b.bus_name) buses
        × Pairwise (λ a b. (a.bus_id ≢ b.bus_id) × (a.bus_name ≢ b.bus_name)) buses)
unfolding validate_can_metadata
validate_can_metadata_iff buses =
    let both = accepted_iff check_bus (λ b. b.bus_id) (λ b. b.bus_name) buses in
    let each =
      All-iff (λ b. check_bus b ≡ ok tt) (λ b. IsNamed b.bus_name)
        (λ b. ((λ h. ground arith), (λ h. ground arith))) buses in
    ((λ h. let out = both.0 h in (each.0 out.0, out.1)), (λ h. both.1 (each.1 h.0, h.1)))

-- Shared channels are accepted just when every name has a visible character, every channel has a
-- slot, and all identifiers and all names are different.
pub validate_shared_metadata_iff :
    (channels : List SimSharedDesc)
    → (validate_shared_metadata channels ≡ ok tt) ↔ (
        All IsChannel channels
        × Pairwise
            (λ a b. (a.channel_id ≢ b.channel_id) × (a.channel_name ≢ b.channel_name))
            channels)
unfolding validate_shared_metadata
validate_shared_metadata_iff channels =
    let both = accepted_iff check_channel (λ c. c.channel_id) (λ c. c.channel_name) channels in
    let each =
      All-iff (λ c. check_channel c ≡ ok tt) IsChannel
        (λ c. ((λ h. ground arith), (λ h. ground arith))) channels in
    ((λ h. let out = both.0 h in (each.0 out.0, out.1)), (λ h. both.1 (each.1 h.0, h.1)))
