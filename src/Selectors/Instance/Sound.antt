-- ===== src/Selectors/Instance/Sound.antt =====
-- What `select_instance_signal_ids` gives: ascending ids, each of a signal that was selected.
use agent_sim.Base.{
  ℕ, suc, ◌+◌, ◌^◌, ◌≡◌, refl, sym, ap, subst, ◌∙◌, ◌⊎◌, inl, inr, Bool, true, false, Option, none,
  some, List, [], ◌∷◌, ◌++◌, map, append_assoc, arith, ◌==◌, Bool-cases, Option-cases, length,
  get_elem?, All, Result, ok, err, >>=-eq-ok, ok_injective, reject-eq_ok, Result-cases, Text, codes,
  text_eq, text_eq_iff, strip_prefix, is_empty, from_str_radix,
}
use agent_sim.Base.Map.{
  Order, nat_order, text_order, get, insert, get-insert, IsSorted, insert-IsSorted,
}
use agent_sim.Sim.Validation.{SignalMeta}
use agent_sim.Selectors.{contains_glob}
use agent_sim.Selectors.Instance.{
  no_selectors, not_found, nothing_matched, index_by, id_of, name_of, signal_at, signal_by_id,
  signal_id_by_name, matching_ids, add_ids, named_id, glob_ids, selector_ids, collect_ids,
  select_instance_signal_ids, stands_for, IsOf,
}

module _ {ℓ κ} {K : Type ℓ} {V : Type κ} ⦃o : Order K⦄ (key : SignalMeta → K)
    (value : ℕ → SignalMeta → V) where
  index_by_sound :
      (idx : ℕ) (ss : List SignalMeta) (m : List (K × V)) (k : K) (v : V)
      → get k (index_by key value idx ss m) ≡ some v
      → (get k m ≡ some v)
        ⊎ ((j : ℕ) × (s : SignalMeta) × (get_elem? ss j ≡ some s)
            × (key s ≡ k)
            × (value (idx + j) s ≡ v))
  index_by_sound idx [] m k v h = inl h
  index_by_sound idx (s ∷ ss) m k v h =
      elim (index_by_sound (suc idx) ss (insert (key s) (value idx s) m) k v h) [
        | inr (j, t, at, same, e) ↦
            let q : suc idx + j ≡ idx + suc j = omega arith in
            inr (suc j, t, at, same, subst (λ i. value i t ≡ v) q e)
        | inl found ↦ elim (get-insert (key s) k (value idx s) m v found) [
          | inr old ↦ inl old
          | inl (same, e) ↦
              let q : idx ≡ idx + 0 = omega arith in
              inr (0, s, refl, same, subst (λ i. value i s ≡ v) q e)
        ]
      ]

signal_at-IsOf :
    (signals : List SignalMeta) (id : ℕ) (found : Option ℕ) (s : SignalMeta)
    → get id (index_by id_of (λ idx _. idx) 0 signals []) ≡ found
    → signal_at signals found ≡ some s
    → (k : ℕ) × (get_elem? signals k ≡ some s) × (s.id ≡ id)
signal_at-IsOf signals id none s g h = absurd (cc)
signal_at-IsOf signals id (some idx) s g h =
    elim (index_by_sound id_of (λ idx _. idx) 0 signals [] id idx g) [
      | inl bad ↦ absurd (cc)
      | inr (j, t, there, same, e) ↦
          let k : j ≡ idx = omega arith in
          let both : get_elem? signals idx ≡ some t = rw (← k) there in
          let eq : t ≡ s = (let b = sym both ∙ h in cc) in (idx, h, ap id_of (sym eq) ∙ same)
    ]

signal_id_by_name-IsOf :
    (signals : List SignalMeta) (name : Text) (id : ℕ)
    → signal_id_by_name signals name ≡ some id
    → IsOf signals (λ s. text_eq s.name name) id
unfolding signal_id_by_name
signal_id_by_name-IsOf signals name id h =
    elim (index_by_sound name_of (λ _ s. s.id) 0 signals [] name id h) [
      | inl bad ↦ absurd (cc)
      | inr (j, t, there, same, e) ↦ (j, t, there, e, (text_eq_iff t.name name).1 same)
    ]

get_elem?-append {ℓ} :
    {A : Type ℓ} (xs : List A) (x : A) (ys : List A) → get_elem? (xs ++ x ∷ ys) (length xs) ≡ some x
get_elem?-append [] x ys = refl
get_elem?-append (y ∷ xs) x ys = get_elem?-append xs x ys

matching_ids-IsOf :
    (matches : Text → Bool) (before signals : List SignalMeta) (ss : List SignalMeta)
    → before ++ ss ≡ signals
    → All (IsOf signals (λ s. matches s.name)) (matching_ids matches ss)
unfolding matching_ids
matching_ids-IsOf matches before signals [] e = tt
matching_ids-IsOf matches before signals (s ∷ ss) e =
    let rest =
      matching_ids-IsOf matches (before ++ s ∷ []) signals ss
        (append_assoc before (s ∷ []) ss ∙ e) in
    elim (Bool-cases (matches s.name)) [
      | inr apart ↦ rw apart rest
      | inl same ↦
          rw same ((length before, s, rw⁻¹ e (get_elem?-append before s ss), refl, same), rest)
    ]

map-IsOf :
    (test : SignalMeta → Bool) (before signals ss : List SignalMeta)
    → ((s : SignalMeta) → test s ≡ true)
    → before ++ ss ≡ signals
    → All (IsOf signals test) (map id_of ss)
map-IsOf test before signals [] h e = tt
map-IsOf test before signals (s ∷ ss) h e = (
  (length before, s, rw⁻¹ e (get_elem?-append before s ss), refl, h s),
  map-IsOf test (before ++ s ∷ []) signals ss h (append_assoc before (s ∷ []) ss ∙ e),
)

module _ (compile_glob : Text → Result (Text → Bool) Text) (signals : List SignalMeta) where
  abbrev pub Stands : Text → ℕ → Type 0
  Stands selector = IsOf signals (stands_for compile_glob signals selector)

  -- A test that says no more than another.
  IsOf-mono :
      (p q : SignalMeta → Bool) (ids : List ℕ)
      → ((s : SignalMeta) → p s ≡ true → q s ≡ true)
      → All (IsOf signals p) ids
      → All (IsOf signals q) ids
  IsOf-mono p q [] h a = tt
  IsOf-mono p q (i ∷ ids) h a =
      let (k, s, at, e, t) = a.0 in ((k, s, at, e, h s t), IsOf-mono p q ids h a.1)

  existing_id-IsOf :
      (selector : Text) (id : ℕ) (found : Option SignalMeta) {ids : List ℕ}
      → signal_by_id signals id ≡ found
      → (elim found [ none ↦ err (not_found selector) | some _ ↦ ok (id ∷ []) ]) ≡ ok ids
      → All (IsOf signals (λ s. s.id == id)) ids
  unfolding signal_by_id
  existing_id-IsOf selector id none g h = absurd (cc)
  existing_id-IsOf selector id (some s) g h =
      let (k, at, e) = signal_at-IsOf signals id _ s refl g in
      rw⁻¹ (ok_injective h) ((k, s, at, e, ground arith), tt)

  named_id-IsOf :
      (selector : Text) (found : Option ℕ) {ids : List ℕ}
      → signal_id_by_name signals selector ≡ found
      → named_id selector found ≡ ok ids
      → All (IsOf signals (λ s. text_eq s.name selector)) ids
  named_id-IsOf selector none g h = absurd (cc)
  named_id-IsOf selector (some id) g h =
      rw⁻¹ (ok_injective h) (signal_id_by_name-IsOf signals selector id g, tt)

  glob_ids-IsOf :
      (selector : Text) {ids : List ℕ}
      → glob_ids compile_glob signals selector ≡ ok ids
      → All
          (IsOf signals
            (λ s. elim (compile_glob selector) [ ok glob ↦ glob s.name | err _ ↦ false ]))
          ids
  glob_ids-IsOf selector h = elim (Result-cases (compile_glob selector)) [
    | inr (e, bad) ↦ absurd (let b = rw bad at h in cc)
    | inl (glob, good) ↦
        let b = rw good at h in
        let (_, last) =
          reject-eq_ok (is_empty (matching_ids glob signals)) (nothing_matched selector) _ b in
        rw good (rw⁻¹ (ok_injective last) (matching_ids-IsOf glob [] signals signals refl))
  ]

  selector_ids-Stands :
      (selector : Text) {ids : List ℕ}
      → selector_ids compile_glob signals selector ≡ ok ids
      → All (Stands selector) ids
  unfolding selector_ids
  selector_ids-Stands selector h = elim (Bool-cases (text_eq selector (codes "*"))) [
    | inl star ↦
        let b = rw star at h in
        rw⁻¹ (ok_injective b) (map-IsOf _ [] signals signals (λ s. ground arith) refl)
    | inr other ↦ elim (Option-cases (strip_prefix (codes "#") selector)) [
      | inl plain ↦ elim (Bool-cases (contains_glob selector)) [
        | inl glob ↦
            let b = rw (other, plain, glob) at h in
            IsOf-mono _ _ _ (λ s t. ground arith) (glob_ids-IsOf selector b)
        | inr exact ↦
            let b = rw (other, plain, exact) at h in
            IsOf-mono _ _ _ (λ s t. ground arith) (named_id-IsOf selector _ refl b)
      ]
      | inr (raw, hash) ↦ elim (Option-cases (from_str_radix 10 (2 ^ 32) raw)) [
        | inl bad ↦ absurd (let b = rw (other, hash, bad) at h in cc)
        | inr (id, number) ↦
            let b = rw (other, hash, number) at h in
            IsOf-mono _ _ _ (λ s t. ground arith) (existing_id-IsOf selector id _ refl b)
      ]
    ]
  ]

  abbrev pub Among : List Text → ℕ → Type 0
  Among selectors id = (n : ℕ) × (s : Text) × (get_elem? selectors n ≡ some s) × Stands s id

  add_ids-get :
      (P : ℕ → Type 0) (found : List ℕ) (ids : List (ℕ × Unit {0})) (id : ℕ)
      → All P found
      → get id (add_ids found ids) ≡ some tt
      → (get id ids ≡ some tt) ⊎ P id
  add_ids-get P [] ids id a h = inl h
  add_ids-get P (i ∷ is) ids id a h = elim (add_ids-get P is (insert i tt ids) id a.1 h) [
    | inr p ↦ inr p
    | inl there ↦ elim (get-insert i id tt ids tt there) [
      | inl (same, _) ↦ inr (subst P same a.0)
      | inr old ↦ inl old
    ]
  ]

  add_ids-IsSorted :
      (found : List ℕ) (ids : List (ℕ × Unit {0})) → IsSorted ids → IsSorted (add_ids found ids)
  add_ids-IsSorted [] ids s = s
  add_ids-IsSorted (i ∷ is) ids s =
      add_ids-IsSorted is (insert i tt ids) (insert-IsSorted i tt ids s)

  collect_ids_sound :
      (ids : List (ℕ × Unit {0})) (selectors : List Text) {out : List (ℕ × Unit {0})}
      → IsSorted ids
      → collect_ids compile_glob signals ids selectors ≡ ok out
      → IsSorted out
        × ((id : ℕ) → get id out ≡ some tt → (get id ids ≡ some tt) ⊎ Among selectors id)
  unfolding collect_ids
  collect_ids_sound ids [] s h = rw⁻¹ (ok_injective h) (s, λ id. inl)
  collect_ids_sound ids (x ∷ xs) s h =
      let (found, r, next) = >>=-eq-ok (selector_ids compile_glob signals x) _ h in
      let (sorted, rest) =
        collect_ids_sound (add_ids found ids) xs (add_ids-IsSorted found ids s) next in
      (
        sorted,
        λ id there. elim (rest id there) [
          | inr (n, y, at, p) ↦ inr (suc n, y, at, p)
          | inl old ↦ elim (add_ids-get (Stands x) found ids id (selector_ids-Stands x r) old) [
            | inl before ↦ inl before
            | inr p ↦ inr (0, x, refl, p)
          ]
        ],
      )

-- When the selectors of an instance are resolved, the ids ascend, and each is the id of a signal of the
-- project for which one of the selectors stands.
pub select_instance_signal_ids_sound :
    (compile_glob : Text → Result (Text → Bool) Text) (signals : List SignalMeta)
    (selectors : List Text) (out : List (ℕ × Unit {0}))
    → select_instance_signal_ids compile_glob signals selectors ≡ ok out
    → IsSorted out × ((id : ℕ) → get id out ≡ some tt → Among compile_glob signals selectors id)
unfolding select_instance_signal_ids
select_instance_signal_ids_sound compile_glob signals selectors out h =
    let (_, k) = reject-eq_ok (is_empty selectors) no_selectors _ h in
    let (sorted, rest) = collect_ids_sound compile_glob signals [] selectors tt k in
    (sorted, λ id there. elim (rest id there) [ inl bad ↦ absurd (cc) | inr good ↦ good ])
