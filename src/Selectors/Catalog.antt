-- ===== src/Selectors/Catalog.antt =====
-- What a catalog that was built knows: its index finds each entry under its own name, and nothing
-- else.
use agent_sim.Base.{
  ℕ, zero, suc, ◌+◌, ◌≡◌, refl, sym, ap, subst, ◌∙◌, ◌≢◌, ◌⊎◌, inl, inr, true, false, not, Option,
  none, some, List, [], ◌∷◌, arith, Bool-cases, get_elem?, All, ok, >>=-eq-ok, ok_injective,
  reject-eq_ok, Text, text_eq, text_eq_iff, contains_char,
}
use agent_sim.Base.Map.{get, insert, text_order, get-insert_self, get-insert_ne}
use agent_sim.Selectors.{
  EnvSignalCatalogEntry, EnvSignalCatalog, reserved_colon, invalid_qualified, sort_entries,
  is_qualified, fresh_name, index_entries, build,
}

-- The index of a name in the entries, counted from `idx`.
abbrev IsAt : Text → ℕ → ℕ → List EnvSignalCatalogEntry → Type 0
IsAt name i idx es =
    (j : ℕ) × (e : EnvSignalCatalogEntry) × (i ≡ idx + j)
    × (get_elem? es j ≡ some e)
    × (e.qualified_name ≡ name)

fresh-get : (name : Text) (idx : ℕ) (old : Option ℕ) → fresh_name name idx old ≡ ok tt → old ≡ none
fresh-get name idx none e = refl
fresh-get name idx (some i) e = absurd (cc)

-- What one round of the loop went through.
record Round (idx : ℕ) (e : EnvSignalCatalogEntry) (es : List EnvSignalCatalogEntry)
    (m out : List (Text × ℕ)) : Type 0 where
  qualified : is_qualified e ≡ true
  no_colon : contains_char b':' e.signal_name ≡ false
  is_new : get e.qualified_name m ≡ none
  rest : index_entries (suc idx) es (insert e.qualified_name idx m) ≡ ok out

index_entries-Round :
    (idx : ℕ) (e : EnvSignalCatalogEntry) (es : List EnvSignalCatalogEntry)
    (m out : List (Text × ℕ))
    → index_entries idx (e ∷ es) m ≡ ok out
    → Round idx e es m out
unfolding index_entries
index_entries-Round idx e es m out h =
    let (colon, h1) =
      reject-eq_ok (contains_char b':' e.signal_name) (reserved_colon e.signal_name e.instance_name)
        _ h in
    let (q, h2) =
      reject-eq_ok (not (is_qualified e)) (invalid_qualified e.qualified_name e.instance_name) _
        h1 in
    let (u, f, h3) = >>=-eq-ok (fresh_name e.qualified_name idx (get e.qualified_name m)) _ h2 in
    record {
      qualified = ground arith;
      no_colon = colon;
      is_new = fresh-get e.qualified_name idx (get e.qualified_name m) f;
      rest = h3;
    }

index_entries-nil : (idx : ℕ) (m out : List (Text × ℕ)) → index_entries idx [] m ≡ ok out → m ≡ out
unfolding index_entries
index_entries-nil idx m out h = ok_injective h

text_dec : (s t : Text) → (s ≡ t) ⊎ (s ≢ t)
text_dec s t = elim (Bool-cases (text_eq s t)) [
  | inl same ↦ inl ((text_eq_iff s t).0 same)
  | inr apart ↦ inr (λ e. let k = (text_eq_iff s t).1 e in cc)
]

-- A name that is in the index stays under its number.
index_entries-keeps :
    (idx : ℕ) (es : List EnvSignalCatalogEntry) (m out : List (Text × ℕ)) (name : Text) (i : ℕ)
    → index_entries idx es m ≡ ok out
    → get name m ≡ some i
    → get name out ≡ some i
index_entries-keeps idx [] m out name i h e = rw⁻¹ (index_entries-nil idx m out h) e
index_entries-keeps idx (x ∷ es) m out name i h e =
    let r = index_entries-Round idx x es m out h in
    index_entries-keeps (suc idx) es (insert x.qualified_name idx m) out name i r.rest
      (elim (text_dec x.qualified_name name) [
        | inl same ↦ absurd (let n = r.is_new in let k : get name m ≡ none = rw same at n in cc)
        | inr apart ↦ get-insert_ne x.qualified_name name idx m apart ∙ e
      ])

-- Each entry is found under its name.
index_entries-finds :
    (idx : ℕ) (es : List EnvSignalCatalogEntry) (m out : List (Text × ℕ)) (j : ℕ)
    (e : EnvSignalCatalogEntry)
    → index_entries idx es m ≡ ok out
    → get_elem? es j ≡ some e
    → get e.qualified_name out ≡ some (idx + j)
index_entries-finds idx [] m out j e h at = absurd (cc)
index_entries-finds idx (x ∷ es) m out zero e h at =
    let r = index_entries-Round idx x es m out h in
    let same : x ≡ e = ground arith in
    let k : idx + 0 ≡ idx = omega arith in
    rw (← same, k)
      (index_entries-keeps (suc idx) es (insert x.qualified_name idx m) out x.qualified_name idx
        r.rest (get-insert_self x.qualified_name idx m))
index_entries-finds idx (x ∷ es) m out (suc j) e h at =
    let r = index_entries-Round idx x es m out h in
    let k : idx + suc j ≡ suc idx + j = omega arith in
    rw k (index_entries-finds (suc idx) es (insert x.qualified_name idx m) out j e r.rest at)

-- A name that is found was there, or is that of an entry.
index_entries_sound :
    (idx : ℕ) (es : List EnvSignalCatalogEntry) (m out : List (Text × ℕ)) (name : Text) (i : ℕ)
    → index_entries idx es m ≡ ok out
    → get name out ≡ some i
    → (get name m ≡ some i) ⊎ IsAt name i idx es
index_entries_sound idx [] m out name i h found = inl (rw (index_entries-nil idx m out h) found)
index_entries_sound idx (x ∷ es) m out name i h found =
    let r = index_entries-Round idx x es m out h in
    elim (index_entries_sound (suc idx) es (insert x.qualified_name idx m) out name i r.rest
      found) [
        | inr (j, e, k, at, q) ↦ inr (suc j, e, omega arith, at, q)
        | inl old ↦ elim (text_dec x.qualified_name name) [
          | inl same ↦
              let new = get-insert_self x.qualified_name idx m in
              let n : get name (insert x.qualified_name idx m) ≡ some idx =
                subst (λ q. get q (insert x.qualified_name idx m) ≡ some idx) same new in
              let k : i ≡ idx = (let b = sym old ∙ n in cc) in inr (0, x, omega arith, refl, same)
          | inr apart ↦ inl (sym (get-insert_ne x.qualified_name name idx m apart) ∙ old)
        ]
      ]

pub record IsCatalog (catalog : EnvSignalCatalog) : Type 0 where
  -- Each entry is found under its name, at its place.
  pub finds :
      (j : ℕ) (e : EnvSignalCatalogEntry)
      → get_elem? catalog.entries j ≡ some e
      → get e.qualified_name catalog.qualified_index ≡ some j
  -- What is found is the place of an entry of that name.
  pub sound :
      (name : Text) (i : ℕ)
      → get name catalog.qualified_index ≡ some i
      → (e : EnvSignalCatalogEntry) × (get_elem? catalog.entries i ≡ some e)
        × (e.qualified_name ≡ name)
  pub qualified : All (λ e. is_qualified e ≡ true) catalog.entries

index_entries-qualified :
    (idx : ℕ) (es : List EnvSignalCatalogEntry) (m out : List (Text × ℕ))
    → index_entries idx es m ≡ ok out
    → All (λ e. is_qualified e ≡ true) es
index_entries-qualified idx [] m out h = tt
index_entries-qualified idx (x ∷ es) m out h =
    let r = index_entries-Round idx x es m out h in
    (r.qualified, index_entries-qualified (suc idx) es (insert x.qualified_name idx m) out r.rest)

-- The index of a catalog that was built finds each entry at its place under its qualified name, finds
-- nothing else, and every qualified name is an instance, a colon and more.
pub build-IsCatalog :
    (entries : List EnvSignalCatalogEntry) (catalog : EnvSignalCatalog)
    → build entries ≡ ok catalog
    → IsCatalog catalog
unfolding build
build-IsCatalog entries catalog h =
    let (index, made, last) = >>=-eq-ok (index_entries 0 (sort_entries [] entries) []) _ h in
    let sorted = sort_entries [] entries in
    rw⁻¹ (ok_injective last) (record {
      finds = λ j e at. index_entries-finds 0 sorted [] index j e made at ∙ ap some (omega arith);
      sound = λ name i found. elim (index_entries_sound 0 sorted [] index name i made found) [
        | inl bad ↦ absurd (cc)
        | inr (j, e, k, at, q) ↦ let same : i ≡ j = omega arith in (e, rw same at, q)
      ];
      qualified = index_entries-qualified 0 sorted [] index made;
    })
