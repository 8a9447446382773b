-- ===== src/Selectors/Resolve.antt =====
-- The indices that selectors stand for.
use agent_sim.Base.{
  ℕ, zero, suc, ◌+◌, ◌≤◌, ◌<◌, ◌≡◌, refl, sym, ap, subst, ◌∙◌, ◌≢◌, inl, inr, Bool, true, false,
  not, ◌&&◌, ◌||◌, Option, none, some, List, [], ◌∷◌, ◌++◌, arith, ltb, leb, ◌==◌, if◌then◌else◌,
  Bool-cases, Option-cases, length, get_elem?, All, All-append, Pairwise, Result, ok, err,
  >>=-eq-ok, ok_injective, reject-eq_ok, Text, codes, text_eq, text_eq_iff, starts_with, is_empty,
}
use agent_sim.Base.Map.{get, text_order}
use agent_sim.Selectors.{
  EnvSignalCatalogEntry, EnvSignalCatalog, missing_selectors, matched_nothing, found_index,
  contains_glob, range, split_once, part_matcher, matching, glob_indices, pair_indices,
  resolve_selector_indices, seen_index, add_indices, add_selectors, resolve_selectors, build,
}
use agent_sim.Selectors.Catalog.{IsCatalog, build-IsCatalog}

-- All indices are places of the catalog.
abbrev Within : ℕ → List ℕ → Type 0
Within n is = All (λ i. i < n) is

range-Within : (from n total : ℕ) → from + n ≤ total → Within total (range from n)
range-Within from zero total h = tt
range-Within from (suc n) total h = (omega arith, range-Within (suc from) n total (omega arith))

matching-Within :
    (p q : Text → Bool) (idx : ℕ) (es : List EnvSignalCatalogEntry) (total : ℕ)
    → idx + length es ≤ total
    → Within total (matching p q idx es)
unfolding matching
matching-Within p q idx [] total h = tt
matching-Within p q idx (e ∷ es) total h =
    let rest = matching-Within p q (suc idx) es total (omega arith) in
    elim (Bool-cases (p e.instance_name)) [
      | inr apart ↦ rw apart rest
      | inl same ↦ elim (Bool-cases (q e.signal_name)) [
        | inr apart ↦ rw (same, apart) rest
        | inl both ↦ rw (same, both) (omega arith, rest)
      ]
    ]

get_elem?-lt {ℓ} :
    {A : Type ℓ} (xs : List A) (i : ℕ) {a : A} → get_elem? xs i ≡ some a → i < length xs
get_elem?-lt [] i e = absurd (cc)
get_elem?-lt (x ∷ xs) zero e = omega arith
get_elem?-lt (x ∷ xs) (suc i) e = omega (arith, get_elem?-lt xs i e)

seen_index-append :
    (i : ℕ) (xs ys : List ℕ) → seen_index i (xs ++ ys) ≡ (seen_index i xs || seen_index i ys)
seen_index-append i [] ys = refl
seen_index-append i (x ∷ xs) ys = ground (arith, seen_index-append i xs ys)

Within-append : (n : ℕ) (xs ys : List ℕ) → Within n xs → Within n ys → Within n (xs ++ ys)
Within-append n xs ys h k = All-append (λ i. i < n) xs ys h k

abbrev Distinct : List ℕ → Type 0
Distinct is = Pairwise (λ i j. i ≢ j) is

Distinct-snoc :
    (is : List ℕ) (i : ℕ) → Distinct is → seen_index i is ≡ false → Distinct (is ++ i ∷ [])
Distinct-snoc [] i h e = (tt, tt)
Distinct-snoc (j ∷ js) i h e = (
  All-append (λ k. j ≢ k) js (i ∷ []) h.0 ((λ k. ground arith), tt),
  Distinct-snoc js i h.1 (ground arith),
)

-- What adding indices one by one leaves.
record Added (n : ℕ) (resolved is out : List ℕ) : Type 0 where
  distinct : Distinct out
  within : Within n out
  members : (i : ℕ) → seen_index i out ≡ (seen_index i resolved || seen_index i is)

add_indices-Added :
    (n : ℕ) (resolved is : List ℕ)
    → Distinct resolved
    → Within n resolved
    → Within n is
    → Added n resolved is (add_indices resolved is)
unfolding add_indices
add_indices-Added n resolved [] d w h = record {
  distinct = d;
  within = w;
  members = λ i. ground arith;
}
add_indices-Added n resolved (i ∷ is) d w h = elim (Bool-cases (seen_index i resolved)) [
  | inl old ↦
      let rest = add_indices-Added n resolved is d w h.1 in
      rw old (record {
        distinct = rest.distinct;
        within = rest.within;
        members = λ j. ground (arith, rest.members j);
      })
  | inr new ↦
      let rest =
        add_indices-Added n (resolved ++ i ∷ []) is (Distinct-snoc resolved i d new)
          (Within-append n resolved (i ∷ []) w (h.0, tt)) h.1 in
      rw new (record {
        distinct = rest.distinct;
        within = rest.within;
        members = λ j. ground (arith, rest.members j, seen_index-append j resolved (i ∷ []));
      })
]

seen_index-matching_below :
    (p q : Text → Bool) (i idx : ℕ) (es : List EnvSignalCatalogEntry)
    → i < idx
    → seen_index i (matching p q idx es) ≡ false
unfolding matching
seen_index-matching_below p q i idx [] h = refl
seen_index-matching_below p q i idx (e ∷ es) h =
    ground (arith, seen_index-matching_below p q i (suc idx) es (omega arith))

-- An index is matched when its entry is.
seen_index-matching :
    (p q : Text → Bool) (idx : ℕ) (es : List EnvSignalCatalogEntry) (j : ℕ)
    (e : EnvSignalCatalogEntry)
    → get_elem? es j ≡ some e
    → seen_index (idx + j) (matching p q idx es) ≡ (p e.instance_name && q e.signal_name)
unfolding matching
seen_index-matching p q idx [] j e at = absurd (cc)
seen_index-matching p q idx (x ∷ es) zero e at =
    let same : x ≡ e = ground arith in
    let k : idx + 0 ≡ idx = omega arith in
    rw (← same, k) (ground (arith, seen_index-matching_below p q idx (suc idx) es (omega arith)))
seen_index-matching p q idx (x ∷ es) (suc j) e at =
    let k : idx + suc j ≡ suc idx + j = omega arith in
    let apart : (suc idx + j == idx) ≡ false = ground arith in
    rw k (ground (arith, seen_index-matching p q (suc idx) es j e at))

seen_index-matching_all :
    (p q : Text → Bool) (es : List EnvSignalCatalogEntry) (j : ℕ) (e : EnvSignalCatalogEntry)
    → get_elem? es j ≡ some e
    → seen_index j (matching p q 0 es) ≡ (p e.instance_name && q e.signal_name)
seen_index-matching_all p q es j e at =
    let k : 0 + j ≡ j = omega arith in
    subst (λ i. seen_index i (matching p q 0 es) ≡ (p e.instance_name && q e.signal_name)) k
      (seen_index-matching p q 0 es j e at)

seen_index-range : (i from n : ℕ) → seen_index i (range from n) ≡ (leb from i && ltb i (from + n))
seen_index-range i from zero = ground arith
seen_index-range i from (suc n) = ground (arith, seen_index-range i (suc from) n)

-- What a selector stands for, entry by entry.
module _ (compile_glob : Text → Result (Text → Bool) Text) where
  abbrev pub part_holds : Text → Text → Bool
  part_holds part value =
      if contains_glob part
      then elim (compile_glob part) [ ok glob ↦ glob value | err _ ↦ false ]
      else text_eq value part

  abbrev pub pair_holds : EnvSignalCatalogEntry → Text × Text → Bool
  pair_holds e (instance_selector, signal_selector) =
      if not (contains_glob instance_selector) && not (contains_glob signal_selector)
      then text_eq e.qualified_name (instance_selector ++ b':' ∷ signal_selector)
      else part_holds instance_selector e.instance_name && part_holds signal_selector e.signal_name

  abbrev pub chosen : EnvSignalCatalogEntry → Text → Bool
  chosen e selector =
      if text_eq selector (codes "*")
      then true
      else elim (split_once b':' selector) [ none ↦ false | some parts ↦ pair_holds e parts ]

  abbrev pub chosen_by : EnvSignalCatalogEntry → List Text → Bool
  chosen_by e [] = false
  chosen_by e (s ∷ ss) = chosen e s || chosen_by e ss

  part_matcher-holds :
      (selector part : Text) (f : Text → Bool)
      → part_matcher compile_glob selector part ≡ ok f
      → (value : Text) → f value ≡ part_holds part value
  unfolding part_matcher
  part_matcher-holds selector part f h value = ground arith

module _ (compile_glob : Text → Result (Text → Bool) Text) (catalog : EnvSignalCatalog)
    (h : IsCatalog catalog) where
  -- The indices are places, those of the entries for which the test holds.
  record Picks (test : EnvSignalCatalogEntry → Bool) (is : List ℕ) : Type 0 where
    places : Within (length catalog.entries) is
    exact :
        (j : ℕ) (e : EnvSignalCatalogEntry)
        → get_elem? catalog.entries j ≡ some e
        → seen_index j is ≡ test e

  glob_indices-Picks :
      (selector p q : Text) {is : List ℕ}
      → glob_indices compile_glob catalog selector p q ≡ ok is
      → Picks
          (λ e.
            part_holds compile_glob p e.instance_name && part_holds compile_glob q e.signal_name)
          is
  glob_indices-Picks selector p q e =
      let (f, hf, e1) = >>=-eq-ok (part_matcher compile_glob selector p) _ e in
      let (g, hg, e2) = >>=-eq-ok (part_matcher compile_glob selector q) _ e1 in
      let (_, e3) =
        reject-eq_ok (is_empty (matching f g 0 catalog.entries)) (matched_nothing selector) _ e2 in
      rw⁻¹ (ok_injective e3) (record {
        places = matching-Within f g 0 catalog.entries (length catalog.entries) (omega arith);
        exact = λ j x at.
            rw
              (
                ← part_matcher-holds compile_glob selector p f hf x.instance_name,
                ← part_matcher-holds compile_glob selector q g hg x.signal_name,
              )
              (seen_index-matching_all f g catalog.entries j x at);
      })

  found_index-Picks :
      (selector name : Text) (found : Option ℕ) {is : List ℕ}
      → get name catalog.qualified_index ≡ found
      → found_index selector found ≡ ok is
      → Picks (λ e. text_eq e.qualified_name name) is
  found_index-Picks selector name none g e = absurd (cc)
  found_index-Picks selector name (some index) g e =
      let (entry, at, q) = h.sound name index g in
      rw⁻¹ (ok_injective e) (record {
        places = (get_elem?-lt catalog.entries index at, tt);
        exact = λ j x place. elim (Bool-cases (text_eq x.qualified_name name)) [
          | inl same ↦
              let found = h.finds j x place in
              let k : some j ≡ some index =
                sym found
                ∙ ap (λ t. get t catalog.qualified_index)
                    ((text_eq_iff x.qualified_name name).0 same)
                ∙ g in
              rw same (ground arith)
          | inr apart ↦ elim (Bool-cases (j == index)) [
            | inl here ↦ absurd (
                let k : j ≡ index = ground arith in
                let there : get_elem? catalog.entries index ≡ some x = rw (← k) place in
                let m : x ≡ entry = (let b = sym there ∙ at in cc) in
                let n =
                  (text_eq_iff x.qualified_name name).1
                    (ap (λ (t : EnvSignalCatalogEntry). t.qualified_name) m ∙ q) in
                cc)
            | inr other ↦ rw (apart, other) refl
          ]
        ];
      })

  pair_indices-Picks :
      (selector : Text) (parts : Text × Text) {is : List ℕ}
      → pair_indices compile_glob catalog selector parts ≡ ok is
      → Picks (λ e. pair_holds compile_glob e parts) is
  pair_indices-Picks selector (p, q) e = elim (Bool-cases (is_empty p || is_empty q)) [
    | inl blank ↦ absurd (ground arith)
    | inr filled ↦ elim (Bool-cases (starts_with (codes "#") q)) [
      | inl hash ↦ absurd (ground arith)
      | inr plain ↦ elim (Bool-cases (not (contains_glob p) && not (contains_glob q))) [
        | inl exact ↦
            let k = rw (filled, plain, exact) at e in
            rw exact (
              found_index-Picks selector (p ++ b':' ∷ q)
                (get (p ++ b':' ∷ q) catalog.qualified_index) refl k)
        | inr glob ↦
            let k = rw (filled, plain, glob) at e in rw glob (glob_indices-Picks selector p q k)
      ]
    ]
  ]

  resolve_selector_indices-Picks :
      (selector : Text) {is : List ℕ}
      → resolve_selector_indices compile_glob catalog selector ≡ ok is
      → Picks (λ e. chosen compile_glob e selector) is
  unfolding resolve_selector_indices
  resolve_selector_indices-Picks selector e = elim (Bool-cases (text_eq selector (codes "*"))) [
    | inl all ↦
        let k = rw all at e in
        rw all (
          rw⁻¹ (ok_injective k) (record {
            places = range-Within 0 (length catalog.entries) (length catalog.entries) (omega arith);
            exact = λ j x at. ground (
              arith,
              seen_index-range j 0 (length catalog.entries),
              get_elem?-lt catalog.entries j at,
            );
          }))
    | inr some_of ↦
        let k = rw some_of at e in
        rw some_of (elim (Option-cases (split_once b':' selector)) [
          | inl split ↦ absurd (let b = rw split at k in cc)
          | inr (parts, split) ↦
              let b = rw split at k in rw split (pair_indices-Picks selector parts b)
        ])
  ]

  -- What a list of selectors adds to the indices that are there.
  record Resolved (selectors : List Text) (resolved out : List ℕ) : Type 0 where
    distinct : Distinct out
    places : Within (length catalog.entries) out
    exact :
        (j : ℕ) (e : EnvSignalCatalogEntry)
        → get_elem? catalog.entries j ≡ some e
        → seen_index j out ≡ (seen_index j resolved || chosen_by compile_glob e selectors)

  add_selectors-Resolved :
      (resolved : List ℕ) (selectors : List Text) {out : List ℕ}
      → Distinct resolved
      → Within (length catalog.entries) resolved
      → add_selectors compile_glob catalog resolved selectors ≡ ok out
      → Resolved selectors resolved out
  unfolding add_selectors
  add_selectors-Resolved resolved [] d w e =
      rw⁻¹ (ok_injective e) (record { distinct = d; places = w; exact = λ j x at. ground arith })
  add_selectors-Resolved resolved (s ∷ ss) d w e =
      let (is, r, next) = >>=-eq-ok (resolve_selector_indices compile_glob catalog s) _ e in
      let picks = resolve_selector_indices-Picks s r in
      let added = add_indices-Added (length catalog.entries) resolved is d w picks.places in
      let rest =
        add_selectors-Resolved (add_indices resolved is) ss added.distinct added.within next in
      record {
        distinct = rest.distinct;
        places = rest.places;
        exact = λ j x at. ground (arith, rest.exact j x at, added.members j, picks.exact j x at);
      }

-- When selectors are resolved against a catalog that was built, the indices differ from each other,
-- are places of the catalog, and are those of the entries that one of the selectors stands for.
pub resolve_selectors-exact :
    (compile_glob : Text → Result (Text → Bool) Text) (entries : List EnvSignalCatalogEntry)
    (catalog : EnvSignalCatalog) (selectors : List Text) (out : List ℕ)
    → build entries ≡ ok catalog
    → resolve_selectors compile_glob catalog selectors ≡ ok out
    → Pairwise (λ i j. i ≢ j) out
      × All (λ i. i < length catalog.entries) out
      × ((j : ℕ) (e : EnvSignalCatalogEntry)
          → get_elem? catalog.entries j ≡ some e
          → seen_index j out ≡ chosen_by compile_glob e selectors)
unfolding resolve_selectors
resolve_selectors-exact compile_glob entries catalog selectors out made e =
    let (_, k) = reject-eq_ok (is_empty selectors) missing_selectors _ e in
    let r =
      add_selectors-Resolved compile_glob catalog (build-IsCatalog entries catalog made) []
        selectors tt tt k in
    (r.distinct, r.places, r.exact)
