-- ===== src/Base/Map.antt =====
-- Ordered maps: `BTreeMap` as the list of its entries in ascending order of the keys, with the
-- operations that the program calls. A `HashMap` of the program is one too; where the program
-- walks one, the order of its entries is not part of any statement.
use Prim.Native.Nat.{compare, Ordering}
use agent_sim.Base.{
  ℕ, ◌≡◌, ◌≢◌, ◌⊎◌, inl, inr, refl, sym, ap, ◌∙◌, Bool, true, false, Option, none, some, List, [],
  ◌∷◌, arith, Text,
}

-- Three-way comparison, with the laws of a linear order.
pub record Order {ℓ} (K : Type ℓ) : Type ℓ where
  pub cmp : K → K → Ordering
  pub cmp_refl : (a : K) → cmp a a ≡ Ordering.eq
  pub cmp_eq : (a b : K) → cmp a b ≡ Ordering.eq → a ≡ b
  pub cmp_gt : (a b : K) → cmp a b ≡ Ordering.gt → cmp b a ≡ Ordering.lt
  pub cmp_trans :
      (a b c : K) → cmp a b ≡ Ordering.lt → cmp b c ≡ Ordering.lt → cmp a c ≡ Ordering.lt

pub nat_refl : (a : ℕ) → compare a a ≡ Ordering.eq
nat_refl a = ground arith

pub nat_cmp_eq : (a b : ℕ) → compare a b ≡ Ordering.eq → a ≡ b
nat_cmp_eq a b h = ground arith

pub nat_gt : (a b : ℕ) → compare a b ≡ Ordering.gt → compare b a ≡ Ordering.lt
nat_gt a b h = ground arith

pub nat_trans :
    (a b c : ℕ) → compare a b ≡ Ordering.lt → compare b c ≡ Ordering.lt → compare a c ≡ Ordering.lt
nat_trans a b c h k = ground arith

instance abbrev pub nat_order : Order ℕ
nat_order = record {
  cmp = compare;
  cmp_refl = nat_refl;
  cmp_eq = nat_cmp_eq;
  cmp_gt = nat_gt;
  cmp_trans = nat_trans;
}

-- Texts are ordered by their first difference, as their UTF-8 bytes are.
abbrev pub text_cmp : Text → Text → Ordering
text_cmp [] [] = Ordering.eq
text_cmp [] (b ∷ t) = Ordering.lt
text_cmp (a ∷ s) [] = Ordering.gt
text_cmp (a ∷ s) (b ∷ t) = elim (compare a b) [
  | Ordering.lt ↦ Ordering.lt
  | Ordering.eq ↦ text_cmp s t
  | Ordering.gt ↦ Ordering.gt
]

pub text_refl : (a : Text) → text_cmp a a ≡ Ordering.eq
text_refl [] = refl
text_refl (a ∷ s) = ground (arith, text_refl s)

pub text_cmp_eq : (a b : Text) → text_cmp a b ≡ Ordering.eq → a ≡ b
text_cmp_eq [] [] h = refl
text_cmp_eq [] (b ∷ t) h = absurd (cc)
text_cmp_eq (a ∷ s) [] h = absurd (cc)
text_cmp_eq (a ∷ s) (b ∷ t) h = ground (arith, text_cmp_eq s t)

pub text_gt : (a b : Text) → text_cmp a b ≡ Ordering.gt → text_cmp b a ≡ Ordering.lt
text_gt [] [] h = absurd (cc)
text_gt [] (b ∷ t) h = absurd (cc)
text_gt (a ∷ s) [] h = refl
text_gt (a ∷ s) (b ∷ t) h = ground (arith, text_gt s t)

pub text_trans :
    (a b c : Text)
    → text_cmp a b ≡ Ordering.lt
    → text_cmp b c ≡ Ordering.lt
    → text_cmp a c ≡ Ordering.lt
text_trans [] [] c h k = absurd (cc)
text_trans [] (b ∷ t) [] h k = absurd (cc)
text_trans [] (b ∷ t) (c ∷ u) h k = refl
text_trans (a ∷ s) [] c h k = absurd (cc)
text_trans (a ∷ s) (b ∷ t) [] h k = absurd (cc)
text_trans (a ∷ s) (b ∷ t) (c ∷ u) h k = ground (arith, text_trans s t u)

instance abbrev pub text_order : Order Text
text_order = record {
  cmp = text_cmp;
  cmp_refl = text_refl;
  cmp_eq = text_cmp_eq;
  cmp_gt = text_gt;
  cmp_trans = text_trans;
}

some_injective {ℓ} : {A : Type ℓ} {a b : A} → ◌≡◌ {A = Option A} (some a) (some b) → a ≡ b
some_injective e = cc

eq_or_ne : (c : Ordering) {d : Ordering} → d ≡ c → (d ≡ Ordering.eq) ⊎ (d ≢ Ordering.eq)
eq_or_ne Ordering.eq e = inl e
eq_or_ne Ordering.lt e = inr (λ f. cc)
eq_or_ne Ordering.gt e = inr (λ f. cc)

module _ {ℓ κ} {K : Type ℓ} {V : Type κ} ⦃o : Order K⦄ where
  abbrev pub get : K → List (K × V) → Option V
  get k [] = none
  get k ((j, v) ∷ m) = elim (o.cmp k j) [ Ordering.eq ↦ some v | _ ↦ get k m ]

  abbrev pub insert : K → V → List (K × V) → List (K × V)
  insert k v [] = (k, v) ∷ []
  insert k v ((j, w) ∷ m) = elim (o.cmp k j) [
    | Ordering.lt ↦ (k, v) ∷ (j, w) ∷ m
    | Ordering.eq ↦ (k, v) ∷ m
    | Ordering.gt ↦ (j, w) ∷ insert k v m
  ]

  abbrev pub remove : K → List (K × V) → List (K × V)
  remove k [] = []
  remove k ((j, w) ∷ m) = elim (o.cmp k j) [ Ordering.eq ↦ m | _ ↦ (j, w) ∷ remove k m ]

  abbrev pub contains_key : K → List (K × V) → Bool
  contains_key k m = elim (get k m) [ none ↦ false | some _ ↦ true ]

  -- Every key of the map comes after `k`.
  abbrev pub Above : K → List (K × V) → Type 0
  Above k [] = Unit
  Above k ((j, w) ∷ m) = (o.cmp k j ≡ Ordering.lt) × Above k m

  abbrev pub IsSorted : List (K × V) → Type 0
  IsSorted [] = Unit
  IsSorted ((j, w) ∷ m) = Above j m × IsSorted m

  pub get-insert_self : (k : K) (v : V) (m : List (K × V)) → get k (insert k v m) ≡ some v
  get-insert_self k v [] = ground (arith, o.cmp_refl k)
  get-insert_self k v ((j, w) ∷ m) = ground (arith, o.cmp_refl k, get-insert_self k v m)

  pub get-insert_ne : (k i : K) (v : V) (m : List (K × V)) → k ≢ i → get i (insert k v m) ≡ get i m
  get-insert_ne k i v [] h = ground (arith, o.cmp_eq i k)
  get-insert_ne k i v ((j, w) ∷ m) h =
      ground (arith, o.cmp_eq i k, o.cmp_eq k j, get-insert_ne k i v m h)

  Above-trans : (k j : K) (m : List (K × V)) → o.cmp k j ≡ Ordering.lt → Above j m → Above k m
  Above-trans k j [] h a = tt
  Above-trans k j ((i, w) ∷ m) h a = (o.cmp_trans k j i h a.0, Above-trans k j m h a.1)

  Above-insert :
      (i k : K) (v : V) (m : List (K × V))
      → o.cmp i k ≡ Ordering.lt
      → Above i m
      → Above i (insert k v m)
  Above-insert i k v [] h a = (h, tt)
  Above-insert i k v ((j, w) ∷ m) h a = ground (arith, Above-insert i k v m h)

  pub insert-IsSorted : (k : K) (v : V) (m : List (K × V)) → IsSorted m → IsSorted (insert k v m)
  insert-IsSorted k v [] s = (tt, tt)
  insert-IsSorted k v ((j, w) ∷ m) s = ground (
    arith,
    insert-IsSorted k v m s.1,
    Above-insert j k v m,
    Above-trans k j m,
    o.cmp_gt k j,
    o.cmp_eq k j,
  )

  pub get-Above : (k : K) (m : List (K × V)) → Above k m → get k m ≡ none
  get-Above k [] a = refl
  get-Above k ((j, w) ∷ m) a = ground (arith, get-Above k m a.1)

  -- What is found after an insertion is what was inserted, or was there.
  pub get-insert :
      (k i : K) (v : V) (m : List (K × V)) (w : V)
      → get i (insert k v m) ≡ some w
      → ((k ≡ i) × (v ≡ w)) ⊎ (get i m ≡ some w)
  get-insert k i v m w h = elim (eq_or_ne (o.cmp i k) refl) [
    | inl e ↦
        let same = o.cmp_eq i k e in
        inl (
          sym same,
          some_injective
              (sym (get-insert_self k v m) ∙ ap (λ t. get t (insert k v m)) (sym same) ∙ h),
        )
    | inr apart ↦ inr (sym (get-insert_ne k i v m (λ e. apart (ap (o.cmp i) e ∙ o.cmp_refl i))) ∙ h)
  ]

  -- A key is that of the first entry, or is looked up behind it.
  pub get-cons :
      (k j : K)
      → ((v : V) (m : List (K × V)) → get k ((j, v) ∷ m) ≡ some v)
        ⊎ ((v : V) (m : List (K × V)) → get k ((j, v) ∷ m) ≡ get k m)
  get-cons k j = elim (eq_or_ne (o.cmp k j) refl) [
    | inl same ↦ inl (λ v m. ground arith)
    | inr apart ↦ inr (λ v m. ground arith)
  ]
