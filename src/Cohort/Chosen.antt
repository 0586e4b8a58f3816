-- ===== src/Cohort/Chosen.antt =====
-- cohort.rs: the leaves that `prove_prefix_cohort` chooses.
use ztreexo.Prelude.{
  ℕ, suc, ◌≤◌, ◌≡◌, inl, inr, true, false, List, [], ◌∷◌, some, arith, refl, ◌==◌, Bool-cases,
  Option-cases, get_elem?, ltb,
}
use ztreexo.Imt.Types.{Value, Leaf}
use ztreexo.Imt.Index.{Index}
use ztreexo.Imt.Links.{Linked}
use ztreexo.Cohort.{PrefixRange, contains}
use ztreexo.Cohort.Prove.{
  values_below, values_in, next_back, insert_index, insert_indices, first_indices, cohort_indices,
}

-- indices from `low` on, ascending
abbrev pub Rising : ℕ → List ℕ → Type 0
Rising low [] = Unit
Rising low (i ∷ rest) = (low ≤ i) × Rising (suc i) rest

Rising-insert_index :
    (low i : ℕ) (is : List ℕ) → low ≤ i → Rising low is → Rising low (insert_index i is)
unfolding insert_index
Rising-insert_index low i [] le asc = (le, tt)
Rising-insert_index low i (j ∷ is) le asc = elim (Bool-cases (ltb i j)) [
  | inl below ↦ rw below (le, (ground (arith, below), asc.1))
  | inr not_below ↦ elim (Bool-cases (i == j)) [
    | inl here ↦ rw (not_below, here) asc
    | inr above ↦
        rw (not_below, above)
          (asc.0, Rising-insert_index (suc j) i is (ground (arith, not_below, above)) asc.1)
  ]
]

module _ (leaves : List Leaf) where
  -- every index has a leaf
  abbrev pub AllHeld : List ℕ → Type 0
  AllHeld [] = Unit
  AllHeld (i ∷ rest) = ((l : Leaf) × (get_elem? leaves i ≡ some l)) × AllHeld rest

  abbrev Entries : Index → Type 0
  Entries [] = Unit
  Entries ((v, i) ∷ rest) = ((l : Leaf) × (get_elem? leaves i ≡ some l)) × Entries rest

  pub Linked-Entries : (ix : Index) → Linked leaves ix → Entries ix
  Linked-Entries [] linked = tt
  Linked-Entries ((v, i) ∷ []) linked = ((_, linked), tt)
  Linked-Entries ((v, i) ∷ (w, j) ∷ rest) linked =
      ((_, linked.0), Linked-Entries ((w, j) ∷ rest) linked.2)

  values_below-Entries : (b : Value) (ix : Index) → Entries ix → Entries (values_below b ix)
  unfolding values_below
  values_below-Entries b [] all = tt
  values_below-Entries b ((v, i) ∷ rest) all = elim (Bool-cases (ltb v b)) [
    | inl below ↦ rw below (all.0, values_below-Entries b rest all.1)
    | inr beyond ↦ rw beyond (values_below-Entries b rest all.1)
  ]

  values_in-Entries : (range : PrefixRange) (ix : Index) → Entries ix → Entries (values_in range ix)
  unfolding values_in
  values_in-Entries range [] all = tt
  values_in-Entries range ((v, i) ∷ rest) all = elim (Bool-cases (contains range v)) [
    | inl within ↦ rw within (all.0, values_in-Entries range rest all.1)
    | inr outside ↦ rw outside (values_in-Entries range rest all.1)
  ]

  insert_index-AllHeld :
      (i : ℕ) (is : List ℕ)
      → (l : Leaf) × (get_elem? leaves i ≡ some l)
      → AllHeld is
      → AllHeld (insert_index i is)
  unfolding insert_index
  insert_index-AllHeld i [] held all = (held, tt)
  insert_index-AllHeld i (j ∷ is) held all = elim (Bool-cases (ltb i j)) [
    | inl below ↦ rw below (held, all)
    | inr not_below ↦ elim (Bool-cases (i == j)) [
      | inl here ↦ rw (not_below, here) all
      | inr above ↦ rw (not_below, above) (all.0, insert_index-AllHeld i is held all.1)
    ]
  ]

  insert_indices-chosen :
      (ix : Index) (is : List ℕ)
      → Entries ix
      → AllHeld is
      → Rising 0 is
      → AllHeld (insert_indices ix is) × Rising 0 (insert_indices ix is)
  unfolding insert_indices
  insert_indices-chosen [] is entries all asc = (all, asc)
  insert_indices-chosen ((v, i) ∷ ix) is entries all asc =
      insert_indices-chosen ix (insert_index i is) entries.1
        (insert_index-AllHeld i is entries.0 all) (Rising-insert_index 0 i is (omega arith) asc)

  next_back-held :
      (ix : Index)
      → Entries ix
      → AllHeld (first_indices (next_back ix)) × Rising 0 (first_indices (next_back ix))
  next_back-held [] entries = (tt, tt)
  next_back-held (e ∷ []) entries = ((entries.0, tt), (omega arith, tt))
  next_back-held (e ∷ f ∷ ix) entries = next_back-held (f ∷ ix) entries.1

  pub cohort_indices-chosen :
      (range : PrefixRange) (ix : Index)
      → Linked leaves ix
      → AllHeld (cohort_indices range ix) × Rising 0 (cohort_indices range ix)
  unfolding cohort_indices
  cohort_indices-chosen range ix linked =
      let entries = Linked-Entries ix linked in
      let (held, asc) =
        next_back-held (values_below range.lo ix) (values_below-Entries range.lo ix entries) in
      insert_indices-chosen (values_in range ix) _ (values_in-Entries range ix entries) held asc

-- not empty
abbrev pub Occupied : List ℕ → Type 0
Occupied is = (i : ℕ) × (rest : List ℕ) × (is ≡ i ∷ rest)

insert_index-Occupied : (i : ℕ) (is : List ℕ) → Occupied (insert_index i is)
unfolding insert_index
insert_index-Occupied i [] = (i, [], refl)
insert_index-Occupied i (j ∷ is) = elim (Bool-cases (ltb i j)) [
  | inl below ↦ rw below (i, j ∷ is, refl)
  | inr not_below ↦ elim (Bool-cases (i == j)) [
    | inl here ↦ rw (not_below, here) (j, is, refl)
    | inr above ↦ rw (not_below, above) (j, insert_index i is, refl)
  ]
]

insert_indices-Occupied : (ix : Index) (is : List ℕ) → Occupied is → Occupied (insert_indices ix is)
unfolding insert_indices
insert_indices-Occupied [] is some_index = some_index
insert_indices-Occupied ((v, i) ∷ ix) is some_index =
    insert_indices-Occupied ix (insert_index i is) (insert_index-Occupied i is)

next_back-Occupied : (e : Value × ℕ) (ix : Index) → Occupied (first_indices (next_back (e ∷ ix)))
next_back-Occupied e [] = (e.1, [], refl)
next_back-Occupied e (f ∷ ix) = next_back-Occupied f ix

zero_within :
    (range : PrefixRange) (value : Value)
    → range.lo ≡ 0
    → contains range value ≡ true
    → contains range 0 ≡ false
    → ⊥
unfolding contains
zero_within range value from_zero within outside = elim (Option-cases range.hi) [
  | inl unbounded ↦ ground (arith, from_zero, within, outside, unbounded)
  | inr (hi, bound) ↦ ground (arith, from_zero, within, outside, bound)
]

-- The sentinel is in the range or below it.
pub cohort_indices-Occupied :
    (range : PrefixRange) (value : Value) (rest : Index)
    → contains range value ≡ true
    → Occupied (cohort_indices range ((0, 0) ∷ rest))
unfolding cohort_indices values_below values_in insert_indices contains
cohort_indices-Occupied range value rest within = elim (Bool-cases (ltb 0 range.lo)) [
  | inl below ↦ rw below (
      insert_indices-Occupied (values_in range ((0, 0) ∷ rest)) _
        (next_back-Occupied (0, 0) (values_below range.lo rest)))
  | inr from_zero ↦ elim (Bool-cases (contains range 0)) [
    | inl held ↦
        rw held (insert_indices-Occupied (values_in range rest) _ (insert_index-Occupied 0 _))
    | inr outside ↦ absurd (zero_within range value (ground (arith, from_zero)) within outside)
  ]
]
