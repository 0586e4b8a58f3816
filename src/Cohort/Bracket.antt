-- ===== src/Cohort/Bracket.antt =====
-- cohort.rs: the leaf that holds or covers a value of the range is among those chosen.
use ztreexo.Prelude.{
  ℕ, ◌≤◌, ◌<◌, ◌≡◌, ◌⊎◌, inl, inr, true, false, List, [], ◌∷◌, none, some, arith, refl, sym, ap,
  ap₂, ◌∙◌, ◌==◌, Bool-cases, Option-cases, get_elem?, ltb, ==→eq,
}
use ztreexo.Imt.Types.{Leaf, Value, covers}
use ztreexo.Imt.Index.{Index, lookup, contains_key, last_at_most}
use ztreexo.Imt.Links.{Linked, IsLow-exists, lookup_of_contains_key}
use ztreexo.Cohort.{PrefixRange, contains}
use ztreexo.Cohort.Prove.{
  values_below, values_in, next_back, insert_index, insert_indices, first_indices, cohort_indices,
  among,
}

among-insert_index : (i : ℕ) (is : List ℕ) → among i (insert_index i is) ≡ true
unfolding among insert_index
among-insert_index i [] = ground arith
among-insert_index i (j ∷ is) = ground (arith, among-insert_index i is)

among-insert_index_kept :
    (k i : ℕ) (is : List ℕ) → among k is ≡ true → among k (insert_index i is) ≡ true
unfolding among insert_index
among-insert_index_kept k i [] held = absurd (cc (held))
among-insert_index_kept k i (j ∷ is) held = ground (arith, among-insert_index_kept k i is)

among-insert_indices_kept :
    (k : ℕ) (ix : Index) (is : List ℕ) → among k is ≡ true → among k (insert_indices ix is) ≡ true
unfolding insert_indices
among-insert_indices_kept k [] is held = held
among-insert_indices_kept k ((v, i) ∷ ix) is held =
    among-insert_indices_kept k ix (insert_index i is) (among-insert_index_kept k i is held)

-- an entry of the range
among-values_in :
    (range : PrefixRange) (v i : ℕ) (ix : Index) (is : List ℕ)
    → lookup v ix ≡ some i
    → contains range v ≡ true
    → among i (insert_indices (values_in range ix) is) ≡ true
unfolding lookup values_in insert_indices
among-values_in range v i [] is listed inside = absurd (cc (listed))
among-values_in range v i ((a, j) ∷ ix) is listed inside = elim (Bool-cases (a == v)) [
  | inl here ↦
      let inside' : contains range a ≡ true = ap (contains range) (==→eq a v here) ∙ inside in
      let same : j ≡ i = ground arith in
      rw (inside', same)
        (among-insert_indices_kept i (values_in range ix) (insert_index i is)
          (among-insert_index i is))
  | inr other ↦
      let listed' : lookup v ix ≡ some i = ground arith in
      elim (Bool-cases (contains range a)) [
        | inl in_range ↦
            rw in_range (among-values_in range v i ix (insert_index j is) listed' inside)
        | inr outside ↦ rw outside (among-values_in range v i ix is listed' inside)
      ]
]

module _ (leaves : List Leaf) where
  values_below-nothing :
      (b v i : ℕ) (rest : Index)
      → Linked leaves ((v, i) ∷ rest)
      → b ≤ v
      → values_below b ((v, i) ∷ rest) ≡ []
  unfolding values_below
  values_below-nothing b v i [] linked above =
      let out : ltb v b ≡ false = ground arith in rw out refl
  values_below-nothing b v i ((w, j) ∷ rest) linked above =
      let out : ltb v b ≡ false = ground arith in
      rw out (values_below-nothing b w j rest linked.2 (omega (arith, linked.1)))

  -- the last entry at most `v`, if it is below `b`, is the last entry below `b`
  next_back-values_below :
      (b v u k : ℕ) (ix : Index)
      → Linked leaves ix
      → last_at_most v ix ≡ some (u, k)
      → u < b
      → b ≤ v
      → next_back (values_below b ix) ≡ some (u, k)
  unfolding last_at_most values_below
  next_back-values_below b v u k [] linked found below reach = absurd (cc (found))
  next_back-values_below b v u k ((a, i) ∷ []) linked found below reach =
      let here : a ≡ u = ground arith in
      let index : i ≡ k = ground arith in
      let within : ltb a b ≡ true = ground arith in
      rw within (ap₂ (λ (x y : ℕ). some (x, y)) here index)
  next_back-values_below b v u k ((a, i) ∷ (w, j) ∷ rest) linked found below reach =
      elim (Option-cases (last_at_most v ((w, j) ∷ rest))) [
        | inl nothing ↦
            let beyond : v < w = unfold last_at_most in first_beyond v w j rest nothing in
            let here : a ≡ u = ground arith in
            let index : i ≡ k = ground arith in
            let within : ltb a b ≡ true = ground arith in
            let empty = values_below-nothing b w j rest linked.2 (omega arith) in
            rw (within, empty) (ap₂ (λ (x y : ℕ). some (x, y)) here index)
        | inr (e, later) ↦
            let same : last_at_most v ((w, j) ∷ rest) ≡ some (u, k) = ground arith in
            let back = next_back-values_below b v u k ((w, j) ∷ rest) linked.2 same below reach in
            let within : ltb a b ≡ true =
              ground (arith, linked.1, last_above v w j rest u k linked.2 same) in
            rw within (next_back-cons (a, i) (values_below b ((w, j) ∷ rest)) (u, k) back)
      ]
    where
      first_beyond : (v w j : ℕ) (rest : Index) → last_at_most v ((w, j) ∷ rest) ≡ none → v < w
      first_beyond v w j rest nothing = elim (Option-cases (last_at_most v rest)) [
        | inl gone ↦ ground (arith, nothing, gone)
        | inr (e, found') ↦ ground (arith, nothing, found')
      ]

      last_above :
          (v w j : ℕ) (rest : Index) (u k : ℕ)
          → Linked leaves ((w, j) ∷ rest)
          → last_at_most v ((w, j) ∷ rest) ≡ some (u, k)
          → w ≤ u
      last_above v w j [] u k linked found = ground arith
      last_above v w j ((x, n) ∷ rest) u k linked found =
          elim (Option-cases (last_at_most v ((x, n) ∷ rest))) [
            | inl gone ↦ ground (arith, found, gone)
            | inr ((u', k'), found') ↦
                let up = last_above v x n rest u' k' linked.2 found' in
                ground (arith, found, found', up, linked.1)
          ]

      next_back-cons :
          (e : Value × ℕ) (ix : Index) (f : Value × ℕ)
          → next_back ix ≡ some f
          → next_back (e ∷ ix) ≡ some f
      next_back-cons e [] f at = absurd (cc (at))
      next_back-cons e (x ∷ ix) f at = at

  lookup-leaf :
      (v i : ℕ) (ix : Index)
      → Linked leaves ix
      → lookup v ix ≡ some i
      → (l : Leaf) × (get_elem? leaves i ≡ some l) × (l.value ≡ v)
  unfolding lookup
  lookup-leaf v i [] linked listed = absurd (cc (listed))
  lookup-leaf v i ((a, j) ∷ []) linked listed =
      let here : a ≡ v = ground arith in
      let index : j ≡ i = ground arith in (_, ap (get_elem? leaves) (sym index) ∙ linked, here)
  lookup-leaf v i ((a, j) ∷ (w, n) ∷ rest) linked listed = elim (Bool-cases (a == v)) [
    | inl here ↦
        let index : j ≡ i = ground arith in
        (_, ap (get_elem? leaves) (sym index) ∙ linked.0, ==→eq a v here)
    | inr other ↦ lookup-leaf v i ((w, n) ∷ rest) linked.2 (ground arith)
  ]

  -- The leaf that settles a value of the range has its index in the set.
  pub among-cohort_indices :
      (range : PrefixRange) (v : Value) (rest : Index)
      → Linked leaves ((0, 0) ∷ rest)
      → contains range v ≡ true
      → (i : ℕ) × (l : Leaf) × (get_elem? leaves i ≡ some l)
        × (among i (cohort_indices range ((0, 0) ∷ rest)) ≡ true)
        × ((l.value ≡ v) ⊎ (covers l v ≡ true))
  unfolding cohort_indices contains
  among-cohort_indices range v rest linked inside =
      let ix : Index = (0, 0) ∷ rest in
      elim (Bool-cases (contains_key v ix)) [
        | inl present ↦
            let (i, listed) = lookup_of_contains_key v ix present in
            let (l, there, holds) = lookup-leaf v i ix linked listed in
            (i, l, there, among-values_in range v i ix _ listed inside, inl holds)
        | inr absent ↦
            let (low, k, is_low) = IsLow-exists leaves v 0 0 rest linked (omega arith) absent in
            let below : low.value < v = covering_below low v is_low.covering in
            (
              k,
              low,
              is_low.stored,
              elim (Bool-cases (ltb low.value range.lo)) [
                | inl before ↦
                    let back =
                      next_back-values_below range.lo v low.value k ix linked is_low.found
                        (ground arith) (ground arith) in
                    among-insert_indices_kept k (values_in range ix) _
                      (ap (λ e. among k (first_indices e)) back ∙ (unfold among in ground arith))
                | inr within ↦
                    among-values_in range low.value k ix _ is_low.listed
                      (elim (Option-cases range.hi) [
                        | inl unbounded ↦ ground arith
                        | inr (hi, bound) ↦ ground arith
                      ])
              ],
              inr is_low.covering,
            )
      ]
    where
      covering_below : (l : Leaf) (v : Value) → covers l v ≡ true → l.value < v
      covering_below l v c = unfold covers in ground arith
