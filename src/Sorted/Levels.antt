-- ===== src/Sorted/Levels.antt =====
-- sorted.rs: the levels that `from_sorted_values` builds are those of the tree over the values.
use ztreexo.Prelude.{
  ℕ, zero, suc, ◌+◌, ◌-◌, ◌*◌, ◌^◌, ◌≤◌, ◌<◌, ◌≡◌, List, [], ◌∷◌, ◌++◌, map, length, take,
  replicate, get_elem?, some, none, arith, refl, sym, ap, ap₂, ◌∙◌, pow-suc, length-append,
  length-replicate, take_all, length-map, subst,
}
use ztreexo.Pool.{PoolId}
use ztreexo.Imt.Types.{Value}
use ztreexo.Sorted.Types.{SortedHash}
use ztreexo.Sorted.Build.{parents_of, levels_from, top, bottom_level}
use ztreexo.Sorted.Prove.{node_at}
use ztreexo.Sorted.Rows.{row, RowsAt, row-pair, RowsAt-get_elem?}

node_at-head :
    {Hash : Type 0} (nodes : List Hash) (levels : List (List Hash)) (pad : Hash) (i : ℕ) {x : Hash}
    → get_elem? nodes i ≡ some x
    → node_at (nodes ∷ levels) pad zero i ≡ x
unfolding node_at
node_at-head nodes levels pad i e = ground arith

module _ {Hash : Type 0} (h : SortedHash Hash) (pool : PoolId) where
  -- the digest of a position: the pad beyond the last value
  abbrev pub digest_at : List Value → ℕ → Hash
  digest_at values i = elim (get_elem? values i) [
    | none ↦ h.sorted_pad_leaf pool
    | some v ↦ h.sorted_leaf pool v
  ]

  module _ (f : ℕ → Hash) where
    pads-RowsAt :
        (m i : ℕ)
        → ((k : ℕ) → f (i + k) ≡ h.sorted_pad_leaf pool)
        → RowsAt h pool f 0 i (replicate m (h.sorted_pad_leaf pool))
    unfolding row
    pads-RowsAt zero i agree = tt
    pads-RowsAt (suc m) i agree = (
      sym (ap f (omega arith) ∙ agree 0),
      pads-RowsAt m (suc i) (λ k. ap f (omega arith) ∙ agree (suc k)),
    )

    -- values from position `i` on, and pads after them
    values-RowsAt :
        (values : List Value) (m i : ℕ)
        → ((k : ℕ) → f (i + k) ≡ digest_at values k)
        → RowsAt h pool f 0 i
            (map (h.sorted_leaf pool) values ++ replicate m (h.sorted_pad_leaf pool))
    unfolding row
    values-RowsAt [] m i agree = pads-RowsAt m i agree
    values-RowsAt (v ∷ values) m i agree = (
      sym (ap f (omega arith) ∙ agree 0),
      values-RowsAt values m (suc i) (λ k. ap f (omega arith) ∙ agree (suc k)),
    )

    parents_of-RowsAt :
        (level j m : ℕ) (nodes : List Hash)
        → length nodes ≡ m * 2
        → RowsAt h pool f level (j * 2) nodes
        → RowsAt h pool f (suc level) j (parents_of h pool nodes)
    unfolding parents_of
    parents_of-RowsAt level j m [] even at = tt
    parents_of-RowsAt level j m (x ∷ []) even at = absurd (omega arith)
    parents_of-RowsAt level j m (x ∷ y ∷ nodes) even at = (
      ap₂ (h.sorted_node pool) at.0 at.1.0 ∙ row-pair h pool f level (j * 2) j refl,
      parents_of-RowsAt level (suc j) (m - 1) nodes (omega arith)
          (subst (λ i. RowsAt h pool f level i nodes) (omega arith) at.1.1),
    )

  length-parents_of :
      (m : ℕ) (nodes : List Hash) → length nodes ≡ m * 2 → length (parents_of h pool nodes) ≡ m
  unfolding parents_of
  length-parents_of m [] even = omega arith
  length-parents_of m (x ∷ []) even = absurd (omega arith)
  length-parents_of m (x ∷ y ∷ nodes) even =
      omega (arith, length-parents_of (m - 1) nodes (omega arith))

  module _ (f : ℕ → Hash) where
    -- the levels from `level` upwards, over `2 ^ n` nodes
    pub top-levels_from :
        (n level : ℕ) (nodes : List Hash)
        → length nodes ≡ 2 ^ n
        → RowsAt h pool f level 0 nodes
        → top h (levels_from h pool n nodes) ≡ row h pool f (level + n) 0
    unfolding top levels_from
    top-levels_from zero level [] wide at = absurd (omega arith)
    top-levels_from zero level (x ∷ nodes) wide at = at.0 ∙ ap (λ l. row h pool f l 0) (omega arith)
    top-levels_from (suc n) level nodes wide at =
        let even : length nodes ≡ 2 ^ n * 2 = omega (arith, pow-suc 2 n) in
        top-step n nodes
        ∙ top-levels_from n (suc level) (parents_of h pool nodes)
            (length-parents_of (2 ^ n) nodes even)
            (parents_of-RowsAt f level 0 (2 ^ n) nodes even at)
        ∙ ap (λ l. row h pool f l 0) (omega arith)
      where
        top-step :
            (m : ℕ) (xs : List Hash)
            → top h (levels_from h pool (suc m) xs)
              ≡ top h (levels_from h pool m (parents_of h pool xs))
        top-step zero [] = refl
        top-step zero (x ∷ xs) = refl
        top-step (suc m) [] = refl
        top-step (suc m) (x ∷ xs) = refl

    pub node_at-levels_from :
        (n level : ℕ) (nodes : List Hash) (pad : Hash) (k i : ℕ)
        → length nodes ≡ 2 ^ n
        → RowsAt h pool f level 0 nodes
        → k ≤ n
        → i < 2 ^ (n - k)
        → node_at (levels_from h pool n nodes) pad k i ≡ row h pool f (level + k) i
    unfolding node_at levels_from
    node_at-levels_from zero level nodes pad zero i wide at low within =
        node_at-head nodes [] pad i (RowsAt-get_elem? h pool f level 0 nodes i at (omega arith))
        ∙ ap₂ (row h pool f) (omega arith) (omega arith)
    node_at-levels_from zero level nodes pad (suc k) i wide at low within = absurd (omega arith)
    node_at-levels_from (suc n) level nodes pad zero i wide at low within =
        let all : suc n - 0 ≡ suc n = omega arith in
        let inside = subst (λ (e : ℕ). i < 2 ^ e) all within in
        node_at-head nodes (levels_from h pool n (parents_of h pool nodes)) pad i
          (RowsAt-get_elem? h pool f level 0 nodes i at (omega arith))
        ∙ ap₂ (row h pool f) (omega arith) (omega arith)
    node_at-levels_from (suc n) level nodes pad (suc k) i wide at low within =
        let even : length nodes ≡ 2 ^ n * 2 = omega (arith, pow-suc 2 n) in
        node_at-levels_from n (suc level) (parents_of h pool nodes) pad k i
          (length-parents_of (2 ^ n) nodes even) (parents_of-RowsAt f level 0 (2 ^ n) nodes even at)
          (omega arith) (subst (λ (e : ℕ). i < 2 ^ e) (omega arith) within)
        ∙ ap (λ l. row h pool f l i) (omega arith)

  pub bottom_level-RowsAt :
      (slots : ℕ) (values : List Value)
      → length values ≤ slots
      → RowsAt h pool (digest_at values) 0 0 (bottom_level h pool slots values)
  bottom_level-RowsAt slots values room =
      let leaves = map (h.sorted_leaf pool) values in
      let whole : take slots leaves ≡ leaves =
        take_all slots leaves (omega (arith, length-map (h.sorted_leaf pool) values)) in
      rw whole (
        values-RowsAt (digest_at values) values (slots - length leaves) 0
          (λ k. ap (digest_at values) (omega arith)))

  pub length-bottom_level :
      (slots : ℕ) (values : List Value)
      → length values ≤ slots
      → length (bottom_level h pool slots values) ≡ slots
  length-bottom_level slots values room =
      let leaves = map (h.sorted_leaf pool) values in
      let whole : take slots leaves ≡ leaves =
        take_all slots leaves (omega (arith, length-map (h.sorted_leaf pool) values)) in
      let pads = replicate (slots - length leaves) (h.sorted_pad_leaf pool) in
      rw whole (
        omega (
          arith,
          length-append leaves pads,
          length-map (h.sorted_leaf pool) values,
          length-replicate (slots - length leaves) (h.sorted_pad_leaf pool),
        ))
