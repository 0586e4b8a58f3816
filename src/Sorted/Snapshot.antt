-- ===== src/Sorted/Snapshot.antt =====
-- sorted.rs: what holds of every snapshot that `from_sorted_values` returns.
use ztreexo.Prelude.{
  ℕ, ◌-◌, ◌^◌, ◌≤◌, ◌<◌, ◌≡◌, ◌⊎◌, inl, inr, true, false, List, [], ◌∷◌, length, ok, err, arith,
  refl, ap, ◌∙◌, ◌==◌, Bool-cases,
}
use ztreexo.Pool.{PoolId}
use ztreexo.Imt.Types.{Value}
use ztreexo.Cohort.{unsorted_values, invalid_prefix_bits}
use ztreexo.Sorted.Types.{SortedHash, SortedTree, max_sorted_depth}
use ztreexo.Sorted.Build.{
  with_sentinel, ascending, levels_from, bottom_level, from_sorted_values, root,
}
use ztreexo.Sorted.Prove.{node_at}
use ztreexo.Sorted.Depth.{depth_for_outcome}
use ztreexo.Sorted.Rows.{row}
use ztreexo.Sorted.Levels.{
  digest_at, top-levels_from, node_at-levels_from, bottom_level-RowsAt, length-bottom_level,
}

abbrev pub AllValues : List Value → Type 0
AllValues [] = Unit
AllValues (v ∷ vs) = (v < 2 ^ 256) × AllValues vs

module _ {Hash : Type 0} (h : SortedHash Hash) where
  -- The values ascend from the sentinel, the depth has room for them, and the levels hold the tree
  -- over their digests.
  pub record IsSnapshot (t : SortedTree Hash) : Type 0 where
    pub ordered : ascending t.values ≡ true
    pub starts : (rest : List Value) × (t.values ≡ 0 ∷ rest)
    pub depth_max : t.depth ≤ max_sorted_depth
    pub room : length t.values ≤ 2 ^ t.depth
    pub levelled :
        (level i : ℕ)
        → level ≤ t.depth
        → i < 2 ^ (t.depth - level)
        → node_at t.levels (h.sorted_pad_leaf t.pool) level i
          ≡ row h t.pool (digest_at h t.pool t.values) level i
    pub rooted : root h t ≡ row h t.pool (digest_at h t.pool t.values) t.depth 0

  with_sentinel-starts :
      (given : List Value) → (rest : List Value) × (with_sentinel given ≡ 0 ∷ rest)
  unfolding with_sentinel
  with_sentinel-starts [] = ([], refl)
  with_sentinel-starts (v ∷ vs) = elim (Bool-cases (v == 0)) [
    | inl zero_first ↦ (vs, rw zero_first (ground arith))
    | inr other ↦ (v ∷ vs, rw other)
  ]

  abbrev pub built : PoolId → ℕ → List Value → ℕ → SortedTree Hash
  built pool height values depth = record {
    pool = pool;
    height = height;
    depth = depth;
    values = values;
    levels = levels_from h pool depth (bottom_level h pool (2 ^ depth) values);
  }

  pub built-IsSnapshot :
      (pool : PoolId) (height : ℕ) (given : List Value) (depth : ℕ)
      → ascending (with_sentinel given) ≡ true
      → depth ≤ max_sorted_depth
      → length (with_sentinel given) ≤ 2 ^ depth
      → IsSnapshot (built pool height (with_sentinel given) depth)
  unfolding root
  built-IsSnapshot pool height given depth ordered deep room =
      let values = with_sentinel given in
      let nodes = bottom_level h pool (2 ^ depth) values in
      let wide = length-bottom_level h pool (2 ^ depth) values room in
      let at = bottom_level-RowsAt h pool (2 ^ depth) values room in
      record {
        ordered = ordered;
        starts = with_sentinel-starts given;
        depth_max = deep;
        room = room;
        levelled = λ level i low within.
            node_at-levels_from h pool (digest_at h pool values) depth 0 nodes
              (h.sorted_pad_leaf pool) level i wide at low within
            ∙ ap (λ l. row h pool (digest_at h pool values) l i) (omega arith);
        rooted =
            top-levels_from h pool (digest_at h pool values) depth 0 nodes wide at
            ∙ ap (λ l. row h pool (digest_at h pool values) l 0) (omega arith);
      }

  -- `from_sorted_values` refuses values that do not ascend from the sentinel, and more of them than
  -- the deepest tree has leaves; for all others it returns a snapshot that holds them, after the
  -- sentinel, with the levels of their Merkle tree.
  pub from_sorted_values_outcome :
      (pool : PoolId) (height : ℕ) (given : List Value)
      → ((ascending (with_sentinel given) ≡ false)
          × (from_sorted_values h pool height given ≡ err unsorted_values))
        ⊎ (((2 ^ max_sorted_depth < length (with_sentinel given))
              × (from_sorted_values h pool height given
                  ≡ err (invalid_prefix_bits 33 max_sorted_depth)))
            ⊎ ((t : SortedTree Hash) × (from_sorted_values h pool height given ≡ ok t)
                × IsSnapshot t
                × (t.values ≡ with_sentinel given)
                × (t.pool ≡ pool)
                × (t.height ≡ height)))
  unfolding from_sorted_values
  from_sorted_values_outcome pool height given =
      elim (Bool-cases (ascending (with_sentinel given))) [
        | inr unordered ↦ inl (unordered, rw unordered)
        | inl ordered ↦ inr (elim (depth_for_outcome {Hash = Hash} (length (with_sentinel given))) [
          | inr (fails, many) ↦ inl (many, rw (ordered, fails))
          | inl (d, e, deep, room, least) ↦ inr (
            built pool height (with_sentinel given) d,
            rw (ordered, e),
            built-IsSnapshot pool height given d ordered deep room,
            refl,
            refl,
            refl,
          )
        ])
      ]
