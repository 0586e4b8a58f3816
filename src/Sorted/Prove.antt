-- ===== src/Sorted/Prove.antt =====
-- sorted.rs: `SortedTree::prove_prefix_cohort` and `range_siblings`.
use ztreexo.Prelude.{
  ℕ, zero, suc, ◌+◌, ◌-◌, ◌/◌, ◌%◌, ◌&&◌, List, [], ◌∷◌, length, take, drop, get_elem?, Option,
  none, some, Result, ok, ◌>>=◌, ok_or, ltb, leb, ◌==◌, if◌then◌else◌,
}
use ztreexo.Imt.Types.{Value}
use ztreexo.Cohort.{CohortError, PrefixRange, unsorted_values}
use ztreexo.Sorted.Types.{SortedHash, SortedTree, SortedCohort}

-- `partition_point` with `*value < bound`: on ascending values, how many lie below it
unfoldable pub partition_point : Value → List Value → ℕ
partition_point bound [] = 0
partition_point bound (v ∷ vs) =
    let rest = suc (partition_point bound vs) in if ltb v bound then rest else 0

-- `values.get(start..end)`
unfoldable pub slice {ℓ} : {A : Type ℓ} → ℕ → ℕ → List A → Option (List A)
slice start end xs =
    if leb start end && leb end (length xs) then some (take (end - start) (drop start xs)) else none

abbrev pub max : ℕ → ℕ → ℕ
max a b = if ltb a b then b else a

abbrev pub min : ℕ → ℕ → ℕ
min a b = if ltb b a then b else a

-- the index of the predecessor of the range
unfoldable pub span_start : List Value → PrefixRange → ℕ
span_start values range = partition_point range.lo values - 1

-- one past the first value at or above `hi`
unfoldable pub span_end : List Value → PrefixRange → ℕ
span_end values range =
    let end = elim range.hi as (λ _. ℕ) [
      | none ↦ length values
      | some hi ↦ partition_point hi values + 1
    ] in
    min (max end (span_start values range + 1)) (length values)

-- a node of the levels, or the pad
unfoldable pub node_at {ℓ} : {A : Type ℓ} → List (List A) → A → ℕ → ℕ → A
node_at levels pad level index = elim (get_elem? levels level) [
  | none ↦ pad
  | some row ↦ elim (get_elem? row index) [ none ↦ pad | some node ↦ node ]
]

-- `out.insert((level, index), hash)`
abbrev pub put_sibling {ℓ} : {A : Type ℓ} → ℕ → ℕ → A → (ℕ → ℕ → Option A) → ℕ → ℕ → Option A
put_sibling level index hash out l i = if l == level && i == index then some hash else out l i

-- the edges of one level: the left sibling of an odd `lo`, the right one of an even `hi`
unfoldable pub edge_siblings {ℓ} :
    {A : Type ℓ} → (ℕ → A) → ℕ → ℕ → ℕ → (ℕ → ℕ → Option A) → ℕ → ℕ → Option A
edge_siblings at level lo hi out =
    let left = if lo % 2 == 1 then put_sibling level (lo - 1) (at (lo - 1)) out else out in
    if hi % 2 == 0 then put_sibling level (hi + 1) (at (hi + 1)) left else left

-- the loop over the levels from `level`, `n` of them
unfoldable pub sibling_loop {ℓ} :
    {A : Type ℓ} → (ℕ → ℕ → A) → ℕ → ℕ → ℕ → ℕ → (ℕ → ℕ → Option A) → ℕ → ℕ → Option A
sibling_loop at zero level lo hi out = out
sibling_loop at (suc n) level lo hi out =
    sibling_loop at n (suc level) (lo / 2) (hi / 2) (edge_siblings (at level) level lo hi out)

module _ {Hash : Type 0} (h : SortedHash Hash) (t : SortedTree Hash) where
  abbrev pub no_siblings : ℕ → ℕ → Option Hash
  no_siblings level index = none

  unfoldable pub range_siblings : ℕ → ℕ → ℕ → ℕ → Option Hash
  range_siblings start end =
      sibling_loop (node_at t.levels (h.sorted_pad_leaf t.pool)) t.depth 0 start (end - 1)
        no_siblings

  unfoldable pub prove_prefix_cohort : PrefixRange → Result (CohortError Hash) (SortedCohort Hash)
  prove_prefix_cohort range = do
    let start = span_start t.values range
    let end = span_end t.values range
    values ← ok_or (slice start end t.values) unsorted_values
    ok (record {
      pool = t.pool;
      depth = t.depth;
      height = t.height;
      leaf_count = length t.values;
      range = range;
      start_index = start;
      values = values;
      siblings = range_siblings start end;
    })
