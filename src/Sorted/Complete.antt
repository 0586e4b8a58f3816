-- ===== src/Sorted/Complete.antt =====
-- sorted.rs: which runs of a snapshot `verify_cohort` accepts.
use ztreexo.Prelude.{
  ℕ, zero, suc, ◌+◌, ◌-◌, ◌≤◌, ◌<◌, ◌≡◌, true, List, [], ◌∷◌, map, length, take, drop, get_elem?,
  length-take, length-drop, length-map, get_elem?-take, get_elem?-drop, some, arith, refl, sym, ap,
  ◌∙◌,
}
use ztreexo.Pool.{PoolId}
use ztreexo.Imt.Types.{Value}
use ztreexo.Cohort.{PrefixRange}
use ztreexo.Sorted.Types.{SortedHash, SortedTree, SortedCohort}
use ztreexo.Sorted.Build.{root, ascending}
use ztreexo.Sorted.Prove.{range_siblings, node_at, no_siblings, sibling_loop}
use ztreexo.Sorted.Verify.{fold_run}
use ztreexo.Sorted.Rows.{row, RowsAt}
use ztreexo.Sorted.Levels.{digest_at}
use ztreexo.Sorted.Fold.{fold_run_complete}
use ztreexo.Sorted.Snapshot.{IsSnapshot}
use ztreexo.Sorted.Edges.{sibling_loop-EdgesAt}
use ztreexo.Sorted.Order.{ascending-tail}

-- the values from `start` to `end`
abbrev pub run_values : List Value → ℕ → ℕ → List Value
run_values all start end = take (end - start) (drop start all)

-- a run of the snapshot with its siblings, and what a bridge says of the range and the leaf count
abbrev pub run_cohort :
    {Hash : Type 0}
    → SortedHash Hash
    → SortedTree Hash
    → PrefixRange
    → ℕ
    → ℕ
    → ℕ
    → SortedCohort Hash
run_cohort h t range leaf_count start end = record {
  pool = t.pool;
  depth = t.depth;
  height = t.height;
  leaf_count = leaf_count;
  range = range;
  start_index = start;
  values = run_values t.values start end;
  siblings = range_siblings h t start end;
}

pub length-run_values :
    (all : List Value) (start end : ℕ)
    → start ≤ end
    → end ≤ length all
    → length (run_values all start end) ≡ end - start
length-run_values all start end low high =
    length-take (end - start) (drop start all) (omega (arith, length-drop start all))

pub get_elem?-run_values :
    (all : List Value) (start end k : ℕ)
    → k < end - start
    → get_elem? (run_values all start end) k ≡ get_elem? all (start + k)
get_elem?-run_values all start end k lt =
    get_elem?-take (end - start) (drop start all) k lt ∙ get_elem?-drop start all k

ascending-take : (n : ℕ) (xs : List Value) → ascending xs ≡ true → ascending (take n xs) ≡ true
unfolding ascending
ascending-take zero xs asc = refl
ascending-take (suc n) [] asc = refl
ascending-take (suc zero) (x ∷ xs) asc = refl
ascending-take (suc (suc n)) (x ∷ []) asc = refl
ascending-take (suc (suc n)) (x ∷ y ∷ xs) asc = ground (arith, ascending-take (suc n) (y ∷ xs))

ascending-drop : (n : ℕ) (xs : List Value) → ascending xs ≡ true → ascending (drop n xs) ≡ true
ascending-drop zero xs asc = asc
ascending-drop (suc n) [] asc = asc
ascending-drop (suc n) (x ∷ xs) asc = ascending-drop n xs (ascending-tail x xs asc)

pub ascending-run_values :
    (all : List Value) (start end : ℕ)
    → ascending all ≡ true
    → ascending (run_values all start end) ≡ true
ascending-run_values all start end asc =
    ascending-take (end - start) (drop start all) (ascending-drop start all asc)

-- positions that hold the values of `all` have the digests of the tree
run-RowsAt :
    {Hash : Type 0} (h : SortedHash Hash) (pool : PoolId) (all values : List Value) (i : ℕ)
    → ((k : ℕ) → k < length values → get_elem? all (i + k) ≡ get_elem? values k)
    → RowsAt h pool (digest_at h pool all) 0 i (map (h.sorted_leaf pool) values)
unfolding row
run-RowsAt h pool all [] i same = tt
run-RowsAt h pool all (v ∷ values) i same =
    let here : get_elem? all i ≡ some v = ap (get_elem? all) (omega arith) ∙ same 0 (omega arith) in
    (
      ground arith,
      run-RowsAt h pool all values (suc i)
          (λ k lt. ap (get_elem? all) (omega arith) ∙ same (suc k) (omega arith)),
    )

module _ {Hash : Type 0} (h : SortedHash Hash) (t : SortedTree Hash) (snapshot : IsSnapshot h t)
    (range : PrefixRange) (leaf_count start end : ℕ) (proper : start < end)
    (inside : end ≤ length t.values) where
  abbrev pub claimed : SortedCohort Hash
  claimed = run_cohort h t range leaf_count start end

  pub run_folds :
      fold_run h claimed t.depth 0 start (map (h.sorted_leaf t.pool) claimed.values) ≡ root h t ∷ []
  unfolding range_siblings
  run_folds =
      let size = length-run_values t.values start end (omega arith) inside in
      let count = length-map (h.sorted_leaf t.pool) claimed.values in
      let f = digest_at h t.pool t.values in
      let at = node_at t.levels (h.sorted_pad_leaf t.pool) in
      let hi : end - 1 ≡ start + length (map (h.sorted_leaf t.pool) claimed.values) - 1 =
        omega arith in
      fold_run_complete h claimed f t.depth 0 start (map (h.sorted_leaf t.pool) claimed.values)
        (omega arith) (omega (arith, snapshot.room))
        (run-RowsAt h t.pool t.values claimed.values start
          (λ k lt. sym (get_elem?-run_values t.values start end k (omega arith))))
        (sibling_loop-EdgesAt h claimed f at t.depth snapshot.levelled t.depth 0 start
          (length (map (h.sorted_leaf t.pool) claimed.values)) (no_siblings h t) (omega arith)
          (omega arith) (omega (arith, snapshot.room))
          (λ l i low. ap (λ (k : ℕ). sibling_loop at t.depth 0 start k (no_siblings h t) l i) hi))
      ∙ ap (λ y. y ∷ []) (ap (λ l. row h t.pool f l 0) (omega arith) ∙ sym snapshot.rooted)
