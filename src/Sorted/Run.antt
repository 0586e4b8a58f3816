-- ===== src/Sorted/Run.antt =====
-- sorted.rs: `verify_cohort` against the snapshot that the root stands for.
use ztreexo.Prelude.{
  ℕ, zero, suc, ◌+◌, ◌^◌, ◌<◌, ◌≡◌, ◌⊎◌, inl, inr, List, [], ◌∷◌, map, length, get_elem?, some, ok,
  arith, sym, ap, ◌∙◌, ◌==◌, Bool-cases, Option-cases, length-map, ==→ne, subst,
}
use ztreexo.Pool.{PoolId}
use ztreexo.Imt.Types.{Value}
use ztreexo.Sorted.Types.{
  SortedHash, SortedTree, SortedCohort, SortedCollision, two_values, value_and_pad,
}
use ztreexo.Sorted.Build.{root}
use ztreexo.Sorted.Verify.{verify_cohort}
use ztreexo.Sorted.Rows.{row, RowsAt}
use ztreexo.Sorted.Levels.{digest_at}
use ztreexo.Sorted.Fold.{fold_run_sound}
use ztreexo.Sorted.Snapshot.{IsSnapshot, AllValues}
use ztreexo.Sorted.Accepted.{Accepted, run_leaves, verify_cohort-Accepted}

-- `values` stand in `all` at consecutive positions from `i`
abbrev pub RunOf : List Value → ℕ → List Value → Type 0
RunOf all i [] = Unit
RunOf all i (v ∷ vs) = (get_elem? all i ≡ some v) × RunOf all (suc i) vs

pub RunOf-get_elem? :
    (all : List Value) (i : ℕ) (values : List Value) (k : ℕ)
    → RunOf all i values
    → k < length values
    → get_elem? values k ≡ get_elem? all (i + k)
RunOf-get_elem? all i [] k at lt = absurd (omega arith)
RunOf-get_elem? all i (v ∷ vs) zero at lt = let here : i + 0 ≡ i = omega arith in rw here (sym at.0)
RunOf-get_elem? all i (v ∷ vs) (suc k) at lt =
    let shift : i + suc k ≡ suc i + k = omega arith in
    rw shift (RunOf-get_elem? all (suc i) vs k at.1 (omega arith))

AllValues-get_elem? :
    (xs : List Value) (i : ℕ) {v : Value} → AllValues xs → get_elem? xs i ≡ some v → v < 2 ^ 256
AllValues-get_elem? [] i all at = absurd (cc)
AllValues-get_elem? (x ∷ xs) zero all at = ground (arith, all.0)
AllValues-get_elem? (x ∷ xs) (suc i) all at = AllValues-get_elem? xs i all.1 at

module _ {Hash : Type 0} (h : SortedHash Hash) (pool : PoolId) (all : List Value)
    (sized : AllValues all) where
  -- the digest of a position is that of a value only if the value stands there
  digest_at-value :
      (v : Value) (i : ℕ)
      → v < 2 ^ 256
      → h.sorted_leaf pool v ≡ digest_at h pool all i
      → SortedCollision h pool ⊎ (get_elem? all i ≡ some v)
  digest_at-value v i fits e = elim (Option-cases (get_elem? all i)) [
    | inl vacant ↦ inl (value_and_pad v fits (ground arith))
    | inr (w, found) ↦ elim (Bool-cases (v == w)) [
      | inl same ↦ inr (ground arith)
      | inr other ↦ inl (
          two_values v w fits (AllValues-get_elem? all i sized found) (==→ne v w other)
            (ground arith))
    ]
  ]

  leaves-RunOf :
      (values : List Value) (i : ℕ)
      → AllValues values
      → RowsAt h pool (digest_at h pool all) 0 i (map (h.sorted_leaf pool) values)
      → SortedCollision h pool ⊎ RunOf all i values
  unfolding row
  leaves-RunOf [] i fits at = inr tt
  leaves-RunOf (v ∷ values) i fits at = elim (digest_at-value v i fits.0 at.0) [
    | inl broken ↦ inl broken
    | inr here ↦ elim (leaves-RunOf values (suc i) fits.1 at.1) [
      | inl broken ↦ inl broken
      | inr rest ↦ inr (here, rest)
    ]
  ]

module _ {Hash : Type 0} (h : SortedHash Hash) (cohort : SortedCohort Hash) (all : List Value) where
  Accepted-RunOf :
      (root : Hash)
      → AllValues all
      → AllValues cohort.values
      → Accepted h cohort root
      → root ≡ row h cohort.pool (digest_at h cohort.pool all) cohort.depth 0
      → SortedCollision h cohort.pool ⊎ RunOf all cohort.start_index cohort.values
  Accepted-RunOf root sized fits a rooted =
      let count = length-map (h.sorted_leaf cohort.pool) cohort.values in
      let (rest, folded) = a.folded in
      let f = digest_at h cohort.pool all in
      elim (fold_run_sound h cohort f cohort.depth 0 cohort.start_index (run_leaves h cohort root)
        root rest (omega (arith, count, a.some_value)) (omega (arith, count, a.room)) folded
        (rooted ∙ ap (λ l. row h cohort.pool f l 0) (omega arith))) [
          | inl broken ↦ inl broken
          | inr at ↦ leaves-RunOf h cohort.pool all sized cohort.values cohort.start_index fits at
        ]

-- A cohort that `verify_cohort` accepts against the root of a snapshot of its pool and depth is a run
-- of the snapshot's values at the positions that it claims, or else it exhibits a collision of the
-- hash functions. The values of both are 256-bit numbers.
pub verify_cohort_authentic :
    {Hash : Type 0} (h : SortedHash Hash) (t : SortedTree Hash)
    → IsSnapshot h t
    → (cohort : SortedCohort Hash) (values : List Value) → AllValues t.values
    → AllValues cohort.values
    → cohort.pool ≡ t.pool
    → cohort.depth ≡ t.depth
    → verify_cohort h cohort (root h t) ≡ ok values
    → SortedCollision h cohort.pool
      ⊎ ((values ≡ cohort.values) × RunOf t.values cohort.start_index values)
verify_cohort_authentic h t snapshot cohort values sized fits same_pool same_depth accepted =
    let (a, e) = verify_cohort-Accepted h cohort (root h t) accepted in
    let rooted : root h t ≡ row h cohort.pool (digest_at h cohort.pool t.values) cohort.depth 0 =
      rw (same_pool, same_depth) snapshot.rooted in
    elim (Accepted-RunOf h cohort t.values (root h t) sized fits a rooted) [
      | inl broken ↦ inl broken
      | inr run ↦ inr (e, subst (RunOf t.values cohort.start_index) (sym e) run)
    ]
