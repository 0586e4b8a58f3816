-- ===== src/Sorted/Settled.antt =====
-- sorted.rs: what `resolve` says of a value, after `verify_cohort`, against the snapshot.
use ztreexo.Prelude.{
  ℕ, zero, suc, ◌+◌, ◌-◌, ◌≤◌, ◌<◌, ◌≡◌, ◌⊎◌, inl, inr, true, List, length, get_elem?, get_elem?-lt,
  get_elem?_of_lt, some, ok, err, arith, refl, sym, ◌∙◌, ltb, ◌==◌, Bool-cases, Option-cases,
  Result-cases, subst,
}
use ztreexo.Imt.Types.{Value, Leaf}
use ztreexo.Cohort.{PrefixRange, Status, spent, unspent, contains}
use ztreexo.Sorted.Types.{SortedHash, SortedTree, SortedCohort, SortedCollision}
use ztreexo.Sorted.Build.{root, ascending}
use ztreexo.Sorted.Verify.{
  verify_cohort, resolve, binary_search, before, value_or_zero, last_reaches,
}
use ztreexo.Sorted.Snapshot.{IsSnapshot, AllValues}
use ztreexo.Sorted.Accepted.{Accepted, verify_cohort-Accepted}
use ztreexo.Sorted.Order.{
  Holds, ascending-lt, partition_point-below, partition_point-above, partition_point_self,
  binary_search-found, binary_search-missing, last_reaches-le,
}
use ztreexo.Sorted.Run.{RunOf, RunOf-get_elem?, verify_cohort_authentic}

-- what an answer claims of a value: membership, or a pair of neighbours around it
abbrev pub Settles : List Value → Value → Status → Type 0
Settles all value spent = Holds all value
Settles all value (unspent low) =
    ¬ (Holds all value)
    × Holds all low.value
    × (low.value < value)
    × ((low.next_value ≡ 0) ⊎ (value < low.next_value))

-- the run contains, or ends past, all that can lie in the range
abbrev pub Reaches : List Value → ℕ → List Value → PrefixRange → Type 0
Reaches all start values range =
    (length all ≤ start + length values)
    ⊎ ((hi : Value) × (range.hi ≡ some hi) × (last_reaches hi values ≡ true))

contains-lt_hi :
    (range : PrefixRange) (value hi : Value)
    → contains range value ≡ true
    → range.hi ≡ some hi
    → value < hi
unfolding contains
contains-lt_hi range value hi within e = ground arith

module _ (all : List Value) (start : ℕ) (values : List Value) (run : RunOf all start values)
    (ordered : ascending all ≡ true) (value : Value) (range : PrefixRange)
    (within : contains range value ≡ true) (some_value : 1 ≤ length values)
    (reaches : Reaches all start values range) where
  -- a value of the range does not stand past the end of a run that reaches far enough
  before_end : (i : ℕ) → get_elem? all i ≡ some value → i < start + length values
  before_end i at = elim reaches [
    | inl whole ↦ let inside = get_elem?-lt all i at in omega arith
    | inr (hi, e, reached) ↦ elim (Bool-cases (ltb i (start + length values))) [
      | inl inside ↦ ground arith
      | inr beyond ↦
          let k = length values - 1 in
          let lt : k < length values = omega arith in
          let (last, found) = get_elem?_of_lt values k lt in
          let high = last_reaches-le hi values k reached (omega arith) found in
          let in_all = sym (RunOf-get_elem? all start values k run lt) ∙ found in
          let far : start + k < i = ground arith in
          let below = ascending-lt all (start + k) i ordered in_all at far in
          let under = contains-lt_hi range value hi within e in absurd (omega arith)
    ]
  ]

  -- A search that fails after at least one smaller value shows that the value is nowhere.
  missing :
      (position : ℕ) (below : Value)
      → ascending values ≡ true
      → binary_search values value ≡ err position
      → before position values ≡ some below
      → ¬ (Holds all value)
  missing zero below sorted failed at held = absurd (cc)
  missing (suc p) below sorted failed at (i, found) =
      let (e, apart) = binary_search-missing values value failed in
      let inside = before_end i found in
      let size = get_elem?-lt values p at in
      let low = partition_point-below value values p at (omega arith) in
      elim (Bool-cases (ltb i start)) [
        | inl early ↦
            let there = sym (RunOf-get_elem? all start values p run size) ∙ at in
            let higher = ascending-lt all i (start + p) ordered found there (ground arith) in
            omega arith
        | inr late ↦
            let k = i - start in
            let lt : k < length values = ground arith in
            let same : start + k ≡ i = ground arith in
            let here : get_elem? values k ≡ some value =
              RunOf-get_elem? all start values k run lt ∙ rw same found in
            let place = partition_point_self value values k sorted here in
            let position : suc p ≡ k = omega arith in apart (rw position here)
      ]

  run-Holds : (k : ℕ) (v : Value) → get_elem? values k ≡ some v → Holds all v
  run-Holds k v at =
      (start + k, sym (RunOf-get_elem? all start values k run (get_elem?-lt values k at)) ∙ at)

  before-get_elem? :
      (position : ℕ) {below : Value}
      → before position values ≡ some below
      → (p : ℕ) × (position ≡ suc p) × (get_elem? values p ≡ some below)
  before-get_elem? zero at = absurd (cc)
  before-get_elem? (suc p) at = (p, refl, at)

  neighbour :
      (position : ℕ)
      → binary_search values value ≡ err position
      → (value_or_zero (get_elem? values position) ≡ 0)
        ⊎ (value < value_or_zero (get_elem? values position))
  neighbour position failed = elim (Option-cases (get_elem? values position)) [
    | inl last ↦ inl (rw last)
    | inr (above, found) ↦
        let (e, apart) = binary_search-missing values value failed in
        let high : value ≤ above =
          partition_point-above value values
            (subst (λ n. get_elem? values n ≡ some above) e found) in
        inr (elim (Bool-cases (above == value)) [
          | inl same ↦ absurd (apart (ground arith))
          | inr other ↦ rw found (ground arith)
        ])
  ]

  resolve-Settles :
      {Hash : Type 0} (status : Status)
      → ascending values ≡ true
      → resolve {Hash = Hash} values range value ≡ ok status
      → Settles all value status
  unfolding resolve
  resolve-Settles status sorted e = elim (Result-cases (binary_search values value)) [
    | inl (position, found) ↦
        let answer : status ≡ spent = ground arith in
        subst (Settles all value) (sym answer)
          (run-Holds position value (binary_search-found values value found))
    | inr (position, failed) ↦ elim (Option-cases (before position values)) [
      | inl lowest ↦ absurd (ground arith)
      | inr (below, at) ↦
          let (p, step, stored) = before-get_elem? position at in
          let place = binary_search-missing values value failed in
          let low : Leaf = record {
            value = below;
            next_value = value_or_zero (get_elem? values position);
            next_index = 0;
          } in
          let answer : status ≡ unspent low = ground arith in
          subst (Settles all value) (sym answer) (
            missing position below sorted failed at,
            run-Holds p below stored,
            partition_point-below value values p stored (omega arith),
            neighbour position failed,
          )
    ]
  ]

module _ {Hash : Type 0} where
  resolve-contains :
      (values : List Value) (range : PrefixRange) (value : Value) {status : Status}
      → resolve {Hash = Hash} values range value ≡ ok status
      → contains range value ≡ true
  unfolding resolve
  resolve-contains values range value e = ground arith

  Accepted-Reaches :
      (h : SortedHash Hash) (cohort : SortedCohort Hash) (top : Hash) (all : List Value)
      (hi : Value)
      → Accepted h cohort top
      → cohort.leaf_count ≡ length all
      → cohort.range.hi ≡ some hi
      → Reaches all cohort.start_index cohort.values cohort.range
  Accepted-Reaches h cohort top all hi a count bounded = elim a.reaching [
    | inl whole ↦ inl (omega arith)
    | inr past ↦ inr (hi, bounded, ground arith)
  ]

-- For a cohort that `verify_cohort` accepts against the root of a snapshot, whose pool, depth and leaf
-- count are those of the snapshot and whose range has an upper bound, an answer of `resolve` is
-- right, or else there is a collision of the hash functions: `Spent` only for a value of the
-- snapshot, and `Unspent` only for a value that is not in it, with the value before it in the
-- snapshot's order and a bound above.
pub verify_cohort-Settles :
    {Hash : Type 0} (h : SortedHash Hash) (t : SortedTree Hash)
    → IsSnapshot h t
    → (cohort : SortedCohort Hash) (values : List Value) (value hi : Value) (status : Status)
    → AllValues t.values
    → AllValues cohort.values
    → cohort.pool ≡ t.pool
    → cohort.depth ≡ t.depth
    → cohort.leaf_count ≡ length t.values
    → cohort.range.hi ≡ some hi
    → verify_cohort h cohort (root h t) ≡ ok values
    → resolve {Hash = Hash} values cohort.range value ≡ ok status
    → SortedCollision h cohort.pool ⊎ Settles t.values value status
verify_cohort-Settles {Hash} h t snapshot cohort values value hi status sized fits same_pool
      same_depth count bounded accepted resolved =
    let (a, e) = verify_cohort-Accepted h cohort (root h t) accepted in
    let resolved' : resolve {Hash = Hash} cohort.values cohort.range value ≡ ok status =
      rw (← e) resolved in
    let reaches = Accepted-Reaches h cohort (root h t) t.values hi a count bounded in
    elim (verify_cohort_authentic h t snapshot cohort values sized fits same_pool same_depth
      accepted) [
        | inl broken ↦ inl broken
        | inr (_, run) ↦ inr (
            resolve-Settles t.values cohort.start_index cohort.values
              (subst (RunOf t.values cohort.start_index) e run) snapshot.ordered value cohort.range
              (resolve-contains cohort.values cohort.range value resolved') a.some_value reaches
              status a.ordered resolved')
      ]
