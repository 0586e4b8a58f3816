-- ===== src/Sorted/Accepted.antt =====
-- sorted.rs: what `verify_cohort` has checked of a cohort that it accepts.
use ztreexo.Prelude.{
  ◌+◌, ◌^◌, ◌≤◌, ◌≡◌, ◌⊎◌, inl, inr, true, false, List, [], ◌∷◌, map, length, ok, arith, Bool-cases,
  >>=-eq-ok,
}
use ztreexo.Imt.Types.{Value, value_zero}
use ztreexo.Cohort.{contains}
use ztreexo.Sorted.Types.{SortedHash, SortedCohort, max_sorted_depth}
use ztreexo.Sorted.Build.{ascending}
use ztreexo.Sorted.Verify.{
  first_or, past_hi, fold_run, check_shape, check_span, check_root, verify_cohort,
}

module _ {Hash : Type 0} (h : SortedHash Hash) (cohort : SortedCohort Hash) (root : Hash) where
  -- the nodes that the fold starts from
  abbrev pub run_leaves : List Hash
  run_leaves = map (h.sorted_leaf cohort.pool) cohort.values

  pub record Accepted : Type 0 where
    pub depth_max : cohort.depth ≤ max_sorted_depth
    pub some_value : 1 ≤ length cohort.values
    pub room : cohort.start_index + length cohort.values ≤ 2 ^ cohort.depth
    pub count_room : cohort.leaf_count ≤ 2 ^ cohort.depth
    pub ordered : ascending cohort.values ≡ true
    pub headed :
        (contains cohort.range (first_or value_zero cohort.values) ≡ false)
        ⊎ (cohort.start_index ≡ 0)
    pub reaching :
        (cohort.leaf_count ≤ cohort.start_index + length cohort.values)
        ⊎ (past_hi cohort.range.hi cohort.values ≡ true)
    pub folded :
        (rest : List Hash) × (fold_run h cohort cohort.depth 0 cohort.start_index run_leaves
          ≡ root ∷ rest)

  shape_checked :
      check_shape h cohort ≡ ok tt
      → (cohort.depth ≤ max_sorted_depth)
        × (1 ≤ length cohort.values)
        × (cohort.start_index + length cohort.values ≤ 2 ^ cohort.depth)
        × (cohort.leaf_count ≤ 2 ^ cohort.depth)
        × (ascending cohort.values ≡ true)
  unfolding check_shape
  shape_checked e = ground arith

  root_checked :
      (nodes : List Hash)
      → check_root h cohort root nodes ≡ ok tt
      → (rest : List Hash) × (nodes ≡ root ∷ rest)
  unfolding check_root
  root_checked [] e = absurd (cc)
  root_checked (x ∷ nodes) e = (nodes, ground (arith, h.beq_iff x root))

  span_checked :
      check_span h cohort ≡ ok tt
      → ((contains cohort.range (first_or value_zero cohort.values) ≡ false)
          ⊎ (cohort.start_index ≡ 0))
        × ((cohort.leaf_count ≤ cohort.start_index + length cohort.values)
            ⊎ (past_hi cohort.range.hi cohort.values ≡ true))
  unfolding check_span
  span_checked e =
      let headed =
        elim (Bool-cases (contains cohort.range (first_or value_zero cohort.values)))
          as (λ _.
            (contains cohort.range (first_or value_zero cohort.values) ≡ false)
            ⊎ (cohort.start_index ≡ 0)) [
              | inl within ↦ inr (ground arith)
              | inr outside ↦ inl outside
            ] in
      let reaching =
        elim (Bool-cases (past_hi cohort.range.hi cohort.values))
          as (λ _.
            (cohort.leaf_count ≤ cohort.start_index + length cohort.values)
            ⊎ (past_hi cohort.range.hi cohort.values ≡ true)) [
              | inl past ↦ inr past
              | inr short ↦ inl (ground arith)
            ] in
      (headed, reaching)

  pub verify_cohort-Accepted :
      {values : List Value}
      → verify_cohort h cohort root ≡ ok values
      → Accepted × (values ≡ cohort.values)
  unfolding verify_cohort
  verify_cohort-Accepted e =
      let (_, shape, e') = >>=-eq-ok (check_shape h cohort) _ e in
      let (_, span, e'') = >>=-eq-ok (check_span h cohort) _ e' in
      let nodes = fold_run h cohort cohort.depth 0 cohort.start_index run_leaves in
      let (_, top, done) = >>=-eq-ok (check_root h cohort root nodes) _ e'' in
      let s = shape_checked shape in
      let p = span_checked span in
      (
        record {
          depth_max = s.0;
          some_value = s.1;
          room = s.2;
          count_room = s.3;
          ordered = s.4;
          headed = p.0;
          reaching = p.1;
          folded = root_checked nodes top;
        },
        cc,
      )
