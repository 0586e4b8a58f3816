-- ===== src/Sorted/Span.antt =====
-- sorted.rs: the span that `prove_prefix_cohort` chooses.
use ztreexo.Prelude.{
  ℕ, zero, suc, ◌+◌, ◌-◌, ◌≤◌, ◌<◌, ◌≡◌, ◌⊎◌, inl, inr, true, false, List, [], ◌∷◌, length,
  get_elem?, get_elem?_of_lt, Option, some, none, arith, sym, ap, ◌∙◌, leb, ◌==◌, Bool-cases,
  Option-cases,
}
use ztreexo.Imt.Types.{Value, value_zero}
use ztreexo.Cohort.{PrefixRange, contains}
use ztreexo.Sorted.Build.{ascending}
use ztreexo.Sorted.Prove.{partition_point, span_start, span_end}
use ztreexo.Sorted.Verify.{first_or, past_hi, last_reaches}
use ztreexo.Sorted.Order.{
  partition_point-le, partition_point-above, partition_point-below, ascending-lt,
}
use ztreexo.Sorted.Complete.{run_values, length-run_values, get_elem?-run_values}

last_reaches_of :
    (hi : Value) (xs : List Value) (k : ℕ) {a : Value}
    → length xs ≡ suc k
    → get_elem? xs k ≡ some a
    → hi ≤ a
    → last_reaches hi xs ≡ true
unfolding last_reaches
last_reaches_of hi [] k size at le = absurd (cc)
last_reaches_of hi (x ∷ []) zero size at le = ground arith
last_reaches_of hi (x ∷ []) (suc k) size at le = absurd (cc)
last_reaches_of hi (x ∷ y ∷ xs) zero size at le = absurd (omega arith)
last_reaches_of hi (x ∷ y ∷ xs) (suc k) size at le =
    last_reaches_of hi (y ∷ xs) k (omega arith) at le

past_hi_open : (bound : Option Value) (xs : List Value) → bound ≡ none → past_hi bound xs ≡ true
past_hi_open bound xs e = ground arith

past_hi_of :
    (bound : Option Value) (hi : Value) (xs : List Value)
    → bound ≡ some hi
    → last_reaches hi xs ≡ true
    → past_hi bound xs ≡ true
past_hi_of bound hi xs e reached = ground arith

first_or-get_elem? :
    (xs : List Value) (d : Value) {a : Value} → get_elem? xs 0 ≡ some a → first_or d xs ≡ a
first_or-get_elem? [] d at = absurd (cc)
first_or-get_elem? (x ∷ xs) d at = cc

module _ (all : List Value) (range : PrefixRange) (occupied : 1 ≤ length all) where
  pub span_proper : (span_start all range < span_end all range) × (span_end all range ≤ length all)
  unfolding span_start span_end
  span_proper = elim (Option-cases range.hi) [
    | inl open_end ↦ (ground (arith, partition_point-le range.lo all), ground arith)
    | inr (hi, e) ↦ (ground (arith, partition_point-le range.lo all), ground arith)
  ]

  -- the end lies past the first value at or above `hi`, or it is the end of the snapshot
  span_end-far :
      (hi : Value)
      → range.hi ≡ some hi
      → span_end all range < length all
      → partition_point hi all < span_end all range
  unfolding span_end
  span_end-far hi e short = ground arith

  abbrev pub span_values : List Value
  span_values = run_values all (span_start all range) (span_end all range)

  pub span_values-get_elem? :
      (k : ℕ)
      → k < span_end all range - span_start all range
      → get_elem? span_values k ≡ get_elem? all (span_start all range + k)
  span_values-get_elem? k lt =
      get_elem?-run_values all (span_start all range) (span_end all range) k lt

  -- The first value lies below the range, unless the span starts at the sentinel.
  pub span_headed :
      (contains range (first_or value_zero span_values) ≡ false) ⊎ (span_start all range ≡ 0)
  unfolding contains
  span_headed = elim (Bool-cases (span_start all range == 0)) [
    | inl at_sentinel ↦ inr (ground arith)
    | inr later ↦
        let (first, found) =
          get_elem?_of_lt all (span_start all range)
            (omega (arith, span_proper.0, span_proper.1)) in
        let start_lt : span_start all range < partition_point range.lo all =
          unfold span_start in ground arith in
        let below = partition_point-below range.lo all (span_start all range) found start_lt in
        let shift : span_start all range + 0 ≡ span_start all range = omega arith in
        let head : get_elem? span_values 0 ≡ some first =
          span_values-get_elem? 0 (omega (arith, span_proper.0)) ∙ rw shift found in
        inl (rw (first_or-get_elem? span_values value_zero head) (ground arith))
  ]

  pub span_reaching :
      ascending all ≡ true
      → (length all ≤ span_end all range) ⊎ (past_hi range.hi span_values ≡ true)
  span_reaching ordered = elim (Bool-cases (leb (length all) (span_end all range))) [
    | inl whole ↦ inl (ground arith)
    | inr short ↦ elim (Option-cases range.hi) [
      | inl open_end ↦ inr (past_hi_open range.hi span_values open_end)
      | inr (hi, e) ↦
          let start = span_start all range in
          let end = span_end all range in
          let proper : start < end = span_proper.0 in
          let inside : end < length all = ground arith in
          let far = span_end-far hi e inside in
          let (edge, at_edge) = get_elem?_of_lt all (partition_point hi all) (omega arith) in
          let high = partition_point-above hi all at_edge in
          let (last, at_last) = get_elem?_of_lt all (end - 1) (omega arith) in
          let k = end - start - 1 in
          let shift : start + k ≡ end - 1 = omega arith in
          let size = length-run_values all start end (omega arith) (omega arith) in
          let found : get_elem? span_values k ≡ some last =
            span_values-get_elem? k (omega arith) ∙ rw shift at_last in
          let le : hi ≤ last = elim (Bool-cases (partition_point hi all == end - 1)) [
            | inl same ↦
                let here : some edge ≡ some last =
                  sym at_edge ∙ ap (get_elem? all) (ground arith) ∙ at_last in
                ground arith
            | inr other ↦
                let below =
                  ascending-lt all (partition_point hi all) (end - 1) ordered at_edge at_last
                    (ground arith) in
                omega arith
          ] in
          inr (
            past_hi_of range.hi hi span_values e
              (last_reaches_of hi span_values k (omega arith) found le))
    ]
  ]
