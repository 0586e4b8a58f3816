-- ===== src/Sorted/Depth.antt =====
-- sorted.rs: `depth_for`.
use ztreexo.Prelude.{
  ℕ, zero, suc, ◌+◌, ◌^◌, ◌≤◌, ◌<◌, ◌≡◌, ◌⊎◌, inl, inr, ok, err, arith, ltb, ◌==◌, Bool-cases,
}
use ztreexo.Cohort.{invalid_prefix_bits}
use ztreexo.Sorted.Types.{max_sorted_depth}
use ztreexo.Sorted.Build.{depth_loop, depth_for}

module _ {Hash : Type 0} where
  -- what the loop of `depth_for` returns: the first sufficient depth, or the failure past the cap
  depth_loop_outcome :
      (left depth count : ℕ)
      → ((d : ℕ) × (depth_loop {Hash = Hash} left depth count ≡ ok d)
          × (depth ≤ d)
          × (d ≤ depth + left)
          × (count ≤ 2 ^ d)
          × ((e : ℕ) → depth ≤ e → e < d → 2 ^ e < count))
        ⊎ ((depth_loop {Hash = Hash} left depth count
              ≡ err (invalid_prefix_bits (depth + left + 1) max_sorted_depth))
            × (2 ^ (depth + left) < count))
  unfolding depth_loop
  depth_loop_outcome zero depth count = elim (Bool-cases (ltb (2 ^ depth) count)) [
    | inl more ↦
        let here : depth + 0 ≡ depth = omega arith in inr (rw (more, here), rw here (ground arith))
    | inr enough ↦
        inl
          (depth, rw enough, omega arith, omega arith, ground arith, λ e a b. absurd (omega arith))
  ]
  depth_loop_outcome (suc left) depth count = elim (Bool-cases (ltb (2 ^ depth) count)) [
    | inl more ↦ elim (depth_loop_outcome left (depth + 1) count) [
      | inl (d, e, low, high, wide, least) ↦ inl (
        d,
        rw more e,
        omega arith,
        omega arith,
        wide,
        λ k a b. elim (Bool-cases (k == depth)) [
          | inl same ↦ let here : k ≡ depth = ground arith in rw here (ground arith)
          | inr other ↦ least k (ground arith) b
        ],
      )
      | inr (e, wide) ↦
          let shift : depth + 1 + left ≡ depth + suc left = omega arith in
          inr (rw (more, ← shift) e, rw (← shift) wide)
    ]
    | inr enough ↦
        inl
          (depth, rw enough, omega arith, omega arith, ground arith, λ e a b. absurd (omega arith))
  ]

  -- `depth_for` returns the smallest depth that has room for `count` leaves, and it fails exactly for
  -- more leaves than the deepest tree has.
  pub depth_for_outcome :
      (count : ℕ)
      → ((d : ℕ) × (depth_for {Hash = Hash} count ≡ ok d)
          × (d ≤ max_sorted_depth)
          × (count ≤ 2 ^ d)
          × ((e : ℕ) → e < d → 2 ^ e < count))
        ⊎ ((depth_for {Hash = Hash} count ≡ err (invalid_prefix_bits 33 max_sorted_depth))
            × (2 ^ max_sorted_depth < count))
  unfolding depth_for
  depth_for_outcome count = elim (depth_loop_outcome max_sorted_depth 0 count) [
    | inl (d, e, low, high, wide, least) ↦
        inl (d, e, omega arith, wide, λ k b. least k (omega arith) b)
    | inr fails ↦ inr fails
  ]
