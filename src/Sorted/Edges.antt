-- ===== src/Sorted/Edges.antt =====
-- sorted.rs: the siblings that `range_siblings` collects are those that the fold asks for.
use ztreexo.Prelude.{
  ℕ, zero, suc, ◌+◌, ◌-◌, ◌/◌, ◌%◌, ◌^◌, ◌≤◌, ◌<◌, ◌≡◌, Option, some, arith, refl, ap, ◌∙◌, pow-suc,
  subst,
}
use ztreexo.Sorted.Types.{SortedHash, SortedCohort}
use ztreexo.Sorted.Prove.{edge_siblings, sibling_loop}
use ztreexo.Sorted.Rows.{row}
use ztreexo.Sorted.Verify.{fringe}
use ztreexo.Sorted.Fold.{EdgesAt, parent_count}

module _ {ℓ} {A : Type ℓ} (at : ℕ → ℕ → A) where
  edge_siblings-below :
      (level lo hi l i : ℕ) (out : ℕ → ℕ → Option A)
      → l < level
      → edge_siblings (at level) level lo hi out l i ≡ out l i
  unfolding edge_siblings
  edge_siblings-below level lo hi l i out lt = ground arith

  edge_siblings-left :
      (level lo hi : ℕ) (out : ℕ → ℕ → Option A)
      → lo % 2 ≡ 1
      → edge_siblings (at level) level lo hi out level (lo - 1) ≡ some (at level (lo - 1))
  unfolding edge_siblings
  edge_siblings-left level lo hi out odd = ground (arith, λ (e : hi + 1 ≡ lo - 1). ap (at level) e)

  edge_siblings-right :
      (level lo hi : ℕ) (out : ℕ → ℕ → Option A)
      → hi % 2 ≡ 0
      → edge_siblings (at level) level lo hi out level (hi + 1) ≡ some (at level (hi + 1))
  unfolding edge_siblings
  edge_siblings-right level lo hi out even = ground arith

  -- the levels above do not change what a level has collected
  sibling_loop-below :
      (n level lo hi l i : ℕ) (out : ℕ → ℕ → Option A)
      → l < level
      → sibling_loop at n level lo hi out l i ≡ out l i
  unfolding sibling_loop
  sibling_loop-below zero level lo hi l i out lt = refl
  sibling_loop-below (suc n) level lo hi l i out lt =
      sibling_loop-below n (suc level) (lo / 2) (hi / 2) l i
        (edge_siblings (at level) level lo hi out) (omega arith)
      ∙ edge_siblings-below level lo hi l i out lt

odd_edge : (n lo count : ℕ) → lo + count ≤ 2 ^ suc n → (lo + count) % 2 ≡ 1 → lo + count < 2 ^ suc n
odd_edge n lo count room odd = omega (arith, pow-suc 2 n)

module _ {Hash : Type 0} (h : SortedHash Hash) (cohort : SortedCohort Hash) (f : ℕ → Hash)
    (at : ℕ → ℕ → Hash) (depth : ℕ)
    (agree : (l i : ℕ) → l ≤ depth → i < 2 ^ (depth - l) → at l i ≡ row h cohort.pool f l i) where
  supplied :
      (l i : ℕ)
      → l ≤ depth
      → i < 2 ^ (depth - l)
      → cohort.siblings l i ≡ some (at l i)
      → fringe h cohort l i ≡ row h cohort.pool f l i
  unfolding fringe
  supplied l i low within found =
      let given : fringe h cohort l i ≡ at l i = ground arith in given ∙ agree l i low within

  pub sibling_loop-EdgesAt :
      (n level lo count : ℕ) (out : ℕ → ℕ → Option Hash)
      → level + n ≡ depth
      → 1 ≤ count
      → lo + count ≤ 2 ^ n
      → ((l i : ℕ)
          → level ≤ l
          → cohort.siblings l i ≡ sibling_loop at n level lo (lo + count - 1) out l i)
      → EdgesAt h cohort f n level lo count
  unfolding sibling_loop
  sibling_loop-EdgesAt zero level lo count out deep some_node room collected = tt
  sibling_loop-EdgesAt (suc n) level lo count out deep some_node room collected =
      let hi = lo + count - 1 in
      let left_over : suc n ≡ depth - level = omega arith in
      let here = λ (i : ℕ).
        collected level i (omega arith)
        ∙ sibling_loop-below at n (suc level) (lo / 2) (hi / 2) level i
            (edge_siblings (at level) level lo hi out) (omega arith) in
      let inside = λ (i : ℕ) (w : i < 2 ^ suc n). subst (λ (e : ℕ). i < 2 ^ e) left_over w in
      let far : hi + 1 ≡ lo + count = omega arith in
      let half : hi / 2 ≡ lo / 2 + parent_count lo count - 1 = omega arith in
      (
        λ odd.
            supplied level (lo - 1) (omega arith) (inside (lo - 1) (omega arith))
              (here (lo - 1) ∙ edge_siblings-left at level lo hi out odd),
        λ odd.
            supplied level (lo + count) (omega arith)
              (inside (lo + count) (odd_edge n lo count room odd))
              (here (lo + count)
                ∙ subst
                    (λ (i : ℕ).
                      edge_siblings (at level) level lo hi out level i ≡ some (at level i))
                    far (edge_siblings-right at level lo hi out (omega arith))),
        sibling_loop-EdgesAt n (suc level) (lo / 2) (parent_count lo count)
            (edge_siblings (at level) level lo hi out) (omega arith) (omega arith)
            (omega (arith, pow-suc 2 n))
            (λ l i low.
              collected l i (omega arith)
              ∙ ap
                  (λ (k : ℕ).
                    sibling_loop at n (suc level) (lo / 2) k
                      (edge_siblings (at level) level lo hi out) l i)
                  half),
      )
