-- ===== src/Sorted/Rows.antt =====
-- sorted.rs: the Merkle tree that the levels of a snapshot and the fold of a cohort stand for, by
-- recursion from a function that gives the digest of each position.
use ztreexo.Prelude.{
  ℕ, zero, suc, ◌+◌, ◌*◌, ◌≡◌, List, [], ◌∷◌, arith, ap, ap₂, ◌∙◌, get_elem?, some, ◌<◌, length,
}
use ztreexo.Pool.{PoolId}
use ztreexo.Sorted.Types.{SortedHash}

module _ {Hash : Type 0} (h : SortedHash Hash) (pool : PoolId) (f : ℕ → Hash) where
  unfoldable pub row : ℕ → ℕ → Hash
  row zero i = f i
  row (suc l) i = h.sorted_node pool (row l (i * 2)) (row l (i * 2 + 1))

  -- the nodes stand at consecutive positions of a level, from `i`
  abbrev pub RowsAt : ℕ → ℕ → List Hash → Type 0
  RowsAt l i [] = Unit
  RowsAt l i (x ∷ xs) = (x ≡ row l i) × RowsAt l (suc i) xs

  pub row-pair :
      (l i j : ℕ) → i ≡ j * 2 → h.sorted_node pool (row l i) (row l (suc i)) ≡ row (suc l) j
  unfolding row
  row-pair l i j e = ap₂ (h.sorted_node pool) (ap (row l) e) (ap (row l) (omega (arith, e)))

  pub RowsAt-get_elem? :
      (l i : ℕ) (nodes : List Hash) (k : ℕ)
      → RowsAt l i nodes
      → k < length nodes
      → get_elem? nodes k ≡ some (row l (i + k))
  RowsAt-get_elem? l i [] k at lt = absurd (omega arith)
  RowsAt-get_elem? l i (x ∷ xs) zero at lt = ap some (at.0 ∙ ap (row l) (omega arith))
  RowsAt-get_elem? l i (x ∷ xs) (suc k) at lt =
      RowsAt-get_elem? l (suc i) xs k at.1 (omega arith) ∙ ap (λ n. some (row l n)) (omega arith)
