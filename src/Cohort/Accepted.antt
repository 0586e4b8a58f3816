-- ===== src/Cohort/Accepted.antt =====
-- cohort.rs: what a proof that `verify_cohort` accepts went through.
use ztreexo.Prelude.{
  ℕ, suc, ◌≡◌, false, List, [], ◌∷◌, map, Option, none, some, Result, ok, err, arith, ap, >>=-eq-ok,
  leb,
}
use ztreexo.Digest.ImtHash.{ImtHash}
use ztreexo.Imt.Types.{Leaf, ImtError, hash_leaf}
use ztreexo.Imt.Path.{check_depth, empty_subtree_hashes}
use ztreexo.Cohort.Verify.{
  CohortProof, node_of, fold_levels, check_ascending, check_computed, tree_error, verify_cohort,
  sort_by_value,
}
use ztreexo.Cohort.Fold.{Ascends}

tree_error-ok :
    {Hash A : Type 0} (h : ImtHash Hash) (m : Result (ImtError Hash) A) (a : A)
    → tree_error h m ≡ ok a
    → m ≡ ok a
tree_error-ok h (ok b) a e = ground arith
tree_error-ok h (err x) a e = absurd (ground arith)

check_computed-ok :
    {Hash : Type 0} (h : ImtHash Hash) (trusted : Hash) (found : Option Hash)
    → check_computed h trusted found ≡ ok tt
    → found ≡ some trusted
unfolding check_computed
check_computed-ok h trusted none e = absurd (ground arith)
check_computed-ok h trusted (some computed) e =
    ap some ((h.beq_iff computed trusted).0 (ground arith))

module _ {Hash : Type 0} (h : ImtHash Hash) (proof : CohortProof Hash) where
  -- the hashed leaves
  abbrev pub leaf_nodes : List (ℕ × Leaf) → List (ℕ × Hash)
  leaf_nodes leaves = map (λ (x : ℕ × Leaf). (x.0, hash_leaf h proof.pool x.1)) leaves

  check_ascending-Ascends :
      (leaves : List (ℕ × Leaf)) (previous : ℕ)
      → check_ascending h leaves (some previous) ≡ ok tt
      → Ascends (suc previous) (leaf_nodes leaves)
  unfolding check_ascending
  check_ascending-Ascends [] previous e = tt
  check_ascending-Ascends ((i, l) ∷ leaves) previous e =
      let above : leb i previous ≡ false = ground arith in
      (ground (arith, above), check_ascending-Ascends leaves i (ground (arith, above)))

  pub check_ascending-leaves :
      (leaves : List (ℕ × Leaf))
      → check_ascending h leaves none ≡ ok tt
      → Ascends 0 (leaf_nodes leaves)
  unfolding check_ascending
  check_ascending-leaves [] e = tt
  check_ascending-leaves ((i, l) ∷ leaves) e =
      (omega arith, check_ascending-Ascends leaves i (ground arith))

  -- what an accepted proof went through
  pub verify_cohort-inversion :
      (trusted : Hash) (leaves : List Leaf)
      → verify_cohort h trusted proof ≡ ok leaves
      → (ladder : List Hash) × (top : List (ℕ × Hash)) × (empty_subtree_hashes h proof.pool
            proof.depth
          ≡ ok ladder)
        × (check_ascending h proof.leaves none ≡ ok tt)
        × (fold_levels h proof.pool proof.nodes ladder proof.depth 0 (leaf_nodes proof.leaves)
            ≡ ok top)
        × (node_of 0 top ≡ some trusted)
        × (leaves ≡ sort_by_value (map (λ (x : ℕ × Leaf). x.1) proof.leaves))
  unfolding verify_cohort check_computed
  verify_cohort-inversion trusted leaves e =
      let (_, _, e0) = >>=-eq-ok (tree_error h (check_depth h proof.depth)) _ e in
      let (ladder, made, e1) =
        >>=-eq-ok (tree_error h (empty_subtree_hashes h proof.pool proof.depth)) _ e0 in
      let (_, ordered, e2) = >>=-eq-ok (check_ascending h proof.leaves none) _ e1 in
      let (top, folded, e3) =
        >>=-eq-ok
          (fold_levels h proof.pool proof.nodes ladder proof.depth 0 (leaf_nodes proof.leaves)) _
          e2 in
      let (_, computed, e4) = >>=-eq-ok (check_computed h trusted (node_of 0 top)) _ e3 in
      (
        ladder,
        top,
        tree_error-ok h _ ladder made,
        ordered,
        folded,
        check_computed-ok h trusted (node_of 0 top) computed,
        ground (arith, e4),
      )
