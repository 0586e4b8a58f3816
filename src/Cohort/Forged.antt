-- ===== src/Cohort/Forged.antt =====
-- cohort.rs: a leaf that is in no tree passes `verify_cohort`.
use ztreexo.Prelude.{
  ℕ, zero, suc, ◌^◌, ◌≤◌, ◌<◌, ◌≡◌, true, List, [], ◌∷◌, ◌++◌, map, length, Option, none, some, ok,
  arith, refl, ap, ◌∙◌, >>=-eq-ok,
}
use ztreexo.Pool.{PoolId}
use ztreexo.Digest.ImtHash.{ImtHash}
use ztreexo.Imt.Types.{Leaf, hash_leaf}
use ztreexo.Imt.Path.{check_depth, empty_ladder, empty_subtree_hashes}
use ztreexo.Cohort.Verify.{
  CohortProof, node_of, fold_levels, check_ascending, check_computed, verify_cohort, sort_by_value,
}
use ztreexo.Cohort.Accepted.{leaf_nodes, verify_cohort-inversion}
use ztreexo.Cohort.Stray.{AllBelow, node_of-snoc, fold_levels-snoc}

map-snoc {ℓ ℓ'} :
    {A : Type ℓ} {B : Type ℓ'} (g : A → B) (xs : List A) (x : A)
    → map g (xs ++ x ∷ []) ≡ map g xs ++ g x ∷ []
map-snoc g [] x = refl
map-snoc g (y ∷ xs) x = ap (λ ys. g y ∷ ys) (map-snoc g xs x)

module _ {Hash : Type 0} (h : ImtHash Hash) where
  length-empty_ladder :
      (pool : PoolId) (n : ℕ) (empty : Hash) → length (empty_ladder h pool n empty) ≡ n
  unfolding empty_ladder
  length-empty_ladder pool zero empty = refl
  length-empty_ladder pool (suc n) empty =
      ap suc (length-empty_ladder pool n (h.imt_node pool empty empty))

  length-empty_subtree_hashes :
      (pool : PoolId) (depth : ℕ) (ladder : List Hash)
      → empty_subtree_hashes h pool depth ≡ ok ladder
      → (length ladder ≡ depth) × (check_depth h depth ≡ ok tt)
  unfolding empty_subtree_hashes
  length-empty_subtree_hashes pool depth ladder e =
      let (_, checked, e1) = >>=-eq-ok (check_depth h depth) _ e in
      let same : ladder ≡ empty_ladder h pool depth (h.imt_empty_leaf pool) = ground (arith, e1) in
      (ap length same ∙ length-empty_ladder pool depth (h.imt_empty_leaf pool), checked)

  check_ascending-snoc :
      (leaves : List (ℕ × Leaf)) (previous : Option ℕ) (i : ℕ) (l : Leaf)
      → AllBelow i leaves
      → ((p : ℕ) → previous ≡ some p → p < i)
      → check_ascending h leaves previous ≡ ok tt
      → check_ascending h (leaves ++ (i, l) ∷ []) previous ≡ ok tt
  unfolding check_ascending
  check_ascending-snoc [] none i l below first e = refl
  check_ascending-snoc [] (some p) i l below first e = ground (arith, first p refl)
  check_ascending-snoc ((k, m) ∷ leaves) previous i l below first e =
      let rest =
        check_ascending-snoc leaves (some k) i l below.1 (λ p at. ground (arith, at, below.0)) in
      ground (arith, rest)

  AllBelow-raise :
      (b b' : ℕ) (leaves : List (ℕ × Leaf)) → b ≤ b' → AllBelow b leaves → AllBelow b' leaves
  AllBelow-raise b b' [] le all = tt
  AllBelow-raise b b' (x ∷ leaves) le all =
      (omega (arith, all.0), AllBelow-raise b b' leaves le all.1)

  AllBelow-leaf_nodes :
      (proof : CohortProof Hash) (b : ℕ) (leaves : List (ℕ × Leaf))
      → AllBelow b leaves
      → AllBelow b (leaf_nodes h proof leaves)
  AllBelow-leaf_nodes proof b [] all = tt
  AllBelow-leaf_nodes proof b (x ∷ leaves) all = (all.0, AllBelow-leaf_nodes proof b leaves all.1)

  pub accepted_of :
      (proof : CohortProof Hash) (trusted : Hash) (ladder : List Hash) (top : List (ℕ × Hash))
      → check_depth h proof.depth ≡ ok tt
      → empty_subtree_hashes h proof.pool proof.depth ≡ ok ladder
      → check_ascending h proof.leaves none ≡ ok tt
      → fold_levels h proof.pool proof.nodes ladder proof.depth 0 (leaf_nodes h proof proof.leaves)
        ≡ ok top
      → node_of 0 top ≡ some trusted
      → verify_cohort h trusted proof
        ≡ ok (sort_by_value (map (λ (x : ℕ × Leaf). x.1) proof.leaves))
  unfolding verify_cohort check_computed
  accepted_of proof trusted ladder top deep made ordered folded at_root =
      let own : h.beq trusted trusted ≡ true = (h.beq_iff trusted trusted).1 refl in
      rw (verify_cohort, deep, made, ordered, folded, at_root, check_computed, own) refl

  -- Let `verify_cohort` accept a proof whose leaves have indices below the capacity of its depth. Then
  -- it also accepts the proof with any leaf added at the end, if the index of that leaf is not below
  -- the capacity, and returns that leaf among the others: its digest does not reach the root.
  pub verify_cohort_forged :
      (proof : CohortProof Hash) (trusted : Hash) (leaves : List Leaf) (index : ℕ) (forged : Leaf)
      → verify_cohort h trusted proof ≡ ok leaves
      → AllBelow (2 ^ proof.depth) proof.leaves
      → 2 ^ proof.depth ≤ index
      → verify_cohort h trusted (record proof { leaves = proof.leaves ++ (index, forged) ∷ [] })
        ≡ ok (sort_by_value (map (λ (x : ℕ × Leaf). x.1) proof.leaves ++ forged ∷ []))
  verify_cohort_forged proof trusted leaves index forged accepted below beyond =
      let proof' : CohortProof Hash = record proof {
        leaves = proof.leaves ++ (index, forged) ∷ [];
      } in
      let (ladder, top, made, ordered, folded, at_root, _) =
        verify_cohort-inversion h proof trusted leaves accepted in
      let (full, deep) = length-empty_subtree_hashes proof.pool proof.depth ladder made in
      let (k, d, outside, folded') =
        fold_levels-snoc h proof.pool proof.nodes ladder proof.depth 0 index
          (hash_leaf h proof.pool forged) (leaf_nodes h proof proof.leaves) top
          (omega (arith, full)) beyond
          (AllBelow-leaf_nodes proof (2 ^ proof.depth) proof.leaves below) folded in
      let ordered' =
        check_ascending-snoc proof.leaves none index forged
          (AllBelow-raise (2 ^ proof.depth) index proof.leaves beyond below)
          (λ p at. absurd (cc at)) ordered in
      accepted_of proof' trusted ladder (top ++ (k, d) ∷ []) deep made ordered'
        (ap (fold_levels h proof.pool proof.nodes ladder proof.depth 0) (
            map-snoc (λ (x : ℕ × Leaf). (x.0, hash_leaf h proof.pool x.1)) proof.leaves
              (index, forged))
          ∙ folded')
        (node_of-snoc 0 k d top (omega arith) ∙ at_root)
      ∙ ap (λ ls. ok (sort_by_value ls))
          (map-snoc (λ (x : ℕ × Leaf). x.1) proof.leaves (index, forged))
