-- ===== src/Cohort/Verified.antt =====
-- cohort.rs: what `verify_cohort` and `resolve` together show of a value.
use ztreexo.Prelude.{
  ℕ, zero, suc, ◌+◌, ◌/◌, ◌^◌, ◌<◌, ◌≡◌, ◌⊎◌, inl, inr, false, List, [], ◌∷◌, map, some, ok, arith,
  sym, ap, ap₂, ◌∙◌, ◌==◌, Bool-cases, subst, >>=-eq-ok, pow-suc, leb,
}
use ztreexo.Digest.ImtHash.{ImtHash, Collision}
use ztreexo.Imt.Types.{Value, Leaf, LeafFits, hash_leaf}
use ztreexo.Imt.Path.{sibling_index, join}
use ztreexo.Imt.Subtree.{subtree, subtree-zero, join-subtree, join-injective}
use ztreexo.Imt.Tree.{IndexedMerkleTree, root}
use ztreexo.Imt.Invariant.{IsValid, leaf_digest, root-subtree, authentic_leaf}
use ztreexo.Cohort.{PrefixRange, Status, resolve}
use ztreexo.Cohort.Settled.{AllStored, Stored, Settles, resolve_sound}
use ztreexo.Cohort.Verify.{
  CohortProof, node_of, parents, fold_levels, verify_cohort, sort_by_value, insert_sorted,
}
use ztreexo.Cohort.Fold.{Ascends, parents-Ascends, node_of-Ascends, node_of-head, node_of-tail}
use ztreexo.Cohort.Joined.{parents-Joined}
use ztreexo.Cohort.Accepted.{leaf_nodes, check_ascending-leaves, verify_cohort-inversion}

-- the leaves of a proof have indices below the bound, and fields in the range of their types
abbrev pub AllWithin : ℕ → List (ℕ × Leaf) → Type 0
AllWithin bound [] = Unit
AllWithin bound ((i, l) ∷ rest) = (i < bound) × LeafFits l × AllWithin bound rest

module _ {Hash : Type 0} (h : ImtHash Hash) (proof : CohortProof Hash) where
  -- a node within the capacity, of a level that folds to the root, is the node of the tree
  fold_levels_sound :
      (ladder : List Hash) (f : ℕ → Hash) (n level : ℕ) (nodes top : List (ℕ × Hash)) (low : ℕ)
      → Ascends low nodes
      → fold_levels h proof.pool proof.nodes ladder n level nodes ≡ ok top
      → node_of 0 top ≡ some (subtree h proof.pool f (level + n) 0)
      → (i : ℕ) (d : Hash) → node_of i nodes ≡ some d
      → i < 2 ^ n
      → Collision h proof.pool ⊎ (d ≡ subtree h proof.pool f level i)
  unfolding fold_levels
  fold_levels_sound ladder f zero level nodes top low asc e at_root i d there within =
      let first : i ≡ 0 = omega arith in
      let same : nodes ≡ top = ground arith in
      let both : some d ≡ some (subtree h proof.pool f (level + 0) 0) =
        sym there ∙ ap₂ node_of first same ∙ at_root in
      let value : d ≡ subtree h proof.pool f (level + 0) 0 = ground (arith, both) in
      inr (value ∙ ap₂ (subtree h proof.pool f) (omega arith) (sym first))
  fold_levels_sound ladder f (suc n) level nodes top low asc e at_root i d there within =
      let (up, joined, e1) =
        >>=-eq-ok (parents h proof.pool proof.nodes ladder level nodes nodes) _ e in
      let (s, _, entry) =
        parents-Joined h proof.pool proof.nodes ladder level nodes nodes up low asc (λ k v at. at)
          joined i d there in
      elim (fold_levels_sound ladder f n (suc level) up top (low / 2)
        (parents-Ascends h proof.pool proof.nodes ladder level nodes nodes up low asc joined) e1
        (at_root ∙ ap (λ (m : ℕ). some (subtree h proof.pool f m 0)) (omega arith)) (i / 2)
        (join h proof.pool i d s) entry (omega (arith, pow-suc 2 n))) [
          | inl broken ↦ inl broken
          | inr true_parent ↦
              elim (join-injective h proof.pool i d s (subtree h proof.pool f level i)
                (subtree h proof.pool f level (sibling_index i))
                (true_parent ∙ sym (join-subtree h proof.pool f level i))) [
                  | inl broken ↦ inl broken
                  | inr same ↦ inr same.0
                ]
        ]

AllStored-insert :
    {Hash : Type 0} (t : IndexedMerkleTree Hash) (l : Leaf) (ls : List Leaf)
    → Stored t l
    → AllStored t ls
    → AllStored t (insert_sorted l ls)
unfolding insert_sorted
AllStored-insert t l [] s all = (s, tt)
AllStored-insert t l (m ∷ ls) s all = elim (Bool-cases (leb l.value m.value)) [
  | inl before ↦ rw before (s, all)
  | inr after ↦ rw after (all.0, AllStored-insert t l ls s all.1)
]

pub AllStored-sort :
    {Hash : Type 0} (t : IndexedMerkleTree Hash) (ls : List Leaf)
    → AllStored t ls
    → AllStored t (sort_by_value ls)
unfolding sort_by_value
AllStored-sort t [] all = tt
AllStored-sort t (l ∷ ls) all =
    AllStored-insert t l (sort_by_value ls) all.0 (AllStored-sort t ls all.1)

module _ {Hash : Type 0} (h : ImtHash Hash) (t : IndexedMerkleTree Hash) (valid : IsValid h t) where
  AllStored-nodes :
      (proof : CohortProof Hash) (leaves : List (ℕ × Leaf)) (low : ℕ)
      → proof.pool ≡ t.pool
      → Ascends low (leaf_nodes h proof leaves)
      → AllWithin (2 ^ t.depth) leaves
      → ((i : ℕ) (d : Hash)
          → node_of i (leaf_nodes h proof leaves) ≡ some d
          → i < 2 ^ t.depth
          → Collision h t.pool ⊎ (d ≡ leaf_digest h t.pool t.leaves i))
      → Collision h t.pool ⊎ AllStored t (map (λ (x : ℕ × Leaf). x.1) leaves)
  AllStored-nodes proof [] low pool asc within sound = inr tt
  AllStored-nodes proof ((i, l) ∷ leaves) low pool asc within sound =
      let d = hash_leaf h proof.pool l in
      let rest = leaf_nodes h proof leaves in
      elim (sound i d (node_of-head i d rest) within.0) [
        | inl broken ↦ inl broken
        | inr digest ↦
            elim (authentic_leaf h t valid l i within.1
              (ap (λ p. hash_leaf h p l) (sym pool) ∙ digest)) [
                | inl broken ↦ inl broken
                | inr stored ↦
                    elim (AllStored-nodes proof leaves (suc i) pool asc.1 within.2 (λ k v at below.
                      let apart : (i == k) ≡ false =
                        ground (arith, node_of-Ascends (suc i) k rest v asc.1 at) in
                      sound k v (node_of-tail i k d rest apart ∙ at) below)) [
                        | inl broken ↦ inl broken
                        | inr others ↦ inr ((i, stored), others)
                      ]
              ]
      ]

  -- Let `verify_cohort` accept a proof for the pool and the depth of a valid tree at its root, with
  -- leaves whose indices are below the capacity. Then an answer of `resolve` on the leaves that it
  -- returns is right, whatever the range and the nodes of the proof: `Spent` only for a value in the
  -- tree, and `Unspent` only for a value that is not, with a leaf of the tree that covers it; or a hash
  -- collision is exhibited.
  pub verify_cohort_sound :
      (proof : CohortProof Hash) (leaves : List Leaf) (range : PrefixRange) (value : Value)
      (status : Status)
      → proof.pool ≡ t.pool
      → proof.depth ≡ t.depth
      → AllWithin (2 ^ t.depth) proof.leaves
      → verify_cohort h (root h t) proof ≡ ok leaves
      → resolve {Hash = Hash} leaves range value ≡ ok status
      → Collision h t.pool ⊎ Settles t value status
  verify_cohort_sound proof leaves range value status pool depth within accepted answer =
      let (ladder, top, _, ordered, folded, at_root, made) =
        verify_cohort-inversion h proof (root h t) leaves accepted in
      let f = leaf_digest h t.pool t.leaves in
      let ascending = check_ascending-leaves h proof proof.leaves ordered in
      let true_root : node_of 0 top ≡ some (subtree h proof.pool f (0 + proof.depth) 0) =
        at_root
        ∙ ap some (root-subtree h t valid)
        ∙ ap₂ (λ p (n : ℕ). some (subtree h p f n 0)) (sym pool) (sym depth ∙ omega arith) in
      elim (AllStored-nodes proof proof.leaves 0 pool ascending within (λ i d at below.
        subst (λ p. Collision h p ⊎ (d ≡ f i)) pool
          (elim (fold_levels_sound h proof ladder f proof.depth 0 (leaf_nodes h proof proof.leaves)
            top 0 ascending folded true_root i d at
            (subst (λ (n : ℕ). i < 2 ^ n) (sym depth) below)) [
              | inl broken ↦ inl broken
              | inr same ↦ inr (same ∙ subtree-zero h proof.pool f i)
            ]))) [
              | inl broken ↦ inl broken
              | inr stored ↦ inr (
                  resolve_sound h t valid leaves range value status
                    (subst (AllStored t) (sym made) (AllStored-sort t _ stored)) answer)
            ]
