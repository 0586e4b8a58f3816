-- ===== src/Imt/Cache.antt =====
-- imt.rs: the node cache of a tree whose leaves change at one place, and the roots and siblings that
-- are read from it.
use ztreexo.Prelude.{ℕ, ◌^◌, ◌<◌, ◌≡◌, ◌≢◌, List, none, some, get_elem?, arith, sym, ap, ◌∙◌}
use ztreexo.Digest.ImtHash.{ImtHash}
use ztreexo.Imt.Types.{Leaf, hash_leaf}
use ztreexo.Imt.Path.{root_from_path}
use ztreexo.Imt.Index.{Index}
use ztreexo.Imt.Nodes.{zeros_ladder, zero_at}
use ztreexo.Imt.Tree.{IndexedMerkleTree, root, siblings, write_leaf, clear_leaf}
use ztreexo.Imt.Subtree.{
  ancestor_below, ancestor-zero, subtree, subtree-zero, true_siblings, true_siblings_off,
  root_from_path_complete,
}
use ztreexo.Imt.Rehash.{
  Represents, write_path-Represents, clear_path-Represents, path_siblings-true, zero_at-empty,
}
use ztreexo.Imt.Invariant.{leaf_digest, leaf_digest-stored, leaf_digest-vacant}

module _ {Hash : Type 0} (h : ImtHash Hash) where
  abbrev pub IsCached : IndexedMerkleTree Hash → Type 0
  IsCached t = Represents h t.pool t.zeros t.nodes (leaf_digest h t.pool t.leaves) t.depth

  module _ (t : IndexedMerkleTree Hash) (small : t.depth < 255) (cached : IsCached t) where
    pub root-cached : root h t ≡ subtree h t.pool (leaf_digest h t.pool t.leaves) t.depth 0
    unfolding root
    root-cached = cached t.depth 0 (omega arith)

    pub siblings-cached :
        (index : ℕ)
        → siblings h t index
          ≡ true_siblings h t.pool (leaf_digest h t.pool t.leaves) t.depth 0 index
    unfolding siblings
    siblings-cached index =
        path_siblings-true h t.pool t.zeros t.nodes t.depth (leaf_digest h t.pool t.leaves) small
          cached t.depth 0 index (omega arith)

    -- the digest at an index folds along the tree's siblings to its root
    pub fold-root :
        (index : ℕ) (digest : Hash) (path : List Hash)
        → index < 2 ^ t.depth
        → digest ≡ leaf_digest h t.pool t.leaves index
        → path ≡ true_siblings h t.pool (leaf_digest h t.pool t.leaves) t.depth 0 index
        → root_from_path h t.pool digest index path ≡ root h t
    fold-root index digest path below d p =
        let digests = leaf_digest h t.pool t.leaves in
        rw (d, p)
          (ap
              (λ x.
                root_from_path h t.pool x index (true_siblings h t.pool digests t.depth 0 index))
              (sym (subtree-zero h t.pool digests index))
            ∙ root_from_path_complete h t.pool digests t.depth 0 t.depth index (omega arith)
            ∙ ap (subtree h t.pool digests t.depth) (ancestor_below t.depth index below)
            ∙ sym root-cached)

    module _ (leaves : List Leaf) (k : ℕ)
        (agree : (i : ℕ) → i ≢ k → get_elem? leaves i ≡ get_elem? t.leaves i) where
      digests_agree :
          (i : ℕ) → i ≢ k → leaf_digest h t.pool leaves i ≡ leaf_digest h t.pool t.leaves i
      digests_agree i apart = rw (agree i apart, leaf_digest)

      -- `write_leaf` after the leaf was changed makes the cache right again
      pub write_leaf-IsCached :
          (ix : Index) (l : Leaf)
          → get_elem? leaves k ≡ some l
          → IsCached (write_leaf h (record t { leaves = leaves; index_by_value = ix }) k l)
      unfolding write_leaf
      write_leaf-IsCached ix l stored =
          write_path-Represents h t.pool t.zeros t.depth (leaf_digest h t.pool leaves)
            (leaf_digest h t.pool t.leaves) k digests_agree t.nodes (hash_leaf h t.pool l)
            (sym (leaf_digest-stored h t.pool leaves k l stored)) small cached

      -- and so does `clear_leaf` after the leaf was taken away
      pub clear_leaf-IsCached :
          (ix : Index)
          → t.zeros ≡ zeros_ladder h t.pool t.depth (h.imt_empty_leaf t.pool)
          → get_elem? leaves k ≡ none
          → IsCached (clear_leaf h (record t { leaves = leaves; index_by_value = ix }) k)
      unfolding clear_leaf
      clear_leaf-IsCached ix ladder vacant =
          clear_path-Represents h t.pool t.zeros t.depth (leaf_digest h t.pool leaves)
            (leaf_digest h t.pool t.leaves) k digests_agree t.nodes small
            (ap (λ zs. zero_at h zs 0) ladder
              ∙ zero_at-empty h t.pool t.depth 0 k (omega arith)
              ∙ subtree-zero h t.pool (λ _. h.imt_empty_leaf t.pool) k
              ∙ sym (leaf_digest-vacant h t.pool leaves k vacant))
            cached

      -- the siblings on the changed leaf's path stay as they were
      pub siblings_unchanged :
          true_siblings h t.pool (leaf_digest h t.pool leaves) t.depth 0 k
          ≡ true_siblings h t.pool (leaf_digest h t.pool t.leaves) t.depth 0 k
      siblings_unchanged =
          true_siblings_off h t.pool (leaf_digest h t.pool leaves) (leaf_digest h t.pool t.leaves) k
            digests_agree t.depth 0 k (sym (ancestor-zero k))
