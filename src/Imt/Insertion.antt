-- ===== src/Imt/Insertion.antt =====
-- imt.rs: the tree and the proof that `insert` returns, and the node cache of that tree.
use ztreexo.Prelude.{
  ℕ, ◌^◌, ◌<◌, ◌≡◌, ◌≢◌, false, [], ◌∷◌, ◌++◌, some, length, get_elem?, get_elem?-lt,
  get_elem?-set_self, get_elem?-set_ne, get_elem?-snoc_ne, get_elem?-snoc_self, length-set, set,
  arith, sym, ◌∙◌, subst,
}
use ztreexo.Digest.ImtHash.{ImtHash}
use ztreexo.Imt.Types.{Leaf, Value, IsValue, InsertionProof}
use ztreexo.Imt.Verify.{spliced_low, spliced_new}
use ztreexo.Imt.Index
use ztreexo.Imt.Index.{Index}
use ztreexo.Imt.Tree.{IndexedMerkleTree, contains, siblings, write_leaf, append_leaf}
use ztreexo.Imt.Links.{IsLow}
use ztreexo.Imt.Invariant.{IsValid}
use ztreexo.Imt.Cache.{IsCached, write_leaf-IsCached}

module _ {Hash : Type 0} (h : ImtHash Hash) where
  -- the tree between the two writes of `insert`
  abbrev pub relinked : IndexedMerkleTree Hash → Leaf → ℕ → Value → IndexedMerkleTree Hash
  relinked t low k value =
      let low' = spliced_low low value (length t.leaves) in
      write_leaf h (record t { leaves = set t.leaves k low' }) k low'

  -- the tree that `insert` returns
  abbrev pub spliced : IndexedMerkleTree Hash → Leaf → ℕ → Value → IndexedMerkleTree Hash
  spliced t low k value =
      append_leaf h (relinked t low k value) (length t.leaves) (spliced_new low value)

  abbrev pub spliced_proof : IndexedMerkleTree Hash → Leaf → ℕ → Value → InsertionProof Hash
  spliced_proof t low k value = record {
    low_leaf = low;
    low_leaf_index = k;
    low_leaf_siblings = siblings h t k;
    new_leaf_index = length t.leaves;
    new_leaf_siblings = siblings h (relinked t low k value) (length t.leaves);
  }

  module _ (t : IndexedMerkleTree Hash) (valid : IsValid h t) (value : Value) where
    pub record Spliceable (low : Leaf) (k : ℕ) : Type 0 where
      pub nonzero : value ≢ 0
      pub in_type : IsValue value
      pub free : length t.leaves < 2 ^ t.depth
      pub absent : contains t value ≡ false
      pub is_low : IsLow t.leaves t.index_by_value value low k

    module _ (low : Leaf) (k : ℕ) (s : Spliceable low k) where
      pub low_index-lt : k < length t.leaves
      low_index-lt = get_elem?-lt t.leaves k s.is_low.stored

      pub relinked-IsCached : IsCached h (relinked t low k value)
      relinked-IsCached =
          let low' = spliced_low low value (length t.leaves) in
          write_leaf-IsCached h t (omega (arith, valid.depth_max)) valid.cached
            (set t.leaves k low') k (λ i apart. get_elem?-set_ne t.leaves low' (λ e. apart (sym e)))
            t.index_by_value low' (get_elem?-set_self t.leaves k low' low_index-lt)

      pub spliced-IsCached : IsCached h (spliced t low k value)
      unfolding append_leaf write_leaf
      spliced-IsCached =
          let u = relinked t low k value in
          let n = length t.leaves in
          let width : length u.leaves ≡ n = length-set t.leaves k (spliced_low low value n) in
          let new = spliced_new low value in
          write_leaf-IsCached h u (omega (arith, valid.depth_max)) relinked-IsCached
            (u.leaves ++ new ∷ []) n
            (λ i apart. get_elem?-snoc_ne u.leaves new i (λ e. apart (e ∙ width)))
            (Index.insert new.value n u.index_by_value) new
            (subst (λ (m : ℕ). get_elem? (u.leaves ++ new ∷ []) m ≡ some new) width
              (get_elem?-snoc_self u.leaves new))
