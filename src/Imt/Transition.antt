-- ===== src/Imt/Transition.antt =====
-- imt.rs: the three roots that an insertion passes through, as folds along the paths of its proof.
use ztreexo.Prelude.{
  ℕ, ◌^◌, ◌<◌, ◌≡◌, ◌⊎◌, inl, inr, List, [], ◌∷◌, ◌++◌, some, length, length-set, get_elem?,
  get_elem?-set_self, get_elem?-set_ne, get_elem?-snoc_ne, get_elem?-snoc_self, get_elem?_of_le,
  set, arith, sym, ap, ◌∙◌, subst,
}
use ztreexo.Digest.ImtHash.{ImtHash, Collision}
use ztreexo.Imt.Types.{Leaf, Value, hash_leaf}
use ztreexo.Imt.Path.{root_from_path}
use ztreexo.Imt.Verify.{spliced_low, spliced_new}
use ztreexo.Imt.Tree.{IndexedMerkleTree, root, siblings, write_leaf, append_leaf}
use ztreexo.Imt.Subtree.{true_siblings, root_from_path_sound, subtree, ancestor_below}
use ztreexo.Imt.Invariant.{IsValid, leaf_digest, leaf_digest-stored, leaf_digest-vacant}
use ztreexo.Imt.Cache.{IsCached, fold-root, siblings_unchanged, siblings-cached, root-cached}
use ztreexo.Imt.Insertion.{
  relinked, relinked-IsCached, spliced, Spliceable, low_index-lt, spliced-IsCached,
}

module _ {Hash : Type 0} (h : ImtHash Hash) (t : IndexedMerkleTree Hash) (valid : IsValid h t)
    (value : Value) (low : Leaf) (k : ℕ) (s : Spliceable h t valid value low k) where
  middle : IndexedMerkleTree Hash
  middle = relinked h t low k value

  middle-IsCached : IsCached h middle
  unfolding middle
  middle-IsCached = relinked-IsCached h t valid value low k s

  in_list : k < length t.leaves
  in_list = low_index-lt h t valid value low k s

  low' : Leaf
  low' = spliced_low low value (length t.leaves)

  -- the rewritten low leaf folds to the root between the two writes
  pub fold-low :
      root_from_path h t.pool
        (hash_leaf h t.pool (spliced_low low value (length t.leaves)))
        k
        (true_siblings h t.pool (leaf_digest h t.pool t.leaves) t.depth 0 k)
      ≡ root h (relinked h t low k value)
  unfolding middle write_leaf low'
  fold-low =
      fold-root h middle (omega (arith, valid.depth_max)) middle-IsCached k
        (hash_leaf h t.pool low')
        (true_siblings h t.pool (leaf_digest h t.pool t.leaves) t.depth 0 k)
        (omega (arith, in_list, valid.room))
        (sym (
          leaf_digest-stored h t.pool (set t.leaves k low') k low'
            (get_elem?-set_self t.leaves k low' in_list)))
        (sym (
          siblings_unchanged h t (omega (arith, valid.depth_max)) valid.cached (set t.leaves k low')
            k (λ i apart. get_elem?-set_ne t.leaves low' (λ e. apart (sym e)))))

  middle-length : length (set t.leaves k low') ≡ length t.leaves
  middle-length = length-set t.leaves k low'

  -- the place of the new leaf is still empty there
  pub fold-empty :
      root_from_path h t.pool
        (h.imt_empty_leaf t.pool)
        (length t.leaves)
        (siblings h (relinked h t low k value) (length t.leaves))
      ≡ root h (relinked h t low k value)
  unfolding middle write_leaf low'
  fold-empty =
      fold-root h middle (omega (arith, valid.depth_max)) middle-IsCached (length t.leaves)
        (h.imt_empty_leaf t.pool) (siblings h middle (length t.leaves)) s.free
        (sym (
          leaf_digest-vacant h t.pool (set t.leaves k low') (length t.leaves) (
            get_elem?_of_le (set t.leaves k low') (length t.leaves)
              (omega (arith, middle-length)))))
        (siblings-cached h middle (omega (arith, valid.depth_max)) middle-IsCached
          (length t.leaves))

  pub siblings-relinked :
      siblings h (relinked h t low k value) (length t.leaves)
      ≡ true_siblings h t.pool
          (leaf_digest h t.pool (relinked h t low k value).leaves)
          t.depth
          0
          (length t.leaves)
  unfolding middle write_leaf
  siblings-relinked =
      siblings-cached h middle (omega (arith, valid.depth_max)) middle-IsCached (length t.leaves)

  -- and no other path folds the empty leaf to that root, short of a collision
  pub fold-empty_unique :
      (path : List Hash)
      → length path ≡ t.depth
      → root_from_path h t.pool (h.imt_empty_leaf t.pool) (length t.leaves) path
        ≡ root h (relinked h t low k value)
      → Collision h t.pool ⊎ (path ≡ siblings h (relinked h t low k value) (length t.leaves))
  unfolding middle write_leaf low'
  fold-empty_unique path full folds =
      let n = length t.leaves in
      let digests = leaf_digest h t.pool (set t.leaves k low') in
      let below = subst (λ (m : ℕ). n < 2 ^ m) (sym full) s.free in
      let top = ap (subtree h t.pool digests t.depth) (ancestor_below (length path) n below) in
      let rooted = root-cached h middle (omega (arith, valid.depth_max)) middle-IsCached in
      elim (root_from_path_sound h t.pool digests (h.imt_empty_leaf t.pool) path 0 t.depth n
        (omega arith) (folds ∙ rooted ∙ sym top)) [
          | inl broken ↦ inl broken
          | inr same ↦ inr (
              subst (λ m. path ≡ true_siblings h t.pool digests m 0 n) full same.1
              ∙ sym (siblings-cached h middle (omega (arith, valid.depth_max)) middle-IsCached n))
        ]

  -- the new leaf folds along the same path to the root that the insertion leaves
  pub fold-new :
      root_from_path h t.pool
        (hash_leaf h t.pool (spliced_new low value))
        (length t.leaves)
        (siblings h (relinked h t low k value) (length t.leaves))
      ≡ root h (spliced h t low k value)
  unfolding middle append_leaf write_leaf low' spliced_new
  fold-new =
      let n = length t.leaves in
      let new = spliced_new low value in
      let leaves = set t.leaves k low' ++ new ∷ [] in
      fold-root h (spliced h t low k value) (omega (arith, valid.depth_max))
        (spliced-IsCached h t valid value low k s) n (hash_leaf h t.pool new) (siblings h middle n)
        s.free
        (sym (
          leaf_digest-stored h t.pool leaves n new (
            subst (λ (m : ℕ). get_elem? leaves m ≡ some new) middle-length
              (get_elem?-snoc_self (set t.leaves k low') new))))
        (siblings-cached h middle (omega (arith, valid.depth_max)) middle-IsCached n
          ∙ sym (
              siblings_unchanged h middle (omega (arith, valid.depth_max)) middle-IsCached leaves n
                (λ i apart.
                  get_elem?-snoc_ne (set t.leaves k low') new i (λ e. apart (e ∙ middle-length)))))
