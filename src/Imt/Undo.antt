-- ===== src/Imt/Undo.antt =====
-- imt.rs: `undo_insert` against `insert`.
use ztreexo.Prelude.{
  ℕ, suc, ◌-◌, ◌<◌, ◌≤◌, ◌≡◌, ◌≢◌, List, [], ◌∷◌, ◌++◌, some, length, get_elem?, get_elem?-snoc_lt,
  get_elem?-snoc_ne, get_elem?-snoc_self, get_elem?-set_self, get_elem?-set_ne, get_elem?_of_le,
  length-set, set, set-set_back, drop_last, drop_last-snoc, arith, refl, sym, ap, ap₂, ◌∙◌, ok,
  subst, lt→ltb,
}
use ztreexo.Digest.ImtHash.{ImtHash}
use ztreexo.Imt.Types.{Leaf, Value, IsValue, InsertionProof}
use ztreexo.Imt.Verify.{spliced_low, spliced_new}
use ztreexo.Imt.Index
use ztreexo.Imt.Index.{Index}
use ztreexo.Imt.Tree.{
  IndexedMerkleTree, contains, node, insert, leaf_count, write_leaf, append_leaf, clear_leaf,
  set_leaf,
}
use ztreexo.Imt.Removal.{check_undo, remove_leaf, finish_undo, undo_insert}
use ztreexo.Imt.Nodes.{Nodes, zeros_ladder}
use ztreexo.Imt.Subtree.{subtree}
use ztreexo.Imt.Links.{remove-insert}
use ztreexo.Imt.Invariant.{IsValid, leaf_digest, leaf_count-length}
use ztreexo.Imt.Cache.{IsCached, write_leaf-IsCached, clear_leaf-IsCached}
use ztreexo.Imt.Insertion.{spliced, spliced_proof, Spliceable, low_index-lt}
use ztreexo.Imt.Spliced.{spliced-IsValid, spliced-length}
use ztreexo.Imt.Insert.{insert-inversion, insert-IsValid}
use ztreexo.Imt.Mirrors.{SameTree, Mirrors, Mirrors-self, Mirrors-eq}

module _ {Hash : Type 0} (h : ImtHash Hash) (t : IndexedMerkleTree Hash) (valid : IsValid h t)
    (value : Value) (low : Leaf) (k : ℕ) (s : Spliceable h t valid value low k) (ns : Nodes Hash)
    (cached : IsCached h (record (spliced h t low k value) { nodes = ns })) where
  low' : Leaf
  low' = spliced_low low value (length t.leaves)

  new : Leaf
  new = spliced_new low value

  relinked_leaves : List Leaf
  relinked_leaves = set t.leaves k low'

  full : IndexedMerkleTree Hash
  full = record (spliced h t low k value) { nodes = ns }

  in_list : k < length t.leaves
  in_list = low_index-lt h t valid value low k s

  relinked-length : length relinked_leaves ≡ length t.leaves
  unfolding relinked_leaves
  relinked-length = length-set t.leaves k low'

  full-leaves : full.leaves ≡ relinked_leaves ++ new ∷ []
  unfolding full relinked_leaves low' new append_leaf write_leaf
  full-leaves = refl

  full-last : get_elem? full.leaves (length t.leaves) ≡ some new
  full-last = rw full-leaves (
      subst (λ (m : ℕ). get_elem? (relinked_leaves ++ new ∷ []) m ≡ some new) relinked-length
        (get_elem?-snoc_self relinked_leaves new))

  full-low : get_elem? full.leaves k ≡ some low'
  full-low = rw full-leaves (
      get_elem?-snoc_lt relinked_leaves new k (omega (arith, in_list, relinked-length))
      ∙ unfold relinked_leaves in get_elem?-set_self t.leaves k low' in_list)

  full-count : leaf_count full ≡ suc (length t.leaves)
  unfolding full leaf_count
  full-count =
      leaf_count-length h (spliced h t low k value) (spliced-IsValid h t valid value low k s)
      ∙ spliced-length h t valid value low k s

  -- every check of `undo_insert` passes on the tree and the proof that `insert` returned
  check_undo-spliced : check_undo h full value (spliced_proof h t low k value) ≡ ok tt
  unfolding check_undo low' new spliced_low spliced_new
  check_undo-spliced = ground (arith, s.nonzero, full-count, full-last, full-low, in_list)

  cleared : IndexedMerkleTree Hash
  cleared = remove_leaf h full value (length t.leaves)

  cleared-leaves : cleared.leaves ≡ relinked_leaves
  unfolding cleared remove_leaf clear_leaf
  cleared-leaves = ap drop_last full-leaves ∙ drop_last-snoc relinked_leaves new

  cleared-index : cleared.index_by_value ≡ t.index_by_value
  unfolding cleared remove_leaf clear_leaf full append_leaf write_leaf spliced_new
  cleared-index =
      remove-insert value (length t.leaves) t.index_by_value (unfold contains in s.absent)

  cleared-IsCached : IsCached h cleared
  unfolding cleared remove_leaf
  cleared-IsCached =
      clear_leaf-IsCached h full small (unfold full in cached) (drop_last full.leaves)
        (length t.leaves) agree (Index.remove value full.index_by_value) ladder
        (rw dropped
          (get_elem?_of_le relinked_leaves (length t.leaves) (omega (arith, relinked-length))))
    where
      dropped : drop_last full.leaves ≡ relinked_leaves
      dropped = ap drop_last full-leaves ∙ drop_last-snoc relinked_leaves new

      small : full.depth < 255
      small = unfold full append_leaf write_leaf in omega (arith, valid.depth_max)

      ladder : full.zeros ≡ zeros_ladder h full.pool full.depth (h.imt_empty_leaf full.pool)
      ladder = unfold full append_leaf write_leaf in valid.ladder

      agree :
          (i : ℕ)
          → i ≢ length t.leaves
          → get_elem? (drop_last full.leaves) i ≡ get_elem? full.leaves i
      agree i apart =
          ap (λ ls. get_elem? ls i) dropped
          ∙ sym (get_elem?-snoc_ne relinked_leaves new i (λ e. apart (e ∙ relinked-length)))
          ∙ ap (λ ls. get_elem? ls i) (sym full-leaves)

  -- the tree that `undo_insert` leaves
  restored : IndexedMerkleTree Hash
  restored = write_leaf h (record cleared { leaves = set cleared.leaves k low }) k low

  restored-leaves : restored.leaves ≡ t.leaves
  unfolding restored write_leaf
  restored-leaves =
      ap (λ ls. set ls k low) cleared-leaves
      ∙ unfold relinked_leaves in set-set_back t.leaves k low' s.is_low.stored

  restored-IsCached : IsCached h restored
  unfolding restored
  restored-IsCached =
      write_leaf-IsCached h cleared small cleared-IsCached (set cleared.leaves k low) k
        (λ i apart. get_elem?-set_ne cleared.leaves low (λ e. apart (sym e))) cleared.index_by_value
        low (get_elem?-set_self cleared.leaves k low cleared_list)
    where
      small : cleared.depth < 255
      small =
          unfold cleared remove_leaf clear_leaf full append_leaf write_leaf in
          omega (arith, valid.depth_max)

      cleared_list : k < length cleared.leaves
      cleared_list = omega (arith, in_list, relinked-length, ap length cleared-leaves)

  restored-nodes : (l i : ℕ) → l ≤ t.depth → node h restored l i ≡ node h t l i
  unfolding restored cleared remove_leaf clear_leaf full append_leaf write_leaf node
  restored-nodes l i fits =
      restored-IsCached l i fits
      ∙ ap (λ ls. subtree h t.pool (leaf_digest h t.pool ls) l i) restored-leaves
      ∙ sym (valid.cached l i fits)

  restored-SameTree : SameTree h restored t
  unfolding restored cleared remove_leaf clear_leaf full append_leaf write_leaf
  restored-SameTree = record {
    pool_same = refl;
    depth_same = refl;
    zeros_same = refl;
    leaves_same = restored-leaves;
    index_same = cleared-index;
    nodes_same = restored-nodes;
  }

  last_index : leaf_count full - 1 ≡ length t.leaves
  last_index = omega (arith, full-count)

  set_leaf-cleared : set_leaf h cleared k low ≡ ok restored
  unfolding set_leaf restored
  set_leaf-cleared = rw (
      lt→ltb k (length cleared.leaves)
        (omega (arith, in_list, relinked-length, ap length cleared-leaves)))

  set_leaf-removed : set_leaf h (remove_leaf h full value (length t.leaves)) k low ≡ ok restored
  unfolding cleared
  set_leaf-removed = set_leaf-cleared

  undo-spliced : undo_insert h full value (spliced_proof h t low k value) ≡ (restored, ok tt)
  unfolding undo_insert finish_undo
  undo-spliced = rw (check_undo-spliced, undo_insert, last_index, set_leaf-removed)

module _ {Hash : Type 0} (h : ImtHash Hash) where
  -- `undo_insert` after `insert`, also on a tree that mirrors the one that `insert` returned.
  pub undo_insert-Mirrors :
      (t t' u : IndexedMerkleTree Hash) (value : Value) (proof : InsertionProof Hash)
      → IsValid h t
      → IsValue value
      → insert h t value ≡ ok (t', proof)
      → Mirrors h u t'
      → (r : IndexedMerkleTree Hash) × (undo_insert h u value proof ≡ (r, ok tt))
        × Mirrors h r t
        × SameTree h r t
  undo_insert-Mirrors t t' u value proof valid in_type e m =
      let (low, k, s, tree, made) = insert-inversion h t valid value t' proof in_type e in
      let same : u ≡ record (spliced h t low k value) { nodes = u.nodes } =
        Mirrors-eq h u t' m
        ∙ ap (λ (x : IndexedMerkleTree Hash). record x { nodes = u.nodes }) tree in
      let cached = subst (IsCached h) same m.cached in
      let back = restored-SameTree h t valid value low k s u.nodes cached in
      (
        restored h t valid value low k s u.nodes cached,
        ap₂ (λ x p. undo_insert h x value p) same made
            ∙ unfold full in undo-spliced h t valid value low k s u.nodes cached,
        record {
          pool_same = back.pool_same;
          depth_same = back.depth_same;
          zeros_same = back.zeros_same;
          leaves_same = back.leaves_same;
          index_same = back.index_same;
          cached = restored-IsCached h t valid value low k s u.nodes cached;
        },
        back,
      )

-- Right after `insert` has returned on a valid tree, `undo_insert` with the returned proof succeeds
-- and gives back the tree before: its leaves, value index, and every digest up to the root.
pub undo_insert-insert :
    {Hash : Type 0} (h : ImtHash Hash) (t t' : IndexedMerkleTree Hash) (value : Value)
    (proof : InsertionProof Hash)
    → IsValid h t
    → IsValue value
    → insert h t value ≡ ok (t', proof)
    → (u : IndexedMerkleTree Hash) × (undo_insert h t' value proof ≡ (u, ok tt)) × SameTree h u t
undo_insert-insert h t t' value proof valid in_type e =
    let (u, undone, _, back) =
      undo_insert-Mirrors h t t' t' value proof valid in_type e
        (Mirrors-self h t' (insert-IsValid h t valid value t' proof in_type e)) in
    (u, undone, back)
