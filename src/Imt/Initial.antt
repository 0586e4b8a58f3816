-- ===== src/Imt/Initial.antt =====
-- imt.rs: `with_depth` gives a valid tree, and `ImtState::new` its state without building it.
use native.Mathlib.Nat.{pow-le-pow_right}
use ztreexo.Prelude.{
  ℕ, zero, suc, ◌+◌, ◌≤◌, ◌≡◌, ◌≢◌, ◌⊎◌, inl, inr, true, false, [], ◌∷◌, some, length, get_elem?,
  arith, refl, sym, ap, ap₂, ◌∙◌, ok, err, ◌==◌, leb, Bool-cases, of_some_eq, ◌&&◌, subst,
}
use ztreexo.Pool.{PoolId}
use ztreexo.Digest.ImtHash.{ImtHash}
use ztreexo.Imt.Types.{Leaf, LeafFits, Value, hash_leaf, sentinel, invalid_depth}
use ztreexo.Imt.Path.{check_depth, state_new, sentinel_root}
use ztreexo.Imt.Index
use ztreexo.Imt.Nodes.{no_nodes, zeros_ladder, node_at}
use ztreexo.Imt.Tree.{IndexedMerkleTree, with_depth, append_leaf, write_leaf, contains, state, root}
use ztreexo.Imt.Subtree.{ancestor_below, subtree, subtree-zero, subtree_off}
use ztreexo.Imt.Rehash.{zero_at-empty, empty_subtree-pair}
use ztreexo.Imt.Invariant.{IsValid, leaf_digest, leaf_count-length, root-subtree}
use ztreexo.Imt.Cache.{IsCached, write_leaf-IsCached}

module _ {Hash : Type 0} (h : ImtHash Hash) (pool : PoolId) (depth : ℕ) where
  bare : IndexedMerkleTree Hash
  bare = record {
    pool = pool;
    depth = depth;
    zeros = zeros_ladder h pool depth (h.imt_empty_leaf pool);
    leaves = [];
    index_by_value = [];
    nodes = no_nodes;
  }

  -- the tree that holds the sentinel alone
  unfoldable pub fresh : IndexedMerkleTree Hash
  unfolding bare
  fresh = append_leaf h bare 0 sentinel

  bare-IsCached : IsCached h bare
  unfolding bare node_at
  bare-IsCached l i fits = zero_at-empty h pool depth l i fits

  sentinel_fits : LeafFits sentinel
  sentinel_fits = omega arith

  pub fresh-IsValid : 1 ≤ depth → depth ≤ 63 → IsValid h fresh
  unfolding fresh append_leaf write_leaf Index.insert
  fresh-IsValid low high = record {
    depth_min = low;
    depth_max = high;
    ladder = refl;
    cached =
        write_leaf-IsCached h bare (omega arith) bare-IsCached (sentinel ∷ []) 0
          (λ i apart. only_first i apart) ((0, 0) ∷ []) sentinel refl;
    room = pow-le-pow_right {n = 2} (omega arith) {i = 0} (omega arith);
    starts = ([], refl);
    linked = refl;
    indexed = λ i l e. listed i l e;
    in_range = λ i l e. fits i l e;
  }
    where
      only_first : (i : ℕ) → i ≢ 0 → get_elem? (sentinel ∷ []) i ≡ get_elem? {A = Leaf} [] i
      only_first zero apart = absurd (apart refl)
      only_first (suc i) apart = refl

      listed :
          (i : ℕ) (l : Leaf)
          → get_elem? (sentinel ∷ []) i ≡ some l
          → Index.lookup l.value ((0, 0) ∷ []) ≡ some i
      listed zero l e = unfold Index.lookup in ground arith
      listed (suc i) l e = cc

      fits : (i : ℕ) (l : Leaf) → get_elem? (sentinel ∷ []) i ≡ some l → LeafFits l
      fits zero l e = subst LeafFits (of_some_eq e) sentinel_fits
      fits (suc i) l e = cc

  fresh_root :
      1 ≤ depth
      → depth ≤ 63
      → root h fresh ≡ subtree h pool (leaf_digest h pool (sentinel ∷ [])) depth 0
  unfolding fresh append_leaf write_leaf
  fresh_root low high = root-subtree h fresh (fresh-IsValid low high)

  -- right of the leftmost path every subtree is empty
  right_empty :
      (l : ℕ)
      → subtree h pool (leaf_digest h pool (sentinel ∷ [])) l 1
        ≡ subtree h pool (λ _. h.imt_empty_leaf pool) l 1
  right_empty l =
      subtree_off h pool (leaf_digest h pool (sentinel ∷ [])) (λ _. h.imt_empty_leaf pool) 0
        only_first l 1
        (λ e. absurd (
          omega (
            arith,
            e,
            ancestor_below l 0 (pow-le-pow_right {n = 2} (omega arith) {i = 0} (omega arith)),
          )))
    where
      only_first : (i : ℕ) → i ≢ 0 → leaf_digest h pool (sentinel ∷ []) i ≡ h.imt_empty_leaf pool
      only_first zero apart = absurd (apart refl)
      only_first (suc i) apart = refl

  sentinel_root-subtree :
      (n level : ℕ) (node empty : Hash)
      → level + n ≡ depth
      → node ≡ subtree h pool (leaf_digest h pool (sentinel ∷ [])) level 0
      → empty ≡ subtree h pool (λ _. h.imt_empty_leaf pool) level 1
      → sentinel_root h pool n node empty
        ≡ subtree h pool (leaf_digest h pool (sentinel ∷ [])) depth 0
  unfolding sentinel_root
  sentinel_root-subtree zero level node empty e d z =
      d ∙ ap (λ (l : ℕ). subtree h pool (leaf_digest h pool (sentinel ∷ [])) l 0) (omega arith)
  sentinel_root-subtree (suc n) level node empty e d z =
      sentinel_root-subtree n (suc level) (h.imt_node pool node empty) (h.imt_node pool empty empty)
        (omega arith) (up level node empty d z)
        (ap₂ (h.imt_node pool) z z ∙ empty_subtree-pair h pool level 1)
    where
      up :
          (level : ℕ) (node empty : Hash)
          → node ≡ subtree h pool (leaf_digest h pool (sentinel ∷ [])) level 0
          → empty ≡ subtree h pool (λ _. h.imt_empty_leaf pool) level 1
          → h.imt_node pool node empty
            ≡ subtree h pool (leaf_digest h pool (sentinel ∷ [])) (suc level) 0
      up level node empty d z =
          unfold subtree in ap₂ (h.imt_node pool) d (z ∙ sym (right_empty level))

  length-fresh : length fresh.leaves ≡ 1
  unfolding fresh append_leaf write_leaf
  length-fresh = refl

  state_new-fresh : 1 ≤ depth → depth ≤ 63 → state_new h pool depth ≡ ok (state h fresh)
  unfolding state_new state check_depth
  state_new-fresh low high = ground (
    arith,
    fresh_root low high,
    leaf_count-length h fresh (fresh-IsValid low high),
    length-fresh,
    sentinel_root-subtree depth 0 (hash_leaf h pool sentinel) (h.imt_empty_leaf pool) (omega arith)
        (sym (subtree-zero h pool (leaf_digest h pool (sentinel ∷ [])) 0))
        (sym (subtree-zero h pool (λ _. h.imt_empty_leaf pool) 1)),
  )

  -- `with_depth` refuses a depth outside 1 to 63 and otherwise returns a valid tree of that pool and
  -- depth that holds the sentinel alone; `ImtState::new` computes the state of that tree, with the
  -- same refusals.
  pub with_depth_outcome :
      ((¬ ((1 ≤ depth) × (depth ≤ 63)))
        × (with_depth h pool depth ≡ err (invalid_depth depth))
        × (state_new h pool depth ≡ err (invalid_depth depth)))
      ⊎ ((t : IndexedMerkleTree Hash) × (with_depth h pool depth ≡ ok t)
          × IsValid h t
          × (t.pool ≡ pool)
          × (t.depth ≡ depth)
          × ((w : Value) → contains t w ≡ (0 == w))
          × (state_new h pool depth ≡ ok (state h t)))
  with_depth_outcome = elim (Bool-cases (leb 1 depth && leb depth 63)) [
    | inl supported ↦
        let (low, high) = bounds supported in
        inr (
          fresh,
          made supported,
          fresh-IsValid low high,
          fresh_pool,
          fresh_depth,
          fresh_contains,
          state_new-fresh low high,
        )
    | inr refused ↦ inl (outside refused, refused_tree refused, refused_state refused)
  ]
    where
      bounds : (leb 1 depth && leb depth 63) ≡ true → (1 ≤ depth) × (depth ≤ 63)
      bounds s = ground arith

      outside : (leb 1 depth && leb depth 63) ≡ false → ¬ ((1 ≤ depth) × (depth ≤ 63))
      outside r b = ground (arith, b.0, b.1)

      made : (leb 1 depth && leb depth 63) ≡ true → with_depth h pool depth ≡ ok fresh
      made s = unfold with_depth fresh bare check_depth in rw s

      refused_tree :
          (leb 1 depth && leb depth 63) ≡ false
          → with_depth h pool depth ≡ err (invalid_depth depth)
      refused_tree r = unfold with_depth check_depth in rw r

      refused_state :
          (leb 1 depth && leb depth 63) ≡ false → state_new h pool depth ≡ err (invalid_depth depth)
      refused_state r = unfold state_new check_depth in rw r

      fresh_pool : fresh.pool ≡ pool
      fresh_pool = unfold fresh append_leaf write_leaf in refl

      fresh_depth : fresh.depth ≡ depth
      fresh_depth = unfold fresh append_leaf write_leaf in refl

      fresh_contains : (w : Value) → contains fresh w ≡ (0 == w)
      fresh_contains w =
          unfold fresh append_leaf write_leaf contains Index.insert Index.contains_key in
          ground arith
