-- ===== src/Imt/Invariant.antt =====
-- imt.rs: what holds of every `IndexedMerkleTree` between two calls.
use native.Mathlib.Nat.{pow-le-pow_right}
use ztreexo.Prelude.{
  ℕ, ◌^◌, ◌<◌, ◌≤◌, ◌≡◌, ◌⊎◌, inl, inr, List, ◌∷◌, none, some, length, get_elem?, arith, sym, ap,
  ◌∙◌, ok, Bool-cases, Option-cases, subst, ◌==◌, ◌&&◌,
}
use ztreexo.Pool.{PoolId}
use ztreexo.Digest.ImtHash.{ImtHash, Collision, two_leaves, leaf_and_empty}
use ztreexo.Imt.Types.{Leaf, LeafFits, hash_leaf}
use ztreexo.Imt.Path.{check_depth, check_path, capacity_of, root_from_path}
use ztreexo.Imt.Index.{Index, lookup}
use ztreexo.Imt.Nodes.{zeros_ladder}
use ztreexo.Imt.Tree.{IndexedMerkleTree, leaf_count, root, siblings}
use ztreexo.Imt.Subtree.{ancestor_below, subtree, subtree-zero, true_siblings, root_from_path_sound}
use ztreexo.Imt.Rehash.{Represents, path_siblings-true}
use ztreexo.Imt.Links.{Linked}

module _ {Hash : Type 0} (h : ImtHash Hash) where
  -- the digest of leaf `i`: that of an empty leaf beyond the last one
  abbrev pub leaf_digest : PoolId → List Leaf → ℕ → Hash
  leaf_digest pool leaves i = elim (get_elem? leaves i) [
    | none ↦ h.imt_empty_leaf pool
    | some l ↦ hash_leaf h pool l
  ]

  pub leaf_digest-vacant :
      (pool : PoolId) (leaves : List Leaf) (i : ℕ)
      → get_elem? leaves i ≡ none
      → leaf_digest pool leaves i ≡ h.imt_empty_leaf pool
  leaf_digest-vacant pool leaves i e = ground arith

  pub leaf_digest-stored :
      (pool : PoolId) (leaves : List Leaf) (i : ℕ) (l : Leaf)
      → get_elem? leaves i ≡ some l
      → leaf_digest pool leaves i ≡ hash_leaf h pool l
  leaf_digest-stored pool leaves i l e = ground arith

  -- The depth is supported; the node cache holds the Merkle tree of the leaves; the leaves fit; the
  -- value index starts at the sentinel, lists every leaf, and is linked through the leaves.
  pub record IsValid (t : IndexedMerkleTree Hash) : Type 0 where
    pub depth_min : 1 ≤ t.depth
    pub depth_max : t.depth ≤ 63
    pub ladder : t.zeros ≡ zeros_ladder h t.pool t.depth (h.imt_empty_leaf t.pool)
    pub cached : Represents h t.pool t.zeros t.nodes (leaf_digest t.pool t.leaves) t.depth
    pub room : length t.leaves ≤ 2 ^ t.depth
    pub starts : (rest : Index) × (t.index_by_value ≡ (0, 0) ∷ rest)
    pub linked : Linked t.leaves t.index_by_value
    pub indexed :
        (i : ℕ) (l : Leaf)
        → get_elem? t.leaves i ≡ some l
        → lookup l.value t.index_by_value ≡ some i
    pub in_range : (i : ℕ) (l : Leaf) → get_elem? t.leaves i ≡ some l → LeafFits l

  pub capacity_of-pow : (depth : ℕ) → depth ≤ 63 → capacity_of depth ≡ 2 ^ depth
  unfolding capacity_of
  capacity_of-pow depth small = ground arith

  pub capacity-le : (depth : ℕ) → depth ≤ 63 → 2 ^ depth ≤ 9223372036854775808
  capacity-le depth small = pow-le-pow_right {n = 2} (omega arith) small

  pub check_path-eq_ok :
      (depth index : ℕ) (path : List Hash)
      → check_path h depth index path ≡ ok tt
      → (length path ≡ depth) × (index < capacity_of depth)
  unfolding check_path check_depth
  check_path-eq_ok depth index path e = ground arith

  pub check_path_of :
      (depth index : ℕ) (path : List Hash)
      → 1 ≤ depth
      → depth ≤ 63
      → length path ≡ depth
      → index < capacity_of depth
      → check_path h depth index path ≡ ok tt
  unfolding check_path check_depth
  check_path_of depth index path a b c d = ground arith

  pub hash_leaf-injective :
      (pool : PoolId) (l m : Leaf)
      → LeafFits l
      → LeafFits m
      → hash_leaf h pool l ≡ hash_leaf h pool m
      → Collision h pool ⊎ (l ≡ m)
  hash_leaf-injective pool l m f g e =
      elim (Bool-cases
        (l.value == m.value && (l.next_value == m.next_value && l.next_index == m.next_index))) [
          | inl same ↦ inr (ground arith)
          | inr other ↦ inl (
              two_leaves l.value l.next_value l.next_index m.value m.next_value m.next_index f g
                (λ s. ground (arith, s.0, s.1, s.2)) e)
        ]

  module _ (t : IndexedMerkleTree Hash) (valid : IsValid t) where
    pub leaf_count-length : leaf_count t ≡ length t.leaves
    unfolding leaf_count
    leaf_count-length = ground (arith, capacity-le t.depth valid.depth_max, valid.room)

    pub root-subtree : root h t ≡ subtree h t.pool (leaf_digest t.pool t.leaves) t.depth 0
    unfolding root
    root-subtree = valid.cached t.depth 0 (omega arith)

    pub siblings-true :
        (index : ℕ)
        → siblings h t index ≡ true_siblings h t.pool (leaf_digest t.pool t.leaves) t.depth 0 index
    unfolding siblings
    siblings-true index =
        path_siblings-true h t.pool t.zeros t.nodes t.depth (leaf_digest t.pool t.leaves)
          (omega (arith, valid.depth_max)) valid.cached t.depth 0 index (omega arith)

    pub authentic_leaf :
        (l : Leaf) (index : ℕ)
        → LeafFits l
        → hash_leaf h t.pool l ≡ leaf_digest t.pool t.leaves index
        → Collision h t.pool ⊎ (get_elem? t.leaves index ≡ some l)
    authentic_leaf l index f e = elim (Option-cases (get_elem? t.leaves index)) [
      | inl vacant ↦ inl (
          leaf_and_empty l.value l.next_value l.next_index f
            (e ∙ leaf_digest-vacant t.pool t.leaves index vacant))
      | inr (m, stored) ↦
          elim (hash_leaf-injective t.pool l m f (valid.in_range index m stored)
            (e ∙ leaf_digest-stored t.pool t.leaves index m stored)) [
              | inl broken ↦ inl broken
              | inr same ↦ inr (stored ∙ ap some (sym same))
            ]
    ]

    -- A path that passes the checks and folds to the root shows a leaf of the tree at its index, with
    -- the tree's own siblings, or a collision.
    pub authentic :
        (l : Leaf) (index : ℕ) (path : List Hash)
        → LeafFits l
        → check_path h t.depth index path ≡ ok tt
        → root_from_path h t.pool (hash_leaf h t.pool l) index path ≡ root h t
        → Collision h t.pool
          ⊎ ((get_elem? t.leaves index ≡ some l)
              × (path ≡ true_siblings h t.pool (leaf_digest t.pool t.leaves) t.depth 0 index))
    authentic l index path f checked folds =
        let digests = leaf_digest t.pool t.leaves in
        let (full, within) = check_path-eq_ok t.depth index path checked in
        let below : index < 2 ^ length path =
          subst (λ (n : ℕ). index < 2 ^ n) (sym full)
            (subst (λ (n : ℕ). index < n) (capacity_of-pow t.depth valid.depth_max) within) in
        let top =
          ap (subtree h t.pool digests t.depth) (ancestor_below (length path) index below) in
        elim (root_from_path_sound h t.pool digests (hash_leaf h t.pool l) path 0 t.depth index
          (omega arith) (folds ∙ root-subtree ∙ sym top)) [
            | inl broken ↦ inl broken
            | inr same ↦
                elim (authentic_leaf l index f (same.0 ∙ subtree-zero h t.pool digests index)) [
                  | inl broken ↦ inl broken
                  | inr stored ↦ inr (
                    stored,
                    subst (λ n. path ≡ true_siblings h t.pool digests n 0 index) full same.1,
                  )
                ]
          ]
