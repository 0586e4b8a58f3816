-- ===== src/Imt/Rehash.antt =====
-- imt.rs: the loops of `write_leaf`, `clear_leaf` and `siblings` against the Merkle tree that the
-- node cache stands for.
use ztreexo.Prelude.{
  ℕ, zero, suc, ◌+◌, ◌*◌, ◌/◌, ◌≤◌, ◌<◌, ◌≡◌, ◌≢◌, inl, inr, List, ◌∷◌, Option, none, some, arith,
  refl, sym, ap, ap₂, ◌∙◌, ◌==◌, ◌&&◌, leb, if◌then◌else◌, Bool-cases,
}
use ztreexo.Pool.{PoolId}
use ztreexo.Digest.ImtHash.{ImtHash}
use ztreexo.Imt.Path.{sibling_index, next_level-suc, join}
use ztreexo.Imt.Nodes.{
  Nodes, put_node, zeros_ladder, zero_at, node_at, path_siblings, write_path, sparse_entry,
  clear_path,
}
use ztreexo.Imt.Subtree.{
  ancestor, ancestor-suc, ancestor-zero, subtree, subtree-zero, subtree_off, join-subtree,
  true_siblings,
}

module _ {Hash : Type 0} (h : ImtHash Hash) (pool : PoolId) where
  -- the digest of an empty subtree is the same everywhere on its level
  abbrev pub empty_subtree : ℕ → ℕ → Hash
  empty_subtree = subtree h pool (λ _. h.imt_empty_leaf pool)

  empty_subtree_const : (l i j : ℕ) → empty_subtree l i ≡ empty_subtree l j
  unfolding subtree
  empty_subtree_const zero i j = refl
  empty_subtree_const (suc l) i j =
      ap₂ (h.imt_node pool) (empty_subtree_const l (i * 2) (j * 2))
        (empty_subtree_const l (i * 2 + 1) (j * 2 + 1))

  empty_subtree-parent :
      (l i : ℕ) → h.imt_node pool (empty_subtree l 0) (empty_subtree l 0) ≡ empty_subtree (suc l) i
  unfolding subtree
  empty_subtree-parent l i =
      ap₂ (h.imt_node pool) (empty_subtree_const l 0 (i * 2)) (empty_subtree_const l 0 (i * 2 + 1))

  pub empty_subtree-pair :
      (l i : ℕ) → h.imt_node pool (empty_subtree l i) (empty_subtree l i) ≡ empty_subtree (suc l) i
  empty_subtree-pair l i =
      ap₂ (h.imt_node pool) (empty_subtree_const l i 0) (empty_subtree_const l i 0)
      ∙ empty_subtree-parent l i

  zero_at-ladder :
      (n m l top i : ℕ) (current : Hash)
      → m + l ≡ top
      → l ≤ n
      → current ≡ empty_subtree m 0
      → zero_at h (zeros_ladder h pool n current) l ≡ empty_subtree top i
  unfolding zero_at zeros_ladder
  zero_at-ladder zero m zero top i current e fits c =
      c ∙ empty_subtree_const m 0 i ∙ ap (λ (t : ℕ). empty_subtree t i) (omega arith)
  zero_at-ladder zero m (suc l) top i current e fits c = absurd (omega arith)
  zero_at-ladder (suc n) m zero top i current e fits c =
      c ∙ empty_subtree_const m 0 i ∙ ap (λ (t : ℕ). empty_subtree t i) (omega arith)
  zero_at-ladder (suc n) m (suc l) top i current e fits c =
      zero_at-ladder n (suc m) l top i (h.imt_node pool current current) (omega arith) (omega arith)
        (ap₂ (h.imt_node pool) c c ∙ empty_subtree-parent m 0)

  -- every entry of the ladder of a tree is the digest of an empty subtree
  pub zero_at-empty :
      (depth l i : ℕ)
      → l ≤ depth
      → zero_at h (zeros_ladder h pool depth (h.imt_empty_leaf pool)) l ≡ empty_subtree l i
  zero_at-empty depth l i fits =
      zero_at-ladder depth zero l l i (h.imt_empty_leaf pool) (omega arith) fits
        (sym (subtree-zero h pool (λ _. h.imt_empty_leaf pool) 0))

  module _ (zeros : List Hash) where
    -- what a lookup at a level makes of an entry
    abbrev pub entry_digest : ℕ → Option Hash → Hash
    entry_digest level none = zero_at h zeros level
    entry_digest level (some d) = d

    pub node_at-put :
        (nodes : Nodes Hash) (level index : ℕ) (entry : Option Hash) (l i : ℕ)
        → node_at h zeros (put_node nodes level index entry) l i ≡ (
            if l == level && i == index
            then entry_digest level entry
            else node_at h zeros nodes l i)
    unfolding node_at put_node
    node_at-put nodes level index none l i = ground arith
    node_at-put nodes level index (some d) l i = ground arith

    pub sparse_entry-digest :
        (level : ℕ) (d : Hash) → entry_digest level (sparse_entry h zeros level d) ≡ d
    unfolding sparse_entry
    sparse_entry-digest level d = elim (Bool-cases (h.beq d (zero_at h zeros level))) [
      | inl same ↦ rw same (sym ((h.beq_iff d (zero_at h zeros level)).0 same))
      | inr other ↦ rw other
    ]

    -- the cache holds the tree of `f`, up to the root
    abbrev pub Represents : Nodes Hash → (ℕ → Hash) → ℕ → Type 0
    Represents nodes f depth =
        (l i : ℕ) → l ≤ depth → node_at h zeros nodes l i ≡ subtree h pool f l i

    module _ (depth : ℕ) (f g : ℕ → Hash) (k : ℕ) (agree : (i : ℕ) → i ≢ k → f i ≡ g i) where
      -- up to `level` the cache holds the tree of `f`, above it still that of `g`
      abbrev Mixed : Nodes Hash → ℕ → Type 0
      Mixed nodes level =
          (l i : ℕ)
          → l ≤ depth
          → node_at h zeros nodes l i
            ≡ (if leb l level then subtree h pool f l i else subtree h pool g l i)

      Mixed-put :
          (nodes : Nodes Hash) (level idx : ℕ) (entry : Option Hash)
          → idx ≡ ancestor (suc level) k
          → entry_digest (suc level) entry ≡ subtree h pool f (suc level) idx
          → Mixed nodes level
          → Mixed (put_node nodes (suc level) idx entry) (suc level)
      Mixed-put nodes level idx entry e digest mixed l i fits = ground (
        arith,
        node_at-put nodes (suc level) idx entry l i,
        mixed l i fits,
        digest,
        e,
        subtree_off h pool f g k agree (suc level) i,
      )

      parent-subtree :
          (nodes : Nodes Hash) (level idx : ℕ) (node : Hash)
          → level ≤ depth
          → node ≡ subtree h pool f level idx
          → Mixed nodes level
          → join h pool idx node (node_at h zeros nodes level (sibling_index idx))
            ≡ subtree h pool f (suc level) (idx / 2)
      parent-subtree nodes level idx node fits d mixed =
          ap₂ (join h pool idx) d (ground (arith, mixed level (sibling_index idx) fits))
          ∙ join-subtree h pool f level idx

      write_path-Mixed :
          (n level idx : ℕ) (node : Hash) (nodes : Nodes Hash)
          → level + n ≡ depth
          → depth < 255
          → idx ≡ ancestor level k
          → node ≡ subtree h pool f level idx
          → Mixed nodes level
          → Represents (write_path h pool zeros n level idx node nodes) f depth
      unfolding write_path
      write_path-Mixed zero level idx node nodes e small a d mixed =
          λ l i fits. ground (arith, mixed l i fits)
      write_path-Mixed (suc n) level idx node nodes e small a d mixed =
          let parent = join h pool idx node (node_at h zeros nodes level (sibling_index idx)) in
          let up = parent-subtree nodes level idx node (omega arith) d mixed in
          let above = ap (λ (t : ℕ). t / 2) a ∙ sym (ancestor-suc level k) in
          rw (next_level-suc level (omega arith)) (
            write_path-Mixed n (suc level) (idx / 2) parent
              (put_node nodes (suc level) (idx / 2) (some parent)) (omega arith) small above up
              (Mixed-put nodes level (idx / 2) (some parent) above up mixed))

      clear_path-Mixed :
          (n level idx : ℕ) (node : Hash) (nodes : Nodes Hash)
          → level + n ≡ depth
          → depth < 255
          → idx ≡ ancestor level k
          → node ≡ subtree h pool f level idx
          → Mixed nodes level
          → Represents (clear_path h pool zeros n level idx node nodes) f depth
      unfolding clear_path
      clear_path-Mixed zero level idx node nodes e small a d mixed =
          λ l i fits. ground (arith, mixed l i fits)
      clear_path-Mixed (suc n) level idx node nodes e small a d mixed =
          let parent = join h pool idx node (node_at h zeros nodes level (sibling_index idx)) in
          let up = parent-subtree nodes level idx node (omega arith) d mixed in
          let above = ap (λ (t : ℕ). t / 2) a ∙ sym (ancestor-suc level k) in
          rw (next_level-suc level (omega arith)) (
            clear_path-Mixed n (suc level) (idx / 2) parent
              (put_node nodes (suc level) (idx / 2) (sparse_entry h zeros (suc level) parent))
              (omega arith) small above up
              (Mixed-put nodes level (idx / 2) (sparse_entry h zeros (suc level) parent) above
                (sparse_entry-digest (suc level) parent ∙ up) mixed))

      -- Writing or clearing leaf `k` turns a cache of the old tree into one of the new tree.
      Mixed-leaf :
          (nodes : Nodes Hash) (entry : Option Hash)
          → entry_digest 0 entry ≡ f k
          → Represents nodes g depth
          → Mixed (put_node nodes 0 k entry) 0
      Mixed-leaf nodes entry d old l i fits = ground (
        arith,
        node_at-put nodes 0 k entry l i,
        old l i fits,
        d,
        subtree-zero h pool f k,
        ancestor-zero k,
        subtree_off h pool f g k agree 0 i,
      )

      pub write_path-Represents :
          (nodes : Nodes Hash) (digest : Hash)
          → digest ≡ f k
          → depth < 255
          → Represents nodes g depth
          → Represents
              (write_path h pool zeros depth 0 k digest (put_node nodes 0 k (some digest)))
              f
              depth
      write_path-Represents nodes digest d small old =
          write_path-Mixed depth 0 k digest (put_node nodes 0 k (some digest)) (omega arith) small
            (sym (ancestor-zero k)) (d ∙ sym (subtree-zero h pool f k))
            (Mixed-leaf nodes (some digest) d old)

      pub clear_path-Represents :
          (nodes : Nodes Hash)
          → depth < 255
          → zero_at h zeros 0 ≡ f k
          → Represents nodes g depth
          → Represents
              (clear_path h pool zeros depth 0 k (zero_at h zeros 0) (put_node nodes 0 k none))
              f
              depth
      clear_path-Represents nodes small empty old =
          clear_path-Mixed depth 0 k (zero_at h zeros 0) (put_node nodes 0 k none) (omega arith)
            small (sym (ancestor-zero k)) (empty ∙ sym (subtree-zero h pool f k))
            (Mixed-leaf nodes none empty old)

    -- the loop of `siblings` reads the true siblings
    pub path_siblings-true :
        (nodes : Nodes Hash) (depth : ℕ) (f : ℕ → Hash)
        → depth < 255
        → Represents nodes f depth
        → (n level idx : ℕ) → level + n ≡ depth
        → path_siblings h zeros nodes n level idx ≡ true_siblings h pool f n level idx
    unfolding path_siblings true_siblings
    path_siblings-true nodes depth f small cached zero level idx e = refl
    path_siblings-true nodes depth f small cached (suc n) level idx e =
        rw (next_level-suc level (omega arith)) (
          ap₂ (λ d ds. d ∷ ds) (cached level (sibling_index idx) (omega arith))
            (path_siblings-true nodes depth f small cached n (suc level) (idx / 2) (omega arith)))
