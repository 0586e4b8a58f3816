-- ===== src/Imt/Absence.antt =====
-- imt.rs: `verify_non_membership` against the set that the root stands for, and
-- `prove_non_membership` against the verifier.
use ztreexo.Prelude.{
  ℕ, ◌^◌, ◌<◌, ◌≡◌, ◌≢◌, ◌⊎◌, inl, inr, true, false, ◌∷◌, some, get_elem?, get_elem?-lt, arith,
  refl, sym, ap, ◌∙◌, ok, err, ◌==◌, subst, ne→==, ==→ne, ==→eq, Bool-cases,
}
use ztreexo.Pool.{PoolId}
use ztreexo.Digest.ImtHash.{ImtHash, Collision}
use ztreexo.Imt.Types.{
  Leaf, LeafFits, Value, covers, hash_leaf, NonMembershipProof, reserved_value, value_is_member,
}
use ztreexo.Imt.Path.{check_path, root_from_path}
use ztreexo.Imt.Verify.{verify_non_membership}
use ztreexo.Imt.Index.{contains_key}
use ztreexo.Imt.Tree.{IndexedMerkleTree, contains, root, siblings, low_leaf, prove_non_membership}
use ztreexo.Imt.Subtree.{
  ancestor_below, subtree, subtree-zero, true_siblings, length-true_siblings,
  root_from_path_complete,
}
use ztreexo.Imt.Links.{Linked, IsLow, IsLow-exists, covers-not_contains_key}
use ztreexo.Imt.Splice.{last_at_most_key}
use ztreexo.Imt.Invariant.{
  IsValid, leaf_digest, leaf_digest-stored, authentic, capacity_of-pow, check_path_of, root-subtree,
  siblings-true,
}

module _ {Hash : Type 0} (h : ImtHash Hash) where
  -- what a proof that passes has shown
  record Accepted (pool : PoolId) (depth : ℕ) (root : Hash) (value : Value)
      (proof : NonMembershipProof Hash) : Type 0 where
    checked : check_path h depth proof.low_leaf_index proof.siblings ≡ ok tt
    covering : covers proof.low_leaf value ≡ true
    folds :
        root_from_path h pool (hash_leaf h pool proof.low_leaf) proof.low_leaf_index proof.siblings
        ≡ root

  verify_non_membership-inversion :
      (pool : PoolId) (depth : ℕ) (root : Hash) (value : Value) (proof : NonMembershipProof Hash)
      → verify_non_membership h pool depth root value proof ≡ ok tt
      → Accepted pool depth root value proof
  unfolding verify_non_membership
  verify_non_membership-inversion pool depth root value proof e = ground (
    arith,
    h.beq_iff
        (root_from_path h pool (hash_leaf h pool proof.low_leaf) proof.low_leaf_index
          proof.siblings)
        root,
  )

module _ {Hash : Type 0} (h : ImtHash Hash) (t : IndexedMerkleTree Hash) (valid : IsValid h t) where
  -- A low leaf that is authentic and covers a value shows the value's absence.
  pub covering-absent :
      (value : Value) (l : Leaf) (index : ℕ)
      → get_elem? t.leaves index ≡ some l
      → covers l value ≡ true
      → contains t value ≡ false
  unfolding contains
  covering-absent value l index stored covering =
      covers-not_contains_key t.leaves t.index_by_value value index l valid.linked
        (valid.indexed index l stored) stored covering

  -- A proof that `verify_non_membership` accepts against the root of a valid tree shows that the
  -- value is not in the tree, or else it exhibits a collision of the tree's hash functions. The
  -- fields of the proof's leaf lie in the ranges of their types.
  pub verify_non_membership_sound :
      (value : Value) (proof : NonMembershipProof Hash)
      → LeafFits proof.low_leaf
      → verify_non_membership h t.pool t.depth (root h t) value proof ≡ ok tt
      → Collision h t.pool ⊎ (contains t value ≡ false)
  verify_non_membership_sound value proof fits accepted =
      let a = verify_non_membership-inversion h t.pool t.depth (root h t) value proof accepted in
      elim (authentic h t valid proof.low_leaf proof.low_leaf_index proof.siblings fits a.checked
        a.folds) [
          | inl broken ↦ inl broken
          | inr found ↦
              inr (covering-absent value proof.low_leaf proof.low_leaf_index found.0 a.covering)
        ]

  pub low_leaf_of_low :
      (value : Value) (low : Leaf) (k : ℕ)
      → IsLow t.leaves t.index_by_value value low k
      → low_leaf t value ≡ ok (low, k)
  unfolding low_leaf covers
  low_leaf_of_low value low k is_low = ground (arith, is_low.found, is_low.stored, is_low.covering)

  -- Where the value is absent, `low_leaf` finds the leaf that covers it.
  pub low_leaf_absent :
      (value : Value)
      → contains t value ≡ false
      → (low : Leaf) × (k : ℕ) × IsLow t.leaves t.index_by_value value low k
        × (low_leaf t value ≡ ok (low, k))
  low_leaf_absent value absent =
      let (rest, e) = valid.starts in
      let linked' = subst (Linked t.leaves) e valid.linked in
      let absent' : contains_key value ((0, 0) ∷ rest) ≡ false =
        subst (λ ix. contains_key value ix ≡ false) e (unfold contains in absent) in
      let (low, k, found) = IsLow-exists t.leaves value 0 0 rest linked' (omega arith) absent' in
      let is_low = subst (λ ix. IsLow t.leaves ix value low k) (sym e) found in
      (low, k, is_low, low_leaf_of_low value low k is_low)

  -- Where the value is present, `low_leaf` says so.
  pub low_leaf_present :
      (value : Value) → contains t value ≡ true → low_leaf t value ≡ err value_is_member
  unfolding low_leaf contains
  low_leaf_present value present =
      let (k, found) = last_at_most_key t.leaves value t.index_by_value valid.linked present in
      ground (arith, found)

  -- The tree's own path to a leaf that it holds passes the checks and folds to the root.
  pub own_path :
      (l : Leaf) (index : ℕ)
      → get_elem? t.leaves index ≡ some l
      → (check_path h t.depth index (siblings h t index) ≡ ok tt)
        × (root_from_path h t.pool (hash_leaf h t.pool l) index (siblings h t index) ≡ root h t)
  own_path l index stored =
      let digests = leaf_digest h t.pool t.leaves in
      let below : index < 2 ^ t.depth =
        omega (arith, get_elem?-lt t.leaves index stored, valid.room) in
      let capacity = capacity_of-pow h t.depth valid.depth_max in
      rw (siblings-true h t valid index) (
        check_path_of h t.depth index (true_siblings h t.pool digests t.depth 0 index)
            valid.depth_min valid.depth_max (length-true_siblings h t.pool digests t.depth 0 index)
            (omega (arith, capacity)),
        ap (λ d. root_from_path h t.pool d index (true_siblings h t.pool digests t.depth 0 index))
              (sym (leaf_digest-stored h t.pool t.leaves index l stored)
                ∙ sym (subtree-zero h t.pool digests index))
            ∙ root_from_path_complete h t.pool digests t.depth 0 t.depth index (omega arith)
            ∙ ap (subtree h t.pool digests t.depth) (ancestor_below t.depth index below)
            ∙ sym (root-subtree h t valid),
      )

  verify_own_proof :
      (value : Value) (low : Leaf) (k : ℕ)
      → value ≢ 0
      → get_elem? t.leaves k ≡ some low
      → covers low value ≡ true
      → verify_non_membership h t.pool t.depth
          (root h t)
          value
          (record { low_leaf = low; low_leaf_index = k; siblings = siblings h t k })
        ≡ ok tt
  unfolding verify_non_membership
  verify_own_proof value low k nonzero stored covering =
      let (checked, folds) = own_path low k stored in
      rw (ne→== value 0 nonzero, checked, covering, folds, (h.beq_iff (root h t) (root h t)).1 refl)

  -- On a valid tree `prove_non_membership` refuses the reserved value and every member, each with
  -- its error, and for every other value returns a proof that the verifier accepts at the tree's root.
  pub prove_non_membership_outcome :
      (value : Value)
      → ((value ≡ 0) × (prove_non_membership h t value ≡ err reserved_value))
        ⊎ (((value ≢ 0)
              × (contains t value ≡ true)
              × (prove_non_membership h t value ≡ err value_is_member))
            ⊎ ((proof : NonMembershipProof Hash) × (contains t value ≡ false)
                × (prove_non_membership h t value ≡ ok proof)
                × (verify_non_membership h t.pool t.depth (root h t) value proof ≡ ok tt)))
  unfolding prove_non_membership
  prove_non_membership_outcome value = elim (Bool-cases (value == 0)) [
    | inl zero_value ↦ inl (==→eq value 0 zero_value, rw zero_value)
    | inr other ↦ inr (elim (Bool-cases (contains t value)) [
      | inl present ↦ inl (==→ne value 0 other, present, rw (other, low_leaf_present value present))
      | inr absent ↦
          let (low, k, is_low, found) = low_leaf_absent value absent in
          inr (
            record { low_leaf = low; low_leaf_index = k; siblings = siblings h t k },
            absent,
            rw (other, found),
            verify_own_proof value low k (==→ne value 0 other) is_low.stored is_low.covering,
          )
    ])
  ]
