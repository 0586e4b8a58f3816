-- ===== src/Imt/Agreement.antt =====
-- imt.rs: a node that holds only `ImtState` follows the full tree: `verify_insertion` against `insert`.
use ztreexo.Prelude.{
  ℕ, suc, ◌+◌, ◌^◌, ◌<◌, ◌≡◌, ◌⊎◌, inl, inr, true, some, length, get_elem?, arith, refl, sym, ap,
  ap₂, ◌∙◌, ok, subst, ne→==, eq→==, lt→ltb, le→ltb,
}
use ztreexo.Digest.ImtHash.{ImtHash, Collision}
use ztreexo.Imt.Types.{Leaf, LeafFits, Value, IsValue, hash_leaf, InsertionProof, ImtState}
use ztreexo.Imt.Path.{check_path, capacity_of, root_from_path}
use ztreexo.Imt.Verify.{verify_insertion, spliced_low, spliced_new, checked_succ}
use ztreexo.Imt.Tree.{IndexedMerkleTree, root, state, siblings, insert}
use ztreexo.Imt.Subtree.{length-true_siblings}
use ztreexo.Imt.Links.{covers-IsLow}
use ztreexo.Imt.Invariant.{
  IsValid, leaf_digest, authentic, capacity_of-pow, capacity-le, check_path_of, check_path-eq_ok,
  siblings-true, leaf_count-length,
}
use ztreexo.Imt.Absence.{own_path, covering-absent}
use ztreexo.Imt.Transition.{fold-low, fold-empty, fold-empty_unique, fold-new, siblings-relinked}
use ztreexo.Imt.Insertion.{relinked, spliced, spliced_proof, Spliceable, low_index-lt}
use ztreexo.Imt.Spliced.{spliced-IsValid, spliced-length}
use ztreexo.Imt.Insert.{insert-eq, insert-inversion}
use ztreexo.Imt.Inversion.{Accepted, verify_insertion-inversion}

module _ {Hash : Type 0} (h : ImtHash Hash) (t : IndexedMerkleTree Hash) (valid : IsValid h t) where
  -- a proof that passes against the tree's state names the tree's low leaf
  Accepted-Spliceable :
      (value : Value) (proof : InsertionProof Hash) (next : ImtState Hash)
      → IsValue value
      → get_elem? t.leaves proof.low_leaf_index ≡ some proof.low_leaf
      → Accepted h t.pool t.depth (state h t) value proof next
      → Spliceable h t valid value proof.low_leaf proof.low_leaf_index
  unfolding state
  Accepted-Spliceable value proof next in_type stored a = record {
    nonzero = a.nonzero;
    in_type = in_type;
    free =
        omega
          (arith, a.fits, leaf_count-length h t valid, capacity_of-pow h t.depth valid.depth_max);
    absent = covering-absent h t valid value proof.low_leaf proof.low_leaf_index stored a.covering;
    is_low = record {
      found =
          covers-IsLow t.leaves t.index_by_value value proof.low_leaf_index proof.low_leaf
            valid.linked (valid.indexed proof.low_leaf_index proof.low_leaf stored) stored
            a.covering;
      listed = valid.indexed proof.low_leaf_index proof.low_leaf stored;
      stored = stored;
      covering = a.covering;
    };
  }

  -- such a proof is, field by field, the one that `insert` makes
  proof-eq :
      (value : Value) (proof : InsertionProof Hash)
      → proof.new_leaf_index ≡ length t.leaves
      → proof.low_leaf_siblings ≡ siblings h t proof.low_leaf_index
      → proof.new_leaf_siblings
        ≡ siblings h (relinked h t proof.low_leaf proof.low_leaf_index value) (length t.leaves)
      → proof ≡ spliced_proof h t proof.low_leaf proof.low_leaf_index value
  proof-eq value proof index low_path new_path = ground arith

  -- the state of the tree that `insert` returns
  state-spliced :
      (value : Value) (low : Leaf) (k : ℕ) (next : ImtState Hash)
      → Spliceable h t valid value low k
      → next.leaf_count ≡ suc (length t.leaves)
      → next.root ≡ root h (spliced h t low k value)
      → next ≡ state h (spliced h t low k value)
  unfolding state
  state-spliced value low k next s count top = ground (
    arith,
    leaf_count-length h (spliced h t low k value) (spliced-IsValid h t valid value low k s),
    spliced-length h t valid value low k s,
  )

  beq_refl : (d : Hash) → h.beq d d ≡ true
  beq_refl d = (h.beq_iff d d).1 refl

  new_checked :
      (value : Value) (low : Leaf) (k : ℕ)
      → Spliceable h t valid value low k
      → check_path h t.depth
          (length t.leaves)
          (siblings h (relinked h t low k value) (length t.leaves))
        ≡ ok tt
  new_checked value low k s =
      let n = length t.leaves in
      check_path_of h t.depth n (siblings h (relinked h t low k value) n) valid.depth_min
        valid.depth_max
        (ap length (siblings-relinked h t valid value low k s)
          ∙ length-true_siblings h t.pool (leaf_digest h t.pool (relinked h t low k value).leaves)
              t.depth 0 n)
        (omega (arith, s.free, capacity_of-pow h t.depth valid.depth_max))

  fold-low_own :
      (value : Value) (low : Leaf) (k : ℕ)
      → Spliceable h t valid value low k
      → root_from_path h t.pool
          (hash_leaf h t.pool (spliced_low low value (length t.leaves)))
          k
          (siblings h t k)
        ≡ root h (relinked h t low k value)
  fold-low_own value low k s = rw (siblings-true h t valid k) (fold-low h t valid value low k s)

  own_proof :
      (value : Value) (low : Leaf) (k : ℕ)
      → Spliceable h t valid value low k
      → verify_insertion h t.pool t.depth (state h t) value (spliced_proof h t low k value)
        ≡ ok (state h (spliced h t low k value))
  unfolding verify_insertion checked_succ state
  own_proof value low k s =
      let n = length t.leaves in
      let fits : n < 2 ^ t.depth = s.free in
      let cap = capacity_of-pow h t.depth valid.depth_max in
      let in_list = low_index-lt h t valid value low k s in
      let (low_checked, old) = own_path h t valid low k s.is_low.stored in
      let small = capacity-le h t.depth valid.depth_max in
      rw
        (
          ne→== value 0 s.nonzero,
          low_checked,
          new_checked value low k s,
          leaf_count-length h t valid,
          eq→== n n refl,
          ne→== k n (omega arith),
          s.is_low.covering,
          old,
          beq_refl (root h t),
          fold-low_own value low k s,
          fold-empty h t valid value low k s,
          beq_refl (root h (relinked h t low k value)),
          fold-new h t valid value low k s,
          lt→ltb n 18446744073709551615 (omega arith),
          le→ltb (capacity_of t.depth) (n + 1) (omega (arith, cap)),
        )
        (ap ok (
          state-spliced value low k
            (record { root = root h (spliced h t low k value); leaf_count = n + 1 }) s (omega arith)
            refl))

  -- A proof that `verify_insertion` accepts against the state of a valid tree is the very proof that
  -- the tree's `insert` returns, and the state that it yields is that of the tree after the
  -- insertion; or else a collision of the tree's hash functions is exhibited. The value and the
  -- fields of the proof's leaf lie in the ranges of their types.
  pub verify_insertion_sound :
      (value : Value) (proof : InsertionProof Hash) (next : ImtState Hash)
      → IsValue value
      → LeafFits proof.low_leaf
      → verify_insertion h t.pool t.depth (state h t) value proof ≡ ok next
      → Collision h t.pool
        ⊎ ((t' : IndexedMerkleTree Hash) × (insert h t value ≡ ok (t', proof))
            × (next ≡ state h t'))
  unfolding state
  verify_insertion_sound value proof next in_type fits accepted =
      let a = verify_insertion-inversion h t.pool t.depth (state h t) value proof next accepted in
      let low = proof.low_leaf in
      let k = proof.low_leaf_index in
      let index : proof.new_leaf_index ≡ length t.leaves =
        a.appends ∙ leaf_count-length h t valid in
      let count : next.leaf_count ≡ suc (length t.leaves) =
        a.next_count ∙ ap suc (leaf_count-length h t valid) in
      elim (authentic h t valid low k proof.low_leaf_siblings fits a.low_checked a.old_root) [
        | inl broken ↦ inl broken
        | inr (stored, low_path) ↦
            let s = Accepted-Spliceable value proof next in_type stored a in
            let emptied =
              subst
                (λ m.
                  root_from_path h t.pool (h.imt_empty_leaf t.pool) m proof.new_leaf_siblings
                  ≡ root_from_path h t.pool (hash_leaf h t.pool (spliced_low low value m)) k
                      proof.low_leaf_siblings)
                index a.was_empty in
            let low_root =
              ap
                (λ path.
                  root_from_path h t.pool
                    (hash_leaf h t.pool (spliced_low low value (length t.leaves))) k path)
                low_path
              ∙ fold-low h t valid value low k s in
            let full =
              (check_path-eq_ok h t.depth proof.new_leaf_index proof.new_leaf_siblings
                a.new_checked).0 in
            elim (fold-empty_unique h t valid value low k s proof.new_leaf_siblings full
              (emptied ∙ low_root)) [
                | inl broken ↦ inl broken
                | inr new_path ↦
                    let top =
                      a.next_root
                      ∙ ap₂ (root_from_path h t.pool (hash_leaf h t.pool (spliced_new low value)))
                          index new_path
                      ∙ fold-new h t valid value low k s in
                    let made =
                      proof-eq value proof index (low_path ∙ sym (siblings-true h t valid k))
                        new_path in
                    inr (
                      spliced h t low k value,
                      insert-eq h t valid value low k s
                          ∙ ap (λ p. ok (spliced h t low k value, p)) (sym made),
                      state-spliced value low k next s count top,
                    )
              ]
      ]

  -- The proof that `insert` returns on a valid tree passes `verify_insertion` against the state before,
  -- which yields the state after.
  pub verify_insertion-insert :
      (value : Value) (t' : IndexedMerkleTree Hash) (proof : InsertionProof Hash)
      → IsValue value
      → insert h t value ≡ ok (t', proof)
      → verify_insertion h t.pool t.depth (state h t) value proof ≡ ok (state h t')
  verify_insertion-insert value t' proof in_type e =
      let (low, k, s, tree, made) = insert-inversion h t valid value t' proof in_type e in
      rw (tree, made) (own_proof value low k s)
