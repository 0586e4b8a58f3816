-- ===== src/Imt/Insert.antt =====
-- imt.rs: `insert` on a valid tree, on every branch.
use ztreexo.Prelude.{
  ℕ, suc, ◌^◌, ◌<◌, ◌≤◌, ◌≡◌, ◌≢◌, ◌⊎◌, inl, inr, true, false, length, refl, sym, ap, ◌∙◌, ok, err,
  ◌==◌, leb, subst, ne→==, lt→ltb, leb→le, leb→lt, lt→leb, le→leb, if◌then◌else◌, Bool-cases, ==→eq,
  ==→ne,
}
use ztreexo.Digest.ImtHash.{ImtHash}
use ztreexo.Imt.Types.{
  Leaf, Value, IsValue, InsertionProof, reserved_value, duplicate_value, capacity_exhausted,
}
use ztreexo.Imt.Verify.{spliced_new}
use ztreexo.Imt.Tree.{
  IndexedMerkleTree, contains, insert, set_leaf, write_leaf, append_leaf, as_duplicate,
}
use ztreexo.Imt.Links.{contains_key-insert}
use ztreexo.Imt.Invariant.{IsValid, capacity_of-pow, leaf_count-length}
use ztreexo.Imt.Absence.{low_leaf_absent, low_leaf_of_low, low_leaf_present}
use ztreexo.Imt.Insertion.{spliced, spliced_proof, Spliceable, low_index-lt}
use ztreexo.Imt.Spliced.{spliced-IsValid, spliced-length}

module _ {Hash : Type 0} (h : ImtHash Hash) (t : IndexedMerkleTree Hash) (valid : IsValid h t) where
  pub insert-eq :
      (value : Value) (low : Leaf) (k : ℕ)
      → Spliceable h t valid value low k
      → insert h t value ≡ ok (spliced h t low k value, spliced_proof h t low k value)
  unfolding insert as_duplicate set_leaf
  insert-eq value low k s =
      let count = leaf_count-length h t valid in
      let cap = capacity_of-pow h t.depth valid.depth_max in
      rw (
        ne→== value 0 s.nonzero,
        count,
        cap,
        lt→leb (2 ^ t.depth) (length t.leaves) s.free,
        low_leaf_of_low h t valid value low k s.is_low,
        lt→ltb k (length t.leaves) (low_index-lt h t valid value low k s),
      )

  insert_zero : insert h t 0 ≡ err reserved_value
  unfolding insert
  insert_zero = refl

  insert_full :
      (value : Value)
      → value ≢ 0
      → 2 ^ t.depth ≤ length t.leaves
      → insert h t value ≡ err (capacity_exhausted t.depth (2 ^ t.depth))
  unfolding insert
  insert_full value nonzero full = rw (
    ne→== value 0 nonzero,
    leaf_count-length h t valid,
    capacity_of-pow h t.depth valid.depth_max,
    le→leb (2 ^ t.depth) (length t.leaves) full,
  )

  insert_present :
      (value : Value)
      → value ≢ 0
      → length t.leaves < 2 ^ t.depth
      → contains t value ≡ true
      → insert h t value ≡ err duplicate_value
  unfolding insert as_duplicate
  insert_present value nonzero room present = rw (
    ne→== value 0 nonzero,
    leaf_count-length h t valid,
    capacity_of-pow h t.depth valid.depth_max,
    lt→leb (2 ^ t.depth) (length t.leaves) room,
    low_leaf_present h t valid value present,
  )

  -- the three tests of `insert` on a valid tree, each with its outcome
  data Branch (value : Value) : Type 0 where
    reserved : value ≡ 0 → Branch value
    full : value ≢ 0 → 2 ^ t.depth ≤ length t.leaves → Branch value
    present : value ≢ 0 → length t.leaves < 2 ^ t.depth → contains t value ≡ true → Branch value
    accepted : (low : Leaf) (k : ℕ) → Spliceable h t valid value low k → Branch value

  branch : (value : Value) → IsValue value → Branch value
  branch value in_type = elim (Bool-cases (value == 0)) [
    | inl is_reserved ↦ reserved (==→eq value 0 is_reserved)
    | inr nonzero ↦ elim (Bool-cases (leb (2 ^ t.depth) (length t.leaves))) [
      | inl no_room ↦ full (==→ne value 0 nonzero) (leb→le (2 ^ t.depth) (length t.leaves) no_room)
      | inr room ↦ elim (Bool-cases (contains t value)) [
        | inl member ↦
            present (==→ne value 0 nonzero) (leb→lt (2 ^ t.depth) (length t.leaves) room) member
        | inr absent ↦
            let (low, k, is_low, found) = low_leaf_absent h t valid value absent in
            accepted low k (record {
              nonzero = ==→ne value 0 nonzero;
              in_type = in_type;
              free = leb→lt (2 ^ t.depth) (length t.leaves) room;
              absent = absent;
              is_low = is_low;
            })
      ]
    ]
  ]

  -- a successful `insert` was the splice of a spliceable value
  pub insert-inversion :
      (value : Value) (t' : IndexedMerkleTree Hash) (proof : InsertionProof Hash)
      → IsValue value
      → insert h t value ≡ ok (t', proof)
      → (low : Leaf) × (k : ℕ) × Spliceable h t valid value low k
        × (t' ≡ spliced h t low k value)
        × (proof ≡ spliced_proof h t low k value)
  insert-inversion value t' proof in_type e = elim (branch value in_type) [
    | reserved z ↦ cc (ap (insert h t) z, insert_zero)
    | full nonzero no_room ↦ cc (insert_full value nonzero no_room)
    | present nonzero room member ↦ cc (insert_present value nonzero room member)
    | accepted low k s ↦ let same = sym e ∙ insert-eq value low k s in (low, k, s, cc same, cc same)
  ]

  spliced-contains :
      (value : Value) (low : Leaf) (k : ℕ) (w : Value)
      → contains (spliced h t low k value) w ≡ (if value == w then true else contains t w)
  unfolding contains append_leaf write_leaf spliced_new
  spliced-contains value low k w = contains_key-insert value w (length t.leaves) t.index_by_value

  -- On a valid tree `insert` refuses the reserved value, then a full tree, then a member, each with its
  -- error; otherwise it returns a valid tree with one leaf more that holds the value and the old
  -- members and nothing else.
  pub insert_outcome :
      (value : Value)
      → IsValue value
      → ((value ≡ 0) × (insert h t value ≡ err reserved_value))
        ⊎ (((value ≢ 0)
              × (2 ^ t.depth ≤ length t.leaves)
              × (insert h t value ≡ err (capacity_exhausted t.depth (2 ^ t.depth))))
            ⊎ (((value ≢ 0)
                  × (length t.leaves < 2 ^ t.depth)
                  × (contains t value ≡ true)
                  × (insert h t value ≡ err duplicate_value))
                ⊎ ((t' : IndexedMerkleTree Hash) × (proof : InsertionProof Hash) × (contains t value
                      ≡ false)
                    × (insert h t value ≡ ok (t', proof))
                    × IsValid h t'
                    × (length t'.leaves ≡ suc (length t.leaves))
                    × ((w : Value) → contains t' w ≡ (if value == w then true else contains t w)))))
  insert_outcome value in_type = elim (branch value in_type) [
    | reserved z ↦ inl (z, ap (insert h t) z ∙ insert_zero)
    | full nonzero no_room ↦ inr (inl (nonzero, no_room, insert_full value nonzero no_room))
    | present nonzero room member ↦
        inr (inr (inl (nonzero, room, member, insert_present value nonzero room member)))
    | accepted low k s ↦ inr (
        inr (
          inr (
            spliced h t low k value,
            spliced_proof h t low k value,
            s.absent,
            insert-eq value low k s,
            spliced-IsValid h t valid value low k s,
            spliced-length h t valid value low k s,
            spliced-contains value low k,
          )))
  ]

  -- what a successful `insert` leaves behind
  pub insert-IsValid :
      (value : Value) (t' : IndexedMerkleTree Hash) (proof : InsertionProof Hash)
      → IsValue value
      → insert h t value ≡ ok (t', proof)
      → IsValid h t'
  insert-IsValid value t' proof in_type e =
      let (low, k, s, tree, _) = insert-inversion value t' proof in_type e in
      subst (IsValid h) (sym tree) (spliced-IsValid h t valid value low k s)

  -- and what it then contains
  pub insert-contains :
      (value : Value) (t' : IndexedMerkleTree Hash) (proof : InsertionProof Hash)
      → IsValue value
      → insert h t value ≡ ok (t', proof)
      → (w : Value) → contains t' w ≡ (if value == w then true else contains t w)
  insert-contains value t' proof in_type e w =
      let (low, k, s, tree, _) = insert-inversion value t' proof in_type e in
      ap (λ u. contains u w) tree ∙ spliced-contains value low k w

  -- it keeps the pool and the depth
  pub insert_shape :
      (value : Value) (t' : IndexedMerkleTree Hash) (proof : InsertionProof Hash)
      → IsValue value
      → insert h t value ≡ ok (t', proof)
      → (t'.pool ≡ t.pool) × (t'.depth ≡ t.depth)
  unfolding append_leaf write_leaf
  insert_shape value t' proof in_type e =
      let (low, k, s, tree, _) = insert-inversion value t' proof in_type e in
      (
        ap (λ (u : IndexedMerkleTree Hash). u.pool) tree,
        ap (λ (u : IndexedMerkleTree Hash). u.depth) tree,
      )
