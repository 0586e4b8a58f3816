-- ===== src/Imt/Spliced.antt =====
-- imt.rs: the tree that `insert` returns is valid.
use ztreexo.Prelude.{
  ℕ, suc, ◌<◌, ◌≡◌, ◌≢◌, ◌⊎◌, inl, inr, false, List, [], ◌∷◌, ◌++◌, none, some, length, get_elem?,
  get_elem?-lt, get_elem?-set_self, get_elem?-set_ne, get_elem?-snoc_lt, get_elem?-snoc_ne,
  get_elem?-snoc_self, length-set, length-snoc, set, arith, refl, sym, ap, ◌∙◌, ◌==◌, subst, ne→==,
  if◌then◌else◌, Bool-cases, ==→eq, ==→ne, eq→==, of_some_eq,
}
use ztreexo.Digest.ImtHash.{ImtHash}
use ztreexo.Imt.Types.{Leaf, LeafFits, Value}
use ztreexo.Imt.Verify.{spliced_low, spliced_new}
use ztreexo.Imt.Index
use ztreexo.Imt.Index.{Index}
use ztreexo.Imt.Tree.{IndexedMerkleTree, contains, write_leaf, append_leaf}
use ztreexo.Imt.Links.{Linked, contains_key-lookup-none, lookup-insert}
use ztreexo.Imt.Splice.{Linked-splice}
use ztreexo.Imt.Invariant.{IsValid, capacity-le}
use ztreexo.Imt.Insertion.{spliced, Spliceable, low_index-lt, spliced-IsCached}

module _ {Hash : Type 0} (h : ImtHash Hash) (t : IndexedMerkleTree Hash) (valid : IsValid h t)
    (value : Value) (low : Leaf) (k : ℕ) (s : Spliceable h t valid value low k) where
  in_list : k < length t.leaves
  in_list = low_index-lt h t valid value low k s

  after : List Leaf
  after = set t.leaves k (spliced_low low value (length t.leaves)) ++ spliced_new low value ∷ []

  length-after : length after ≡ suc (length t.leaves)
  unfolding after
  length-after =
      length-snoc (set t.leaves k (spliced_low low value (length t.leaves))) (spliced_new low value)
      ∙ ap suc (length-set t.leaves k (spliced_low low value (length t.leaves)))

  after_low : get_elem? after k ≡ some (spliced_low low value (length t.leaves))
  unfolding after
  after_low =
      let low' = spliced_low low value (length t.leaves) in
      get_elem?-snoc_lt (set t.leaves k low') (spliced_new low value) k
        (omega (arith, in_list, length-set t.leaves k low'))
      ∙ get_elem?-set_self t.leaves k low' in_list

  after_new : get_elem? after (length t.leaves) ≡ some (spliced_new low value)
  unfolding after
  after_new =
      let low' = spliced_low low value (length t.leaves) in
      subst
        (λ (m : ℕ).
          get_elem? (set t.leaves k low' ++ spliced_new low value ∷ []) m
          ≡ some (spliced_new low value))
        (length-set t.leaves k low')
        (get_elem?-snoc_self (set t.leaves k low') (spliced_new low value))

  after_other : (i : ℕ) → i ≢ k → i ≢ length t.leaves → get_elem? after i ≡ get_elem? t.leaves i
  unfolding after
  after_other i not_low not_new =
      let low' = spliced_low low value (length t.leaves) in
      get_elem?-snoc_ne (set t.leaves k low') (spliced_new low value) i
        (λ e. not_new (e ∙ length-set t.leaves k low'))
      ∙ get_elem?-set_ne t.leaves low' (λ e. not_low (sym e))

  after_elsewhere :
      (j : ℕ) (m : Leaf)
      → get_elem? t.leaves j ≡ some m
      → m.value ≢ low.value
      → get_elem? after j ≡ some m
  after_elsewhere j m stored apart =
      after_other j (λ e. apart (same_leaf j m stored e))
        (λ e. absurd (omega (arith, get_elem?-lt t.leaves j stored, e)))
      ∙ stored
    where
      same_leaf : (j : ℕ) (m : Leaf) → get_elem? t.leaves j ≡ some m → j ≡ k → m.value ≡ low.value
      same_leaf j m stored e = ground (arith, s.is_low.stored, ap (get_elem? t.leaves) e)

  index_after : Index
  index_after = Index.insert value (length t.leaves) t.index_by_value

  Linked-after : Linked after index_after
  unfolding index_after
  Linked-after =
      let (rest, e) = valid.starts in
      subst (λ ix. Linked after (Index.insert value (length t.leaves) ix)) (sym e)
        (Linked-splice t.leaves after low k (length t.leaves) value
          (unfold spliced_low in after_low) (unfold spliced_new in after_new) after_elsewhere 0 0
          rest (subst (Linked t.leaves) e valid.linked)
          (subst (λ ix. Index.last_at_most value ix ≡ some (low.value, k)) e s.is_low.found)
          (subst (λ ix. Index.contains_key value ix ≡ false) e (unfold contains in s.absent))
          s.is_low.stored)

  -- a leaf of the new list is the new leaf, the rewritten low leaf, or an old leaf
  after-cases :
      (i : ℕ) (l : Leaf)
      → get_elem? after i ≡ some l
      → ((i ≡ length t.leaves) × (l ≡ spliced_new low value))
        ⊎ (((i ≡ k) × (l ≡ spliced_low low value (length t.leaves)))
            ⊎ (get_elem? t.leaves i ≡ some l))
  after-cases i l stored = elim (Bool-cases (i == length t.leaves)) [
    | inl new ↦
        let e = ==→eq i (length t.leaves) new in
        inl (e, (of_some_eq (sym stored ∙ ap (get_elem? after) e ∙ after_new)))
    | inr old ↦ elim (Bool-cases (i == k)) [
      | inl here ↦
          let e = ==→eq i k here in
          inr (inl (e, (of_some_eq (sym stored ∙ ap (get_elem? after) e ∙ after_low))))
      | inr there ↦
          inr (inr (sym (after_other i (==→ne i k there) (==→ne i (length t.leaves) old)) ∙ stored))
    ]
  ]

  lookup-after :
      (v : Value)
      → Index.lookup v index_after
        ≡ (if value == v then some (length t.leaves) else Index.lookup v t.index_by_value)
  unfolding index_after
  lookup-after v = lookup-insert value v (length t.leaves) t.index_by_value

  absent_ne : (v : Value) (i : ℕ) → Index.lookup v t.index_by_value ≡ some i → value ≢ v
  absent_ne v i listed e =
      let none_there : Index.lookup value t.index_by_value ≡ none =
        contains_key-lookup-none value t.index_by_value (unfold contains in s.absent) in
      ground (arith, none_there, listed, ap (λ v. Index.lookup v t.index_by_value) e)

  lookup-after_old :
      (v : Value) (i : ℕ)
      → Index.lookup v t.index_by_value ≡ some i
      → Index.lookup v index_after ≡ some i
  lookup-after_old v i listed = lookup-after v ∙ rw (ne→== value v (absent_ne v i listed)) listed

  indexed-after :
      (i : ℕ) (l : Leaf) → get_elem? after i ≡ some l → Index.lookup l.value index_after ≡ some i
  unfolding spliced_new spliced_low
  indexed-after i l stored = elim (after-cases i l stored) [
    | inl (at, new) ↦
        rw (ap (λ (m : Leaf). m.value) new)
          (lookup-after value ∙ rw (eq→== value value refl) (ap some (sym at)))
    | inr (inl (at, rewritten)) ↦
        rw (ap (λ (m : Leaf). m.value) rewritten)
          (lookup-after_old low.value k s.is_low.listed ∙ ap some (sym at))
    | inr (inr old) ↦ lookup-after_old l.value i (valid.indexed i l old)
  ]

  new_fits : LeafFits (spliced_new low value)
  unfolding spliced_new
  new_fits =
      let fits = valid.in_range k low s.is_low.stored in
      record {
        value_fits = s.in_type;
        next_value_fits = fits.next_value_fits;
        next_index_fits = fits.next_index_fits;
      }

  low_fits : LeafFits (spliced_low low value (length t.leaves))
  unfolding spliced_low
  low_fits =
      let fits = valid.in_range k low s.is_low.stored in
      record {
        value_fits = fits.value_fits;
        next_value_fits = s.in_type;
        next_index_fits = omega (arith, s.free, capacity-le h t.depth valid.depth_max);
      }

  in_range-after : (i : ℕ) (l : Leaf) → get_elem? after i ≡ some l → LeafFits l
  in_range-after i l stored = elim (after-cases i l stored) [
    | inl (at, new) ↦ subst LeafFits (sym new) new_fits
    | inr (inl (at, rewritten)) ↦ subst LeafFits (sym rewritten) low_fits
    | inr (inr old) ↦ valid.in_range i l old
  ]

  starts-after : (rest : Index) × (index_after ≡ (0, 0) ∷ rest)
  unfolding index_after
  starts-after =
      let (rest, e) = valid.starts in
      (
        Index.insert value (length t.leaves) rest,
        ap (Index.insert value (length t.leaves)) e ∙ first rest,
      )
    where
      first :
          (rest : Index)
          → Index.insert value (length t.leaves) ((0, 0) ∷ rest)
            ≡ (0, 0) ∷ Index.insert value (length t.leaves) rest
      first rest = unfold Index.insert in ground (arith, s.nonzero)

  -- the tree that `insert` returns is valid
  pub spliced-IsValid : IsValid h (spliced h t low k value)
  unfolding append_leaf write_leaf after index_after spliced_new
  spliced-IsValid = record {
    depth_min = valid.depth_min;
    depth_max = valid.depth_max;
    ladder = valid.ladder;
    cached = spliced-IsCached h t valid value low k s;
    room = omega (arith, length-after, s.free);
    starts = starts-after;
    linked = Linked-after;
    indexed = indexed-after;
    in_range = in_range-after;
  }

  pub spliced-length : length (spliced h t low k value).leaves ≡ suc (length t.leaves)
  unfolding append_leaf write_leaf after
  spliced-length = length-after
