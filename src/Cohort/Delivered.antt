-- ===== src/Cohort/Delivered.antt =====
-- cohort.rs: which cohorts `resolve` can settle a value from.
use ztreexo.Prelude.{
  ℕ, zero, suc, ◌≤◌, ◌<◌, ◌≡◌, ◌⊎◌, inl, inr, true, false, List, [], ◌∷◌, Option, none, some,
  get_elem?, ok, arith, ltb, ◌==◌, Bool-cases, subst, sym, if◌then◌else◌,
}
use ztreexo.Digest.ImtHash.{ImtHash}
use ztreexo.Imt.Types.{Value, Leaf, covers}
use ztreexo.Imt.Tree.{IndexedMerkleTree}
use ztreexo.Imt.Invariant.{IsValid}
use ztreexo.Imt.Absence.{covering-absent}
use ztreexo.Cohort.{PrefixRange, spent, unspent, descends, contains, conclude, scan, resolve}
use ztreexo.Cohort.Settled.{Stored, AllStored, Stored-contains}

-- `verify_cohort` sorts the leaves by their values
abbrev pub Ascending : Option Value → List Leaf → Type 0
Ascending previous [] = Unit
Ascending previous (leaf ∷ leaves) =
    (descends leaf previous ≡ false) × Ascending (some leaf.value) leaves

module _ {Hash : Type 0} (h : ImtHash Hash) (t : IndexedMerkleTree Hash) (valid : IsValid h t) where
  scan-spent :
      (value : Value) (leaves : List Leaf) (previous : Option Value) (low : Option Leaf) (n : ℕ)
      (leaf : Leaf)
      → Ascending previous leaves
      → get_elem? leaves n ≡ some leaf
      → leaf.value ≡ value
      → scan {Hash = Hash} value leaves previous low ≡ ok spent
  unfolding scan
  scan-spent value [] previous low n leaf order at e = absurd (ground arith)
  scan-spent value (x ∷ leaves) previous low zero leaf order at e = ground (arith, order.0)
  scan-spent value (x ∷ leaves) previous low (suc n) leaf order at e =
      let later =
        scan-spent value leaves (some x.value) (if ltb x.value value then some x else low) n leaf
          order.1 at e in
      ground (arith, order.0, later)

  -- a leaf of the tree between a covering leaf and the value is the covering leaf
  between :
      (value : Value) (low x : Leaf)
      → Stored t low
      → Stored t x
      → covers low value ≡ true
      → low.value ≤ x.value
      → x.value < value
      → x ≡ low
  unfolding covers
  between value low x (i, at_low) (j, at_x) c le lt = elim (Bool-cases (ltb low.value x.value)) [
    | inl above ↦
        let nearer : covers low x.value ≡ true = ground arith in
        let absent = covering-absent h t valid x.value low i at_low nearer in
        let present = Stored-contains h t valid x (j, at_x) in absurd (cc)
    | inr other ↦
        let same : x.value ≡ low.value = ground arith in
        let there = valid.indexed i low at_low in
        let here = valid.indexed j x at_x in ground (arith, there, here)
  ]

  -- once the covering leaf is the candidate, it stays
  scan-kept :
      (value : Value) (low : Leaf) (leaves : List Leaf) (p : ℕ)
      → Stored t low
      → covers low value ≡ true
      → low.value ≤ p
      → AllStored t leaves
      → Ascending (some p) leaves
      → scan {Hash = Hash} value leaves (some p) (some low) ≡ ok (unspent low)
  unfolding scan conclude
  scan-kept value low [] p s c le held order = rw c
  scan-kept value low (x ∷ leaves) p s c le held order =
      let above : low.value ≤ x.value = ground arith in
      let absent = covering-absent h t valid value low s.0 s.1 c in
      let present = Stored-contains h t valid x held.0 in
      let kept = scan-kept value low leaves x.value s c above held.1 order.1 in
      elim (Bool-cases (x.value == value)) [
        | inl here ↦ absurd (ground (arith, absent, present))
        | inr other ↦ elim (Bool-cases (ltb x.value value)) [
          | inl below ↦
              let same = between value low x s held.0 c above (ground arith) in
              ground (arith, same, kept)
          | inr beyond ↦ ground (arith, kept)
        ]
      ]

  scan-unspent :
      (value : Value) (leaves : List Leaf) (previous : Option Value) (candidate : Option Leaf)
      (n : ℕ) (low : Leaf)
      → AllStored t leaves
      → Ascending previous leaves
      → get_elem? leaves n ≡ some low
      → covers low value ≡ true
      → scan {Hash = Hash} value leaves previous candidate ≡ ok (unspent low)
  unfolding scan
  scan-unspent value [] previous candidate n low held order at c = absurd (ground arith)
  scan-unspent value (x ∷ leaves) previous candidate zero low held order at c =
      let same : x ≡ low = ground arith in
      let below : low.value < value = unfold covers in ground arith in
      let kept =
        scan-kept value x leaves x.value held.0 (subst (λ l. covers l value ≡ true) (sym same) c)
          (omega arith) held.1 order.1 in
      ground (arith, same, below, kept, order.0)
  scan-unspent value (x ∷ leaves) previous candidate (suc n) low held order at c =
      let later =
        scan-unspent value leaves (some x.value) (if ltb x.value value then some x else candidate) n
          low held.1 order.1 at c in
      let (i, stored) = AllStored-at leaves n low held.1 at in
      let absent = covering-absent h t valid value low i stored c in
      let present = Stored-contains h t valid x held.0 in
      elim (Bool-cases (x.value == value)) [
        | inl here ↦ absurd (ground (arith, absent, present))
        | inr other ↦ ground (arith, later, order.0)
      ]
    where
      AllStored-at :
          (xs : List Leaf) (k : ℕ) (l : Leaf)
          → AllStored t xs
          → get_elem? xs k ≡ some l
          → Stored t l
      AllStored-at [] k l held' found = absurd (ground arith)
      AllStored-at (y ∷ ys) zero l held' found =
          let same : y ≡ l = ground arith in subst (Stored t) same held'.0
      AllStored-at (y ∷ ys) (suc k) l held' found = AllStored-at ys k l held'.1 found

  -- Over leaves that a valid tree stores, in the order of their values, `resolve` settles every value
  -- of the range for which a leaf was delivered that holds the value or covers it: `Spent` where it
  -- holds the value, and else `Unspent` with that very leaf.
  pub resolve_complete :
      (leaves : List Leaf) (range : PrefixRange) (value : Value) (n : ℕ) (leaf : Leaf)
      → AllStored t leaves
      → Ascending none leaves
      → contains range value ≡ true
      → get_elem? leaves n ≡ some leaf
      → (leaf.value ≡ value) ⊎ (covers leaf value ≡ true)
      → resolve {Hash = Hash} leaves range value
        ≡ ok (if leaf.value == value then spent else unspent leaf)
  unfolding resolve
  resolve_complete leaves range value n leaf held order within at (inl holds) =
      let settled = scan-spent value leaves none none n leaf order at holds in
      ground (arith, settled)
  resolve_complete leaves range value n leaf held order within at (inr c) =
      let settled = scan-unspent value leaves none none n leaf held order at c in
      let below : leaf.value < value = unfold covers in ground arith in ground (arith, settled)
