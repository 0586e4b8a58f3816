-- ===== src/Cohort/Settled.antt =====
-- cohort.rs: what `resolve` says of a value, against the tree that the leaves were read from.
use ztreexo.Prelude.{
  ℕ, ◌≡◌, inl, inr, true, false, List, [], ◌∷◌, Option, none, some, get_elem?, ok, arith, ltb, ◌==◌,
  Bool-cases, subst, sym, ==→eq, if◌then◌else◌,
}
use ztreexo.Digest.ImtHash.{ImtHash}
use ztreexo.Imt.Types.{Value, Leaf, covers}
use ztreexo.Imt.Tree.{IndexedMerkleTree}
use ztreexo.Imt.Tree
use ztreexo.Imt.Links.{contains_key-lookup-some}
use ztreexo.Imt.Invariant.{IsValid}
use ztreexo.Imt.Absence.{covering-absent}
use ztreexo.Cohort.{PrefixRange, Status, spent, unspent, conclude, scan, resolve}

module _ {Hash : Type 0} (t : IndexedMerkleTree Hash) where
  -- the tree stores the leaf
  abbrev pub Stored : Leaf → Type 0
  Stored leaf = (i : ℕ) × (get_elem? t.leaves i ≡ some leaf)

  abbrev pub AllStored : List Leaf → Type 0
  AllStored [] = Unit
  AllStored (leaf ∷ leaves) = Stored leaf × AllStored leaves

  -- a candidate for the bracketing leaf, if there is one, is a leaf of the tree
  abbrev pub LowStored : Option Leaf → Type 0
  LowStored none = Unit
  LowStored (some low) = Stored low

  -- what the answer claims of the value holds in the tree
  abbrev pub Settles : Value → Status → Type 0
  Settles value spent = Tree.contains t value ≡ true
  Settles value (unspent low) =
      (Tree.contains t value ≡ false) × (covers low value ≡ true) × Stored low

  LowStored-update :
      (value : Value) (leaf : Leaf) (low : Option Leaf)
      → Stored leaf
      → LowStored low
      → LowStored (if ltb leaf.value value then some leaf else low)
  LowStored-update value leaf low s l = elim (Bool-cases (ltb leaf.value value)) [
    | inl below ↦ rw below s
    | inr other ↦ rw other l
  ]

module _ {Hash : Type 0} (h : ImtHash Hash) (t : IndexedMerkleTree Hash) (valid : IsValid h t) where
  pub Stored-contains : (leaf : Leaf) → Stored t leaf → Tree.contains t leaf.value ≡ true
  unfolding Tree.contains
  Stored-contains leaf (i, found) =
      contains_key-lookup-some leaf.value t.index_by_value (valid.indexed i leaf found)

  conclude-Settles :
      (value : Value) (low : Option Leaf) (status : Status)
      → LowStored t low
      → conclude {Hash = Hash} value low ≡ ok status
      → Settles t value status
  unfolding conclude
  conclude-Settles value none status held e = absurd (cc)
  conclude-Settles value (some low) spent held e = absurd (ground arith)
  conclude-Settles value (some low) (unspent l) held e =
      let covering : covers low value ≡ true = ground arith in
      let same : low ≡ l = ground arith in
      subst (λ x. Settles t value (unspent x)) same
        (covering-absent h t valid value low held.0 held.1 covering, covering, held)

  scan-Settles :
      (value : Value) (leaves : List Leaf) (previous : Option Value) (low : Option Leaf)
      (status : Status)
      → AllStored t leaves
      → LowStored t low
      → scan {Hash = Hash} value leaves previous low ≡ ok status
      → Settles t value status
  unfolding scan
  scan-Settles value [] previous low status held low_held e =
      conclude-Settles value low status low_held e
  scan-Settles value (leaf ∷ leaves) previous low status held low_held e =
      elim (Bool-cases (leaf.value == value)) [
        | inl here ↦
            let found : status ≡ spent = ground arith in
            subst (Settles t value) (sym found) (
              subst (λ v. Tree.contains t v ≡ true) (==→eq leaf.value value here)
                (Stored-contains leaf held.0))
        | inr other ↦
            scan-Settles value leaves (some leaf.value)
              (if ltb leaf.value value then some leaf else low) status held.1
              (LowStored-update t value leaf low held.0 low_held) (ground arith)
      ]

  -- Over leaves that a valid tree stores, in any order and with any of them left out, an answer of
  -- `resolve` is right: `Spent` only for a value in the tree, and `Unspent` only for a value that is
  -- not, with a leaf of the tree that covers it.
  pub resolve_sound :
      (leaves : List Leaf) (range : PrefixRange) (value : Value) (status : Status)
      → AllStored t leaves
      → resolve {Hash = Hash} leaves range value ≡ ok status
      → Settles t value status
  unfolding resolve
  resolve_sound leaves range value status held e =
      scan-Settles value leaves none none status held tt (ground arith)
