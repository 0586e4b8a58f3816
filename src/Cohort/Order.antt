-- ===== src/Cohort/Order.antt =====
-- cohort.rs: `verify_cohort` returns the leaves of the proof, all of them, in the order of their values.
use ztreexo.Prelude.{
  ℕ, zero, suc, ◌≡◌, inl, inr, true, false, List, [], ◌∷◌, map, Option, none, some, ok, arith, refl,
  ◌==◌, Bool-cases, Option-cases, Result-cases, get_elem?, leb,
}
use ztreexo.Digest.ImtHash.{ImtHash}
use ztreexo.Imt.Types.{Leaf}
use ztreexo.Imt.Tree.{IndexedMerkleTree}
use ztreexo.Cohort.{descends}
use ztreexo.Cohort.Delivered.{Ascending}
use ztreexo.Cohort.Verify.{insert_sorted, sort_by_value}
use ztreexo.Cohort.Prove.{among, leaves_at}

Ascending-insert_sorted :
    (l : Leaf) (ls : List Leaf) (previous : Option ℕ)
    → descends l previous ≡ false
    → Ascending previous ls
    → Ascending previous (insert_sorted l ls)
unfolding insert_sorted
Ascending-insert_sorted l [] previous first asc = (first, tt)
Ascending-insert_sorted l (m ∷ ls) previous first asc = elim (Bool-cases (leb l.value m.value)) [
  | inl before ↦ rw before (first, (ground (arith, before), asc.1))
  | inr after ↦
      rw after (asc.0, Ascending-insert_sorted l ls (some m.value) (ground (arith, after)) asc.1)
]

pub Ascending-sort_by_value : (ls : List Leaf) → Ascending none (sort_by_value ls)
unfolding sort_by_value
Ascending-sort_by_value [] = tt
Ascending-sort_by_value (l ∷ ls) =
    Ascending-insert_sorted l (sort_by_value ls) none refl (Ascending-sort_by_value ls)

-- the leaf is in the list
abbrev pub Present : Leaf → List Leaf → Type 0
Present l ls = (n : ℕ) × (get_elem? ls n ≡ some l)

insert_sorted-Present : (l : Leaf) (ls : List Leaf) → Present l (insert_sorted l ls)
unfolding insert_sorted
insert_sorted-Present l [] = (0, refl)
insert_sorted-Present l (m ∷ ls) = elim (Bool-cases (leb l.value m.value)) [
  | inl before ↦ rw before (0, refl)
  | inr after ↦ let (n, there) = insert_sorted-Present l ls in rw after (suc n, there)
]

insert_sorted-keeps :
    (l k : Leaf) (ls : List Leaf) (n : ℕ) → get_elem? ls n ≡ some k → Present k (insert_sorted l ls)
unfolding insert_sorted
insert_sorted-keeps l k [] n there = absurd (cc (there))
insert_sorted-keeps l k (m ∷ ls) zero there = elim (Bool-cases (leb l.value m.value)) [
  | inl before ↦ rw before (1, there)
  | inr after ↦ rw after (0, there)
]
insert_sorted-keeps l k (m ∷ ls) (suc i) there = elim (Bool-cases (leb l.value m.value)) [
  | inl before ↦ rw before (suc (suc i), there)
  | inr after ↦ let (j, found) = insert_sorted-keeps l k ls i there in rw after (suc j, found)
]

pub sort_by_value-Present :
    (k : Leaf) (ls : List Leaf) → Present k ls → Present k (sort_by_value ls)
unfolding sort_by_value
sort_by_value-Present k [] (n, there) = (n, there)
sort_by_value-Present k (l ∷ ls) (zero, there) =
    let same : some l ≡ some k = there in
    let l_is : l ≡ k = ground (arith, same) in rw l_is (insert_sorted-Present k (sort_by_value ls))
sort_by_value-Present k (l ∷ ls) (suc n, there) =
    let (i, found) = sort_by_value-Present k ls (n, there) in
    insert_sorted-keeps l k (sort_by_value ls) i found

-- the leaf at an index of the set is collected
pub leaves_at-Present :
    {Hash : Type 0} (h : ImtHash Hash) (t : IndexedMerkleTree Hash) (indices : List ℕ)
    (ls : List (ℕ × Leaf)) (i : ℕ) (l : Leaf)
    → leaves_at h t indices ≡ ok ls
    → among i indices ≡ true
    → get_elem? t.leaves i ≡ some l
    → Present l (map (λ (x : ℕ × Leaf). x.1) ls)
unfolding leaves_at among
leaves_at-Present h t [] ls i l e held there = absurd (cc (held))
leaves_at-Present h t (j ∷ rest) ls i l e held there = elim (Option-cases (get_elem? t.leaves j)) [
  | inl gone ↦ absurd (ground arith)
  | inr (m, found) ↦ elim (Result-cases (leaves_at h t rest)) [
    | inr (x, failed) ↦ absurd (ground arith)
    | inl (others, got) ↦
        let made : (j, m) ∷ others ≡ ls = ground arith in
        rw⁻¹ made (elim (Bool-cases (j == i)) [
          | inl here ↦ (0, ground arith)
          | inr other ↦
              let (n, at) = leaves_at-Present h t rest others i l got (ground arith) there in
              (suc n, at)
        ])
  ]
]
