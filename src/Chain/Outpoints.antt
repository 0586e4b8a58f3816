-- ===== src/Chain/Outpoints.antt =====
-- Lists of outpoints, as the sets of crates/zutreexo-chain/src/block_apply.rs and
-- crates/zutreexo-csn/src/lib.rs.
use ztreexo.Prelude.{
  ◌≡◌, true, false, ◌||◌, List, [], ◌∷◌, map, refl, sym, ap, ◌∙◌, arith, subst, Bool-cases, inl,
  inr,
}
use ztreexo.Chain.Types.{OutPoint, outpoint_beq, UtxoLeaf, has_outpoint}

pub outpoint_beq-eq : (a b : OutPoint) → outpoint_beq a b ≡ true → a ≡ b
unfolding outpoint_beq
outpoint_beq-eq a b e = ground arith

pub outpoint_beq_refl : (a : OutPoint) → outpoint_beq a a ≡ true
unfolding outpoint_beq
outpoint_beq_refl a = ground arith

-- no outpoint of the list is among the ones seen, or twice in the list
abbrev pub DistinctFrom : List OutPoint → List OutPoint → Type 0
DistinctFrom seen [] = Unit
DistinctFrom seen (o ∷ os) = (has_outpoint o seen ≡ false) × DistinctFrom (o ∷ seen) os

abbrev pub created_outpoints : List (OutPoint × UtxoLeaf) → List OutPoint
created_outpoints created = map (λ c. c.0) created

abbrev pub Within : List OutPoint → List OutPoint → Type 0
Within xs ys = (o : OutPoint) → has_outpoint o xs ≡ true → has_outpoint o ys ≡ true

pub has_outpoint-cons :
    (o x : OutPoint) (xs : List OutPoint)
    → has_outpoint o (x ∷ xs) ≡ (outpoint_beq o x || has_outpoint o xs)
unfolding has_outpoint
has_outpoint-cons o x xs = ground arith

pub Within-cons :
    (x : OutPoint) (xs ys : List OutPoint)
    → has_outpoint x ys ≡ true
    → Within xs ys
    → Within (x ∷ xs) ys
Within-cons x xs ys here there o e = elim (Bool-cases (outpoint_beq o x)) [
  | inl same ↦ subst (λ p. has_outpoint p ys ≡ true) (sym (outpoint_beq-eq o x same)) here
  | inr other ↦ there o (ground (arith, has_outpoint-cons o x xs))
]

-- fewer outpoints were seen
pub DistinctFrom-weaken :
    (seen seen' os : List OutPoint)
    → Within seen seen'
    → DistinctFrom seen' os
    → DistinctFrom seen os
DistinctFrom-weaken seen seen' [] less d = tt
DistinctFrom-weaken seen seen' (o ∷ os) less (new, d) = (
  elim (Bool-cases (has_outpoint o seen)) [
    | inl old ↦ absurd (ground (arith, less o old))
    | inr fresh ↦ fresh
  ],
  DistinctFrom-weaken (o ∷ seen) (o ∷ seen') os
      (λ p e. ground (arith, has_outpoint-cons p o seen, has_outpoint-cons p o seen', less p)) d,
)

-- an outpoint that was seen is not in the list
pub DistinctFrom-apart :
    (seen os : List OutPoint) (o : OutPoint)
    → DistinctFrom seen os
    → has_outpoint o seen ≡ true
    → has_outpoint o os ≡ false
DistinctFrom-apart seen [] o d old = unfold has_outpoint in refl
DistinctFrom-apart seen (p ∷ os) o (new, d) old = elim (Bool-cases (outpoint_beq o p)) [
  | inl same ↦ absurd (ground (arith, ap (λ x. has_outpoint x seen) (outpoint_beq-eq o p same)))
  | inr other ↦
      has_outpoint-cons o p os
      ∙ rw other (DistinctFrom-apart (p ∷ seen) os o d (has_outpoint-cons o p seen ∙ rw other old))
]
