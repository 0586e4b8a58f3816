-- ===== src/Node/Matching.antt =====
-- crates/zutreexo-csn/src/lib.rs: which leaves the walk over a block's spends accepts.
use ztreexo.Prelude.{
  ℕ, ◌≡◌, ◌↔◌, true, false, List, [], ◌∷◌, ok, refl, sym, ap, ◌∙◌, arith, subst, Bool-cases, inl,
  inr,
}
use ztreexo.Digest.ImtHash.{ImtHash}
use ztreexo.Chain.Types.{OutPoint, outpoint_beq, UtxoLeaf, outpoint_of, has_outpoint}
use ztreexo.Chain.Outpoints.{
  DistinctFrom, DistinctFrom-apart, created_outpoints, has_outpoint-cons, outpoint_beq-eq,
  outpoint_beq_refl,
}
use ztreexo.Node.Types.{Stumps}
use ztreexo.Node.Apply.{match_spends}

-- The spends fall into those whose leaves the bundle carries, in their order, and outputs of the block
-- itself; the latter are put before the cancelled outpoints so far.
pub data Splits (created : List (OutPoint × UtxoLeaf))
    : List OutPoint → List OutPoint → List UtxoLeaf → List OutPoint → Type 0 where
  settled : {before : List OutPoint} → Splits created before [] [] before
  carried :
      {before spends after : List OutPoint} {leaves : List UtxoLeaf} (leaf : UtxoLeaf)
      → Splits created before spends leaves after
      → Splits created before (outpoint_of leaf ∷ spends) (leaf ∷ leaves) after
  cancelled_here :
      {before spends after : List OutPoint} {leaves : List UtxoLeaf} (o : OutPoint)
      → has_outpoint o (created_outpoints created) ≡ true
      → Splits created (o ∷ before) spends leaves after
      → Splits created before (o ∷ spends) leaves after

-- every carried leaf is for a spend
carried_spent :
    (created : List (OutPoint × UtxoLeaf)) (before spends after : List OutPoint) (leaf : UtxoLeaf)
    (leaves : List UtxoLeaf)
    → Splits created before spends (leaf ∷ leaves) after
    → has_outpoint (outpoint_of leaf) spends ≡ true
carried_spent created before [] after leaf leaves s = elim s [ ]
carried_spent created before (o ∷ spends) after leaf leaves (carried _ s) =
    has_outpoint-cons (outpoint_of leaf) (outpoint_of leaf) spends
    ∙ rw (outpoint_beq_refl (outpoint_of leaf)) refl
carried_spent created before (o ∷ spends) after leaf leaves (cancelled_here _ made s) =
    let later = carried_spent created (o ∷ before) spends after leaf leaves s in
    has_outpoint-cons (outpoint_of leaf) o spends ∙ ground (arith, later)

module _ {Hash Stump Proof Failure : Type 0} (h : ImtHash Hash)
    (u : Stumps Hash Stump Proof Failure) where
  Splits-match_spends :
      (height : ℕ) (created : List (OutPoint × UtxoLeaf)) (seen before spends after : List OutPoint)
      (leaves : List UtxoLeaf)
      → DistinctFrom seen spends
      → Splits created before spends leaves after
      → match_spends h u height created seen before leaves spends ≡ ok (after, [])
  unfolding match_spends
  Splits-match_spends height created seen before [] after leaves distinct settled = refl
  Splits-match_spends height created seen before (o ∷ spends) after (leaf ∷ leaves)
        (fresh, distinct) (carried _ s) =
      rw (fresh, outpoint_beq_refl (outpoint_of leaf))
        (Splits-match_spends height created (outpoint_of leaf ∷ seen) before spends after leaves
          distinct s)
  Splits-match_spends height created seen before (o ∷ spends) after [] (fresh, distinct)
        (cancelled_here _ made s) =
      rw (fresh, made)
        (Splits-match_spends height created (o ∷ seen) (o ∷ before) spends after [] distinct s)
  Splits-match_spends height created seen before (o ∷ spends) after (leaf ∷ leaves)
        (fresh, distinct) (cancelled_here _ made s) =
      let rest =
        Splits-match_spends height created (o ∷ seen) (o ∷ before) spends after (leaf ∷ leaves)
          distinct s in
      let later = carried_spent created (o ∷ before) spends after leaf leaves s in
      let here : has_outpoint o (o ∷ seen) ≡ true =
        has_outpoint-cons o o seen ∙ rw (outpoint_beq_refl o) refl in
      let gone = DistinctFrom-apart (o ∷ seen) spends o distinct here in
      elim (Bool-cases (outpoint_beq (outpoint_of leaf) o)) [
        | inl same ↦ absurd (
            ground (
              arith,
              later,
              gone,
              ap (λ x. has_outpoint x spends) (outpoint_beq-eq (outpoint_of leaf) o same),
            ))
        | inr other ↦ rw (fresh, other, made) rest
      ]

  match_spends-Splits :
      (height : ℕ) (created : List (OutPoint × UtxoLeaf)) (seen before spends after : List OutPoint)
      (leaves : List UtxoLeaf)
      → match_spends h u height created seen before leaves spends ≡ ok (after, [])
      → DistinctFrom seen spends × Splits created before spends leaves after
  unfolding match_spends
  match_spends-Splits height created seen before [] after leaves e =
      let none : leaves ≡ [] = ground arith in
      let same : before ≡ after = ground arith in
      (
        tt,
        subst (λ l. Splits created before [] l after) (sym none)
            (subst (λ a. Splits created before [] [] a) same settled),
      )
  match_spends-Splits height created seen before (o ∷ spends) after [] e =
      let fresh : has_outpoint o seen ≡ false = ground arith in
      let made : has_outpoint o (created_outpoints created) ≡ true = ground arith in
      let (d, s) =
        match_spends-Splits height created (o ∷ seen) (o ∷ before) spends after [] (ground arith) in
      ((fresh, d), cancelled_here o made s)
  match_spends-Splits height created seen before (o ∷ spends) after (leaf ∷ leaves) e =
      let fresh : has_outpoint o seen ≡ false = ground arith in
      elim (Bool-cases (outpoint_beq (outpoint_of leaf) o)) [
        | inl claimed ↦
            let (d, s) =
              match_spends-Splits height created (o ∷ seen) before spends after leaves
                (ground arith) in
            (
              (fresh, d),
              subst (λ x. Splits created before (x ∷ spends) (leaf ∷ leaves) after)
                  (outpoint_beq-eq (outpoint_of leaf) o claimed) (carried leaf s),
            )
        | inr other ↦
            let made : has_outpoint o (created_outpoints created) ≡ true = ground arith in
            let (d, s) =
              match_spends-Splits height created (o ∷ seen) (o ∷ before) spends after
                (leaf ∷ leaves) (ground arith) in
            ((fresh, d), cancelled_here o made s)
      ]

  -- The walk over the spends passes with a list of cancelled outpoints and no leaf unclaimed if and
  -- only if no outpoint is spent twice and the spends fall into the outpoints of the carried leaves, in
  -- the order of the leaves, and those cancelled outpoints, each of which the block creates.
  pub match_spends_iff :
      (height : ℕ) (created : List (OutPoint × UtxoLeaf)) (leaves : List UtxoLeaf)
      (spends cancelled : List OutPoint)
      → (match_spends h u height created [] [] leaves spends ≡ ok (cancelled, []))
        ↔ (DistinctFrom [] spends × Splits created [] spends leaves cancelled)
  match_spends_iff height created leaves spends cancelled = (
    match_spends-Splits height created [] [] spends cancelled leaves,
    λ s. Splits-match_spends height created [] [] spends cancelled leaves s.0 s.1,
  )
