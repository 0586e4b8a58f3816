-- ===== src/Cohort/Refold.antt =====
-- cohort.rs: `verify_cohort` on the nodes that `dedup_paths` sends computes the nodes of the tree.
use ztreexo.Prelude.{
  ℕ, zero, suc, ◌+◌, ◌/◌, ◌^◌, ◌≤◌, ◌<◌, ◌≡◌, inl, inr, true, false, List, [], ◌∷◌, map, Option,
  none, some, ok, arith, refl, sym, ap, ap₂, ◌∙◌, ◌==◌, if◌then◌else◌, Bool-cases, subst, ==→eq,
  pow-suc,
}
use ztreexo.Digest.ImtHash.{ImtHash}
use ztreexo.Imt.Path.{sibling_index, join}
use ztreexo.Imt.Subtree.{join-subtree}
use ztreexo.Imt.Tree.{IndexedMerkleTree, node}
use ztreexo.Imt.Invariant.{IsValid, leaf_digest}
use ztreexo.Cohort.Verify.{node_of, starts_at, sibling_hash, parents, fold_levels}
use ztreexo.Cohort.Prove.{among, first_is, halves}
use ztreexo.Cohort.Sent.{Right, Covers, AllCovered, LevelsCovered}

-- the indices are below the bound
abbrev pub IndicesBelow : ℕ → List ℕ → Type 0
IndicesBelow bound [] = Unit
IndicesBelow bound (i ∷ rest) = (i < bound) × IndicesBelow bound rest

halves-IndicesBelow :
    (n : ℕ) (known : List ℕ) → IndicesBelow (2 ^ suc n) known → IndicesBelow (2 ^ n) (halves known)
unfolding halves
halves-IndicesBelow n [] all = tt
halves-IndicesBelow n (i ∷ rest) all =
    let later = halves-IndicesBelow n rest all.1 in
    elim (Bool-cases (first_is (i / 2) (halves rest))) [
      | inl shared ↦ rw shared later
      | inr apart ↦ rw apart (omega (arith, all.0, pow-suc 2 n), later)
    ]

-- a level with a node has a parent
halves-some : (i : ℕ) (rest : List ℕ) → (j : ℕ) × (js : List ℕ) × (halves (i ∷ rest) ≡ j ∷ js)
unfolding halves
halves-some i rest = elim (Bool-cases (first_is (i / 2) (halves rest))) [
  | inl shared ↦ rw shared (some_first (i / 2) (halves rest) shared)
  | inr apart ↦ (i / 2, halves rest, rw apart refl)
]
  where
    some_first :
        (i : ℕ) (xs : List ℕ) → first_is i xs ≡ true → (j : ℕ) × (js : List ℕ) × (xs ≡ j ∷ js)
    some_first i [] e = absurd (cc)
    some_first i (x ∷ xs) e = (x, xs, refl)

module _ {Hash : Type 0} (h : ImtHash Hash) (t : IndexedMerkleTree Hash) (valid : IsValid h t)
    (ladder : List Hash) (out : ℕ → ℕ → Option Hash) (right : Right h t ladder out) where
  -- the nodes of the tree at these indices
  abbrev pub nodes_at : ℕ → List ℕ → List (ℕ × Hash)
  nodes_at level known = map (λ (i : ℕ). (i, node h t level i)) known

  node_of-nodes_at :
      (level s : ℕ) (known : List ℕ)
      → node_of s (nodes_at level known) ≡ (if among s known then some (node h t level s) else none)
  unfolding node_of among
  node_of-nodes_at level s [] = refl
  node_of-nodes_at level s (i ∷ known) = elim (Bool-cases (i == s)) [
    | inl here ↦ rw here (ap (λ (k : ℕ). some (node h t level k)) (==→eq i s here))
    | inr other ↦ rw other (node_of-nodes_at level s known)
  ]

  starts_at-nodes_at :
      (level i : ℕ) (known : List ℕ) → starts_at i (nodes_at level known) ≡ first_is i known
  starts_at-nodes_at level i [] = refl
  starts_at-nodes_at level i (j ∷ known) = refl

  sibling_hash-nodes_at :
      (level s : ℕ) (known : List ℕ)
      → (among s known ≡ false → Covers h t ladder out level s)
      → sibling_hash h t.pool out ladder level (nodes_at level known) s ≡ ok (node h t level s)
  unfolding sibling_hash
  sibling_hash-nodes_at level s known covers =
      let found = node_of-nodes_at level s known in
      elim (Bool-cases (among s known)) [
        | inl held ↦
            let held' : node_of s (nodes_at level known) ≡ some (node h t level s) =
              found ∙ rw held refl in
            rw (held', sibling_hash) refl
        | inr away ↦
            let away' : node_of s (nodes_at level known) ≡ none = found ∙ rw away refl in
            elim (right level s) [
              | inr sent ↦ rw (away', sibling_hash, sent) refl
              | inl unsent ↦ elim (covers away) [
                | inl sent ↦ absurd (cc (sent, unsent))
                | inr empty ↦ rw (away', sibling_hash, unsent, empty) refl
              ]
            ]
      ]

  join-node :
      (level i : ℕ)
      → suc level ≤ t.depth
      → join h t.pool i (node h t level i) (node h t level (sibling_index i))
        ≡ node h t (suc level) (i / 2)
  unfolding node
  join-node level i fits =
      let f = leaf_digest h t.pool t.leaves in
      ap₂ (join h t.pool i) (valid.cached level i (omega arith))
        (valid.cached level (sibling_index i) (omega arith))
      ∙ join-subtree h t.pool f level i
      ∙ sym (valid.cached (suc level) (i / 2) fits)

  parents-nodes_at :
      (level : ℕ) (known rest : List ℕ)
      → suc level ≤ t.depth
      → AllCovered h t ladder out level known rest
      → parents h t.pool out ladder level (nodes_at level known) (nodes_at level rest)
        ≡ ok (nodes_at (suc level) (halves rest))
  unfolding parents halves
  parents-nodes_at level known [] fits covered = refl
  parents-nodes_at level known (i ∷ rest) fits covered =
      let found = sibling_hash-nodes_at level (sibling_index i) known covered.0 in
      let later = parents-nodes_at level known rest fits covered.1 in
      let starts = starts_at-nodes_at (suc level) (i / 2) (halves rest) in
      let joined = join-node level i fits in
      elim (Bool-cases (first_is (i / 2) (halves rest))) [
        | inl shared ↦
            let starts' = starts ∙ shared in
            rw (found, parents, later, starts', halves, shared) refl
        | inr apart ↦
            let starts' = starts ∙ apart in
            rw (found, parents, later, starts', joined, halves, apart) refl
      ]

  pub fold_levels-nodes_at :
      (n level i : ℕ) (rest : List ℕ)
      → level + n ≡ t.depth
      → IndicesBelow (2 ^ n) (i ∷ rest)
      → LevelsCovered h t ladder out n level (i ∷ rest)
      → (top : List (ℕ × Hash)) × (fold_levels h t.pool out ladder n level
            (nodes_at level (i ∷ rest))
          ≡ ok top)
        × (node_of 0 top ≡ some (node h t t.depth 0))
  unfolding fold_levels
  fold_levels-nodes_at zero level i rest ends below covered =
      let first : (i == 0) ≡ true = ground (arith, below.0) in
      (
        nodes_at level (i ∷ rest),
        refl,
        unfold node_of in
            rw first
              (ap₂ (λ (l k : ℕ). some (node h t l k)) (omega arith) (omega (arith, below.0))),
      )
  fold_levels-nodes_at (suc n) level i rest ends below covered =
      let (j, js, some_parent) = halves-some i rest in
      let up =
        parents-nodes_at level (i ∷ rest) (i ∷ rest) (omega arith) covered.0
        ∙ ap (λ (ks : List ℕ). ok (nodes_at (suc level) ks)) some_parent in
      let (top, folded, at_root) =
        fold_levels-nodes_at n (suc level) j js (omega arith)
          (subst (IndicesBelow (2 ^ n)) some_parent (halves-IndicesBelow n (i ∷ rest) below))
          (subst (LevelsCovered h t ladder out n (suc level)) some_parent covered.1) in
      (top, rw (up, fold_levels) folded, at_root)
