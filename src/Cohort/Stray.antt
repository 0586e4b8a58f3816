-- ===== src/Cohort/Stray.antt =====
-- cohort.rs: what `verify_cohort` makes of a leaf whose index is not below the capacity.
use ztreexo.Prelude.{
  ℕ, zero, suc, ◌+◌, ◌/◌, ◌^◌, ◌≤◌, ◌<◌, ◌≡◌, inl, inr, false, List, [], ◌∷◌, ◌++◌, length, Option,
  none, some, ok, err, arith, refl, sym, ap, ◌∙◌, ◌==◌, Bool-cases, Option-cases, subst, >>=-eq-ok,
  pow-suc, get_elem?, get_elem?_of_lt,
}
use ztreexo.Pool.{PoolId}
use ztreexo.Digest.ImtHash.{ImtHash}
use ztreexo.Imt.Path.{sibling_index, join}
use ztreexo.Cohort.{CohortError}
use ztreexo.Cohort.Verify.{node_of, starts_at, sibling_hash, parents, fold_levels}
use ztreexo.Cohort.Fold.{parents-inversion}

-- the indices are below the bound
abbrev pub AllBelow {ℓ} : {A : Type ℓ} → ℕ → List (ℕ × A) → Type 0
AllBelow bound [] = Unit
AllBelow bound ((i, a) ∷ rest) = (i < bound) × AllBelow bound rest

pub node_of-snoc {ℓ} :
    {A : Type ℓ} (k i : ℕ) (a : A) (xs : List (ℕ × A))
    → k < i
    → node_of k (xs ++ (i, a) ∷ []) ≡ node_of k xs
unfolding node_of
node_of-snoc k i a [] below = let apart : (i == k) ≡ false = ground arith in rw apart refl
node_of-snoc k i a ((j, b) ∷ xs) below = elim (Bool-cases (j == k)) [
  | inl here ↦ rw here refl
  | inr other ↦ rw other (node_of-snoc k i a xs below)
]

starts_at-snoc {ℓ} :
    {A : Type ℓ} (k i : ℕ) (a : A) (xs : List (ℕ × A))
    → k < i
    → starts_at k (xs ++ (i, a) ∷ []) ≡ starts_at k xs
starts_at-snoc k i a [] below = ground arith
starts_at-snoc k i a (x ∷ xs) below = refl

module _ {Hash : Type 0} (h : ImtHash Hash) (pool : PoolId) (provided : ℕ → ℕ → Option Hash)
    (ladder : List Hash) where
  sibling_hash-snoc :
      (level k i : ℕ) (d : Hash) (all : List (ℕ × Hash))
      → k < i
      → sibling_hash h pool provided ladder level (all ++ (i, d) ∷ []) k
        ≡ sibling_hash h pool provided ladder level all k
  unfolding sibling_hash
  sibling_hash-snoc level k i d all below =
      let same : node_of k (all ++ (i, d) ∷ []) ≡ node_of k all = node_of-snoc k i d all below in
      ap
        (λ (o : Option Hash). elim o [
          | some known ↦ ok known
          | none ↦ elim (provided level k) [
            | some sent ↦ ok sent
            | none ↦ elim (get_elem? ladder level) [
              | some empty ↦ ok empty
              | none ↦ err (ztreexo.Cohort.missing_node level k)
            ]
          ]
        ])
        same

  -- within the ladder there is always a sibling
  sibling_hash-some :
      (level k : ℕ) (all : List (ℕ × Hash))
      → level < length ladder
      → (s : Hash) × (sibling_hash h pool provided ladder level all k ≡ ok s)
  unfolding sibling_hash
  sibling_hash-some level k all within =
      let (empty, there) = get_elem?_of_lt ladder level within in
      elim (Option-cases (node_of k all)) [
        | inr (known, found) ↦ (known, rw (found, sibling_hash) refl)
        | inl missing ↦ elim (Option-cases (provided level k)) [
          | inr (sent, found) ↦ (sent, rw (missing, sibling_hash, found) refl)
          | inl unsent ↦ (empty, rw (missing, sibling_hash, unsent, there) refl)
        ]
      ]

  -- A node beyond the bound passes up beside the others, which do not see it.
  parents-snoc :
      (n level i : ℕ) (d : Hash) (all nodes up : List (ℕ × Hash))
      → level < length ladder
      → 2 ^ suc n ≤ i
      → AllBelow (2 ^ suc n) nodes
      → parents h pool provided ladder level all nodes ≡ ok up
      → (d' : Hash) × (parents h pool provided ladder level
            (all ++ (i, d) ∷ [])
            (nodes ++ (i, d) ∷ [])
          ≡ ok (up ++ (i / 2, d') ∷ []))
        × AllBelow (2 ^ n) up
  unfolding parents sibling_index
  parents-snoc n level i d all [] up within beyond below e =
      let same : [] ≡ up = ground arith in
      let (s, found) = sibling_hash-some level (sibling_index i) (all ++ (i, d) ∷ []) within in
      (
        join h pool i d s,
        rw (found, parents)
            (ap (λ (xs : List (ℕ × Hash)). ok (xs ++ (i / 2, join h pool i d s) ∷ [])) same),
        subst (AllBelow (2 ^ n)) same tt,
      )
  parents-snoc n level i d all ((k, v) ∷ rest) up within beyond below e =
      let (s, later, found, above, made) =
        parents-inversion h pool provided ladder level all k v rest up e in
      let (d', above', later_below) =
        parents-snoc n level i d all rest later within beyond below.1 above in
      let sibling_below : sibling_index k < i = ground (arith, below.0, pow-suc 2 n) in
      let found' : sibling_hash h pool provided ladder level (all ++ (i, d) ∷ []) (sibling_index k)
          ≡ ok s =
        sibling_hash-snoc level (sibling_index k) i d all sibling_below ∙ found in
      let half : k / 2 < i / 2 = omega (arith, below.0, pow-suc 2 n) in
      let starts = starts_at-snoc (k / 2) (i / 2) d' later half in
      elim (Bool-cases (starts_at (k / 2) later)) [
        | inl shared ↦
            let same : later ≡ up = sym (made ∙ rw shared refl) in
            let starts' = starts ∙ shared in
            (
              d',
              rw (found', parents, above', starts')
                  (ap (λ (xs : List (ℕ × Hash)). ok (xs ++ (i / 2, d') ∷ [])) same),
              subst (AllBelow (2 ^ n)) same later_below,
            )
        | inr apart ↦
            let same : (k / 2, join h pool k v s) ∷ later ≡ up = sym (made ∙ rw apart refl) in
            let starts' = starts ∙ apart in
            (
              d',
              rw (found', parents, above', starts')
                  (ap (λ (xs : List (ℕ × Hash)). ok (xs ++ (i / 2, d') ∷ [])) same),
              subst (AllBelow (2 ^ n)) same (omega (arith, below.0, pow-suc 2 n), later_below),
            )
      ]

  pub fold_levels-snoc :
      (n level i : ℕ) (d : Hash) (nodes top : List (ℕ × Hash))
      → level + n ≡ length ladder
      → 2 ^ n ≤ i
      → AllBelow (2 ^ n) nodes
      → fold_levels h pool provided ladder n level nodes ≡ ok top
      → (k : ℕ) × (d' : Hash) × (1 ≤ k)
        × (fold_levels h pool provided ladder n level (nodes ++ (i, d) ∷ [])
            ≡ ok (top ++ (k, d') ∷ []))
  unfolding fold_levels
  fold_levels-snoc zero level i d nodes top ends beyond below e =
      (i, d, omega arith, ap (λ (xs : List (ℕ × Hash)). ok (xs ++ (i, d) ∷ [])) (ground arith))
  fold_levels-snoc (suc n) level i d nodes top ends beyond below e =
      let (up, joined, e1) = >>=-eq-ok (parents h pool provided ladder level nodes nodes) _ e in
      let (d', joined', up_below) =
        parents-snoc n level i d nodes nodes up (omega arith) beyond below joined in
      let (k, d'', outside, folded) =
        fold_levels-snoc n (suc level) (i / 2) d' up top (omega arith)
          (omega (arith, beyond, pow-suc 2 n)) up_below e1 in
      (k, d'', outside, rw (joined', fold_levels) folded)
