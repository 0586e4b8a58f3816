-- ===== src/Cohort/Fold.antt =====
-- cohort.rs: the fold of `verify_cohort` joins every node of a level with its sibling.
use ztreexo.Prelude.{
  ℕ, suc, ◌/◌, ◌≤◌, ◌≡◌, inl, inr, true, false, List, [], ◌∷◌, Option, some, ok, arith, refl, sym,
  ap, ◌∙◌, ◌==◌, if◌then◌else◌, Bool-cases, subst, >>=-eq-ok, ==→eq,
}
use ztreexo.Pool.{PoolId}
use ztreexo.Digest.ImtHash.{ImtHash}
use ztreexo.Imt.Path.{sibling_index, join}
use ztreexo.Cohort.Verify.{node_of, starts_at, sibling_hash, parents}

-- the indices ascend from `low`
abbrev pub Ascends {ℓ} : {A : Type ℓ} → ℕ → List (ℕ × A) → Type 0
Ascends low [] = Unit
Ascends low ((i, a) ∷ rest) = (low ≤ i) × Ascends (suc i) rest

pub Ascends-weaken {ℓ} :
    {A : Type ℓ} (low low' : ℕ) (xs : List (ℕ × A)) → low' ≤ low → Ascends low xs → Ascends low' xs
Ascends-weaken low low' [] le asc = tt
Ascends-weaken low low' (x ∷ xs) le asc = (omega (arith, asc.0), asc.1)

pub node_of-Ascends {ℓ} :
    {A : Type ℓ} (low i : ℕ) (xs : List (ℕ × A)) (a : A)
    → Ascends low xs
    → node_of i xs ≡ some a
    → low ≤ i
unfolding node_of
node_of-Ascends low i [] a asc e = absurd (cc)
node_of-Ascends low i ((j, b) ∷ xs) a asc e = elim (Bool-cases (j == i)) [
  | inl here ↦ omega (arith, asc.0, ==→eq j i here)
  | inr other ↦
      let above = node_of-Ascends (suc j) i xs a asc.1 (ground arith) in omega (arith, asc.0)
]

pub node_of-head {ℓ} :
    {A : Type ℓ} (i : ℕ) (a : A) (rest : List (ℕ × A)) → node_of i ((i, a) ∷ rest) ≡ some a
unfolding node_of
node_of-head i a rest = let own : (i == i) ≡ true = ground arith in rw own refl

pub node_of-tail {ℓ} :
    {A : Type ℓ} (i k : ℕ) (a : A) (rest : List (ℕ × A))
    → (i == k) ≡ false
    → node_of k ((i, a) ∷ rest) ≡ node_of k rest
unfolding node_of
node_of-tail i k a rest other = rw other refl

-- an entry higher up
pub Ascends-raise {ℓ} :
    {A : Type ℓ} (low : ℕ) (xs : List (ℕ × A))
    → Ascends low xs
    → starts_at low xs ≡ false
    → Ascends (suc low) xs
Ascends-raise low [] asc apart = tt
Ascends-raise low ((i, a) ∷ xs) asc apart = (ground (arith, asc.0, apart), asc.1)

starts_at_unique {ℓ} :
    {A : Type ℓ} (i j : ℕ) (xs : List (ℕ × A))
    → starts_at i xs ≡ true
    → starts_at j xs ≡ true
    → i ≡ j
starts_at_unique i j [] a b = absurd (cc)
starts_at_unique i j ((k, x) ∷ xs) a b = sym (==→eq k i a) ∙ ==→eq k j b

module _ {Hash : Type 0} (h : ImtHash Hash) (pool : PoolId) (provided : ℕ → ℕ → Option Hash)
    (ladder : List Hash) where
  pub parents-inversion :
      (level : ℕ) (all : List (ℕ × Hash)) (i : ℕ) (d : Hash) (rest up : List (ℕ × Hash))
      → parents h pool provided ladder level all ((i, d) ∷ rest) ≡ ok up
      → (s : Hash) × (later : List (ℕ × Hash)) × (sibling_hash h pool provided ladder level all
            (sibling_index i)
          ≡ ok s)
        × (parents h pool provided ladder level all rest ≡ ok later)
        × (up ≡ (if starts_at (i / 2) later then later else (i / 2, join h pool i d s) ∷ later))
  unfolding parents
  parents-inversion level all i d rest up e =
      let (s, found, e1) =
        >>=-eq-ok (sibling_hash h pool provided ladder level all (sibling_index i)) _ e in
      let (later, above, e2) = >>=-eq-ok (parents h pool provided ladder level all rest) _ e1 in
      (s, later, found, above, ground arith)

  -- the parents ascend
  pub parents-Ascends :
      (level : ℕ) (all nodes up : List (ℕ × Hash)) (low : ℕ)
      → Ascends low nodes
      → parents h pool provided ladder level all nodes ≡ ok up
      → Ascends (low / 2) up
  unfolding parents
  parents-Ascends level all [] up low asc e =
      let same : [] ≡ up = ground arith in subst (Ascends (low / 2)) same tt
  parents-Ascends level all ((i, d) ∷ rest) up low asc e =
      let (s, later, _, above, made) = parents-inversion level all i d rest up e in
      let asc' = parents-Ascends level all rest later (suc i) asc.1 above in
      elim (Bool-cases (starts_at (i / 2) later)) [
        | inl shared ↦
            let same : up ≡ later = made ∙ rw shared refl in
            subst (Ascends (low / 2)) (sym same)
              (Ascends-weaken (suc i / 2) (low / 2) later (omega (arith, asc.0)) asc')
        | inr apart ↦
            let same : up ≡ (i / 2, join h pool i d s) ∷ later = made ∙ rw apart refl in
            subst (Ascends (low / 2)) (sym same) (
              omega (arith, asc.0),
              Ascends-raise (i / 2) later
                  (Ascends-weaken (suc i / 2) (i / 2) later (omega arith) asc') apart,
            )
      ]

  -- the first parent comes from one of its two children
  pub starts_at-parents :
      (level : ℕ) (all nodes up : List (ℕ × Hash)) (j : ℕ)
      → parents h pool provided ladder level all nodes ≡ ok up
      → starts_at j up ≡ true
      → (i : ℕ) × (d : Hash) × (i / 2 ≡ j) × (node_of i nodes ≡ some d)
  unfolding parents node_of
  starts_at-parents level all [] up j e starts =
      let same : [] ≡ up = ground arith in absurd (cc (ap (starts_at j) same))
  starts_at-parents level all ((i, d) ∷ rest) up j e starts =
      let (s, later, _, above, made) = parents-inversion level all i d rest up e in
      let own : (i == i) ≡ true = ground arith in
      elim (Bool-cases (starts_at (i / 2) later)) [
        | inl shared ↦
            let same : later ≡ up = sym (made ∙ rw shared refl) in
            (
              i,
              d,
              starts_at_unique (i / 2) j later shared (ap (starts_at j) same ∙ starts),
              rw own refl,
            )
        | inr apart ↦
            let same : (i / 2, join h pool i d s) ∷ later ≡ up = sym (made ∙ rw apart refl) in
            (i, d, ==→eq (i / 2) j (ap (starts_at j) same ∙ starts), rw own refl)
      ]
