-- ===== src/Sorted/Order.antt =====
-- sorted.rs: ascending values, and what a partition point and a binary search find among them.
use ztreexo.Prelude.{
  ℕ, zero, suc, ◌≤◌, ◌<◌, ◌≡◌, ◌≢◌, inl, inr, true, List, [], ◌∷◌, length, get_elem?, some, ok, err,
  arith, refl, ltb, Bool-cases,
}
use ztreexo.Imt.Types.{Value}
use ztreexo.Sorted.Build.{ascending}
use ztreexo.Sorted.Prove.{partition_point}
use ztreexo.Sorted.Verify.{binary_search, last_reaches}

-- the value stands in the list
abbrev pub Holds : List Value → Value → Type 0
Holds values v = (i : ℕ) × (get_elem? values i ≡ some v)

pub ascending-tail : (v : Value) (vs : List Value) → ascending (v ∷ vs) ≡ true → ascending vs ≡ true
unfolding ascending
ascending-tail v [] asc = refl
ascending-tail v (w ∷ vs) asc = ground arith

ascending-head_lt :
    (v : Value) (vs : List Value) (j : ℕ) {b : Value}
    → ascending (v ∷ vs) ≡ true
    → get_elem? vs j ≡ some b
    → v < b
unfolding ascending
ascending-head_lt v [] j asc at = absurd (cc)
ascending-head_lt v (w ∷ vs) zero asc at = ground arith
ascending-head_lt v (w ∷ vs) (suc j) {b = b} asc at =
    ground (arith, ascending-head_lt w vs j {b = b})

pub ascending-lt :
    (xs : List Value) (i j : ℕ) {a b : Value}
    → ascending xs ≡ true
    → get_elem? xs i ≡ some a
    → get_elem? xs j ≡ some b
    → i < j
    → a < b
ascending-lt [] i j asc at_i at_j lt = absurd (cc)
ascending-lt (x ∷ xs) i zero asc at_i at_j lt = absurd (omega arith)
ascending-lt (x ∷ xs) zero (suc j) {b = b} asc at_i at_j lt =
    ground (arith, ascending-head_lt x xs j {b = b} asc at_j)
ascending-lt (x ∷ xs) (suc i) (suc j) asc at_i at_j lt =
    ascending-lt xs i j (ascending-tail x xs asc) at_i at_j (omega arith)

pub partition_point-below :
    (v : Value) (xs : List Value) (k : ℕ) {a : Value}
    → get_elem? xs k ≡ some a
    → k < partition_point v xs
    → a < v
unfolding partition_point
partition_point-below v [] k at lt = absurd (cc)
partition_point-below v (x ∷ xs) zero at lt = ground arith
partition_point-below v (x ∷ xs) (suc k) {a = a} at lt =
    ground (arith, partition_point-below v xs k {a = a} at)

pub partition_point-above :
    (v : Value) (xs : List Value) {a : Value} → get_elem? xs (partition_point v xs) ≡ some a → v ≤ a
unfolding partition_point
partition_point-above v [] at = absurd (cc)
partition_point-above v (x ∷ xs) {a = a} at = elim (Bool-cases (ltb x v)) [
  | inl below ↦ partition_point-above v xs (rw below at at)
  | inr other ↦ let here : some x ≡ some a = rw other at at in ground arith
]

pub partition_point-le : (v : Value) (xs : List Value) → partition_point v xs ≤ length xs
unfolding partition_point
partition_point-le v [] = omega arith
partition_point-le v (x ∷ xs) = ground (arith, partition_point-le v xs)

-- A value of an ascending list stands at its partition point.
pub partition_point_self :
    (v : Value) (xs : List Value) (k : ℕ)
    → ascending xs ≡ true
    → get_elem? xs k ≡ some v
    → partition_point v xs ≡ k
unfolding partition_point
partition_point_self v [] k asc at = absurd (cc)
partition_point_self v (x ∷ xs) zero asc at = ground arith
partition_point_self v (x ∷ xs) (suc k) asc at = ground (
  arith,
  ascending-head_lt x xs k {b = v} asc at,
  partition_point_self v xs k (ascending-tail x xs asc) at,
)

-- A binary search that finds a position finds the value there.
pub binary_search-found :
    (xs : List Value) (v : Value) {k : ℕ} → binary_search xs v ≡ ok k → get_elem? xs k ≡ some v
unfolding binary_search
binary_search-found xs v {k} e = ground arith

-- Where it fails, the value is not there, and the position is the partition point.
pub binary_search-missing :
    (xs : List Value) (v : Value) {k : ℕ}
    → binary_search xs v ≡ err k
    → (k ≡ partition_point v xs) × (get_elem? xs k ≢ some v)
unfolding binary_search
binary_search-missing xs v {k} e = (ground arith, λ at. ground arith)

pub last_reaches-le :
    (hi : Value) (xs : List Value) (k : ℕ) {a : Value}
    → last_reaches hi xs ≡ true
    → length xs ≡ suc k
    → get_elem? xs k ≡ some a
    → hi ≤ a
unfolding last_reaches
last_reaches-le hi [] k reached size at = absurd (cc)
last_reaches-le hi (x ∷ []) zero reached size at = ground arith
last_reaches-le hi (x ∷ []) (suc k) reached size at = absurd (cc)
last_reaches-le hi (x ∷ y ∷ xs) zero reached size at = absurd (omega arith)
last_reaches-le hi (x ∷ y ∷ xs) (suc k) reached size at =
    last_reaches-le hi (y ∷ xs) k reached (omega arith) at
