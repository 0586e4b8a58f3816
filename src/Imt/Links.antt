-- ===== src/Imt/Links.antt =====
-- imt.rs: the linked list that the leaves thread through the value index, and what a splice does.
use ztreexo.Prelude.{
  ℕ, ◌<◌, ◌≤◌, ◌≡◌, ◌⊎◌, inl, inr, true, false, List, [], ◌∷◌, none, some, get_elem?, ltb, ◌==◌,
  if◌then◌else◌, Bool-cases, arith, refl, ltb→lt, ltb→le,
}
use ztreexo.Imt.Types.{Leaf, covers, Value}
use ztreexo.Imt.Index.{Index, lookup, contains_key, insert, remove, last_at_most}

abbrev pub chained : Value → Value → ℕ → Leaf
chained value next_value next_index = record {
  value = value;
  next_value = next_value;
  next_index = next_index;
}

-- Each entry of the index names a leaf that holds its value and points at the next entry, and the
-- values ascend. The last leaf points at nothing, which is written 0 and 0.
abbrev pub Linked : List Leaf → Index → Type 0
Linked leaves [] = Unit
Linked leaves ((v, i) ∷ []) = get_elem? leaves i ≡ some (chained v 0 0)
Linked leaves ((v, i) ∷ (w, j) ∷ rest) =
    (get_elem? leaves i ≡ some (chained v w j)) × (v < w) × Linked leaves ((w, j) ∷ rest)

pub contains_key-lookup-none : (k : ℕ) (ix : Index) → contains_key k ix ≡ false → lookup k ix ≡ none
unfolding contains_key lookup
contains_key-lookup-none k [] h = refl
contains_key-lookup-none k ((j, i) ∷ rest) h = ground (arith, contains_key-lookup-none k rest)

pub contains_key-lookup-some :
    (k : ℕ) (ix : Index) {i : ℕ} → lookup k ix ≡ some i → contains_key k ix ≡ true
unfolding contains_key lookup
contains_key-lookup-some k [] h = cc
contains_key-lookup-some k ((j, n) ∷ rest) {i} h =
    ground (arith, contains_key-lookup-some k rest {i = i})

pub lookup_of_contains_key :
    (k : ℕ) (ix : Index) → contains_key k ix ≡ true → (i : ℕ) × (lookup k ix ≡ some i)
unfolding contains_key lookup
lookup_of_contains_key k [] h = absurd (ground arith)
lookup_of_contains_key k ((j, n) ∷ rest) h = elim (Bool-cases (j == k)) [
  | inl here ↦ (n, rw here)
  | inr there ↦ rw there (lookup_of_contains_key k rest (rw there at h))
]

pub lookup-insert :
    (k j i : ℕ) (ix : Index) → lookup j (insert k i ix) ≡ (if k == j then some i else lookup j ix)
unfolding lookup insert
lookup-insert k j i [] = refl
lookup-insert k j i ((a, b) ∷ rest) = ground (arith, lookup-insert k j i rest)

pub contains_key-insert :
    (k j i : ℕ) (ix : Index)
    → contains_key j (insert k i ix) ≡ (if k == j then true else contains_key j ix)
unfolding contains_key insert
contains_key-insert k j i [] = refl
contains_key-insert k j i ((a, b) ∷ rest) = ground (arith, contains_key-insert k j i rest)

pub remove-insert :
    (k i : ℕ) (ix : Index) → contains_key k ix ≡ false → remove k (insert k i ix) ≡ ix
unfolding contains_key insert remove
remove-insert k i [] h = ground arith
remove-insert k i ((a, b) ∷ rest) h = ground (arith, remove-insert k i rest)

module _ (leaves : List Leaf) where
  -- nothing below the first key is a key
  contains_key_below :
      (k v i : ℕ) (rest : Index)
      → Linked leaves ((v, i) ∷ rest)
      → k < v
      → contains_key k ((v, i) ∷ rest) ≡ false
  unfolding contains_key
  contains_key_below k v i [] h lt = ground arith
  contains_key_below k v i ((w, j) ∷ rest) h lt = ground (arith, contains_key_below k w j rest h.2)

  last_at_most_below : (k v i : ℕ) (rest : Index) → k < v → last_at_most k ((v, i) ∷ rest) ≡ none
  unfolding last_at_most
  last_at_most_below k v i rest lt = ground arith

  lookup-head_le :
      (k v i : ℕ) (rest : Index) {n : ℕ}
      → Linked leaves ((v, i) ∷ rest)
      → lookup k ((v, i) ∷ rest) ≡ some n
      → v ≤ k
  unfolding lookup
  lookup-head_le k v i [] h e = ground arith
  lookup-head_le k v i ((w, j) ∷ rest) {n} h e =
      ground (arith, lookup-head_le k w j rest {n = n} h.2)

  -- A leaf of the list that covers a value shows that the value is no key.
  pub covers-not_contains_key :
      (ix : Index) (v i : ℕ) (l : Leaf)
      → Linked leaves ix
      → lookup l.value ix ≡ some i
      → get_elem? leaves i ≡ some l
      → covers l v ≡ true
      → contains_key v ix ≡ false
  unfolding lookup contains_key covers
  covers-not_contains_key [] v i l h e g c = refl
  covers-not_contains_key ((u, k) ∷ []) v i l h e g c = ground arith
  covers-not_contains_key ((u, k) ∷ (w, j) ∷ rest) v i l h e g c =
      elim (Bool-cases (u == l.value)) [
        | inl here ↦ ground (arith, contains_key_below v w j rest h.2)
        | inr there ↦
            let later : lookup l.value ((w, j) ∷ rest) ≡ some i = rw there at e in
            let ahead = lookup-head_le l.value w j rest h.2 later in
            ground (arith, covers-not_contains_key ((w, j) ∷ rest) v i l h.2 later g c)
      ]

  -- the entry that `last_at_most` finds, where the value is no key: its leaf covers the value
  pub record IsLow (ix : Index) (v : Value) (low : Leaf) (k : ℕ) : Type 0 where
    pub found : last_at_most v ix ≡ some (low.value, k)
    pub listed : lookup low.value ix ≡ some k
    pub stored : get_elem? leaves k ≡ some low
    pub covering : covers low v ≡ true

  IsLow-here :
      (ix : Index) (u k v : ℕ) (next next_index : ℕ)
      → last_at_most v ix ≡ some (u, k)
      → lookup u ix ≡ some k
      → get_elem? leaves k ≡ some (chained u next next_index)
      → u < v
      → (next ≡ 0) ⊎ (v < next)
      → IsLow ix v (chained u next next_index) k
  unfolding covers
  IsLow-here ix u k v next next_index f e g lt gap = record {
    found = f;
    listed = e;
    stored = g;
    covering = ground arith;
  }

  -- Where the first key is at most `v` and `v` is no key, there is a low leaf.
  pub IsLow-exists :
      (v u k : ℕ) (rest : Index)
      → Linked leaves ((u, k) ∷ rest)
      → u ≤ v
      → contains_key v ((u, k) ∷ rest) ≡ false
      → (low : Leaf) × (i : ℕ) × IsLow ((u, k) ∷ rest) v low i
  unfolding contains_key
  IsLow-exists v u k [] h le absent = (
    chained u 0 0,
    k,
    IsLow-here ((u, k) ∷ []) u k v 0 0 (unfold last_at_most in ground arith)
        (unfold lookup in ground arith) h (ground arith) (inl refl),
  )
  IsLow-exists v u k ((w, j) ∷ rest) h le absent = elim (Bool-cases (ltb v w)) [
    | inl gap ↦ (
      chained u w j,
      k,
      IsLow-here ((u, k) ∷ (w, j) ∷ rest) u k v w j
          (low_before v u k w j rest (ltb→lt v w gap) (ground arith))
          (unfold lookup in ground arith) h.0 (ground arith) (inr (ltb→lt v w gap)),
    )
    | inr later ↦
        let (low, i, ih) = IsLow-exists v w j rest h.2 (ltb→le v w later) (ground arith) in
        (
          low,
          i,
          record {
            found = low_after v u k ((w, j) ∷ rest) (low.value) i le ih.found;
            listed = listed_after low.value u k w j rest i h ih.listed;
            stored = ih.stored;
            covering = ih.covering;
          },
        )
  ]
    where
      low_before :
          (v u k w j : ℕ) (rest : Index)
          → v < w
          → u ≤ v
          → last_at_most v ((u, k) ∷ (w, j) ∷ rest) ≡ some (u, k)
      low_before v u k w j rest lt le = unfold last_at_most in ground arith

      low_after :
          (v u k : ℕ) (rest : Index) (a i : ℕ)
          → u ≤ v
          → last_at_most v rest ≡ some (a, i)
          → last_at_most v ((u, k) ∷ rest) ≡ some (a, i)
      low_after v u k rest a i le e = unfold last_at_most in ground arith

      listed_after :
          (a u k w j : ℕ) (rest : Index) (i : ℕ)
          → Linked leaves ((u, k) ∷ (w, j) ∷ rest)
          → lookup a ((w, j) ∷ rest) ≡ some i
          → lookup a ((u, k) ∷ (w, j) ∷ rest) ≡ some i
      listed_after a u k w j rest i h e =
          let ahead = lookup-head_le a w j rest h.2 e in unfold lookup in ground arith

  -- A leaf of the list that covers a value is its low leaf: the list has no other.
  pub covers-IsLow :
      (ix : Index) (v i : ℕ) (l : Leaf)
      → Linked leaves ix
      → lookup l.value ix ≡ some i
      → get_elem? leaves i ≡ some l
      → covers l v ≡ true
      → last_at_most v ix ≡ some (l.value, i)
  unfolding lookup last_at_most covers
  covers-IsLow [] v i l h e g c = cc
  covers-IsLow ((u, k) ∷ []) v i l h e g c = ground arith
  covers-IsLow ((u, k) ∷ (w, j) ∷ rest) v i l h e g c = elim (Bool-cases (u == l.value)) [
    | inl here ↦ ground (arith, last_at_most_below v w j rest)
    | inr there ↦
        let later : lookup l.value ((w, j) ∷ rest) ≡ some i = rw there at e in
        let ahead = lookup-head_le l.value w j rest h.2 later in
        ground (arith, covers-IsLow ((w, j) ∷ rest) v i l h.2 later g c)
  ]
