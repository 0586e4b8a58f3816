-- ===== src/Imt/Splice.antt =====
-- imt.rs: splicing a value into the linked list, the effect of `insert` on leaves and value index.
use ztreexo.Prelude.{
  ℕ, ◌<◌, ◌≤◌, ◌≡◌, ◌≢◌, inl, inr, true, false, List, [], ◌∷◌, some, get_elem?, ltb, ◌==◌,
  Bool-cases, arith, ltb→lt, le→ltb, ne→==,
}
use ztreexo.Imt.Types.{Leaf, Value}
use ztreexo.Imt.Index.{Index, contains_key, insert, last_at_most}
use ztreexo.Imt.Links.{chained, Linked}

-- Where the value is a key, the last entry at most it is its own.
pub last_at_most_key :
    (leaves : List Leaf) (v : Value) (ix : Index)
    → Linked leaves ix
    → contains_key v ix ≡ true
    → (k : ℕ) × (last_at_most v ix ≡ some (v, k))
unfolding contains_key last_at_most
last_at_most_key leaves v [] h e = absurd (ground arith)
last_at_most_key leaves v ((u, k) ∷ []) h e = (k, ground arith)
last_at_most_key leaves v ((u, k) ∷ (w, j) ∷ rest) h e = elim (Bool-cases (u == v)) [
  | inl here ↦ (k, ground arith)
  | inr there ↦
      let (i, ih) = last_at_most_key leaves v ((w, j) ∷ rest) h.2 (rw there at e) in
      (i, ground arith)
]

last_at_most-head_le :
    (leaves : List Leaf) (v u i : ℕ) (rest : Index) {a b : ℕ}
    → Linked leaves ((u, i) ∷ rest)
    → last_at_most v ((u, i) ∷ rest) ≡ some (a, b)
    → u ≤ a
unfolding last_at_most
last_at_most-head_le leaves v u i [] h e = ground arith
last_at_most-head_le leaves v u i ((w, j) ∷ rest) {a} {b} h e =
    ground (arith, last_at_most-head_le leaves v w j rest {a = a} {b = b} h.2)

module _ (leaves after : List Leaf) (low : Leaf) (k n : ℕ) (v : Value)
    (at_low : get_elem? after k ≡ some (chained low.value v n))
    (at_new : get_elem? after n ≡ some (chained v low.next_value low.next_index))
    (elsewhere : (j : ℕ) (m : Leaf)
      → get_elem? leaves j ≡ some m
      → m.value ≢ low.value
      → get_elem? after j ≡ some m) where
  -- entries above the low leaf are untouched
  Linked-above :
      (u i : ℕ) (rest : Index)
      → low.value < u
      → Linked leaves ((u, i) ∷ rest)
      → Linked after ((u, i) ∷ rest)
  Linked-above u i [] lt h = elsewhere i (chained u 0 0) h (omega arith)
  Linked-above u i ((w, j) ∷ rest) lt h =
      (elsewhere i (chained u w j) h.0 (omega arith), h.1, Linked-above w j rest (omega arith) h.2)

  -- The rewritten low leaf and the appended leaf link the value into the list.
  pub Linked-splice :
      (u i : ℕ) (rest : Index)
      → Linked leaves ((u, i) ∷ rest)
      → last_at_most v ((u, i) ∷ rest) ≡ some (low.value, k)
      → contains_key v ((u, i) ∷ rest) ≡ false
      → get_elem? leaves k ≡ some low
      → Linked after (insert v n ((u, i) ∷ rest))
  unfolding last_at_most contains_key insert
  Linked-splice u i [] h f absent g = ground arith
  Linked-splice u i ((w, j) ∷ rest) h f absent g =
      let first : u < v = ground arith in
      rw (le→ltb v u (omega arith), ne→== u v (omega arith))
        (elim (Bool-cases (ltb v w)) [
          | inl gap ↦
              let lt = ltb→lt v w gap in
              let here : (u ≡ low.value) × (i ≡ k) = ground arith in
              let same : low ≡ chained u w j = ground arith in
              rw gap
                (ground arith, first, (ground arith, lt, Linked-above w j rest (omega arith) h.2))
          | inr later ↦
              let found : last_at_most v ((w, j) ∷ rest) ≡ some (low.value, k) = ground arith in
              let ahead = last_at_most-head_le leaves v w j rest h.2 found in
              let ih = Linked-splice w j rest h.2 found (ground arith) g in
              rw (later, ne→== w v (ground arith))
                (
                  elsewhere i (chained u w j) h.0 (omega arith),
                  h.1,
                  rw (later, ne→== w v (ground arith)) at ih,
                )
        ])
