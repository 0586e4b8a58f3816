-- ===== src/Imt/Subtree.antt =====
-- The Merkle tree that the node cache and the paths of imt.rs stand for: the digest of a subtree,
-- by recursion from a function that gives the digest of each leaf.
use ztreexo.Prelude.{
  ℕ, zero, suc, ◌+◌, ◌-◌, ◌*◌, ◌/◌, ◌%◌, ◌^◌, ◌<◌, ◌≡◌, ◌≢◌, ◌⊎◌, inl, inr, List, [], ◌∷◌, length,
  arith, refl, sym, ap, ap₂, ◌∙◌, ◌==◌, if◌then◌else◌, Bool-cases, pow-suc, ==→eq, ==→ne,
}
use ztreexo.Pool.{PoolId}
use ztreexo.Digest.ImtHash.{ImtHash, Collision, two_nodes}
use ztreexo.Imt.Path.{sibling_index, join, root_from_path}

-- the index, `n` levels up, of the node above index `k`
pub ancestor : ℕ → ℕ → ℕ
ancestor zero k = k
ancestor (suc n) k = ancestor n (k / 2)

pub ancestor-zero : (k : ℕ) → ancestor zero k ≡ k
unfolding ancestor
ancestor-zero k = refl

pub ancestor-suc : (n k : ℕ) → ancestor (suc n) k ≡ ancestor n k / 2
unfolding ancestor
ancestor-suc zero k = refl
ancestor-suc (suc n) k = ancestor-suc n (k / 2)

-- an index within the capacity lies under the root
pub ancestor_below : (n k : ℕ) → k < 2 ^ n → ancestor n k ≡ 0
unfolding ancestor
ancestor_below zero k h = omega arith
ancestor_below (suc n) k h = ancestor_below n (k / 2) (omega (arith, pow-suc 2 n))

pub sibling_index-ne : (i : ℕ) → sibling_index i ≢ i
unfolding sibling_index
sibling_index-ne i = ground arith

-- `f` changed at one leaf
abbrev pub update_at {ℓ} : {A : Type ℓ} → (ℕ → A) → ℕ → A → ℕ → A
update_at f k d i = if i == k then d else f i

module _ {Hash : Type 0} (h : ImtHash Hash) (pool : PoolId) where
  unfoldable pub subtree : (ℕ → Hash) → ℕ → ℕ → Hash
  subtree f zero i = f i
  subtree f (suc l) i = h.imt_node pool (subtree f l (i * 2)) (subtree f l (i * 2 + 1))

  pub subtree-zero : (f : ℕ → Hash) (i : ℕ) → subtree f zero i ≡ f i
  unfolding subtree
  subtree-zero f i = refl

  -- joining a node with its sibling gives their parent
  pub join-subtree :
      (f : ℕ → Hash) (l i : ℕ)
      → join h pool i (subtree f l i) (subtree f l (sibling_index i)) ≡ subtree f (suc l) (i / 2)
  unfolding subtree join sibling_index
  join-subtree f l i = elim (Bool-cases (i % 2 == 0)) [
    | inl e ↦
        let low : i ≡ i / 2 * 2 = omega (arith, ==→eq (i % 2) 0 e) in
        let high : i + 1 ≡ i / 2 * 2 + 1 = omega (arith, low) in
        rw e (ap₂ (h.imt_node pool) (ap (subtree f l) low) (ap (subtree f l) high))
    | inr e ↦
        let odd : i ≡ i / 2 * 2 + 1 = omega (arith, ==→ne (i % 2) 0 e) in
        let even : i - 1 ≡ i / 2 * 2 = omega (arith, odd) in
        rw e (ap₂ (h.imt_node pool) (ap (subtree f l) even) (ap (subtree f l) odd))
  ]

  -- leaf functions that agree but at `k` have the same subtrees off the path of `k`
  pub subtree_off :
      (f g : ℕ → Hash) (k : ℕ)
      → ((i : ℕ) → i ≢ k → f i ≡ g i)
      → (l i : ℕ) → i ≢ ancestor l k
      → subtree f l i ≡ subtree g l i
  unfolding subtree
  subtree_off f g k agree zero i apart = agree i (λ e. apart (e ∙ sym (ancestor-zero k)))
  subtree_off f g k agree (suc l) i apart =
      ap₂ (h.imt_node pool)
        (subtree_off f g k agree l (i * 2) (λ e. apart (omega (arith, ancestor-suc l k, sym e))))
        (subtree_off f g k agree l (i * 2 + 1)
          (λ e. apart (omega (arith, ancestor-suc l k, sym e))))

  pub subtree_same :
      (f g : ℕ → Hash) → ((i : ℕ) → f i ≡ g i) → (l i : ℕ) → subtree f l i ≡ subtree g l i
  unfolding subtree
  subtree_same f g agree zero i = agree i
  subtree_same f g agree (suc l) i =
      ap₂ (h.imt_node pool) (subtree_same f g agree l (i * 2))
        (subtree_same f g agree l (i * 2 + 1))

  -- the siblings on the path from `(level, idx)` up `n` levels
  unfoldable pub true_siblings : (ℕ → Hash) → ℕ → ℕ → ℕ → List Hash
  true_siblings f zero level idx = []
  true_siblings f (suc n) level idx =
      subtree f level (sibling_index idx) ∷ true_siblings f n (suc level) (idx / 2)

  pub length-true_siblings :
      (f : ℕ → Hash) (n level idx : ℕ) → length (true_siblings f n level idx) ≡ n
  unfolding true_siblings
  length-true_siblings f zero level idx = refl
  length-true_siblings f (suc n) level idx = ap suc (length-true_siblings f n (suc level) (idx / 2))

  -- the siblings on a leaf's path do not depend on that leaf
  pub true_siblings_off :
      (f g : ℕ → Hash) (k : ℕ)
      → ((i : ℕ) → i ≢ k → f i ≡ g i)
      → (n level idx : ℕ) → idx ≡ ancestor level k
      → true_siblings f n level idx ≡ true_siblings g n level idx
  unfolding true_siblings
  true_siblings_off f g k agree zero level idx e = refl
  true_siblings_off f g k agree (suc n) level idx e =
      ap₂ (λ x xs. x ∷ xs)
        (subtree_off f g k agree level (sibling_index idx) (λ s. sibling_index-ne idx (s ∙ sym e)))
        (true_siblings_off f g k agree n (suc level) (idx / 2)
          (ap (λ (t : ℕ). t / 2) e ∙ sym (ancestor-suc level k)))

  -- a true path folds to the node above
  pub root_from_path_complete :
      (f : ℕ → Hash) (n level top idx : ℕ)
      → level + n ≡ top
      → root_from_path h pool (subtree f level idx) idx (true_siblings f n level idx)
        ≡ subtree f top (ancestor n idx)
  unfolding root_from_path true_siblings ancestor
  root_from_path_complete f zero level top idx e = ap (λ (t : ℕ). subtree f t idx) (omega arith)
  root_from_path_complete f (suc n) level top idx e =
      ap (λ d. root_from_path h pool d (idx / 2) (true_siblings f n (suc level) (idx / 2)))
        (join-subtree f level idx)
      ∙ root_from_path_complete f n (suc level) top (idx / 2) (omega arith)

  pub node-injective :
      (a b c d : Hash)
      → h.imt_node pool a b ≡ h.imt_node pool c d
      → Collision h pool ⊎ ((a ≡ c) × (b ≡ d))
  node-injective a b c d e = elim (Bool-cases (h.beq a c)) [
    | inl left ↦ elim (Bool-cases (h.beq b d)) [
      | inl right ↦ inr ((h.beq_iff a c).0 left, (h.beq_iff b d).0 right)
      | inr right ↦ inl (two_nodes a b c d (λ s. cc (right, (h.beq_iff b d).1 s.1)) e)
    ]
    | inr left ↦ inl (two_nodes a b c d (λ s. cc (left, (h.beq_iff a c).1 s.0)) e)
  ]

  pub join-injective :
      (i : ℕ) (a b c d : Hash)
      → join h pool i a b ≡ join h pool i c d
      → Collision h pool ⊎ ((a ≡ c) × (b ≡ d))
  unfolding join
  join-injective i a b c d e = elim (Bool-cases (i % 2 == 0)) [
    | inl even ↦ node-injective a b c d (rw even at e)
    | inr odd ↦ elim (node-injective b a d c (rw odd at e)) [
      | inl broken ↦ inl broken
      | inr same ↦ inr (same.1, same.0)
    ]
  ]

  -- A path that folds to the digest of the tree at its top starts with the true digest and has the
  -- true siblings, or shows a collision.
  pub root_from_path_sound :
      (f : ℕ → Hash) (x : Hash) (siblings : List Hash) (level top idx : ℕ)
      → level + length siblings ≡ top
      → root_from_path h pool x idx siblings ≡ subtree f top (ancestor (length siblings) idx)
      → Collision h pool
        ⊎ ((x ≡ subtree f level idx) × (siblings ≡ true_siblings f (length siblings) level idx))
  unfolding root_from_path true_siblings ancestor
  root_from_path_sound f x [] level top idx e r =
      inr (r ∙ ap (λ (t : ℕ). subtree f t idx) (omega arith), refl)
  root_from_path_sound f x (s ∷ siblings) level top idx e r =
      elim (root_from_path_sound f (join h pool idx x s) siblings (suc level) top (idx / 2)
        (omega arith) r) [
          | inl broken ↦ inl broken
          | inr same ↦
              elim (join-injective idx x s (subtree f level idx)
                (subtree f level (sibling_index idx)) (same.0 ∙ sym (join-subtree f level idx))) [
                  | inl broken ↦ inl broken
                  | inr parts ↦ inr (parts.0, ap₂ (λ y ys. y ∷ ys) parts.1 same.1)
                ]
        ]
