-- ===== src/Node/Pools.antt =====
-- crates/zutreexo-csn/src/lib.rs: the nullifier states of a node, pool by pool, and full trees.
use ztreexo.Prelude.{
  ℕ, ◌≡◌, ◌⊎◌, inl, inr, List, [], ◌∷◌, length, Option, some, ok, refl, sym, ap, ap₂, ◌∙◌, arith,
  of_some_eq,
}
use ztreexo.Pool.{PoolId}
use ztreexo.Digest.ImtHash.{ImtHash, Collision}
use ztreexo.Imt.Types.{Value, LeafFits, ImtState, InsertionProof}
use ztreexo.Imt.Tree.{IndexedMerkleTree, state, insert_all}
use ztreexo.Imt.Invariant.{IsValid}
use ztreexo.Imt.Insert.{insert_shape, insert-IsValid}
use ztreexo.Imt.Histories.{
  AllValues, StepsFit, Steps, Inserted, done, next, apply_insertions, apply_insertions_sound,
}
use ztreexo.Node.Apply.{zip}

-- the low leaves of the proofs have fields in the ranges of their types
abbrev pub ProofsFit : {Hash : Type 0} → List (InsertionProof Hash) → Type 0
ProofsFit [] = Unit
ProofsFit (p ∷ ps) = LeafFits p.low_leaf × ProofsFit ps

module _ {Hash : Type 0} (h : ImtHash Hash) where
  -- the state that a node holds for a pool, at its depth, is that of a valid tree
  pub record Holds (depth : ℕ) (p : PoolId) (held : Option (ImtState Hash))
      (t : IndexedMerkleTree Hash) : Type 0 where
    pub valid : IsValid h t
    pub pool_same : t.pool ≡ p
    pub depth_same : t.depth ≡ depth
    pub same_state : held ≡ some (state h t)

  -- and so for every pool
  abbrev pub Follows :
      ℕ → (PoolId → Option (ImtState Hash)) → (PoolId → IndexedMerkleTree Hash) → Type 0
  Follows depth states trees = (p : PoolId) → Holds depth p (states p) (trees p)

  zip-StepsFit :
      (vs : List Value) (ps : List (InsertionProof Hash))
      → AllValues vs
      → ProofsFit ps
      → StepsFit h (zip vs ps)
  unfolding zip
  zip-StepsFit [] ps a b = tt
  zip-StepsFit (v ∷ vs) [] a b = tt
  zip-StepsFit (v ∷ vs) (p ∷ ps) a b = (a.0, b.0, zip-StepsFit vs ps a.1 b.1)

  -- the steps of as many values as proofs insert the values
  Inserted-insert_all :
      (vs : List Value) (ps : List (InsertionProof Hash)) (t w : IndexedMerkleTree Hash)
      → length ps ≡ length vs
      → Inserted h t (zip vs ps) w
      → insert_all h vs t ≡ ok w
  unfolding zip insert_all
  Inserted-insert_all [] ps t w e done = refl
  Inserted-insert_all (v ∷ vs) [] t w e run = absurd (omega arith)
  Inserted-insert_all (v ∷ vs) (p ∷ ps) t w e (next {u = u} i run) =
      rw i (Inserted-insert_all vs ps u w (omega arith) run)

  Inserted-shape :
      (steps : Steps h) (t w : IndexedMerkleTree Hash)
      → IsValid h t
      → StepsFit h steps
      → Inserted h t steps w
      → (w.pool ≡ t.pool) × (w.depth ≡ t.depth)
  Inserted-shape [] t w valid fits done = (refl, refl)
  Inserted-shape ((v, p) ∷ steps) t w valid fits (next {u = u} i run) =
      let (pool_same, depth_same) = insert_shape h t valid v u p fits.0 i in
      let (ih_pool, ih_depth) =
        Inserted-shape steps u w (insert-IsValid h t valid v u p fits.0 i) fits.2 run in
      (ih_pool ∙ pool_same, ih_depth ∙ depth_same)

  -- a collision of the hash functions of some pool
  abbrev pub AnyCollision : Type 0
  AnyCollision = (p : PoolId) × Collision h p

  -- the steps that a node has accepted for one pool
  pub accepted_pool :
      (depth : ℕ) (p : PoolId) (s s' : ImtState Hash) (t : IndexedMerkleTree Hash) (vs : List Value)
      (ps : List (InsertionProof Hash))
      → Holds depth p (some s) t
      → AllValues vs
      → ProofsFit ps
      → length ps ≡ length vs
      → apply_insertions h p depth s (zip vs ps) ≡ ok s'
      → AnyCollision
        ⊎ ((w : IndexedMerkleTree Hash) × (insert_all h vs t ≡ ok w) × Holds depth p (some s') w)
  accepted_pool depth p s s' t vs ps holds in_type fits same_length accepted =
      let steps_fit = zip-StepsFit vs ps in_type fits in
      let begins : s ≡ state h t = of_some_eq holds.same_state in
      let run =
        ap (λ z. apply_insertions h t.pool t.depth z (zip vs ps)) (sym begins)
        ∙ ap₂ (λ q d. apply_insertions h q d s (zip vs ps)) holds.pool_same holds.depth_same
        ∙ accepted in
      elim (apply_insertions_sound h t (zip vs ps) s' holds.valid steps_fit run) [
        | inl broken ↦ inl (t.pool, broken)
        | inr (w, inserted, valid, ends) ↦
            let (pool_same, depth_same) =
              Inserted-shape (zip vs ps) t w holds.valid steps_fit inserted in
            inr (
              w,
              Inserted-insert_all vs ps t w same_length inserted,
              record {
                valid = valid;
                pool_same = pool_same ∙ holds.pool_same;
                depth_same = depth_same ∙ holds.depth_same;
                same_state = ap some ends;
              },
            )
      ]
