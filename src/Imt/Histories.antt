-- ===== src/Imt/Histories.antt =====
-- imt.rs: sequences of insertions: `from_values`, and a node that holds only
-- `ImtState` and follows them one proof at a time.
use ztreexo.Prelude.{
  ℕ, ◌≡◌, ◌⊎◌, inl, inr, Bool, true, false, List, [], ◌∷◌, arith, refl, sym, ap, ap₂, ◌∙◌, ok, err,
  Result, ◌>>◌, >>=-eq-ok, Result-cases, ◌==◌, if◌then◌else◌, subst,
}
use ztreexo.Pool.{PoolId}
use ztreexo.Digest.ImtHash.{ImtHash, Collision}
use ztreexo.Imt.Types.{LeafFits, Value, IsValue, InsertionProof, ImtState, ImtError}
use ztreexo.Imt.Verify.{verify_insertion, apply_insertion}
use ztreexo.Imt.Tree.{
  IndexedMerkleTree, contains, state, insert, insert_all, from_values, with_depth,
}
use ztreexo.Imt.Invariant.{IsValid}
use ztreexo.Imt.Insert.{insert-IsValid, insert-contains, insert_shape}
use ztreexo.Imt.Agreement.{verify_insertion-insert, verify_insertion_sound}
use ztreexo.Imt.Initial.{with_depth_outcome}

abbrev pub AllValues : List Value → Type 0
AllValues [] = Unit
AllValues (v ∷ vs) = IsValue v × AllValues vs

-- whether a value is in a list
unfoldable pub member : Value → List Value → Bool
member w [] = false
member w (v ∷ vs) = if v == w then true else member w vs

module _ {Hash : Type 0} (h : ImtHash Hash) where
  insert_all-contains :
      (vs : List Value) (t t' : IndexedMerkleTree Hash)
      → IsValid h t
      → AllValues vs
      → insert_all h vs t ≡ ok t'
      → IsValid h t' × ((w : Value) → contains t' w ≡ (if member w vs then true else contains t w))
  unfolding insert_all member
  insert_all-contains [] t t' valid in_type e =
      let same : t ≡ t' = cc in
      (subst (IsValid h) same valid, λ w. ap (λ u. contains u w) (sym same))
  insert_all-contains (v ∷ vs) t t' valid in_type e =
      let ((u, proof), inserted, rest) = >>=-eq-ok (insert h t v) (λ r. insert_all h vs r.0) e in
      let ih =
        insert_all-contains vs u t' (insert-IsValid h t valid v u proof in_type.0 inserted)
          in_type.1 rest in
      (ih.0, λ w. ih.1 w ∙ ground (arith, insert-contains h t valid v u proof in_type.0 inserted w))

  -- A tree that `from_values` builds is valid, and holds the sentinel value and the listed values and
  -- nothing else.
  pub from_values-contains :
      (pool : PoolId) (depth : ℕ) (vs : List Value) (t : IndexedMerkleTree Hash)
      → AllValues vs
      → from_values h pool depth vs ≡ ok t
      → IsValid h t × ((w : Value) → contains t w ≡ (if member w vs then true else 0 == w))
  unfolding from_values
  from_values-contains pool depth vs t in_type e =
      let (fresh, made, rest) = >>=-eq-ok (with_depth h pool depth) (λ u. insert_all h vs u) e in
      elim (with_depth_outcome h pool depth) [
        | inl refused ↦ cc (made, refused.1)
        | inr (u, built, valid, _, _, holds, _) ↦
            let same : u ≡ fresh = cc in
            let (valid', contents) =
              insert_all-contains vs u t valid in_type (ap (insert_all h vs) same ∙ rest) in
            (valid', λ w. contents w ∙ rw (holds w))
      ]

module _ {Hash : Type 0} (h : ImtHash Hash) where
  abbrev pub Steps : Type 0
  Steps = List (Value × InsertionProof Hash)

  abbrev pub StepsFit : Steps → Type 0
  StepsFit [] = Unit
  StepsFit ((v, proof) ∷ steps) = IsValue v × LeafFits proof.low_leaf × StepsFit steps

  -- the loop over `values.iter().zip(proofs)` in which a compact node applies a pool's insertions
  unfoldable pub apply_insertions :
      PoolId → ℕ → ImtState Hash → Steps → Result (ImtError Hash) (ImtState Hash)
  apply_insertions pool depth s [] = ok s
  apply_insertions pool depth s ((v, proof) ∷ steps) =
      let (s', outcome) = apply_insertion h pool depth s v proof in
      do outcome; apply_insertions pool depth s' steps

  module _ (pool : PoolId) (depth : ℕ) (s : ImtState Hash) (v : Value)
      (proof : InsertionProof Hash) where
    apply_insertions-ok :
        (s' : ImtState Hash) (steps : Steps)
        → verify_insertion h pool depth s v proof ≡ ok s'
        → apply_insertions pool depth s ((v, proof) ∷ steps) ≡ apply_insertions pool depth s' steps
    unfolding apply_insertions apply_insertion
    apply_insertions-ok s' steps e = rw (e, apply_insertion)

    apply_insertions-err :
        (x : ImtError Hash) (steps : Steps)
        → verify_insertion h pool depth s v proof ≡ err x
        → apply_insertions pool depth s ((v, proof) ∷ steps) ≡ err x
    unfolding apply_insertions apply_insertion
    apply_insertions-err x steps e = rw (e, apply_insertion)

  -- the same insertions on the full tree, with the proofs that it returned
  pub data Inserted : IndexedMerkleTree Hash → Steps → IndexedMerkleTree Hash → Type 0 where
    done : {t : IndexedMerkleTree Hash} → Inserted t [] t
    next :
        {t u w : IndexedMerkleTree Hash} {v : Value} {proof : InsertionProof Hash} {steps : Steps}
        → insert h t v ≡ ok (u, proof)
        → Inserted u steps w
        → Inserted t ((v, proof) ∷ steps) w

  -- Any run of insertions on a valid tree is followed, proof by proof, by a node that holds only the
  -- state: it accepts every proof and ends in the state of the final tree.
  pub apply_insertions-Inserted :
      (t w : IndexedMerkleTree Hash) (steps : Steps)
      → IsValid h t
      → StepsFit steps
      → Inserted t steps w
      → apply_insertions t.pool t.depth (state h t) steps ≡ ok (state h w)
  unfolding apply_insertions
  apply_insertions-Inserted t w [] valid fits done = refl
  apply_insertions-Inserted t w ((v, proof) ∷ steps) valid fits (next {u = u} e run) =
      let (pool_same, depth_same) = insert_shape h t valid v u proof fits.0 e in
      let ih =
        apply_insertions-Inserted u w steps (insert-IsValid h t valid v u proof fits.0 e) fits.2
          run in
      apply_insertions-ok t.pool t.depth (state h t) v proof (state h u) steps
        (verify_insertion-insert h t valid v u proof fits.0 e)
      ∙ ap₂ (λ p d. apply_insertions p d (state h u) steps) (sym pool_same) (sym depth_same)
      ∙ ih

  -- Conversely, whatever steps such a node accepts from the state of a valid tree, the tree accepts
  -- the same values with the same proofs and reaches the node's state; or a collision of the tree's
  -- hash functions is exhibited.
  pub apply_insertions_sound :
      (t : IndexedMerkleTree Hash) (steps : Steps) (s : ImtState Hash)
      → IsValid h t
      → StepsFit steps
      → apply_insertions t.pool t.depth (state h t) steps ≡ ok s
      → Collision h t.pool
        ⊎ ((w : IndexedMerkleTree Hash) × Inserted t steps w × IsValid h w × (s ≡ state h w))
  apply_insertions_sound t [] s valid fits e = inr (t, done, valid, unfold apply_insertions in cc)
  apply_insertions_sound t ((v, proof) ∷ steps) s valid fits e =
      elim (Result-cases (verify_insertion h t.pool t.depth (state h t) v proof)) [
        | inr (x, refused) ↦
            cc (apply_insertions-err t.pool t.depth (state h t) v proof x steps refused)
        | inl (s', accepted) ↦
            elim (verify_insertion_sound h t valid v proof s' fits.0 fits.1 accepted) [
              | inl broken ↦ inl broken
              | inr (u, inserted, same) ↦
                  let (pool_same, depth_same) = insert_shape h t valid v u proof fits.0 inserted in
                  let rest =
                    ap₂ (λ p d. apply_insertions p d (state h u) steps) pool_same depth_same
                    ∙ ap (λ z. apply_insertions t.pool t.depth z steps) (sym same)
                    ∙ sym (apply_insertions-ok t.pool t.depth (state h t) v proof s' steps accepted)
                    ∙ e in
                  elim (apply_insertions_sound u steps s
                    (insert-IsValid h t valid v u proof fits.0 inserted) fits.2 rest) [
                      | inl broken ↦ inl (subst (Collision h) pool_same broken)
                      | inr (w, run, valid', end) ↦ inr (w, next inserted run, valid', end)
                    ]
            ]
      ]
