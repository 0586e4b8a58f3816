-- ===== src/Chain/Room.antt =====
-- crates/zutreexo-chain/src/block_apply.rs: the checks of stage 3a make the insertions of step 3b go
-- through, where the trees have room.
use ztreexo.Prelude.{
  ℕ, ◌+◌, ◌^◌, ◌≤◌, ◌≡◌, inl, inr, true, false, List, [], ◌∷◌, length, ok, if◌then◌else◌, refl, ap,
  ◌∙◌, arith,
}
use ztreexo.Pool.{PoolId}
use ztreexo.Digest.ImtHash.{ImtHash}
use ztreexo.Imt.Types.{Value, IsValue, InsertionProof}
use ztreexo.Imt.Tree.{IndexedMerkleTree, contains, insert, insert_all}
use ztreexo.Imt.Index
use ztreexo.Imt.Invariant.{IsValid}
use ztreexo.Imt.Insert.{insert_outcome, insert_shape}
use ztreexo.Imt.Histories.{AllValues, member}
use ztreexo.Chain.Accumulators.{Forests}
use ztreexo.Chain.Apply.{check_values, insert_each}

module _ {Hash Forest Failure : Type 0} (h : ImtHash Hash) (f : Forests Hash Forest Failure) where
  -- the tree during the loop holds what it held before, and the values inserted so far
  abbrev Grown : IndexedMerkleTree Hash → List Value → IndexedMerkleTree Hash → Type 0
  Grown t within u = (w : Value) → contains u w ≡ (if member w within then true else contains t w)

  -- the loop over the values has gone through
  pub record Inserts (u : IndexedMerkleTree Hash) (vs : List Value) : Type 0 where
    pub last : IndexedMerkleTree Hash
    pub applied : List (Value × InsertionProof Hash)
    pub each : insert_each h f u vs ≡ (last, ok applied)
    pub all : insert_all h vs u ≡ ok last
    pub valid : IsValid h last
    pub pool_same : last.pool ≡ u.pool
    pub depth_same : last.depth ≡ u.depth

  holds_zero : (u : IndexedMerkleTree Hash) → IsValid h u → contains u 0 ≡ true
  unfolding contains Index.contains_key
  holds_zero u valid = let (rest, e) = valid.starts in rw e refl

  pub check_values-eq_ok :
      (height : ℕ) (p : PoolId) (t : IndexedMerkleTree Hash) (within : List Value) (v : Value)
      (vs : List Value)
      → check_values h f height p t within (v ∷ vs) ≡ ok tt
      → (contains t v ≡ false)
        × (member v within ≡ false)
        × (check_values h f height p t (v ∷ within) vs ≡ ok tt)
  unfolding check_values
  check_values-eq_ok height p t within v vs e = ground arith

  Inserts-next :
      (u u' : IndexedMerkleTree Hash) (v : Value) (proof : InsertionProof Hash) (vs : List Value)
      → IsValid h u
      → IsValue v
      → insert h u v ≡ ok (u', proof)
      → Inserts u' vs
      → Inserts u (v ∷ vs)
  unfolding insert_each insert_all
  Inserts-next u u' v proof vs valid in_type e r =
      let (pool_same, depth_same) = insert_shape h u valid v u' proof in_type e in
      record {
        last = r.last;
        applied = (v, proof) ∷ r.applied;
        each = rw (e, insert_each, r.each) refl;
        all = rw e r.all;
        valid = r.valid;
        pool_same = r.pool_same ∙ pool_same;
        depth_same = r.depth_same ∙ depth_same;
      }

  pub insert_each-Inserts :
      (height : ℕ) (p : PoolId) (t u : IndexedMerkleTree Hash) (within vs : List Value)
      → IsValid h u
      → Grown t within u
      → AllValues vs
      → length u.leaves + length vs ≤ 2 ^ u.depth
      → check_values h f height p t within vs ≡ ok tt
      → Inserts u vs
  insert_each-Inserts height p t u within [] valid grown in_type room e = record {
    last = u;
    applied = [];
    each = unfold insert_each in refl;
    all = unfold insert_all in refl;
    valid = valid;
    pool_same = refl;
    depth_same = refl;
  }
  insert_each-Inserts height p t u within (v ∷ vs) valid grown in_type room e =
      let (absent, fresh, rest) = check_values-eq_ok height p t within v vs e in
      let missing : contains u v ≡ false = ground (arith, grown v) in
      elim (insert_outcome h u valid v in_type.0) [
        | inl (z, _) ↦ absurd (cc (z, missing, holds_zero u valid))
        | inr (inl (_, full, _)) ↦ absurd (omega arith)
        | inr (inr (inl (_, _, present, _))) ↦ absurd (cc (present, missing))
        | inr (inr (inr (u', proof, _, inserted, valid', longer, contents))) ↦
            let (_, depth_same) = insert_shape h u valid v u' proof in_type.0 inserted in
            Inserts-next u u' v proof vs valid in_type.0 inserted (
              insert_each-Inserts height p t u' (v ∷ within) vs valid'
                (λ w. contents w ∙ unfold member in ground (arith, grown w)) in_type.1
                (omega (arith, room, longer, ap (λ (d : ℕ). 2 ^ d) depth_same)) rest)
      ]
