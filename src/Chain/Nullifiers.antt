-- ===== src/Chain/Nullifiers.antt =====
-- The nullifiers of a block, pool by pool: crates/zutreexo-chain/src/block_apply.rs, step 3b.
use ztreexo.Prelude.{
  ◌≡◌, List, [], ◌∷◌, Result, ok, ◌>>=◌, ◌==◌, refl, sym, ◌∙◌, subst, Bool-cases, ==→eq, inl, inr,
  of_some_eq, false, arith,
}
use ztreexo.Pool.{PoolId, code}
use ztreexo.Pool.Codes.{from_code_iff}
use ztreexo.Digest.ImtHash.{ImtHash}
use ztreexo.Imt.Types.{Value, ImtError}
use ztreexo.Imt.Tree.{IndexedMerkleTree, insert_all}
use ztreexo.Chain.Types.{put_pool}

pub code-injective : (p q : PoolId) → code p ≡ code q → p ≡ q
code-injective p q e =
    let back = (from_code_iff (code p) p).1 refl in
    let same = (from_code_iff (code p) q).1 e in of_some_eq (sym back ∙ same)

pub put_pool_here : {A : Type 0} (p : PoolId) (a : A) (m : PoolId → A) → put_pool p a m p ≡ a
unfolding put_pool
put_pool_here p a m = ground arith

pub put_pool_away :
    {A : Type 0} (p q : PoolId) (a : A) (m : PoolId → A)
    → (code q == code p) ≡ false
    → put_pool p a m q ≡ m q
unfolding put_pool
put_pool_away p q a m apart = ground arith

-- a property of every entry, after one entry was replaced
pub put_pool-all :
    {A B : Type 0} (R : PoolId → A → B → Type 0) (p : PoolId) (a : A) (b : B) (m : PoolId → A)
    (n : PoolId → B)
    → R p a b
    → ((q : PoolId) → R q (m q) (n q))
    → (q : PoolId) → R q (put_pool p a m q) (put_pool p b n q)
unfolding put_pool
put_pool-all R p a b m n here there q = elim (Bool-cases (code p == code q)) [
  | inl same ↦
      rw same (subst (λ x. R x a b) (code-injective p q (==→eq (code p) (code q) same)) here)
  | inr other ↦ rw other (there q)
]

-- an entry that is put back
pub put_pool-own :
    {A B : Type 0} (p : PoolId) (m : PoolId → A) (n : PoolId → B) (R : PoolId → A → B → Type 0)
    → ((q : PoolId) → R q (m q) (n q))
    → (q : PoolId) → R q (m q) (put_pool p (n p) n q)
unfolding put_pool
put_pool-own p m n R all q = elim (Bool-cases (code p == code q)) [
  | inl same ↦
      let this : p ≡ q = code-injective p q (==→eq (code p) (code q) same) in
      rw same (subst (λ r. R q (m q) (n r)) (sym this) (all q))
  | inr other ↦ rw other (all q)
]

module _ {Hash : Type 0} (h : ImtHash Hash) where
  -- a full node's insertion of the nullifiers of a block, pool by pool
  unfoldable pub insert_pools :
      (PoolId → List Value)
      → List PoolId
      → (PoolId → IndexedMerkleTree Hash)
      → Result (ImtError Hash) (PoolId → IndexedMerkleTree Hash)
  unfolding put_pool
  insert_pools values [] trees = ok trees
  insert_pools values (p ∷ ps) trees = do
    t ← insert_all h (values p) (trees p)
    insert_pools values ps (put_pool p t trees)
