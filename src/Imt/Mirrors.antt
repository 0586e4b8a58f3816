-- ===== src/Imt/Mirrors.antt =====
-- imt.rs: trees that are the same but for the representation of their node caches.
use ztreexo.Prelude.{ℕ, ◌≤◌, ◌≡◌, arith, refl, sym, ap, ◌∙◌, subst}
use ztreexo.Digest.ImtHash.{ImtHash}
use ztreexo.Imt.Tree.{IndexedMerkleTree, node}
use ztreexo.Imt.Invariant.{IsValid}
use ztreexo.Imt.Cache.{IsCached}

-- Two trees that differ in the representation of their node caches only: every digest up to the root
-- is the same.
pub record SameTree {Hash : Type 0} (h : ImtHash Hash) (t u : IndexedMerkleTree Hash) : Type 0 where
  pub pool_same : t.pool ≡ u.pool
  pub depth_same : t.depth ≡ u.depth
  pub zeros_same : t.zeros ≡ u.zeros
  pub leaves_same : t.leaves ≡ u.leaves
  pub index_same : t.index_by_value ≡ u.index_by_value
  pub nodes_same : (l i : ℕ) → l ≤ u.depth → node h t l i ≡ node h u l i

-- the same tree but for the representation of the node cache, which is right
pub record Mirrors {Hash : Type 0} (h : ImtHash Hash) (u t : IndexedMerkleTree Hash) : Type 0 where
  pub pool_same : u.pool ≡ t.pool
  pub depth_same : u.depth ≡ t.depth
  pub zeros_same : u.zeros ≡ t.zeros
  pub leaves_same : u.leaves ≡ t.leaves
  pub index_same : u.index_by_value ≡ t.index_by_value
  pub cached : IsCached h u

module _ {Hash : Type 0} (h : ImtHash Hash) where
  pub Mirrors-self : (t : IndexedMerkleTree Hash) → IsValid h t → Mirrors h t t
  Mirrors-self t valid = record {
    pool_same = refl;
    depth_same = refl;
    zeros_same = refl;
    leaves_same = refl;
    index_same = refl;
    cached = valid.cached;
  }

  pub Mirrors-eq : (u t : IndexedMerkleTree Hash) → Mirrors h u t → u ≡ record t { nodes = u.nodes }
  Mirrors-eq u t m =
      ground (arith, m.pool_same, m.depth_same, m.zeros_same, m.leaves_same, m.index_same)

  pub Mirrors-SameTree :
      (u t : IndexedMerkleTree Hash) → IsValid h t → Mirrors h u t → SameTree h u t
  unfolding node
  Mirrors-SameTree u t valid m =
      let same : u ≡ record t { nodes = u.nodes } = Mirrors-eq u t m in
      let cached = subst (IsCached h) same m.cached in
      record {
        pool_same = m.pool_same;
        depth_same = m.depth_same;
        zeros_same = m.zeros_same;
        leaves_same = m.leaves_same;
        index_same = m.index_same;
        nodes_same = λ l i fits.
            ap (λ (x : IndexedMerkleTree Hash). node h x l i) same
            ∙ cached l i fits
            ∙ sym (valid.cached l i fits);
      }
