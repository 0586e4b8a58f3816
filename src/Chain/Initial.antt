-- ===== src/Chain/Initial.antt =====
-- crates/zutreexo-chain/src/pool.rs: the accumulators before the first block.
use ztreexo.Prelude.{ℕ, ◌≤◌, ◌≡◌, ◌⊎◌, inl, inr, [], Option, none, some, ok, err, refl, subst, ◌==◌}
use ztreexo.Pool.{PoolId, sprout, sapling, orchard, ironwood, all_pools, code}
use ztreexo.Digest.ImtHash.{ImtHash}
use ztreexo.Imt.Types.{Value, ImtState, invalid_depth}
use ztreexo.Imt.Path.{state_new}
use ztreexo.Imt.Tree.{IndexedMerkleTree, with_depth, contains, state}
use ztreexo.Imt.Invariant.{IsValid}
use ztreexo.Imt.Initial.{with_depth_outcome}
use ztreexo.Chain.Types.{put_pool}
use ztreexo.Chain.Accumulators.{Forests, ChainAccumulators, new_trees, new}
use ztreexo.Chain.Commit.{HoldsTrees}
use ztreexo.Chain.State.{imt_states}

module _ {Hash Forest Failure : Type 0} (h : ImtHash Hash) (f : Forests Hash Forest Failure) where
  -- the tree of a pool that holds the sentinel alone
  abbrev Fresh : ℕ → PoolId → IndexedMerkleTree Hash → Type 0
  Fresh depth p t =
      (with_depth h p depth ≡ ok t)
      × IsValid h t
      × ((w : Value) → contains t w ≡ (0 == w))
      × (state_new h p depth ≡ ok (state h t))

  with_depth-Fresh :
      (depth : ℕ) (p : PoolId)
      → 1 ≤ depth
      → depth ≤ 63
      → (t : IndexedMerkleTree Hash) × Fresh depth p t
  with_depth-Fresh depth p low high = elim (with_depth_outcome h p depth) [
    | inl (outside, _, _) ↦ absurd (outside (low, high))
    | inr (t, made, valid, _, _, holds, fresh_state) ↦ (t, (made, valid, holds, fresh_state))
  ]

  held_by : (PoolId → IndexedMerkleTree Hash) → PoolId → Option (IndexedMerkleTree Hash)
  unfolding put_pool
  held_by trees = put_pool ironwood (some (trees ironwood)) (
      put_pool orchard (some (trees orchard)) (
        put_pool sapling (some (trees sapling))
          (put_pool sprout (some (trees sprout)) (λ p. none))))

  held_by-own :
      (trees : PoolId → IndexedMerkleTree Hash) (p : PoolId) → held_by trees p ≡ some (trees p)
  unfolding held_by put_pool code
  held_by-own trees sprout = refl
  held_by-own trees sapling = refl
  held_by-own trees orchard = refl
  held_by-own trees ironwood = refl

  new_trees-held :
      (depth : ℕ) (trees : PoolId → IndexedMerkleTree Hash)
      → ((p : PoolId) → with_depth h p depth ≡ ok (trees p))
      → new_trees h f depth all_pools (λ p. none) ≡ ok (held_by trees)
  unfolding new_trees held_by
  new_trees-held depth trees made =
      let a = made sprout in
      let b = made sapling in
      let c = made orchard in let d = made ironwood in rw (a, new_trees, b, c, d) refl

  new_trees_refused :
      (depth : ℕ)
      → with_depth h sprout depth ≡ err (invalid_depth depth)
      → new_trees h f depth all_pools (λ p. none) ≡ err (invalid_depth depth)
  unfolding new_trees
  new_trees_refused depth refused = rw (refused, new_trees) refl

  -- `ChainAccumulators::new` refuses a depth outside 1 to 63. Otherwise it returns accumulators without
  -- a tip and without outputs, with a valid tree for every pool that holds the sentinel alone; and
  -- `imt_states` reports for every pool the state that `ImtState::new` starts a light node with.
  pub new_outcome :
      (depth : ℕ)
      → ((¬ ((1 ≤ depth) × (depth ≤ 63))) × (new h f depth ≡ err (invalid_depth depth)))
        ⊎ ((c : ChainAccumulators Hash Forest) × (trees : PoolId → IndexedMerkleTree Hash) × (new h
                f depth
              ≡ ok c)
            × (c.tip ≡ none)
            × (c.utxo_index ≡ [])
            × HoldsTrees h f c.nullifiers trees
            × ((p : PoolId) (w : Value) → contains (trees p) w ≡ (0 == w))
            × ((p : PoolId)
                → (s : ImtState Hash) × (imt_states c h p ≡ some s) × (state_new h p depth ≡ ok s)))
  unfolding new imt_states
  new_outcome depth = elim (with_depth_outcome h sprout depth) [
    | inl (outside, refused, _) ↦
        let refused' = new_trees_refused depth refused in inl (outside, rw (refused', new) refl)
    | inr (t, _, valid, _, deep, _, _) ↦
        let fresh = λ (p : PoolId).
          with_depth-Fresh depth p (subst (λ (n : ℕ). 1 ≤ n) deep valid.depth_min)
            (subst (λ (n : ℕ). n ≤ 63) deep valid.depth_max) in
        let trees = λ (p : PoolId). (fresh p).0 in
        let built = new_trees-held depth trees (λ p. (fresh p).1.0) in
        inr (
          record {
            depth = depth;
            nullifiers = held_by trees;
            utxos = f.new;
            utxo_index = [];
            tip = none;
          },
          trees,
          rw (built, new) refl,
          refl,
          refl,
          (λ p. (held_by-own trees p, (fresh p).1.1)),
          (λ p. (fresh p).1.2),
          λ p.
              let own = held_by-own trees p in
              (state h (trees p), rw (own, imt_states) refl, (fresh p).1.3),
        )
  ]
