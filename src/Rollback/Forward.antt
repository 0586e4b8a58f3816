-- ===== src/Rollback/Forward.antt =====
-- rollback.rs: replaying the deltas above a snapshot, and undoing those above the target.
use ztreexo.Prelude.{
  ℕ, zero, suc, ◌+◌, ◌≤◌, ◌<◌, ◌≡◌, List, [], ◌∷◌, ◌++◌, Option, some, ok, arith, refl, sym, ap,
  ap₂, ◌∙◌, subst,
}
use ztreexo.Pool.{PoolId, all_pools}
use ztreexo.Digest.ImtHash.{ImtHash}
use ztreexo.Imt.Tree.{IndexedMerkleTree}
use ztreexo.Chain.Accumulators.{Forests, ChainAccumulators, StateDelta, UtxoIndex}
use ztreexo.Rollback.Unwind.{undo_pools, undo_deltas, reversed}
use ztreexo.Rollback.Replay.{replay_transparent, replay_steps, delta_for}
use ztreexo.Rollback.Runs.{delta_run, delta_run-snoc, delta_for-delta_run}
use ztreexo.Rollback.Pools.{HoldsMirrors}
use ztreexo.Rollback.Applied.{AppliedBlock}

reversed-snoc {ℓ} : {A : Type ℓ} (xs : List A) (x : A) → reversed (xs ++ x ∷ []) ≡ x ∷ reversed xs
reversed-snoc [] x = refl
reversed-snoc (y ∷ xs) x = ap (λ ys. ys ++ y ∷ []) (reversed-snoc xs x)

module _ {Hash Forest Failure : Type 0} (h : ImtHash Hash) (f : Forests Hash Forest Failure)
    (history : ℕ → ChainAccumulators Hash Forest) (delta_at : ℕ → StateDelta Hash)
    (trees : ℕ → PoolId → IndexedMerkleTree Hash) where
  -- the block that leads from height `m` to the next
  abbrev pub Step : ℕ → Type 0
  Step m =
      AppliedBlock h f (history m) (history (suc m)) (delta_at (suc m)) (trees m) (trees (suc m))

  undo_deltas-step :
      (d : ChainAccumulators Hash Forest) (held : PoolId → Option (IndexedMerkleTree Hash))
      (delta : StateDelta Hash) (rest : List (StateDelta Hash))
      → undo_pools h {Failure = Failure} delta.insertions (reversed all_pools) d
        ≡ (record d { nullifiers = held }, ok tt)
      → undo_deltas h {Failure = Failure} (delta ∷ rest) d
        ≡ undo_deltas h rest (record d { nullifiers = held })
  unfolding undo_deltas
  undo_deltas-step d held delta rest e = rw (undo_deltas, ap (λ x. x.1) e, ap (λ x. x.0) e) refl

  pub undo_deltas-run :
      (height count : ℕ) (d : ChainAccumulators Hash Forest) (us : PoolId → IndexedMerkleTree Hash)
      → ((m : ℕ) → height ≤ m → m < height + count → Step m)
      → HoldsMirrors h f d.nullifiers us (trees (height + count))
      → (held : PoolId → Option (IndexedMerkleTree Hash)) × (us' : PoolId → IndexedMerkleTree Hash)
        × (undo_deltas h {Failure = Failure} (reversed (delta_run delta_at (suc height) count)) d
            ≡ (record d { nullifiers = held }, ok tt))
        × HoldsMirrors h f held us' (trees height)
  undo_deltas-run height zero d us steps mirrors = (
    d.nullifiers,
    us,
    unfold undo_deltas in refl,
    subst (λ (m : ℕ). HoldsMirrors h f d.nullifiers us (trees m)) (omega arith) mirrors,
  )
  undo_deltas-run height (suc count) d us steps mirrors =
      let top : height + suc count ≡ suc (height + count) = omega arith in
      let (held, us1, undone, back) =
        (steps (height + count) (omega arith) (omega arith)).undoes d us
          (subst (λ (m : ℕ). HoldsMirrors h f d.nullifiers us (trees m)) top mirrors) in
      let (held', us', undone', back') =
        undo_deltas-run height count (record d { nullifiers = held }) us1
          (λ m a b. steps m a (omega arith)) back in
      (
        held',
        us',
        ap (λ ds. undo_deltas h {Failure = Failure} (reversed ds) d)
              (sym (delta_run-snoc delta_at (suc height) count))
            ∙ ap (λ ds. undo_deltas h {Failure = Failure} ds d)
                (reversed-snoc (delta_run delta_at (suc height) count)
                  (delta_at (suc height + count)))
            ∙ ap
                (λ (m : ℕ).
                  undo_deltas h {Failure = Failure}
                    (delta_at m ∷ reversed (delta_run delta_at (suc height) count)) d)
                (omega arith)
            ∙ undo_deltas-step d held (delta_at (suc (height + count)))
                (reversed (delta_run delta_at (suc height) count)) undone
            ∙ undone',
        back',
      )

  module _ (numbered : (n : ℕ) → (delta_at n).height ≡ n) where
    replay_steps-step :
        (ds : List (StateDelta Hash)) (n step : ℕ) (d d' : ChainAccumulators Hash Forest)
        (delta : StateDelta Hash)
        → delta_for step ds ≡ some delta
        → replay_transparent f delta d ≡ (d', ok tt)
        → replay_steps f ds (suc n) step d ≡ replay_steps f ds n (suc step) d'
    unfolding replay_steps
    replay_steps-step ds n step d d' delta found replayed =
        rw (found, replay_steps, ap (λ x. x.1) replayed, ap (λ x. x.0) replayed) refl

    pub replay_steps-run :
        (low total count base : ℕ) (d : ChainAccumulators Hash Forest)
        → low ≤ suc base
        → base + count < low + total
        → ((m : ℕ) → base ≤ m → m < base + count → Step m)
        → d.utxos ≡ (history base).utxos
        → d.utxo_index ≡ (history base).utxo_index
        → replay_steps f (delta_run delta_at low total) count (suc base) d ≡ (
          record d {
            utxos = (history (base + count)).utxos;
            utxo_index = (history (base + count)).utxo_index;
          },
          ok tt,
        )
    replay_steps-run low total zero base d a b steps utxos index =
        unfold replay_steps in
        ap₂ (λ (u : Forest) (x : UtxoIndex). (record d { utxos = u; utxo_index = x }, ok tt))
          (utxos ∙ ap (λ (m : ℕ). (history m).utxos) (omega arith))
          (index ∙ ap (λ (m : ℕ). (history m).utxo_index) (omega arith))
    replay_steps-run low total (suc count) base d a b steps utxos index =
        let next = history (suc base) in
        let shift : suc base + count ≡ base + suc count = omega arith in
        let d' : ChainAccumulators Hash Forest = record d {
          utxos = next.utxos;
          utxo_index = next.utxo_index;
        } in
        replay_steps-step (delta_run delta_at low total) count (suc base) d d' (delta_at (suc base))
          (delta_for-delta_run delta_at numbered (suc base) low total a (omega arith))
          ((steps base (omega arith) (omega arith)).replays d utxos index)
        ∙ replay_steps-run low total count (suc base) d' (omega arith) (omega arith)
            (λ m x y. steps m (omega arith) (omega arith)) refl refl
        ∙ ap
            (λ (m : ℕ).
              (record d { utxos = (history m).utxos; utxo_index = (history m).utxo_index }, ok tt))
            shift
