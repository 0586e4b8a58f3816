-- ===== src/Rollback/Applied.antt =====
-- rollback.rs: what a successful `apply_block` did, half by half, and that each half can be redone or
-- undone from its delta.
use ztreexo.Prelude.{◌≡◌, [], Option, some, ok, refl, sym, ap, ◌∙◌, subst}
use ztreexo.Pool.{PoolId, all_pools}
use ztreexo.Digest.ImtHash.{ImtHash}
use ztreexo.Imt.Tree.{IndexedMerkleTree}
use ztreexo.Imt.Invariant.{IsValid}
use ztreexo.Imt.Histories.{AllValues}
use ztreexo.Chain.Types.{BlockSummary}
use ztreexo.Chain.Accumulators.{Forests, ChainAccumulators, StateDelta, ApplyOptions, ApplyOutcome}
use ztreexo.Chain.Apply.{Chain, remove_utxos, insert_utxos, surviving_outputs, apply_block}
use ztreexo.Chain.Commit.{HoldsTrees, distinct_pools}
use ztreexo.Rollback.Replay.{replay_transparent}
use ztreexo.Rollback.Unwind.{undo_pools, reversed}
use ztreexo.Rollback.Pools.{HoldsMirrors}
use ztreexo.Rollback.Block.{insert_nullifiers-Unwinds}
use ztreexo.Rollback.Committed.{commit_block-Committed, Committed-replays, apply_block-commit}

module _ {Hash Forest Failure : Type 0} (h : ImtHash Hash) (f : Forests Hash Forest Failure) where
  -- A block that was applied to accumulators with trees `ts`, and left `ts'`: its transparent half can
  -- be replayed from its delta, and its shielded half can be undone from it.
  pub record AppliedBlock (c c' : Chain h f) (delta : StateDelta Hash)
      (ts ts' : PoolId → IndexedMerkleTree Hash) : Type 0 where
    pub tip_next : c'.tip ≡ some delta.height
    pub holds : HoldsTrees h f c'.nullifiers ts'
    pub replays :
        (d : ChainAccumulators Hash Forest)
        → d.utxos ≡ c.utxos
        → d.utxo_index ≡ c.utxo_index
        → replay_transparent f delta d
          ≡ (record d { utxos = c'.utxos; utxo_index = c'.utxo_index }, ok tt)
    pub undoes :
        (d : ChainAccumulators Hash Forest) (us : PoolId → IndexedMerkleTree Hash)
        → HoldsMirrors h f d.nullifiers us ts'
        → (held : PoolId → Option (IndexedMerkleTree Hash)) × (us' : PoolId
            → IndexedMerkleTree Hash)
          × (undo_pools h {Failure = Failure} delta.insertions (reversed all_pools) d
              ≡ (record d { nullifiers = held }, ok tt))
          × HoldsMirrors h f held us' ts

  -- A block that `apply_block` applied to valid trees has moved the tip to its height and left valid
  -- trees. `replay_transparent` with its delta takes any accumulators with the forest and the index
  -- from before the block to those after it. On trees that mirror the ones after the block, undoing the
  -- insertions of its delta, the pools and values backward, succeeds and leaves trees that mirror the
  -- ones before it: they differ at most in how the node cache is represented.
  pub apply_block-AppliedBlock :
      (c c' : Chain h f) (summary : BlockSummary) (options : ApplyOptions)
      (outcome : ApplyOutcome Hash) (ts : PoolId → IndexedMerkleTree Hash)
      → HoldsTrees h f c.nullifiers ts
      → ((p : PoolId) → AllValues (summary.nullifiers_for p))
      → apply_block h f c summary options ≡ (c', ok outcome)
      → (ts' : PoolId → IndexedMerkleTree Hash) × AppliedBlock c c' outcome.delta ts ts'
  apply_block-AppliedBlock c c' summary options outcome ts holds in_type e =
      let (r, committed) = apply_block-commit h f c c' summary options outcome e in
      let k = commit_block-Committed h f c c' summary r outcome committed in
      let created = surviving_outputs r.cancelled summary.transparent_creates in
      let c4 : Chain h f = record c {
        utxos = k.last;
        utxo_index = insert_utxos created (remove_utxos r.spent c.utxo_index);
      } in
      let w =
        insert_nullifiers-Unwinds h f summary all_pools c4 k.c5 ts (λ p. []) k.insertions
          distinct_pools holds in_type (refl, (refl, (refl, (refl, tt)))) k.inserted in
      let final' : c' ≡ record c4 { nullifiers = k.c5.nullifiers; tip = some summary.height } =
        k.final ∙ ap (λ (x : Chain h f). record x { tip = some summary.height }) w.rest_same in
      (
        w.ts',
        record {
          tip_next =
              ap (λ (x : Chain h f). x.tip) final'
              ∙ ap (λ (x : StateDelta Hash). some x.height) (sym k.made);
          holds = λ p.
              subst (λ (x : Chain h f). (x.nullifiers p ≡ some (w.ts' p)) × IsValid h (w.ts' p))
                (sym final') (w.holds p);
          replays = λ d same same_index.
              Committed-replays h f c c' summary r outcome.delta k d
                (ap (λ (x : Chain h f). x.utxos) final')
                (ap (λ (x : Chain h f). x.utxo_index) final') same same_index;
          undoes = λ d us mirrors.
              let (held, us', undone, back) = w.back d us mirrors in
              (
                held,
                us',
                ap
                      (λ (x : StateDelta Hash).
                        undo_pools h {Failure = Failure} x.insertions (reversed all_pools) d)
                      k.made
                    ∙ undone,
                back,
              );
        },
      )
