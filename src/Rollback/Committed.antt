-- ===== src/Rollback/Committed.antt =====
-- rollback.rs: the parts of a block that `apply_block` committed, and replaying its delta.
use ztreexo.Prelude.{
  ◌≡◌, inl, inr, ◌&&◌, List, [], map, some, ok, err, arith, refl, sym, ap, ap₂, ◌∙◌, Bool-cases,
  Result-cases,
}
use ztreexo.Pool.{PoolId, all_pools}
use ztreexo.Digest.ImtHash.{ImtHash}
use ztreexo.Imt.Types.{Value, InsertionProof}
use ztreexo.Chain.Types.{BlockSummary, is_empty}
use ztreexo.Chain.Accumulators.{
  Forests, ChainAccumulators, StateDelta, ApplyOptions, ApplyOutcome, UtxoIndex,
}
use ztreexo.Chain.Apply.{
  Chain, Applying, Resolved, and_then, modify_forest, leaves_of, remove_utxos, insert_utxos,
  surviving_outputs, insert_nullifiers, commit_block, stage_block, apply_block,
}
use ztreexo.Rollback.Replay.{change_forest, replay_transparent}

module _ {Hash Forest Failure : Type 0} (h : ImtHash Hash) (f : Forests Hash Forest Failure) where
  and_then-eq_ok :
      {A B : Type 0} (m : Chain h f × Applying h f A)
      (next : Chain h f → A → Chain h f × Applying h f B) {c' : Chain h f} {b : B}
      → and_then h f m next ≡ (c', ok b)
      → (c : Chain h f) × (a : A) × (m ≡ (c, ok a)) × (next c a ≡ (c', ok b))
  and_then-eq_ok (c, ok a) next e = (c, a, refl, e)
  and_then-eq_ok (c, err x) next e = absurd (ground arith)

  -- the same change of the same forest in other accumulators
  change_forest-modify_forest :
      (c c1 : Chain h f) (d : ChainAccumulators Hash Forest) (additions deletions : List Hash)
      → modify_forest h f c additions deletions ≡ (c1, ok tt)
      → d.utxos ≡ c.utxos
      → (c1 ≡ record c { utxos = c1.utxos })
        × (change_forest f d additions deletions ≡ (record d { utxos = c1.utxos }, ok tt))
  unfolding modify_forest change_forest
  change_forest-modify_forest c c1 d additions deletions e same =
      elim (Bool-cases (is_empty additions && is_empty deletions)) [
        | inl nothing ↦ (ground arith, ground arith)
        | inr something ↦ elim (Result-cases (f.modify c.utxos additions deletions).1) [
          | inl (_, went) ↦
              (ground arith, ground (arith, ap (λ x. f.modify x additions deletions) same))
          | inr (_, failed) ↦ absurd (ground arith)
        ]
      ]

  replay_both :
      (delta : StateDelta Hash) (d : ChainAccumulators Hash Forest) (mid last : Forest)
      → change_forest f d [] (map f.leaf_hash (leaves_of delta.spent))
        ≡ (record d { utxos = mid }, ok tt)
      → change_forest f
          (record d { utxos = mid; utxo_index = remove_utxos delta.spent d.utxo_index })
          (map f.leaf_hash (leaves_of delta.created))
          []
        ≡ (record d { utxos = last; utxo_index = remove_utxos delta.spent d.utxo_index }, ok tt)
      → replay_transparent f delta d ≡ (
        record d {
          utxos = last;
          utxo_index = insert_utxos delta.created (remove_utxos delta.spent d.utxo_index);
        },
        ok tt,
      )
  unfolding replay_transparent
  replay_both delta d mid last first second = rw (first, second) refl

  -- the parts of a committed block
  pub record Committed (c c' : Chain h f) (summary : BlockSummary) (r : Resolved)
      (delta : StateDelta Hash) : Type 0 where
    pub mid : Forest
    pub last : Forest
    pub c5 : Chain h f
    pub insertions : PoolId → List (Value × InsertionProof Hash)
    pub made : delta ≡ record {
      height = summary.height;
      spent = r.spent;
      created = surviving_outputs r.cancelled summary.transparent_creates;
      insertions = insertions;
      commitments = summary.commitments_for;
    }
    pub deleted :
        modify_forest h f c [] (map f.leaf_hash (leaves_of r.spent))
        ≡ (record c { utxos = mid }, ok tt)
    pub added :
        modify_forest h f
          (record c { utxos = mid; utxo_index = remove_utxos r.spent c.utxo_index })
          (map f.leaf_hash (leaves_of (surviving_outputs r.cancelled summary.transparent_creates)))
          []
        ≡ (record c { utxos = last; utxo_index = remove_utxos r.spent c.utxo_index }, ok tt)
    pub inserted :
        insert_nullifiers h f summary all_pools
          (record c {
            utxos = last;
            utxo_index =
                insert_utxos
                  (surviving_outputs r.cancelled summary.transparent_creates)
                  (remove_utxos r.spent c.utxo_index);
          })
          (λ p. [])
        ≡ (c5, ok insertions)
    pub final : c' ≡ record c5 { tip = some summary.height }

  pub commit_block-Committed :
      (c c' : Chain h f) (summary : BlockSummary) (r : Resolved) (outcome : ApplyOutcome Hash)
      → commit_block h f c summary r ≡ (c', ok outcome)
      → Committed c c' summary r outcome.delta
  unfolding commit_block
  commit_block-Committed c c' summary r outcome e =
      let spent = map f.leaf_hash (leaves_of r.spent) in
      let created = surviving_outputs r.cancelled summary.transparent_creates in
      let (c1, _, first, e1) = and_then-eq_ok (modify_forest h f c [] spent) _ e in
      let (same1, _) = change_forest-modify_forest c c1 c [] spent first refl in
      let c2 : Chain h f = record c1 { utxo_index = remove_utxos r.spent c1.utxo_index } in
      let (c3, _, second, e2) =
        and_then-eq_ok (modify_forest h f c2 (map f.leaf_hash (leaves_of created)) []) _ e1 in
      let (same3, _) =
        change_forest-modify_forest c2 c3 c2 (map f.leaf_hash (leaves_of created)) [] second refl in
      let c4 : Chain h f = record c3 { utxo_index = insert_utxos created c3.utxo_index } in
      let (c5, insertions, third, e3) =
        and_then-eq_ok (insert_nullifiers h f summary all_pools c4 (λ p. [])) _ e2 in
      let k2 : Chain h f = record c {
        utxos = c1.utxos;
        utxo_index = remove_utxos r.spent c.utxo_index;
      } in
      let here2 : c2 ≡ k2 =
        ap (λ (x : Chain h f). record x { utxo_index = remove_utxos r.spent x.utxo_index }) same1 in
      let here3 : c3 ≡ record k2 { utxos = c3.utxos } =
        same3 ∙ ap (λ (x : Chain h f). record x { utxos = c3.utxos }) here2 in
      let here4 : c4
          ≡ record k2 { utxos = c3.utxos; utxo_index = insert_utxos created k2.utxo_index } =
        ap (λ (x : Chain h f). record x { utxo_index = insert_utxos created x.utxo_index }) here3 in
      record {
        mid = c1.utxos;
        last = c3.utxos;
        c5 = c5;
        insertions = insertions;
        made = ground arith;
        deleted = first ∙ ap (λ (x : Chain h f). (x, ok tt)) same1;
        added =
            ap (λ (x : Chain h f). modify_forest h f x (map f.leaf_hash (leaves_of created)) [])
              (sym here2)
            ∙ second
            ∙ ap (λ (x : Chain h f). (x, ok tt)) here3;
        inserted =
            ap (λ (x : Chain h f). insert_nullifiers h f summary all_pools x (λ p. [])) (sym here4)
            ∙ third;
        final = ground arith;
      }

  pub Committed-replays :
      (c c' : Chain h f) (summary : BlockSummary) (r : Resolved) (delta : StateDelta Hash)
      (k : Committed c c' summary r delta) (d : ChainAccumulators Hash Forest)
      → c'.utxos ≡ k.last
      → c'.utxo_index
        ≡ insert_utxos
            (surviving_outputs r.cancelled summary.transparent_creates)
            (remove_utxos r.spent c.utxo_index)
      → d.utxos ≡ c.utxos
      → d.utxo_index ≡ c.utxo_index
      → replay_transparent f delta d
        ≡ (record d { utxos = c'.utxos; utxo_index = c'.utxo_index }, ok tt)
  Committed-replays c c' summary r delta k d end_utxos end_index same same_index =
      let created = surviving_outputs r.cancelled summary.transparent_creates in
      let (_, first) =
        change_forest-modify_forest c (record c { utxos = k.mid }) d []
          (map f.leaf_hash (leaves_of r.spent)) k.deleted same in
      let (_, second) =
        change_forest-modify_forest
          (record c { utxos = k.mid; utxo_index = remove_utxos r.spent c.utxo_index })
          (record c { utxos = k.last; utxo_index = remove_utxos r.spent c.utxo_index })
          (record d { utxos = k.mid; utxo_index = remove_utxos r.spent d.utxo_index })
          (map f.leaf_hash (leaves_of created)) [] k.added refl in
      let index_same : insert_utxos created (remove_utxos r.spent d.utxo_index) ≡ c'.utxo_index =
        ap (λ (x : UtxoIndex). insert_utxos created (remove_utxos r.spent x)) same_index
        ∙ sym end_index in
      ap (λ (x : StateDelta Hash). replay_transparent f x d) k.made
      ∙ replay_both _ d k.mid k.last first second
      ∙ ap₂ (λ (u : Forest) (x : UtxoIndex). (record d { utxos = u; utxo_index = x }, ok tt))
          (sym end_utxos) index_same

  pub apply_block-commit :
      (c c' : Chain h f) (summary : BlockSummary) (options : ApplyOptions)
      (outcome : ApplyOutcome Hash)
      → apply_block h f c summary options ≡ (c', ok outcome)
      → (r : Resolved) × (commit_block h f c summary r ≡ (c', ok outcome))
  unfolding apply_block
  apply_block-commit c c' summary options outcome e =
      elim (Result-cases (stage_block h f c summary options)) [
        | inl (r, staged) ↦ (r, ground arith)
        | inr (x, refused) ↦ absurd (ground arith)
      ]
