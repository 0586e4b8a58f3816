-- ===== src/Chain/Apply.antt =====
-- crates/zutreexo-chain/src/block_apply.rs: `apply_block`.
use ztreexo.Prelude.{
  ℕ, ◌+◌, Bool, true, false, not, ◌&&◌, ◌||◌, List, [], ◌∷◌, ◌++◌, map, none, some, Result, ok, err,
  ◌>>=◌, ◌>>◌, refuse_if, ok_or, ◌==◌, if◌then◌else◌,
}
use ztreexo.Pool.{PoolId, all_pools}
use ztreexo.Digest.ImtHash.{ImtHash}
use ztreexo.Imt.Types.{Value, InsertionProof, ImtError}
use ztreexo.Imt.Tree.{IndexedMerkleTree, contains, insert}
use ztreexo.Imt.Histories.{member}
use ztreexo.Chain.Types.{
  OutPoint, UtxoLeaf, BlockSummary, put_pool, has_outpoint, next_height, is_empty,
}
use ztreexo.Chain.Accumulators.{
  Forests, UtxoIndex, utxo, remove_utxo, insert_utxo, ChainAccumulators, ApplyOptions, ApplyOutcome,
  ApplyError, unknown_outpoint, duplicate_spend, duplicate_nullifier, missing_pool, out_of_order,
  imt, utreexo,
}

-- the spends resolved so far, in order
pub record Resolved : Type 0 where
  pub spent : List (OutPoint × UtxoLeaf)
  pub cancelled : List OutPoint
  pub unknown_spends : ℕ

abbrev pub nothing_resolved : Resolved
nothing_resolved = record { spent = []; cancelled = []; unknown_spends = 0 }

-- the created outputs that this block does not spend
unfoldable pub surviving_outputs :
    List OutPoint → List (OutPoint × UtxoLeaf) → List (OutPoint × UtxoLeaf)
unfolding has_outpoint
surviving_outputs cancelled [] = []
surviving_outputs cancelled ((o, leaf) ∷ creates) =
    let rest = surviving_outputs cancelled creates in
    if has_outpoint o cancelled then rest else (o, leaf) ∷ rest

abbrev pub remove_utxos : List (OutPoint × UtxoLeaf) → UtxoIndex → UtxoIndex
remove_utxos [] index = index
remove_utxos ((o, leaf) ∷ spent) index = remove_utxos spent (remove_utxo o index)

abbrev pub insert_utxos : List (OutPoint × UtxoLeaf) → UtxoIndex → UtxoIndex
insert_utxos [] index = index
insert_utxos ((o, leaf) ∷ created) index = insert_utxos created (insert_utxo o leaf index)

abbrev pub leaves_of : List (OutPoint × UtxoLeaf) → List UtxoLeaf
leaves_of outputs = map (λ o. o.1) outputs

module _ {Hash Forest Failure : Type 0} (h : ImtHash Hash) (f : Forests Hash Forest Failure) where
  abbrev pub Applying : Type 0 → Type 0
  Applying A = Result (ApplyError Hash Failure) A

  abbrev pub Chain : Type 0
  Chain = ChainAccumulators Hash Forest

  -- stage 1a: every spend, against the index first and then the outputs of the block
  unfoldable pub resolve_spends :
      ℕ
      → Bool
      → UtxoIndex
      → List (OutPoint × UtxoLeaf)
      → List OutPoint
      → Resolved
      → List OutPoint
      → Applying Resolved
  unfolding has_outpoint utxo
  resolve_spends height allow index created seen r [] = ok r
  resolve_spends height allow index created seen r (o ∷ spends) =
      let next =
        λ (r' : Resolved). resolve_spends height allow index created (o ∷ seen) r' spends in
      if has_outpoint o seen then err (duplicate_spend height o) else elim (utxo o index) [
        | some leaf ↦ next (record r { spent = r.spent ++ (o, leaf) ∷ [] })
        | none ↦
            if has_outpoint o (map (λ c. c.0) created)
            then next (record r { cancelled = o ∷ r.cancelled })
            else if allow
            then next (record r { unknown_spends = r.unknown_spends + 1 })
            else err (unknown_outpoint height o)
      ]

  -- stage 3a for one pool: no value is in the tree, or twice in the block
  unfoldable pub check_values :
      ℕ → PoolId → IndexedMerkleTree Hash → List Value → List Value → Applying (Unit {0})
  check_values height p t within_block [] = ok tt
  check_values height p t within_block (v ∷ vs) = do
    refuse_if (contains t v || member v within_block) (duplicate_nullifier height p)
    check_values height p t (v ∷ within_block) vs

  unfoldable pub check_nullifiers : Chain → BlockSummary → List PoolId → Applying (Unit {0})
  unfolding check_values
  check_nullifiers c summary [] = ok tt
  check_nullifiers c summary (p ∷ ps) = do
    elim (is_empty (summary.nullifiers_for p)) [
      | true ↦ ok tt
      | false ↦ do
        t ← ok_or (c.nullifiers p) (missing_pool p)
        check_values summary.height p t [] (summary.nullifiers_for p)
    ]
    check_nullifiers c summary ps

  unfoldable pub check_contiguous : Chain → BlockSummary → Bool → Applying (Unit {0})
  check_contiguous c summary false = ok tt
  check_contiguous c summary true = elim c.tip [
    | none ↦ ok tt
    | some tip ↦
        refuse_if (not (summary.height == next_height tip))
          (out_of_order (next_height tip) summary.height)
  ]

  -- everything before the first mutation
  unfoldable pub stage_block : Chain → BlockSummary → ApplyOptions → Applying Resolved
  unfolding resolve_spends check_nullifiers check_contiguous
  stage_block c summary options = do
    check_contiguous c summary options.enforce_contiguous
    r ←
        resolve_spends summary.height options.allow_unknown_spends c.utxo_index
          summary.transparent_creates [] nothing_resolved summary.transparent_spends
    check_nullifiers c summary all_pools
    ok r

  -- `UtxoForest::delete` or `insert`, unless there are no leaves
  unfoldable pub modify_forest : Chain → List Hash → List Hash → Chain × Applying (Unit {0})
  modify_forest c additions deletions =
      if is_empty additions && is_empty deletions
      then (c, ok tt)
      else let (forest, outcome) = f.modify c.utxos additions deletions in
        (record c { utxos = forest }, elim outcome [ ok _ ↦ ok tt | err e ↦ err (utreexo e) ])

  -- a change of the accumulators, and what follows if it succeeds
  abbrev pub and_then :
      {A B : Type 0} → Chain × Applying A → (Chain → A → Chain × Applying B) → Chain × Applying B
  and_then (c, ok a) next = next c a
  and_then (c, err e) next = (c, err e)

  -- the loop over one pool's values: the tree afterwards, with the proofs
  unfoldable pub insert_each :
      IndexedMerkleTree Hash
      → List Value
      → IndexedMerkleTree Hash × Result (ImtError Hash) (List (Value × InsertionProof Hash))
  insert_each t [] = (t, ok [])
  insert_each t (v ∷ vs) = elim (insert h t v) [
    | err e ↦ (t, err e)
    | ok (t', proof) ↦
        let (last, applied) = insert_each t' vs in (last, (do ps ← applied; ok ((v, proof) ∷ ps)))
  ]

  -- step 3b, from the insertions recorded so far
  unfoldable pub insert_nullifiers :
      BlockSummary
      → List PoolId
      → Chain
      → (PoolId → List (Value × InsertionProof Hash))
      → Chain × Applying (PoolId → List (Value × InsertionProof Hash))
  unfolding insert_each put_pool
  insert_nullifiers summary [] c insertions = (c, ok insertions)
  insert_nullifiers summary (p ∷ ps) c insertions =
      let values = summary.nullifiers_for p in
      elim (is_empty values) [
        | true ↦ insert_nullifiers summary ps c insertions
        | false ↦ elim (c.nullifiers p) [
          | none ↦ (c, err (missing_pool p))
          | some t ↦
              let (t', outcome) = insert_each t values in
              let c' = record c { nullifiers = put_pool p (some t') c.nullifiers } in
              elim outcome [
                | err e ↦ (c', err (imt e))
                | ok applied ↦ insert_nullifiers summary ps c' (put_pool p applied insertions)
              ]
        ]
      ]

  -- the mutation, from the resolved spends: steps 1b, 2, 3b and the tip
  unfoldable pub commit_block :
      Chain → BlockSummary → Resolved → Chain × Applying (ApplyOutcome Hash)
  unfolding modify_forest insert_nullifiers surviving_outputs
  commit_block c summary r =
      let created = surviving_outputs r.cancelled summary.transparent_creates in
      and_then (modify_forest c [] (map f.leaf_hash (leaves_of r.spent))) (λ c1 _.
        let c2 = record c1 { utxo_index = remove_utxos r.spent c1.utxo_index } in
        and_then (modify_forest c2 (map f.leaf_hash (leaves_of created)) []) (λ c3 _.
          let c4 = record c3 { utxo_index = insert_utxos created c3.utxo_index } in
          and_then (insert_nullifiers summary all_pools c4 (λ p. [])) (λ c5 insertions. (
            record c5 { tip = some summary.height },
            ok (record {
              delta = record {
                height = summary.height;
                spent = r.spent;
                created = created;
                insertions = insertions;
                commitments = summary.commitments_for;
              };
              unknown_spends = r.unknown_spends;
            }),
          ))))

  -- `apply_block`: the accumulators afterwards, with the outcome
  unfoldable pub apply_block :
      Chain → BlockSummary → ApplyOptions → Chain × Applying (ApplyOutcome Hash)
  unfolding stage_block commit_block
  apply_block c summary options = elim (stage_block c summary options) [
    | err e ↦ (c, err e)
    | ok r ↦ commit_block c summary r
  ]
