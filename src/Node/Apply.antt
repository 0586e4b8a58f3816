-- ===== src/Node/Apply.antt =====
-- crates/zutreexo-csn/src/lib.rs: `CompactState::new` and `apply_bundle`.
use ztreexo.Prelude.{
  ℕ, true, false, not, ◌&&◌, List, [], ◌∷◌, map, length, Option, none, some, Result, ok, err, ◌>>=◌,
  ◌>>◌, refuse_if, ok_or, ◌==◌, if◌then◌else◌,
}
use ztreexo.Pool.{PoolId, all_pools}
use ztreexo.Digest.ImtHash.{ImtHash}
use ztreexo.Imt.Types.{ImtState, ImtError}
use ztreexo.Imt.Path.{state_new}
use ztreexo.Imt.Histories.{apply_insertions}
use ztreexo.Chain.Types.{
  OutPoint, outpoint_beq, UtxoLeaf, outpoint_of, BlockSummary, BlockProofBundle, put_pool,
  has_outpoint, next_height, is_empty,
}
use ztreexo.Node.Types.{
  Stumps, CompactState, CsnError, height_mismatch, out_of_order, duplicate_spend, unproven_spend,
  unclaimed_leaves, inclusion_proof_failed, insertion_count_mismatch, unexpected_insertions,
  missing_pool, imt, utreexo,
}

-- the pools of `nullifiers`, before any is put there
abbrev pub no_states : {Hash : Type 0} → PoolId → Option (ImtState Hash)
no_states p = none

-- `map_err`, as `?` applies it through `From`
abbrev pub lift_err : {E F A : Type 0} → (E → F) → Result E A → Result F A
lift_err f (ok a) = ok a
lift_err f (err e) = err (f e)

-- `values.iter().zip(proofs)`
unfoldable pub zip : {A B : Type 0} → List A → List B → List (A × B)
zip [] ys = []
zip (x ∷ xs) [] = []
zip (x ∷ xs) (y ∷ ys) = (x, y) ∷ zip xs ys

-- the additions: the leaves of the created outputs that the block does not spend itself
unfoldable pub surviving : List OutPoint → List (OutPoint × UtxoLeaf) → List UtxoLeaf
surviving cancelled [] = []
surviving cancelled ((o, leaf) ∷ creates) =
    let rest = surviving cancelled creates in if has_outpoint o cancelled then rest else leaf ∷ rest

-- what `apply_bundle` has computed before its first assignment
pub record StagedBundle (Hash : Type 0) : Type 0 where
  pub additions : List Hash
  pub deletions : List Hash
  pub nullifiers : PoolId → Option (ImtState Hash)

module _ {Hash Stump Proof Failure : Type 0} (h : ImtHash Hash)
    (u : Stumps Hash Stump Proof Failure) where
  abbrev pub Failing : Type 0 → Type 0
  Failing A = Result (CsnError Hash Failure) A

  -- the loop of `CompactState::new`
  unfoldable pub new_states :
      ℕ
      → List PoolId
      → (PoolId → Option (ImtState Hash))
      → Result (ImtError Hash) (PoolId → Option (ImtState Hash))
  unfolding put_pool
  new_states depth [] states = ok states
  new_states depth (p ∷ ps) states = do
    s ← state_new h p depth
    new_states depth ps (put_pool p (some s) states)

  unfoldable pub new : ℕ → Result (ImtError Hash) (CompactState Hash Stump)
  unfolding new_states
  new depth = do
    states ← new_states depth all_pools no_states
    ok (record { depth = depth; utxos = u.new; nullifiers = states; tip = none })

  -- The walk over the block's spends, beside a cursor into the bundle's leaves: the cancelled outpoints
  -- and the leaves that no spend has claimed.
  unfoldable pub match_spends :
      ℕ
      → List (OutPoint × UtxoLeaf)
      → List OutPoint
      → List OutPoint
      → List UtxoLeaf
      → List OutPoint
      → Failing (List OutPoint × List UtxoLeaf)
  unfolding has_outpoint outpoint_beq
  match_spends height created seen cancelled leaves [] = ok (cancelled, leaves)
  match_spends height created seen cancelled [] (o ∷ spends) =
      let rest = match_spends height created (o ∷ seen) (o ∷ cancelled) [] spends in
      if has_outpoint o seen
      then err (duplicate_spend height o)
      else if has_outpoint o (map (λ c. c.0) created)
      then rest
      else err (unproven_spend height o)
  match_spends height created seen cancelled (leaf ∷ leaves) (o ∷ spends) =
      let claimed = match_spends height created (o ∷ seen) cancelled leaves spends in
      let rest = match_spends height created (o ∷ seen) (o ∷ cancelled) (leaf ∷ leaves) spends in
      if has_outpoint o seen
      then err (duplicate_spend height o)
      else if outpoint_beq (outpoint_of leaf) o
      then claimed
      else if has_outpoint o (map (λ c. c.0) created)
      then rest
      else err (unproven_spend height o)

  -- one pool of the loop that verifies the nullifiers on a scratch copy
  unfoldable pub stage_pool :
      BlockSummary
      → BlockProofBundle Hash Proof
      → ℕ
      → PoolId
      → (PoolId → Option (ImtState Hash))
      → Failing (PoolId → Option (ImtState Hash))
  unfolding put_pool zip
  stage_pool summary bundle depth pool staged =
      let values = summary.nullifiers_for pool in
      let proofs = bundle.insertions pool in
      elim (is_empty values) [
        | true ↦ ok staged
        | false ↦ do
          refuse_if (not (length proofs == length values))
              (insertion_count_mismatch summary.height pool (length values) (length proofs))
          state ← ok_or (staged pool) (missing_pool pool)
          state' ← lift_err imt (apply_insertions h pool depth state (zip values proofs))
          ok (put_pool pool (some state') staged)
      ]

  unfoldable pub stage_pools :
      BlockSummary
      → BlockProofBundle Hash Proof
      → ℕ
      → List PoolId
      → (PoolId → Option (ImtState Hash))
      → Failing (PoolId → Option (ImtState Hash))
  unfolding stage_pool
  stage_pools summary bundle depth [] staged = ok staged
  stage_pools summary bundle depth (p ∷ ps) staged = do
    staged' ← stage_pool summary bundle depth p staged
    stage_pools summary bundle depth ps staged'

  -- no proofs for a pool that the block does not touch
  unfoldable pub check_unused :
      BlockSummary → BlockProofBundle Hash Proof → List PoolId → Failing (Unit {0})
  check_unused summary bundle [] = ok tt
  check_unused summary bundle (p ∷ ps) = do
    refuse_if (not (is_empty (bundle.insertions p)) && is_empty (summary.nullifiers_for p))
        (unexpected_insertions summary.height p)
    check_unused summary bundle ps

  -- the heights of the bundle and of the tip
  unfoldable pub check_height : CompactState Hash Stump → ℕ → ℕ → Failing (Unit {0})
  check_height s height bundle_height = do
    refuse_if (not (bundle_height == height)) (height_mismatch height bundle_height)
    elim s.tip [
      | none ↦ ok tt
      | some tip ↦
          refuse_if (not (height == next_height tip)) (out_of_order (next_height tip) height)
    ]

  -- the inclusion proof of the deletions, verified unless there are none
  unfoldable pub check_inclusion :
      CompactState Hash Stump → ℕ → Proof → List Hash → Failing (Unit {0})
  check_inclusion s height proof deletions = elim (is_empty deletions) [
    | true ↦ ok tt
    | false ↦ do
      included ← lift_err utreexo (u.verify s.utxos proof deletions)
      refuse_if (not included) (inclusion_proof_failed height)
  ]

  -- `apply_bundle` up to the mark "mutation": no assignment so far
  unfoldable pub stage_bundle :
      CompactState Hash Stump
      → BlockSummary
      → BlockProofBundle Hash Proof
      → Failing (StagedBundle Hash)
  unfolding match_spends stage_pools check_unused check_height check_inclusion surviving
  stage_bundle s summary bundle = do
    check_height s summary.height bundle.height
    (cancelled, unclaimed) ←
        match_spends summary.height summary.transparent_creates [] [] bundle.spent
          summary.transparent_spends
    refuse_if (not (is_empty unclaimed)) (unclaimed_leaves summary.height (length unclaimed))
    let deletions = map u.leaf_hash bundle.spent
    check_inclusion s summary.height bundle.utxo_proof deletions
    let additions = map u.leaf_hash (surviving cancelled summary.transparent_creates)
    staged ← stage_pools summary bundle s.depth all_pools s.nullifiers
    check_unused summary bundle all_pools
    ok (record { additions = additions; deletions = deletions; nullifiers = staged })

  -- `UtxoRoots::apply` on the field `utxos`
  unfoldable pub apply_utxos :
      CompactState Hash Stump
      → List Hash
      → List Hash
      → Proof
      → CompactState Hash Stump × Failing (Unit {0})
  apply_utxos s additions deletions proof = elim (u.modify s.utxos additions deletions proof) [
    | err e ↦ (s, err (utreexo e))
    | ok next ↦ (record s { utxos = next }, ok tt)
  ]

  -- the assignments of `apply_bundle`, in their order, with the `?` after the first
  unfoldable pub commit_bundle :
      CompactState Hash Stump
      → ℕ
      → Proof
      → StagedBundle Hash
      → CompactState Hash Stump × Failing (Unit {0})
  unfolding apply_utxos
  commit_bundle s height proof staged =
      let (s1, outcome) = apply_utxos s staged.additions staged.deletions proof in
      elim outcome [
        | err e ↦ (s1, err e)
        | ok _ ↦
            let s2 : CompactState Hash Stump = record s1 { nullifiers = staged.nullifiers } in
            (record s2 { tip = some height }, ok tt)
      ]

  -- `apply_bundle`: the state afterwards, with the outcome
  unfoldable pub apply_bundle :
      CompactState Hash Stump
      → BlockSummary
      → BlockProofBundle Hash Proof
      → CompactState Hash Stump × Failing (Unit {0})
  unfolding stage_bundle commit_bundle
  apply_bundle s summary bundle = elim (stage_bundle s summary bundle) [
    | err e ↦ (s, err e)
    | ok staged ↦ commit_bundle s summary.height bundle.utxo_proof staged
  ]
