-- ===== src/Rollback/Examples.antt =====
-- rollback.rs: two heights, recorded and rolled back.
use ztreexo.Prelude.{ℕ, zero, suc, ◌≤◌, ◌<◌, ◌≡◌, List, some, Result, ok, err, arith, refl}
use ztreexo.Pool.{PoolId, sprout, sapling, orchard, ironwood}
use ztreexo.Imt.Types.{covers}
use ztreexo.Imt.Tree.{IndexedMerkleTree, insert, contains}
use ztreexo.Imt.Path
use ztreexo.Imt.Index
use ztreexo.Imt.Histories.{AllValues, member}
use ztreexo.Imt.Initial.{fresh, fresh-IsValid}
use ztreexo.Imt.Mirrors.{SameTree, Mirrors-self}
use ztreexo.Imt.Sample.{Term, term_hash}
use ztreexo.Chain.Accumulators.{ChainAccumulators}
use ztreexo.Chain.Apply.{apply_block}
use ztreexo.Chain.Commit.{HoldsTrees}
use ztreexo.Rollback.Journal.{
  RollbackError, RollbackJournal, new, record_block, earliest_rollback, tip, check_order,
  take_snapshot, prune, drop_old, drop_covered,
}
use ztreexo.Rollback.RollbackTo.{rollback_to}
use ztreexo.Rollback.Tracks.{Tracks, Reaches}
use ztreexo.Rollback.Reach.{RecordedTo, first, next, record-Reaches}
use ztreexo.Rollback.Applied.{AppliedBlock, apply_block-AppliedBlock}
use ztreexo.Rollback.Restored.{AppliedAt, Stands}
use ztreexo.Rollback.Returns.{rollback_to_iff, rollback_to-returns}
use ztreexo.Rollback.Sample.{
  counting, bytes, empty_trees, genesis, values, block, strict, applied_block, history, delta_at,
  numbered, applied,
}

empty_holds : HoldsTrees term_hash counting genesis.nullifiers empty_trees
empty_holds p = (refl, fresh-IsValid term_hash p 2 (omega arith) (omega arith))

in_type : (p : PoolId) → AllValues (values p)
in_type sprout = tt
in_type sapling = tt
in_type orchard = (omega arith, tt)
in_type ironwood = tt

apply_block-AppliedBlock_example :
    (ts' : PoolId → IndexedMerkleTree Term) × AppliedBlock term_hash counting genesis
      (history 1)
      applied_block.1.delta
      empty_trees
      ts'
apply_block-AppliedBlock_example =
    apply_block-AppliedBlock term_hash counting genesis (history 1) block strict applied_block.1
      empty_trees empty_holds in_type applied

-- the trees after the block
abbrev trees_after :
    (ts' : PoolId → IndexedMerkleTree Term) × AppliedBlock term_hash counting genesis
      (history 1)
      applied_block.1.delta
      empty_trees
      ts'
trees_after =
    apply_block-AppliedBlock term_hash counting genesis (history 1) block strict applied_block.1
      empty_trees empty_holds in_type applied

abbrev trees : ℕ → PoolId → IndexedMerkleTree Term
trees zero = empty_trees
trees (suc n) = trees_after.0

holds : (m : ℕ) → HoldsTrees term_hash counting (history m).nullifiers (trees m)
unfolding history
holds zero = empty_holds
holds (suc m) = unfold history in trees_after.1.holds

-- the journal after one block
abbrev journal_of :
    Result (RollbackError Term (Unit {0})) (RollbackJournal Term) → RollbackJournal Term
journal_of (ok j) = j
journal_of (err e) = new 0 0

abbrev journal_0 : RollbackJournal Term
journal_0 = journal_of (record_block bytes (new 0 10) genesis (delta_at 0))

abbrev journal : RollbackJournal Term
journal = journal_of (record_block bytes journal_0 (history 1) (delta_at 1))

recorded : RecordedTo bytes history delta_at 0 10 0 journal 1
unfolding history delta_at record_block take_snapshot check_order prune tip drop_old drop_covered
    new
recorded =
    next {c = history 1}
      (first {c = genesis} (record { utxos_same = refl; index_same = refl }) refl)
      (record { utxos_same = refl; index_same = refl }) refl

record-Reaches_example : Reaches bytes history delta_at 0 10 journal 1 × (tip journal ≡ some 1)
record-Reaches_example = record-Reaches bytes history delta_at numbered recorded

earliest : earliest_rollback journal ≡ some 0
unfolding history delta_at record_block take_snapshot check_order prune tip drop_old drop_covered
    new earliest_rollback
earliest = refl

tip_1 : (history 1).tip ≡ some 1
unfolding history applied_block apply_block insert fresh term_hash contains Index.contains_key
    Index.insert member Path.capacity_of Index.last_at_most covers
tip_1 = refl

round_trip :
    (forest : ℕ) (written : List ℕ)
    → bytes.to_bytes forest ≡ ok written
    → bytes.from_bytes written ≡ ok forest
round_trip forest written e = ground arith

applied_at :
    (m : ℕ) → 0 ≤ m → m < 1 → AppliedAt term_hash counting bytes history delta_at trees numbered m
unfolding history delta_at
applied_at zero low high = record {
  summary = block;
  options = strict;
  outcome = applied_block.1;
  in_type = in_type;
  applied = applied;
  returned = unfold applied_block apply_block in refl;
}
applied_at (suc m) low high = absurd (omega arith)

stands : Stands term_hash counting bytes history delta_at trees numbered (history 1) 1
stands = record {
  held = trees 1;
  tip_known = tip_1;
  half = record { utxos_same = refl; index_same = refl };
  mirrors = λ p. ((holds 1 p).0, Mirrors-self term_hash (trees 1 p) (holds 1 p).1);
}

rollback_to-returns_example :
    (j' : RollbackJournal Term) × (c' : ChainAccumulators Term ℕ) × (rollback_to term_hash counting
        bytes journal
        (history 1)
        0
      ≡ (j', c', ok tt))
    × Tracks bytes history delta_at j' 0
    × (earliest_rollback j' ≡ some 0)
    × (at : Stands term_hash counting bytes history delta_at trees numbered c' 0) × ((p : PoolId)
        → SameTree term_hash (at.held p) (empty_trees p))
rollback_to-returns_example =
    rollback_to-returns term_hash counting bytes history delta_at trees numbered journal (history 1)
      0 1 0 (record-Reaches bytes history delta_at numbered recorded).0.tracks earliest round_trip
      (omega arith) (λ m low high. holds m) applied_at stands (omega arith) (omega arith)

rollback_to_iff_example :
    ((rollback_to term_hash counting bytes journal (history 1) 2).2 ≡ ok tt → (0 ≤ 2) × (2 ≤ 1))
    × ((0 ≤ 2) × (2 ≤ 1) → (rollback_to term_hash counting bytes journal (history 1) 2).2 ≡ ok tt)
    × (¬ ((0 ≤ 2) × (2 ≤ 1))
        → ((rollback_to term_hash counting bytes journal (history 1) 2).0 ≡ journal)
          × ((rollback_to term_hash counting bytes journal (history 1) 2).1 ≡ history 1))
rollback_to_iff_example =
    rollback_to_iff term_hash counting bytes history delta_at trees numbered journal (history 1) 2 1
      0 (record-Reaches bytes history delta_at numbered recorded).0.tracks earliest round_trip
      (omega arith) (λ m low high. holds m) applied_at stands (omega arith)
