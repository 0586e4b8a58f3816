-- ===== src/Cohort/Examples.antt =====
-- Runs of `resolve` of cohort.rs, and its theorems, over the leaves of a tree that holds 5.
use ztreexo.Prelude.{
  ℕ, ◌^◌, ◌⊎◌, ◌++◌, map, none, arith, false, ◌≡◌, true, List, [], ◌∷◌, some, ok, inr, refl, err,
  ◌==◌, if◌then◌else◌,
}
use ztreexo.Digest.ImtHash.{Collision}
use ztreexo.Imt.Types.{Value, Leaf, LeafFits, covers}
use ztreexo.Imt.Path
use ztreexo.Imt.Nodes
use ztreexo.Imt.Path.{
  capacity_of, empty_subtree_hashes, check_depth, empty_ladder, join, sibling_index,
}
use ztreexo.Imt.Index
use ztreexo.Imt.Tree
use ztreexo.Imt.Tree.{insert, root, node}
use ztreexo.Imt.Initial.{fresh}
use ztreexo.Imt.Sample.{Term, term_hash}
use ztreexo.Imt.Examples.{five, five-IsValid}
use ztreexo.Cohort.{
  PrefixRange, Status, spent, unspent, contains, scan, conclude, resolve, unsorted_values,
  leaf_out_of_range,
}
use ztreexo.Cohort.Settled.{Stored, AllStored, Settles, resolve_sound}
use ztreexo.Cohort.Delivered.{resolve_complete}
use ztreexo.Cohort.Verify.{
  CohortProof, node_of, sibling_hash, parents, fold_levels, check_ascending, check_computed,
  verify_cohort, sort_by_value, insert_sorted,
}
use ztreexo.Cohort.Verified.{AllWithin, verify_cohort_sound}
use ztreexo.Cohort.Forged.{verify_cohort_forged}
use ztreexo.Cohort.Prove.{prove_prefix_cohort}
use ztreexo.Cohort.Proved.{prove_prefix_cohort-Settles}

abbrev lowest : Leaf
lowest = record { value = 0; next_value = 5; next_index = 1 }

abbrev highest : Leaf
highest = record { value = 5; next_value = 0; next_index = 0 }

abbrev cohort : List Leaf
cohort = lowest ∷ highest ∷ []

-- the values below 2 ^ 255
abbrev lower_half : PrefixRange
lower_half = record {
  lo = 0;
  hi = some 57896044618658097711785492504343953926634992332820282019728792003956564819968;
  bits = 1;
}

lowest-Stored : Stored five.0 lowest
unfolding insert fresh term_hash capacity_of Index.last_at_most Index.insert covers
lowest-Stored = (0, refl)

highest-Stored : Stored five.0 highest
unfolding insert fresh term_hash capacity_of Index.last_at_most Index.insert covers
highest-Stored = (1, refl)

cohort-AllStored : AllStored five.0 cohort
cohort-AllStored = (lowest-Stored, (highest-Stored, tt))

absent_run : resolve {Hash = Term} cohort lower_half 7 ≡ ok (unspent highest)
unfolding resolve scan conclude contains covers
absent_run = refl

present_run : resolve {Hash = Term} cohort lower_half 5 ≡ ok spent
unfolding resolve scan conclude contains covers
present_run = refl

-- a cohort that leaves out the bracketing leaf is refused
short_run : resolve {Hash = Term} (lowest ∷ []) lower_half 7 ≡ err unsorted_values
unfolding resolve scan conclude contains covers
short_run = refl

empty_run : resolve {Hash = Term} [] lower_half 7 ≡ err leaf_out_of_range
unfolding resolve scan conclude contains covers
empty_run = refl

resolve_sound_example : Settles five.0 7 (unspent highest)
resolve_sound_example =
    resolve_sound term_hash five.0 five-IsValid cohort lower_half 7 (unspent highest)
      cohort-AllStored absent_run

in_lower_half : contains lower_half 7 ≡ true
unfolding contains
in_lower_half = refl

highest-covers : covers highest 7 ≡ true
unfolding covers
highest-covers = refl

resolve_complete_example :
    resolve {Hash = Term} cohort lower_half 7
    ≡ ok (if highest.value == 7 then spent else unspent highest)
resolve_complete_example =
    resolve_complete term_hash five.0 five-IsValid cohort lower_half 7 1 highest cohort-AllStored
      (refl, (refl, tt)) in_lower_half refl (inr highest-covers)

abbrev whole : CohortProof Term
whole = record {
  pool = five.0.pool;
  depth = five.0.depth;
  range = lower_half;
  leaves = (0, lowest) ∷ (1, highest) ∷ [];
  nodes = λ level index. none;
}

whole_run : verify_cohort term_hash (root term_hash five.0) whole ≡ ok cohort
unfolding verify_cohort check_ascending fold_levels parents sibling_hash node_of check_computed
    sort_by_value insert_sorted root node insert fresh term_hash capacity_of Index.last_at_most
    Index.insert covers empty_subtree_hashes check_depth empty_ladder join sibling_index
    Nodes.node_at Nodes.write_path Nodes.put_node Path.next_level Nodes.zero_at Nodes.zeros_ladder
whole_run = refl

lowest_fits : LeafFits lowest
lowest_fits = record {
  value_fits = omega arith;
  next_value_fits = omega arith;
  next_index_fits = omega arith;
}

highest_fits : LeafFits highest
highest_fits = record {
  value_fits = omega arith;
  next_value_fits = omega arith;
  next_index_fits = omega arith;
}

whole_within : AllWithin (2 ^ five.0.depth) whole.leaves
unfolding insert fresh term_hash capacity_of Index.last_at_most Index.insert covers
whole_within = (omega arith, lowest_fits, (omega arith, highest_fits, tt))

verify_cohort_sound_example : Collision term_hash five.0.pool ⊎ Settles five.0 7 (unspent highest)
verify_cohort_sound_example =
    verify_cohort_sound term_hash five.0 five-IsValid whole cohort lower_half 7 (unspent highest)
      refl refl whole_within whole_run absent_run

-- a leaf with the value 7, which is not in the tree
abbrev forged : Leaf
forged = record { value = 7; next_value = 0; next_index = 0 }

abbrev outside : ℕ
outside = 2 ^ five.0.depth

verify_cohort_forged_example :
    verify_cohort term_hash
      (root term_hash five.0)
      (record whole { leaves = whole.leaves ++ (outside, forged) ∷ [] })
    ≡ ok (sort_by_value (map (λ (x : ℕ × Leaf). x.1) whole.leaves ++ forged ∷ []))
unfolding insert fresh term_hash capacity_of Index.last_at_most Index.insert covers
verify_cohort_forged_example =
    verify_cohort_forged term_hash whole (root term_hash five.0) cohort outside forged whole_run
      (omega arith, (omega arith, tt)) (omega arith)

seven_absent : Tree.contains five.0 7 ≡ false
unfolding insert fresh term_hash capacity_of Index.last_at_most Index.insert covers Tree.contains
    Index.contains_key
seven_absent = refl

-- `resolve` then reports 7 as spent
forged_run :
    resolve {Hash = Term}
      (sort_by_value (map (λ (x : ℕ × Leaf). x.1) whole.leaves ++ forged ∷ []))
      lower_half
      7
    ≡ ok spent
unfolding resolve scan conclude contains covers sort_by_value insert_sorted
forged_run = refl

prove_prefix_cohort-Settles_example :
    (proof : CohortProof Term) × (leaves : List Leaf) × (prove_prefix_cohort term_hash five.0
        lower_half
      ≡ ok proof)
    × (verify_cohort term_hash (root term_hash five.0) proof ≡ ok leaves)
    × ((v : Value)
        → contains lower_half v ≡ true
        → (status : Status) × (resolve {Hash = Term} leaves lower_half v ≡ ok status)
          × Settles five.0 v status)
prove_prefix_cohort-Settles_example =
    prove_prefix_cohort-Settles term_hash five.0 five-IsValid lower_half 7 in_lower_half
