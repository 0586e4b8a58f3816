-- ===== src/Imt/Examples.antt =====
-- Runs of the indexed Merkle tree of imt.rs, and its theorems at concrete trees.
use ztreexo.Prelude.{
  ◌≡◌, ◌⊎◌, ◌≤◌, ◌≢◌, ◌^◌, ◌<◌, true, false, ◌==◌, arith, refl, [], Result, ok, err, length, suc,
  subst, sym, if◌then◌else◌,
}
use ztreexo.Pool.{sapling}
use ztreexo.Digest.ImtHash.{Collision}
use ztreexo.Imt.Types.{
  Value, LeafFits, IsValue, InsertionProof, NonMembershipProof, ImtError, sentinel, covers,
  reserved_value, value_is_member, capacity_exhausted, duplicate_value,
}
use ztreexo.Imt.Path.{
  capacity_of, check_path, check_depth, root_from_path, join, next_level, sibling_index,
}
use ztreexo.Imt.Index
use ztreexo.Imt.Nodes
use ztreexo.Imt.Verify.{verify_insertion, verify_non_membership, checked_succ}
use ztreexo.Imt.Tree.{IndexedMerkleTree, insert, root, state, contains, prove_non_membership}
use ztreexo.Imt.Removal.{undo_insert}
use ztreexo.Imt.Initial.{fresh, fresh-IsValid}
use ztreexo.Imt.Invariant.{IsValid}
use ztreexo.Imt.Insert.{insert-IsValid, insert_outcome}
use ztreexo.Imt.Absence.{verify_non_membership_sound, prove_non_membership_outcome}
use ztreexo.Imt.Agreement.{verify_insertion_sound}
use ztreexo.Imt.Mirrors.{SameTree}
use ztreexo.Imt.Undo.{undo_insert-insert}
use ztreexo.Imt.Sample.{Term, term_hash}

abbrev pub ends :
    Result (ImtError Term) (IndexedMerkleTree Term × InsertionProof Term)
    → IndexedMerkleTree Term × InsertionProof Term
ends (ok r) = r
ends (err e) = (
  fresh term_hash sapling 2,
  record {
    low_leaf = sentinel;
    low_leaf_index = 0;
    low_leaf_siblings = [];
    new_leaf_index = 0;
    new_leaf_siblings = [];
  },
)

-- a tree of depth 2, with 5 inserted, then with 3 inserted between the sentinel and 5
abbrev pub empty_tree : IndexedMerkleTree Term
empty_tree = fresh term_hash sapling 2

abbrev pub five : IndexedMerkleTree Term × InsertionProof Term
five = ends (insert term_hash empty_tree 5)

abbrev pub three : IndexedMerkleTree Term × InsertionProof Term
three = ends (insert term_hash five.0 3)

pub insert-five : insert term_hash empty_tree 5 ≡ ok five
unfolding insert fresh term_hash capacity_of Index.last_at_most Index.insert covers
insert-five = refl

pub insert-three : insert term_hash five.0 3 ≡ ok three
unfolding insert fresh term_hash capacity_of Index.last_at_most Index.insert covers
insert-three = refl

-- the low leaf of the second insertion is the sentinel, which pointed at 5
three_low : three.1.low_leaf ≡ record { value = 0; next_value = 5; next_index = 1 }
unfolding insert fresh term_hash capacity_of Index.last_at_most Index.insert covers
three_low = refl

five_low : five.1.low_leaf ≡ sentinel
unfolding insert fresh term_hash capacity_of Index.last_at_most Index.insert covers
five_low = refl

pub three_fits : LeafFits three.1.low_leaf
three_fits = subst LeafFits (sym three_low) (omega arith)

pub five_fits : LeafFits five.1.low_leaf
five_fits = subst LeafFits (sym five_low) (omega arith)

pub IsValue-three : IsValue 3
IsValue-three = omega arith

pub IsValue-five : IsValue 5
IsValue-five = omega arith

pub empty_tree-IsValid : IsValid term_hash empty_tree
empty_tree-IsValid = fresh-IsValid term_hash sapling 2 (omega arith) (omega arith)

pub five-IsValid : IsValid term_hash five.0
five-IsValid =
    insert-IsValid term_hash empty_tree empty_tree-IsValid 5 five.0 five.1 IsValue-five insert-five

three_accepted :
    verify_insertion term_hash five.0.pool five.0.depth (state term_hash five.0) 3 three.1
    ≡ ok (state term_hash three.0)
unfolding insert fresh term_hash capacity_of Index.last_at_most Index.insert covers verify_insertion
    checked_succ state check_path check_depth Nodes.path_siblings root_from_path join Nodes.node_at
    Nodes.write_path Nodes.put_node next_level sibling_index Nodes.zero_at Nodes.zeros_ladder
three_accepted = refl

verify_insertion_sound_example :
    Collision term_hash five.0.pool
    ⊎ ((t' : IndexedMerkleTree Term) × (insert term_hash five.0 3 ≡ ok (t', three.1))
        × (state term_hash three.0 ≡ state term_hash t'))
verify_insertion_sound_example =
    verify_insertion_sound term_hash five.0 five-IsValid 3 three.1 (state term_hash three.0)
      IsValue-three three_fits three_accepted

abbrev inner : Value
inner = 3

insert_outcome_example :
    ((inner ≡ 0) × (insert term_hash five.0 inner ≡ err reserved_value))
    ⊎ (((inner ≢ 0)
          × (2 ^ five.0.depth ≤ length five.0.leaves)
          × (insert term_hash five.0 inner
              ≡ err (capacity_exhausted five.0.depth (2 ^ five.0.depth))))
        ⊎ (((inner ≢ 0)
              × (length five.0.leaves < 2 ^ five.0.depth)
              × (contains five.0 inner ≡ true)
              × (insert term_hash five.0 inner ≡ err duplicate_value))
            ⊎ ((t' : IndexedMerkleTree Term) × (proof : InsertionProof Term) × (contains five.0
                    inner
                  ≡ false)
                × (insert term_hash five.0 inner ≡ ok (t', proof))
                × IsValid term_hash t'
                × (length t'.leaves ≡ suc (length five.0.leaves))
                × ((w : Value)
                    → contains t' w ≡ (if inner == w then true else contains five.0 w)))))
insert_outcome_example = insert_outcome term_hash five.0 five-IsValid inner IsValue-three

-- the proof that 7, above the largest value, is absent
abbrev absence_of : Result (ImtError Term) (NonMembershipProof Term) → NonMembershipProof Term
absence_of (ok p) = p
absence_of (err e) = record { low_leaf = sentinel; low_leaf_index = 0; siblings = [] }

abbrev seven : NonMembershipProof Term
seven = absence_of (prove_non_membership term_hash five.0 7)

seven_low : seven.low_leaf ≡ record { value = 5; next_value = 0; next_index = 0 }
unfolding insert fresh term_hash capacity_of Index.last_at_most Index.insert covers
    prove_non_membership
seven_low = refl

seven_fits : LeafFits seven.low_leaf
seven_fits = subst LeafFits (sym seven_low) (omega arith)

seven_accepted :
    verify_non_membership term_hash five.0.pool five.0.depth (root term_hash five.0) 7 seven ≡ ok tt
unfolding insert fresh term_hash capacity_of Index.last_at_most Index.insert covers
    prove_non_membership verify_non_membership check_path check_depth root Nodes.path_siblings
    root_from_path join Nodes.node_at Nodes.write_path Nodes.put_node next_level sibling_index
    Nodes.zero_at Nodes.zeros_ladder
seven_accepted = refl

verify_non_membership_sound_example : Collision term_hash five.0.pool ⊎ (contains five.0 7 ≡ false)
verify_non_membership_sound_example =
    verify_non_membership_sound term_hash five.0 five-IsValid 7 seven seven_fits seven_accepted

abbrev upper : Value
upper = 7

prove_non_membership_outcome_example :
    ((upper ≡ 0) × (prove_non_membership term_hash five.0 upper ≡ err reserved_value))
    ⊎ (((upper ≢ 0)
          × (contains five.0 upper ≡ true)
          × (prove_non_membership term_hash five.0 upper ≡ err value_is_member))
        ⊎ ((proof : NonMembershipProof Term) × (contains five.0 upper ≡ false)
            × (prove_non_membership term_hash five.0 upper ≡ ok proof)
            × (verify_non_membership term_hash five.0.pool five.0.depth
                  (root term_hash five.0)
                  upper
                  proof
                ≡ ok tt)))
prove_non_membership_outcome_example =
    prove_non_membership_outcome term_hash five.0 five-IsValid upper

undo_insert-insert_example :
    (u : IndexedMerkleTree Term) × (undo_insert term_hash three.0 3 three.1 ≡ (u, ok tt))
    × SameTree term_hash u five.0
undo_insert-insert_example =
    undo_insert-insert term_hash five.0 three.0 3 three.1 five-IsValid IsValue-three insert-three
