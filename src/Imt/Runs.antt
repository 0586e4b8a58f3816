-- ===== src/Imt/Runs.antt =====
-- imt.rs: the theorems on sequences of insertions at concrete ones.
use ztreexo.Prelude.{◌≡◌, ◌⊎◌, ◌≤◌, true, ◌==◌, refl, [], ◌∷◌, ok, err, if◌then◌else◌}
use ztreexo.Pool.{sapling}
use ztreexo.Digest.ImtHash.{Collision}
use ztreexo.Imt.Types.{Value, covers, invalid_depth}
use ztreexo.Imt.Path.{default_depth, state_new, capacity_of, check_depth}
use ztreexo.Imt.Index
use ztreexo.Imt.Tree.{
  IndexedMerkleTree, insert, state, contains, with_depth, from_values, insert_all,
}
use ztreexo.Imt.Initial.{fresh, with_depth_outcome}
use ztreexo.Imt.Invariant.{IsValid}
use ztreexo.Imt.Histories.{
  AllValues, member, from_values-contains, Steps, StepsFit, apply_insertions, Inserted, done, next,
  apply_insertions-Inserted, apply_insertions_sound,
}
use ztreexo.Imt.Sample.{Term, term_hash}
use ztreexo.Imt.Examples.{
  empty_tree, five, three, insert-five, insert-three, three_fits, five_fits, IsValue-three,
  IsValue-five, empty_tree-IsValid,
}

abbrev steps : Steps term_hash
steps = (5, five.1) ∷ (3, three.1) ∷ []

steps_fit : StepsFit term_hash steps
steps_fit = (IsValue-five, five_fits, (IsValue-three, three_fits, tt))

steps_run : Inserted term_hash empty_tree steps three.0
steps_run = next insert-five (next insert-three done)

apply_insertions-Inserted_example :
    apply_insertions term_hash empty_tree.pool empty_tree.depth (state term_hash empty_tree) steps
    ≡ ok (state term_hash three.0)
apply_insertions-Inserted_example =
    apply_insertions-Inserted term_hash empty_tree three.0 steps empty_tree-IsValid steps_fit
      steps_run

apply_insertions_sound_example :
    Collision term_hash empty_tree.pool
    ⊎ ((w : IndexedMerkleTree Term) × Inserted term_hash empty_tree steps w
        × IsValid term_hash w
        × (state term_hash three.0 ≡ state term_hash w))
apply_insertions_sound_example =
    apply_insertions_sound term_hash empty_tree steps (state term_hash three.0) empty_tree-IsValid
      steps_fit
      (apply_insertions-Inserted term_hash empty_tree three.0 steps empty_tree-IsValid steps_fit
        steps_run)

five_three : AllValues (5 ∷ 3 ∷ [])
five_three = (IsValue-five, (IsValue-three, tt))

built : from_values term_hash sapling 2 (5 ∷ 3 ∷ []) ≡ ok three.0
unfolding from_values insert_all insert fresh term_hash capacity_of Index.last_at_most Index.insert
    covers with_depth check_depth
built = refl

from_values-contains_example :
    IsValid term_hash three.0
    × ((w : Value) → contains three.0 w ≡ (if member w (5 ∷ 3 ∷ []) then true else 0 == w))
from_values-contains_example =
    from_values-contains term_hash sapling 2 (5 ∷ 3 ∷ []) three.0 five_three built

with_depth_outcome_example :
    ((¬ ((1 ≤ default_depth) × (default_depth ≤ 63)))
      × (with_depth term_hash sapling default_depth ≡ err (invalid_depth default_depth))
      × (state_new term_hash sapling default_depth ≡ err (invalid_depth default_depth)))
    ⊎ ((t : IndexedMerkleTree Term) × (with_depth term_hash sapling default_depth ≡ ok t)
        × IsValid term_hash t
        × (t.pool ≡ sapling)
        × (t.depth ≡ default_depth)
        × ((w : Value) → contains t w ≡ (0 == w))
        × (state_new term_hash sapling default_depth ≡ ok (state term_hash t)))
with_depth_outcome_example = with_depth_outcome term_hash sapling default_depth
