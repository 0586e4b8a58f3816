-- ===== src/Cohort.antt =====
-- crates/zutreexo-accumulator/src/cohort.rs: what a wallet settles from the leaves of a prefix cohort.
pub mod Settled
pub mod Delivered
pub mod Verify
pub mod Fold
pub mod Joined
pub mod Accepted
pub mod Verified
pub mod Stray
pub mod Forged
pub mod Prove
pub mod Sent
pub mod Refold
pub mod Chosen
pub mod Order
pub mod Bracket
pub mod Proved
mod Examples
use ztreexo.Prelude.{
  ℕ, Bool, true, false, not, ◌&&◌, List, [], ◌∷◌, Option, none, some, Result, ok, err, ◌>>=◌, ◌>>◌,
  refuse_if, ltb, leb, ◌==◌, if◌then◌else◌,
}
use ztreexo.Imt.Types.{Value, Leaf, covers, ImtError}

pub data CohortError (Hash : Type 0) : Type 0 where
  invalid_prefix_bits : (bits max : ℕ) → CohortError Hash
  tree : ImtError Hash → CohortError Hash
  root_mismatch : CohortError Hash
  missing_node : (level index : ℕ) → CohortError Hash
  unordered_leaves leaf_out_of_range unsorted_values : CohortError Hash

-- `hi` is exclusive, and absent for the topmost bucket
pub record PrefixRange : Type 0 where
  pub lo : Value
  pub hi : Option Value
  pub bits : ℕ

-- `hi.is_none_or(|hi| *value < hi)`
abbrev pub below_bound : Value → Option Value → Bool
below_bound value none = true
below_bound value (some hi) = ltb value hi

unfoldable pub contains : PrefixRange → Value → Bool
contains range value = leb range.lo value && below_bound value range.hi

pub data Status : Type 0 where
  spent : Status
  unspent : (low : Leaf) → Status

-- `previous.is_some_and(|p| leaf.value < p)`
abbrev pub descends : Leaf → Option Value → Bool
descends leaf none = false
descends leaf (some p) = ltb leaf.value p

module _ {Hash : Type 0} where
  -- after the loop: the last leaf below the value has to cover it
  unfoldable pub conclude : Value → Option Leaf → Result (CohortError Hash) Status
  conclude value none = err leaf_out_of_range
  conclude value (some low) = do
    refuse_if (not (covers low value)) unsorted_values
    ok (unspent low)

  -- the loop over the leaves, with `previous` and `low`, and what follows it
  unfoldable pub scan :
      Value → List Leaf → Option Value → Option Leaf → Result (CohortError Hash) Status
  scan value [] previous low = conclude value low
  scan value (leaf ∷ leaves) previous low =
      let rest =
        scan value leaves (some leaf.value) (if ltb leaf.value value then some leaf else low) in
      if descends leaf previous
      then err unsorted_values
      else if leaf.value == value
      then ok spent
      else rest

  unfoldable pub resolve : List Leaf → PrefixRange → Value → Result (CohortError Hash) Status
  resolve leaves range value = do
    refuse_if (not (contains range value)) leaf_out_of_range
    scan value leaves none none
