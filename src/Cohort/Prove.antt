-- ===== src/Cohort/Prove.antt =====
-- cohort.rs: `prove_prefix_cohort` with `dedup_paths`, and the queries of imt.rs that it makes. A set of
-- indices is the list of its members, ascending.
use ztreexo.Prelude.{
  ℕ, zero, suc, ◌/◌, Bool, true, false, List, [], ◌∷◌, Option, none, some, Result, ok, ◌>>=◌,
  get_elem?, ltb, ◌==◌, if◌then◌else◌, ok_or,
}
use ztreexo.Digest.ImtHash.{ImtHash}
use ztreexo.Imt.Types.{Value, Leaf, corrupt_tree, missing_leaf}
use ztreexo.Imt.Path.{sibling_index, empty_subtree_hashes}
use ztreexo.Imt.Index.{Index}
use ztreexo.Imt.Nodes.{put_node}
use ztreexo.Imt.Tree.{IndexedMerkleTree, leaf, node}
use ztreexo.Cohort.{PrefixRange, CohortError, tree, contains}
use ztreexo.Cohort.Verify.{CohortProof, tree_error}

-- `index_by_value.range(..bound)`
unfoldable pub values_below : Value → Index → Index
values_below bound [] = []
values_below bound ((v, i) ∷ rest) =
    let more = values_below bound rest in if ltb v bound then (v, i) ∷ more else more

-- `index_by_value.range(lo..hi)` or `range(lo..)`: the ranges that `covering` makes have `lo` below `hi`
unfoldable pub values_in : PrefixRange → Index → Index
values_in range [] = []
values_in range ((v, i) ∷ rest) =
    let more = values_in range rest in if contains range v then (v, i) ∷ more else more

-- `next_back()`
abbrev pub next_back : Index → Option (Value × ℕ)
next_back [] = none
next_back (e ∷ []) = some e
next_back (e ∷ f ∷ rest) = next_back (f ∷ rest)

-- `BTreeSet::insert`
unfoldable pub insert_index : ℕ → List ℕ → List ℕ
insert_index i [] = i ∷ []
insert_index i (j ∷ rest) =
    let later = insert_index i rest in
    if ltb i j then i ∷ j ∷ rest else if i == j then j ∷ rest else j ∷ later

-- the second loop, over the values in the range
unfoldable pub insert_indices : Index → List ℕ → List ℕ
insert_indices [] indices = indices
insert_indices ((v, i) ∷ rest) indices = insert_indices rest (insert_index i indices)

-- the set with the predecessor's index, if there is one
abbrev pub first_indices : Option (Value × ℕ) → List ℕ
first_indices none = []
first_indices (some (v, i)) = i ∷ []

-- the predecessor, if there is one, and the leaves in the range
unfoldable pub cohort_indices : PrefixRange → Index → List ℕ
cohort_indices range entries =
    insert_indices (values_in range entries)
      (first_indices (next_back (values_below range.lo entries)))

-- `known.contains`
unfoldable pub among : ℕ → List ℕ → Bool
among i [] = false
among i (j ∷ rest) = if j == i then true else among i rest

-- whether the first index is this one
abbrev pub first_is : ℕ → List ℕ → Bool
first_is i [] = false
first_is i (j ∷ rest) = j == i

-- `next.insert(index >> 1)` for the ascending indices of a level
unfoldable pub halves : List ℕ → List ℕ
halves [] = []
halves (i ∷ rest) =
    let later = halves rest in if first_is (i / 2) later then later else i / 2 ∷ later

module _ {Hash : Type 0} (h : ImtHash Hash) (t : IndexedMerkleTree Hash) where
  -- the loop that fills `leaves`
  unfoldable pub leaves_at : List ℕ → Result (CohortError Hash) (List (ℕ × Leaf))
  leaves_at [] = ok []
  leaves_at (i ∷ rest) = do
    l ← ok_or (leaf t i) (tree (corrupt_tree missing_leaf))
    ls ← leaves_at rest
    ok ((i, l) ∷ ls)

  module _ (ladder : List Hash) where
    -- `ladder.get(level) == Some(&hash)`
    unfoldable pub is_empty_hash : ℕ → Hash → Bool
    is_empty_hash level hash = elim (get_elem? ladder level) [
      | none ↦ false
      | some empty ↦ h.beq empty hash
    ]

    -- the loop over `known`
    unfoldable pub dedup_level : ℕ → List ℕ → List ℕ → (ℕ → ℕ → Option Hash) → ℕ → ℕ → Option Hash
    dedup_level level known [] out = out
    dedup_level level known (index ∷ rest) out =
        let sibling = sibling_index index in
        let hash = node h t level sibling in
        dedup_level level known rest (
          if among sibling known
          then out
          else if is_empty_hash level hash
          then out
          else put_node out level sibling (some hash))

    -- the levels from `level`, `n` of them
    unfoldable pub dedup_levels : ℕ → ℕ → List ℕ → (ℕ → ℕ → Option Hash) → ℕ → ℕ → Option Hash
    dedup_levels zero level known out = out
    dedup_levels (suc n) level known out =
        dedup_levels n (suc level) (halves known) (dedup_level level known known out)

  unfoldable pub dedup_paths : List ℕ → Result (CohortError Hash) (ℕ → ℕ → Option Hash)
  dedup_paths indices = do
    ladder ← tree_error h (empty_subtree_hashes h t.pool t.depth)
    ok (dedup_levels ladder t.depth 0 indices (λ level index. none))

  unfoldable pub prove_prefix_cohort : PrefixRange → Result (CohortError Hash) (CohortProof Hash)
  prove_prefix_cohort range = do
    leaves ← leaves_at (cohort_indices range t.index_by_value)
    nodes ← dedup_paths (cohort_indices range t.index_by_value)
    ok (record { pool = t.pool; depth = t.depth; range = range; leaves = leaves; nodes = nodes })
