-- ===== src/Cohort/Verify.antt =====
-- cohort.rs: `CohortProof` and `verify_cohort`. The map of the nodes that are sent is a function, and
-- the map of the nodes of a level is the list of its entries, with ascending indices.
use ztreexo.Prelude.{
  ℕ, zero, suc, ◌/◌, Bool, false, not, List, [], ◌∷◌, map, Option, none, some, Result, ok, err,
  ◌>>=◌, ◌>>◌, refuse_if, get_elem?, leb, ◌==◌, if◌then◌else◌,
}
use ztreexo.Pool.{PoolId}
use ztreexo.Digest.ImtHash.{ImtHash}
use ztreexo.Imt.Types.{Leaf, hash_leaf, ImtError}
use ztreexo.Imt.Path.{sibling_index, join, check_depth, empty_subtree_hashes}
use ztreexo.Cohort.{PrefixRange, CohortError, tree, root_mismatch, missing_node, unordered_leaves}

pub record CohortProof (Hash : Type 0) : Type 0 where
  pub pool : PoolId
  pub depth : ℕ
  pub range : PrefixRange
  pub leaves : List (ℕ × Leaf)
  pub nodes : ℕ → ℕ → Option Hash

-- `level_nodes.get(&index)`
unfoldable pub node_of {ℓ} : {A : Type ℓ} → ℕ → List (ℕ × A) → Option A
node_of index [] = none
node_of index ((i, a) ∷ rest) = if i == index then some a else node_of index rest

-- whether the first entry has this index
abbrev pub starts_at {ℓ} : {A : Type ℓ} → ℕ → List (ℕ × A) → Bool
starts_at index [] = false
starts_at index ((i, a) ∷ rest) = i == index

-- `leaves.sort_by_key(|leaf| leaf.value)`, which keeps the order of leaves with one value
unfoldable pub insert_sorted : Leaf → List Leaf → List Leaf
insert_sorted l [] = l ∷ []
insert_sorted l (m ∷ rest) =
    let later = insert_sorted l rest in if leb l.value m.value then l ∷ m ∷ rest else m ∷ later

unfoldable pub sort_by_value : List Leaf → List Leaf
sort_by_value [] = []
sort_by_value (l ∷ rest) = insert_sorted l (sort_by_value rest)

-- `previous.is_some_and(|p| *index <= p)`
abbrev pub not_above : ℕ → Option ℕ → Bool
not_above index none = false
not_above index (some p) = leb index p

module _ {Hash : Type 0} (h : ImtHash Hash) where
  abbrev pub tree_error {α} : {A : Type α} → Result (ImtError Hash) A → Result (CohortError Hash) A
  tree_error (ok a) = ok a
  tree_error (err e) = err (tree e)

  -- the loop over `proof.leaves`, with `previous`
  unfoldable pub check_ascending : List (ℕ × Leaf) → Option ℕ → Result (CohortError Hash) (Unit {0})
  check_ascending [] previous = ok tt
  check_ascending ((index, leaf) ∷ rest) previous = do
    refuse_if (not_above index previous) unordered_leaves
    check_ascending rest (some index)

  module _ (pool : PoolId) (provided : ℕ → ℕ → Option Hash) (ladder : List Hash) where
    -- a node of the level, or a node that was sent, or an empty subtree
    unfoldable pub sibling_hash : ℕ → List (ℕ × Hash) → ℕ → Result (CohortError Hash) Hash
    sibling_hash level level_nodes index = elim (node_of index level_nodes) [
      | some known ↦ ok known
      | none ↦ elim (provided level index) [
        | some sent ↦ ok sent
        | none ↦ elim (get_elem? ladder level) [
          | some empty ↦ ok empty
          | none ↦ err (missing_node level index)
        ]
      ]
    ]

    -- The loop over `level_nodes`. The indices ascend, so that `parents.insert` replaces an entry where
    -- the next node has the same parent.
    unfoldable pub parents :
        ℕ → List (ℕ × Hash) → List (ℕ × Hash) → Result (CohortError Hash) (List (ℕ × Hash))
    parents level level_nodes [] = ok []
    parents level level_nodes ((index, hash) ∷ rest) = do
      sibling ← sibling_hash level level_nodes (sibling_index index)
      later ← parents level level_nodes rest
      ok (
          if starts_at (index / 2) later
          then later
          else (index / 2, join h pool index hash sibling) ∷ later)

    -- the levels from `level`, `n` of them
    unfoldable pub fold_levels :
        ℕ → ℕ → List (ℕ × Hash) → Result (CohortError Hash) (List (ℕ × Hash))
    fold_levels zero level level_nodes = ok level_nodes
    fold_levels (suc n) level level_nodes = do
      up ← parents level level_nodes level_nodes
      fold_levels n (suc level) up

  unfoldable pub check_computed : Hash → Option Hash → Result (CohortError Hash) (Unit {0})
  check_computed root none = err root_mismatch
  check_computed root (some computed) = refuse_if (not (h.beq computed root)) root_mismatch

  unfoldable pub verify_cohort : Hash → CohortProof Hash → Result (CohortError Hash) (List Leaf)
  verify_cohort root proof = do
    tree_error (check_depth h proof.depth)
    ladder ← tree_error (empty_subtree_hashes h proof.pool proof.depth)
    check_ascending proof.leaves none
    top ←
        fold_levels proof.pool proof.nodes ladder proof.depth 0
          (map (λ (x : ℕ × Leaf). (x.0, hash_leaf h proof.pool x.1)) proof.leaves)
    check_computed root (node_of 0 top)
    ok (sort_by_value (map (λ (x : ℕ × Leaf). x.1) proof.leaves))
