-- ===== src/Imt/Nodes.antt =====
-- imt.rs: the sparse map `nodes: BTreeMap<(u8, u64), Hash>`, the ladder `zeros`, and the two loops
-- that rehash a path, those of `write_leaf` and `clear_leaf`.
use ztreexo.Prelude.{
  ℕ, zero, suc, ◌/◌, ◌&&◌, List, [], ◌∷◌, Option, none, some, get_elem?, ◌==◌, if◌then◌else◌,
}
use ztreexo.Pool.{PoolId}
use ztreexo.Digest.ImtHash.{ImtHash}
use ztreexo.Imt.Path.{sibling_index, next_level, join}

-- the map, by its `get`
abbrev pub Nodes : Type 0 → Type 0
Nodes Hash = ℕ → ℕ → Option Hash

module _ {Hash : Type 0} where
  abbrev pub no_nodes : Nodes Hash
  no_nodes level index = none

  -- `nodes.insert((level, index), d)` is a write of `some d`, `nodes.remove` one of `none`
  unfoldable pub put_node : Nodes Hash → ℕ → ℕ → Option Hash → Nodes Hash
  put_node nodes level index entry = λ l i. if l == level && i == index then entry else nodes l i

module _ {Hash : Type 0} (h : ImtHash Hash) where
  -- the loop that fills `zeros` in `with_depth`, its first entry included
  unfoldable pub zeros_ladder : PoolId → ℕ → Hash → List Hash
  zeros_ladder pool zero current = current ∷ []
  zeros_ladder pool (suc n) current =
      current ∷ zeros_ladder pool n (h.imt_node pool current current)

  -- `zero`
  unfoldable pub zero_at : List Hash → ℕ → Hash
  zero_at zeros level = elim (get_elem? zeros level) [ none ↦ h.zero_hash | some d ↦ d ]

  -- `node`
  unfoldable pub node_at : List Hash → Nodes Hash → ℕ → ℕ → Hash
  node_at zeros nodes level index = elim (nodes level index) [
    | none ↦ zero_at zeros level
    | some d ↦ d
  ]

  -- the loop of `siblings`
  unfoldable pub path_siblings : List Hash → Nodes Hash → ℕ → ℕ → ℕ → List Hash
  path_siblings zeros nodes zero level idx = []
  path_siblings zeros nodes (suc n) level idx =
      node_at zeros nodes level (sibling_index idx)
      ∷ path_siblings zeros nodes n (next_level level) (idx / 2)

  -- the loop of `write_leaf`: `n` rounds are left, and `node` is the digest at `(level, idx)`
  unfoldable pub write_path : PoolId → List Hash → ℕ → ℕ → ℕ → Hash → Nodes Hash → Nodes Hash
  write_path pool zeros zero level idx node nodes = nodes
  write_path pool zeros (suc n) level idx node nodes =
      let parent = join h pool idx node (node_at zeros nodes level (sibling_index idx)) in
      write_path pool zeros n (next_level level) (idx / 2) parent
        (put_node nodes (next_level level) (idx / 2) (some parent))

  -- what `clear_leaf` leaves at a node above the leaf: nothing, where the subtree is empty
  unfoldable pub sparse_entry : List Hash → ℕ → Hash → Option Hash
  sparse_entry zeros level d = if h.beq d (zero_at zeros level) then none else some d

  -- the loop of `clear_leaf`
  unfoldable pub clear_path : PoolId → List Hash → ℕ → ℕ → ℕ → Hash → Nodes Hash → Nodes Hash
  clear_path pool zeros zero level idx node nodes = nodes
  clear_path pool zeros (suc n) level idx node nodes =
      let parent = join h pool idx node (node_at zeros nodes level (sibling_index idx)) in
      clear_path pool zeros n (next_level level) (idx / 2) parent
        (put_node nodes (next_level level) (idx / 2) (sparse_entry zeros (next_level level) parent))
