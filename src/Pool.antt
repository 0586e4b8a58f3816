-- ===== src/Pool.antt =====
-- crates/zutreexo-accumulator/src/pool.rs: the shielded pools, their tags and their codes.
pub mod Codes
use ztreexo.Prelude.{ℕ, List, [], ◌∷◌, Option, none, some, ◌==◌, if◌then◌else◌}

pub data PoolId : Type 0 where
  sprout sapling orchard ironwood : PoolId

-- `PoolId::ALL`
abbrev pub all_pools : List PoolId
all_pools = sprout ∷ sapling ∷ orchard ∷ ironwood ∷ []

-- the four ASCII bytes of each tag
unfoldable pub tag : PoolId → List ℕ
tag sprout = b'S' ∷ b'p' ∷ b'r' ∷ b't' ∷ []
tag sapling = b'S' ∷ b'a' ∷ b'p' ∷ b'l' ∷ []
tag orchard = b'O' ∷ b'r' ∷ b'c' ∷ b'h' ∷ []
tag ironwood = b'I' ∷ b'r' ∷ b'o' ∷ b'n' ∷ []

unfoldable pub code : PoolId → ℕ
code sprout = 0
code sapling = 1
code orchard = 2
code ironwood = 3

unfoldable pub from_code : ℕ → Option PoolId
from_code c =
    if c == 0
    then some sprout
    else if c == 1
    then some sapling
    else if c == 2
    then some orchard
    else if c == 3
    then some ironwood
    else none
