-- ===== src/Pool/Codes.antt =====
-- pool.rs: the one-byte code of a pool can be read back, and the tags tell the pools apart.
use ztreexo.Prelude.{ℕ, ◌≡◌, ◌↔◌, some, arith, length, refl}
use ztreexo.Pool.{PoolId, sprout, sapling, orchard, ironwood, tag, code, from_code}

from_code-code : (p : PoolId) → from_code (code p) ≡ some p
unfolding from_code code
from_code-code sprout = refl
from_code-code sapling = refl
from_code-code orchard = refl
from_code-code ironwood = refl

code_of_from_code : (c : ℕ) (p : PoolId) → from_code c ≡ some p → code p ≡ c
unfolding from_code code
code_of_from_code c p h = ground arith

-- A byte decodes to a pool exactly when it is that pool's code.
pub from_code_iff : (c : ℕ) (p : PoolId) → (from_code c ≡ some p) ↔ (c ≡ code p)
from_code_iff c p = (λ h. cc (code_of_from_code c p h), λ e. cc (from_code-code p))

pub length-tag : (p : PoolId) → length (tag p) ≡ 4
unfolding tag
length-tag sprout = refl
length-tag sapling = refl
length-tag orchard = refl
length-tag ironwood = refl

pub tag-injective : (p q : PoolId) → tag p ≡ tag q → p ≡ q
unfolding tag
tag-injective p q h = ground arith
