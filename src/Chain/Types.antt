-- ===== src/Chain/Types.antt =====
-- extract.rs, bundle.rs and utreexo.rs: outpoints, outputs, block summaries and proof bundles.
use ztreexo.Prelude.{◌+◌, leb, ℕ, Bool, true, false, ◌&&◌, List, [], ◌∷◌, ◌==◌, if◌then◌else◌}
use ztreexo.Pool.{PoolId, code}
use ztreexo.Imt.Types.{Value, InsertionProof}

-- A transaction id is the number of its 32 bytes.
pub record OutPoint : Type 0 where
  pub txid : ℕ
  pub vout : ℕ

unfoldable pub outpoint_beq : OutPoint → OutPoint → Bool
outpoint_beq a b = a.txid == b.txid && a.vout == b.vout

pub record UtxoLeaf : Type 0 where
  pub txid : ℕ
  pub vout : ℕ
  pub height : ℕ
  pub is_coinbase : Bool
  pub value : ℕ
  pub script_pubkey : List ℕ

-- the outpoint that an output is spent by
abbrev pub outpoint_of : UtxoLeaf → OutPoint
outpoint_of l = record { txid = l.txid; vout = l.vout }

-- The nullifiers of a pool without an entry are the empty list, as `nullifiers_for` answers.
pub record BlockSummary : Type 0 where
  pub height : ℕ
  pub transactions : ℕ
  pub transparent_spends : List OutPoint
  pub transparent_creates : List (OutPoint × UtxoLeaf)
  pub nullifiers_for : PoolId → List Value
  pub commitments_for : PoolId → ℕ

pub record BlockProofBundle (Hash Proof : Type 0) : Type 0 where
  pub height : ℕ
  pub spent : List UtxoLeaf
  pub utxo_proof : Proof
  pub insertions : PoolId → List (InsertionProof Hash)
  pub depth : ℕ

-- a map from the pools, with one entry replaced
unfoldable pub put_pool : {A : Type 0} → PoolId → A → (PoolId → A) → PoolId → A
unfolding code
put_pool p a m q = if code p == code q then a else m q

-- `contains` on a set of outpoints
unfoldable pub has_outpoint : OutPoint → List OutPoint → Bool
unfolding outpoint_beq
has_outpoint o [] = false
has_outpoint o (x ∷ xs) = if outpoint_beq o x then true else has_outpoint o xs

-- `tip.saturating_add(1)` on `u32`
abbrev pub next_height : ℕ → ℕ
next_height tip = if leb 4294967295 tip then 4294967295 else tip + 1

-- `is_empty`
abbrev pub is_empty : {A : Type 0} → List A → Bool
is_empty [] = true
is_empty (x ∷ xs) = false
