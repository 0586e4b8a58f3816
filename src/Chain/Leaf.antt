-- ===== src/Chain/Leaf.antt =====
-- utreexo.rs: `UtxoLeaf::hash`. Different outputs have different preimages.
use ztreexo.Prelude.{
  ℕ, ◌^◌, ◌<◌, ◌≡◌, Bool, true, false, List, [], ◌∷◌, ◌++◌, length, arith, append-injective, sym,
  ◌∙◌, leb, if◌then◌else◌,
}
use ztreexo.Bytes.{
  be_bytes, le_bytes, length-be_bytes, length-le_bytes, be_bytes-injective, le_bytes-injective,
}
use ztreexo.Digest.{Hash, utxo_leaf}
use ztreexo.Imt.Types.{u64_max}
use ztreexo.Chain.Types.{UtxoLeaf}

-- `u8::from(flag)`
unfoldable pub flag_byte : Bool → ℕ
flag_byte true = 1
flag_byte false = 0

-- `u64::try_from(len).unwrap_or(u64::MAX)`
abbrev pub script_length : ℕ → ℕ
script_length n = if leb n u64_max then n else u64_max

unfoldable pub leaf_preimage : UtxoLeaf → List ℕ
unfolding flag_byte
leaf_preimage l =
    be_bytes 32 l.txid
    ++ (le_bytes 4 l.vout
        ++ (le_bytes 4 l.height
            ++ ((flag_byte l.is_coinbase ∷ [])
                ++ (le_bytes 8 l.value
                    ++ (le_bytes 8 (script_length (length l.script_pubkey)) ++ l.script_pubkey)))))

unfoldable pub leaf_hash : (List ℕ → List ℕ → Hash) → UtxoLeaf → Hash
unfolding leaf_preimage
leaf_hash blake2b l = utxo_leaf blake2b (leaf_preimage l)

-- the fields lie in the ranges of their types
pub record OutputFits (l : UtxoLeaf) : Type 0 where
  pub txid_fits : l.txid < 2 ^ 256
  pub vout_fits : l.vout < 2 ^ 32
  pub height_fits : l.height < 2 ^ 32
  pub value_fits : l.value < 2 ^ 64

flag_byte-injective : (a b : Bool) → flag_byte a ≡ flag_byte b → a ≡ b
unfolding flag_byte
flag_byte-injective a b e = ground arith

split_le :
    (w m n : ℕ) (xs ys : List ℕ)
    → le_bytes w m ++ xs ≡ le_bytes w n ++ ys
    → (le_bytes w m ≡ le_bytes w n) × (xs ≡ ys)
split_le w m n xs ys e =
    append-injective (le_bytes w m) xs (le_bytes w n) ys
      (length-le_bytes w m ∙ sym (length-le_bytes w n)) e

-- Two outputs with the same preimage are the same output.
pub leaf_preimage-injective :
    (a b : UtxoLeaf) → OutputFits a → OutputFits b → leaf_preimage a ≡ leaf_preimage b → a ≡ b
unfolding leaf_preimage
leaf_preimage-injective a b f g e =
    let (txid, e1) =
      append-injective (be_bytes 32 a.txid) _ (be_bytes 32 b.txid) _
        (length-be_bytes 32 a.txid ∙ sym (length-be_bytes 32 b.txid)) e in
    let (vout, e2) = split_le 4 a.vout b.vout _ _ e1 in
    let (height, e3) = split_le 4 a.height b.height _ _ e2 in
    let flag : flag_byte a.is_coinbase ≡ flag_byte b.is_coinbase = cc in
    let (value, e5) = split_le 8 a.value b.value _ _ (cc) in
    let (_, script) =
      split_le 8 (script_length (length a.script_pubkey)) (script_length (length b.script_pubkey))
        a.script_pubkey b.script_pubkey e5 in
    ground (
      arith,
      be_bytes-injective 32 a.txid b.txid (omega (arith, f.txid_fits)) (omega (arith, g.txid_fits))
          txid,
      le_bytes-injective 4 a.vout b.vout (omega (arith, f.vout_fits)) (omega (arith, g.vout_fits))
          vout,
      le_bytes-injective 4 a.height b.height (omega (arith, f.height_fits))
          (omega (arith, g.height_fits)) height,
      flag_byte-injective a.is_coinbase b.is_coinbase flag,
      le_bytes-injective 8 a.value b.value (omega (arith, f.value_fits))
          (omega (arith, g.value_fits)) value,
      script,
    )
