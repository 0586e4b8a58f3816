-- ===== src/Chain/Lookups.antt =====
-- crates/zutreexo-chain/src/pool.rs: the outputs of the index, after outputs were removed and
-- inserted.
use ztreexo.Prelude.{
  ◌≡◌, List, [], ◌∷◌, Option, none, some, if◌then◌else◌, refl, ap, ◌∙◌, arith, Bool-cases, inl, inr,
}
use ztreexo.Chain.Types.{OutPoint, outpoint_beq, UtxoLeaf, has_outpoint}
use ztreexo.Chain.Accumulators.{UtxoIndex, utxo, remove_utxo, insert_utxo}
use ztreexo.Chain.Apply.{remove_utxos, insert_utxos}
use ztreexo.Chain.Outpoints.{outpoint_beq-eq, created_outpoints, has_outpoint-cons}

-- the last output of the list at this outpoint, or the given one
abbrev pub latest : OutPoint → List (OutPoint × UtxoLeaf) → Option UtxoLeaf → Option UtxoLeaf
latest o [] before = before
latest o ((p, leaf) ∷ outputs) before =
    latest o outputs (if outpoint_beq o p then some leaf else before)

utxo-remove_utxo :
    (o p : OutPoint) (index : UtxoIndex)
    → utxo o (remove_utxo p index) ≡ (if outpoint_beq o p then none else utxo o index)
unfolding utxo remove_utxo
utxo-remove_utxo o p [] = ground arith
utxo-remove_utxo o p ((q, leaf) ∷ index) =
    let rest = utxo-remove_utxo o p index in
    elim (Bool-cases (outpoint_beq p q)) [
      | inl same ↦
          let here : outpoint_beq o p ≡ outpoint_beq o q =
            ap (outpoint_beq o) (outpoint_beq-eq p q same) in
          ground arith
      | inr other ↦ elim (Bool-cases (outpoint_beq o q)) [
        | inl this ↦ elim (Bool-cases (outpoint_beq o p)) [
          | inl that ↦
              absurd (ground (arith, ap (λ x. outpoint_beq x q) (outpoint_beq-eq o p that)))
          | inr away ↦ ground arith
        ]
        | inr next ↦ ground arith
      ]
    ]

utxo-insert_utxo :
    (o p : OutPoint) (leaf : UtxoLeaf) (index : UtxoIndex)
    → utxo o (insert_utxo p leaf index) ≡ (if outpoint_beq o p then some leaf else utxo o index)
unfolding utxo insert_utxo
utxo-insert_utxo o p leaf index = ground (arith, utxo-remove_utxo o p index)

pub utxo-remove_utxos :
    (o : OutPoint) (spent : List (OutPoint × UtxoLeaf)) (index : UtxoIndex)
    → utxo o (remove_utxos spent index)
      ≡ (if has_outpoint o (created_outpoints spent) then none else utxo o index)
utxo-remove_utxos o [] index = unfold has_outpoint in refl
utxo-remove_utxos o ((p, leaf) ∷ spent) index = ground (
  arith,
  utxo-remove_utxos o spent (remove_utxo p index),
  utxo-remove_utxo o p index,
  has_outpoint-cons o p (created_outpoints spent),
)

pub utxo-insert_utxos :
    (o : OutPoint) (created : List (OutPoint × UtxoLeaf)) (index : UtxoIndex)
    → utxo o (insert_utxos created index) ≡ latest o created (utxo o index)
utxo-insert_utxos o [] index = refl
utxo-insert_utxos o ((p, leaf) ∷ created) index =
    utxo-insert_utxos o created (insert_utxo p leaf index)
    ∙ ap (latest o created) (utxo-insert_utxo o p leaf index)
