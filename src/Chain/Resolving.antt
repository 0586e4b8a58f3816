-- ===== src/Chain/Resolving.antt =====
-- crates/zutreexo-chain/src/block_apply.rs: what stage 1a makes of a block's spends, in terms of the
-- index and the block alone.
use ztreexo.Prelude.{
  ℕ, ◌+◌, ◌≡◌, ◌⊎◌, Bool, true, false, ◌&&◌, ◌||◌, List, [], ◌∷◌, ◌++◌, none, some, ok,
  if◌then◌else◌, refl, sym, ap, ◌∙◌, arith, subst, Bool-cases, Option-cases, inl, inr,
}
use mathlib.Core.List.{append-nil, append_assoc}
use ztreexo.Digest.ImtHash.{ImtHash}
use ztreexo.Chain.Types.{OutPoint, UtxoLeaf, outpoint_beq, has_outpoint}
use ztreexo.Chain.Accumulators.{Forests, UtxoIndex, utxo}
use ztreexo.Chain.Apply.{Resolved, surviving_outputs, resolve_spends}
use ztreexo.Chain.Outpoints.{
  DistinctFrom, created_outpoints, has_outpoint-cons, outpoint_beq-eq, outpoint_beq_refl,
}

-- the spent outputs that the index has, in the order of the spends
abbrev pub known_outputs : UtxoIndex → List OutPoint → List (OutPoint × UtxoLeaf)
known_outputs index [] = []
known_outputs index (o ∷ spends) = elim (utxo o index) [
  | some leaf ↦ (o, leaf) ∷ known_outputs index spends
  | none ↦ known_outputs index spends
]

-- a spend that the block may make: of the index, or of the block itself, unless unknown spends are
-- allowed
abbrev pub Resolvable : Bool → UtxoIndex → List (OutPoint × UtxoLeaf) → OutPoint → Type 0
Resolvable allow index created o =
    ((leaf : UtxoLeaf) × (utxo o index ≡ some leaf))
    ⊎ (has_outpoint o (created_outpoints created) ≡ true)
    ⊎ (allow ≡ true)

-- spent, and not in the index
abbrev pub spent_within : UtxoIndex → List OutPoint → OutPoint → Bool
spent_within index spends o =
    has_outpoint o spends && elim (utxo o index) [ some _ ↦ false | none ↦ true ]

-- the outputs that the block creates and does not spend, unless it spends one of the index that has
-- the same outpoint
abbrev pub lasting_outputs :
    UtxoIndex → List OutPoint → List (OutPoint × UtxoLeaf) → List (OutPoint × UtxoLeaf)
lasting_outputs index spends [] = []
lasting_outputs index spends ((o, leaf) ∷ creates) =
    if spent_within index spends o
    then lasting_outputs index spends creates
    else (o, leaf) ∷ lasting_outputs index spends creates

known_outputs-some :
    (index : UtxoIndex) (o : OutPoint) (leaf : UtxoLeaf) (spends : List OutPoint)
    → utxo o index ≡ some leaf
    → known_outputs index (o ∷ spends) ≡ (o, leaf) ∷ known_outputs index spends
known_outputs-some index o leaf spends known = rw (known_outputs, known) refl

known_outputs-none :
    (index : UtxoIndex) (o : OutPoint) (spends : List OutPoint)
    → utxo o index ≡ none
    → known_outputs index (o ∷ spends) ≡ known_outputs index spends
known_outputs-none index o spends missing = rw (known_outputs, missing) refl

-- a spend of the index leaves the outputs of the block alone
spent_within-known :
    (index : UtxoIndex) (o : OutPoint) (leaf : UtxoLeaf) (spends : List OutPoint) (p : OutPoint)
    → utxo o index ≡ some leaf
    → spent_within index (o ∷ spends) p ≡ spent_within index spends p
spent_within-known index o leaf spends p known = elim (Bool-cases (outpoint_beq p o)) [
  | inl this ↦
      let here : utxo p index ≡ some leaf =
        ap (λ x. utxo x index) (outpoint_beq-eq p o this) ∙ known in
      ground arith
  | inr other ↦ ground (arith, other, has_outpoint-cons p o spends)
]

spent_within-missing :
    (index : UtxoIndex) (o : OutPoint) (spends : List OutPoint) (p : OutPoint)
    → utxo o index ≡ none
    → spent_within index (o ∷ spends) p ≡ (outpoint_beq p o || spent_within index spends p)
spent_within-missing index o spends p missing = elim (Bool-cases (outpoint_beq p o)) [
  | inl this ↦
      let here : utxo p index ≡ none =
        ap (λ x. utxo x index) (outpoint_beq-eq p o this) ∙ missing in
      ground (arith, this, has_outpoint-cons p o spends)
  | inr other ↦ ground (arith, other, has_outpoint-cons p o spends)
]

Resolvable-cons :
    (allow : Bool) (index : UtxoIndex) (created : List (OutPoint × UtxoLeaf)) (o : OutPoint)
    (spends : List OutPoint)
    → Resolvable allow index created o
    → ((p : OutPoint) → has_outpoint p spends ≡ true → Resolvable allow index created p)
    → (p : OutPoint) → has_outpoint p (o ∷ spends) ≡ true
    → Resolvable allow index created p
Resolvable-cons allow index created o spends this others p one =
    elim (Bool-cases (outpoint_beq p o)) [
      | inl same ↦ subst (Resolvable allow index created) (sym (outpoint_beq-eq p o same)) this
      | inr other ↦ others p (ground (arith, has_outpoint-cons p o spends))
    ]

module _ {Hash Forest Failure : Type 0} (h : ImtHash Hash) (f : Forests Hash Forest Failure) where
  pub record Resolves (allow : Bool) (index : UtxoIndex) (created : List (OutPoint × UtxoLeaf))
      (seen : List OutPoint) (r : Resolved) (spends : List OutPoint) (r' : Resolved) : Type 0 where
    pub distinct : DistinctFrom seen spends
    pub resolvable :
        (o : OutPoint) → has_outpoint o spends ≡ true → Resolvable allow index created o
    pub spent : r'.spent ≡ r.spent ++ known_outputs index spends
    pub cancelled :
        (o : OutPoint)
        → has_outpoint o (created_outpoints created) ≡ true
        → has_outpoint o r'.cancelled ≡ (spent_within index spends o || has_outpoint o r.cancelled)

  pub resolve_spends-Resolves :
      (height : ℕ) (allow : Bool) (index : UtxoIndex) (created : List (OutPoint × UtxoLeaf))
      (seen : List OutPoint) (r : Resolved) (spends : List OutPoint) (r' : Resolved)
      → resolve_spends h f height allow index created seen r spends ≡ ok r'
      → Resolves allow index created seen r spends r'
  unfolding resolve_spends
  resolve_spends-Resolves height allow index created seen r [] r' e =
      let same : r ≡ r' = ground arith in
      record {
        distinct = tt;
        resolvable = λ p one. absurd (unfold has_outpoint in ground arith);
        spent = ap (λ (x : Resolved). x.spent) (sym same) ∙ sym (append-nil r.spent);
        cancelled = λ p made.
            unfold has_outpoint in ap (λ (x : Resolved). has_outpoint p x.cancelled) (sym same);
      }
  resolve_spends-Resolves height allow index created seen r (o ∷ spends) r' e =
      let fresh : has_outpoint o seen ≡ false = ground arith in
      elim (Option-cases (utxo o index)) [
        | inr (leaf, known) ↦
            let w =
              resolve_spends-Resolves height allow index created (o ∷ seen)
                (record r { spent = r.spent ++ (o, leaf) ∷ [] }) spends r' (ground arith) in
            record {
              distinct = (fresh, w.distinct);
              resolvable =
                  Resolvable-cons allow index created o spends (inl (leaf, known)) w.resolvable;
              spent =
                  w.spent
                  ∙ append_assoc r.spent ((o, leaf) ∷ []) (known_outputs index spends)
                  ∙ ap (λ l. r.spent ++ l) (sym (known_outputs-some index o leaf spends known));
              cancelled = λ p made.
                  w.cancelled p made
                  ∙ ap (λ b. b || has_outpoint p r.cancelled)
                      (sym (spent_within-known index o leaf spends p known));
            }
        | inl missing ↦ elim (Bool-cases (has_outpoint o (created_outpoints created))) [
          | inl made ↦
              let w =
                resolve_spends-Resolves height allow index created (o ∷ seen)
                  (record r { cancelled = o ∷ r.cancelled }) spends r' (ground arith) in
              record {
                distinct = (fresh, w.distinct);
                resolvable =
                    Resolvable-cons allow index created o spends (inr (inl made)) w.resolvable;
                spent =
                    w.spent
                    ∙ ap (λ l. r.spent ++ l) (sym (known_outputs-none index o spends missing));
                cancelled = λ p here.
                    w.cancelled p here
                    ∙ ground (
                      arith,
                      has_outpoint-cons p o r.cancelled,
                      spent_within-missing index o spends p missing,
                    );
              }
          | inr foreign ↦
              let w =
                resolve_spends-Resolves height allow index created (o ∷ seen)
                  (record r { unknown_spends = r.unknown_spends + 1 }) spends r' (ground arith) in
              record {
                distinct = (fresh, w.distinct);
                resolvable =
                    Resolvable-cons allow index created o spends (inr (inr (ground arith)))
                      w.resolvable;
                spent =
                    w.spent
                    ∙ ap (λ l. r.spent ++ l) (sym (known_outputs-none index o spends missing));
                cancelled = λ p here.
                    let away : outpoint_beq p o ≡ false = elim (Bool-cases (outpoint_beq p o)) [
                      | inl this ↦ absurd (
                          ground (
                            arith,
                            ap (λ x. has_outpoint x (created_outpoints created))
                                (outpoint_beq-eq p o this),
                          ))
                      | inr other ↦ other
                    ] in
                    w.cancelled p here
                    ∙ ground (arith, away, spent_within-missing index o spends p missing);
              }
        ]
      ]

  -- the outputs that stay, by the list of the cancelled ones and by the index
  pub surviving_outputs-lasting_outputs :
      (index : UtxoIndex) (spends cancelled : List OutPoint) (all : List OutPoint)
      (creates : List (OutPoint × UtxoLeaf))
      → ((o : OutPoint)
          → has_outpoint o all ≡ true
          → has_outpoint o cancelled ≡ spent_within index spends o)
      → ((o : OutPoint)
          → has_outpoint o (created_outpoints creates) ≡ true
          → has_outpoint o all ≡ true)
      → surviving_outputs cancelled creates ≡ lasting_outputs index spends creates
  unfolding surviving_outputs
  surviving_outputs-lasting_outputs index spends cancelled all [] same inside = refl
  surviving_outputs-lasting_outputs index spends cancelled all ((o, leaf) ∷ creates) same inside =
      let rest =
        surviving_outputs-lasting_outputs index spends cancelled all creates same
          (λ p here. inside p (has_outpoint-cons p o (created_outpoints creates) ∙ ground arith)) in
      let this = same o (
        inside o
          (has_outpoint-cons o o (created_outpoints creates) ∙ rw (outpoint_beq_refl o) refl)) in
      rw (this, rest) refl
