-- ===== src/Rollback/Block.antt =====
-- rollback.rs: the whole of step 3b of `apply_block`, undone.
use ztreexo.Prelude.{
  ◌≡◌, inl, inr, true, false, List, [], ◌∷◌, some, ok, arith, refl, sym, ap, ◌∙◌, subst, Bool-cases,
  ◌==◌,
}
use ztreexo.Pool.{PoolId, code}
use ztreexo.Digest.ImtHash.{ImtHash}
use ztreexo.Imt.Types.{Value, InsertionProof}
use ztreexo.Imt.Tree.{IndexedMerkleTree}
use ztreexo.Imt.Invariant.{IsValid}
use ztreexo.Imt.Mirrors.{Mirrors}
use ztreexo.Imt.Histories.{AllValues}
use ztreexo.Chain.Types.{BlockSummary, put_pool, is_empty}
use ztreexo.Chain.Accumulators.{Forests}
use ztreexo.Chain.Nullifiers.{put_pool-all, put_pool_here, put_pool_away}
use ztreexo.Chain.Apply.{Chain, insert_each, insert_nullifiers}
use ztreexo.Chain.Commit.{Apart, DistinctPools, HoldsTrees}
use ztreexo.Chain.Delta.{touched_step}
use ztreexo.Rollback.Unwind.{undo_each, reversed}
use ztreexo.Rollback.Shielded.{undo_each-insert_each, insert_each-IsValid, insert_each-step}
use ztreexo.Rollback.Pools.{
  Unwinds, Unwinds-nil, undo_pools-append, untouched_step, undo_pool, undo_pool_untouched,
  HoldsMirrors-put,
}

module _ {Hash Forest Failure : Type 0} (h : ImtHash Hash) (f : Forests Hash Forest Failure) where
  Unwinds-untouched :
      (summary : BlockSummary) (p : PoolId) (ps : List PoolId) (c c' : Chain h f)
      (ts : PoolId → IndexedMerkleTree Hash)
      (insertions recorded : PoolId → List (Value × InsertionProof Hash))
      → Apart p ps
      → insertions p ≡ []
      → Unwinds h f c c' ps ts insertions recorded
      → Unwinds h f c c' (p ∷ ps) ts insertions recorded
  Unwinds-untouched summary p ps c c' ts insertions recorded apart nothing w = record {
    ts' = w.ts';
    holds = w.holds;
    rest_same = w.rest_same;
    kept = λ q away. w.kept q away.1;
    back = λ d us mirrors.
        let (held, us', undone, mirrors') = w.back d us mirrors in
        let empty : is_empty (recorded p) ≡ true = ap is_empty (w.kept p apart ∙ nothing) in
        (
          held,
          us',
          undo_pools-append h f recorded (reversed ps) (p ∷ []) d (record d { nullifiers = held })
                undone
              ∙ undo_pool_untouched h f recorded p (record d { nullifiers = held }) empty,
          mirrors',
        );
  }

  applied_some :
      (t t' : IndexedMerkleTree Hash) (vs : List Value)
      (applied : List (Value × InsertionProof Hash))
      → is_empty vs ≡ false
      → insert_each h f t vs ≡ (t', ok applied)
      → is_empty applied ≡ false
  applied_some t t' [] applied some_value e = cc
  applied_some t t' (v ∷ vs) applied some_value e =
      let (_, _, _, _, _, made) = insert_each-step h f t t' v vs applied e in ap is_empty made

  Unwinds-touched :
      (summary : BlockSummary) (p : PoolId) (ps : List PoolId) (c c' : Chain h f)
      (ts : PoolId → IndexedMerkleTree Hash)
      (insertions recorded : PoolId → List (Value × InsertionProof Hash))
      (t' : IndexedMerkleTree Hash) (applied : List (Value × InsertionProof Hash))
      → Apart p ps
      → IsValid h (ts p)
      → AllValues (summary.nullifiers_for p)
      → is_empty (summary.nullifiers_for p) ≡ false
      → insert_each h f (ts p) (summary.nullifiers_for p) ≡ (t', ok applied)
      → Unwinds h f
          (record c { nullifiers = put_pool p (some t') c.nullifiers })
          c'
          ps
          (put_pool p t' ts)
          (put_pool p applied insertions)
          recorded
      → Unwinds h f c c' (p ∷ ps) ts insertions recorded
  Unwinds-touched summary p ps c c' ts insertions recorded t' applied apart valid in_type touched
        each w =
      record {
        ts' = w.ts';
        holds = w.holds;
        rest_same = w.rest_same;
        kept = λ q away. w.kept q away.1 ∙ put_pool_away p q applied insertions away.0;
        back = λ d us mirrors.
            let (held, us', undone, mirrors') = w.back d us mirrors in
            let own : recorded p ≡ applied = w.kept p apart ∙ put_pool_here p applied insertions in
            let here : put_pool p t' ts p ≡ t' = put_pool_here p t' ts in
            let (r, undone_p, restored) =
              undo_each-insert_each h f (ts p) t' (us' p) (summary.nullifiers_for p) applied valid
                in_type each (subst (Mirrors h (us' p)) here (mirrors' p).1) in
            (
              put_pool p (some r) held,
              put_pool p r us',
              undo_pools-append h f recorded (reversed ps) (p ∷ []) d
                    (record d { nullifiers = held }) undone
                  ∙ undo_pool h f recorded p (record d { nullifiers = held }) (us' p) r
                      (ap is_empty own
                        ∙ applied_some (ts p) t' (summary.nullifiers_for p) applied touched each)
                      (mirrors' p).0 (ap (λ xs. undo_each h (us' p) (reversed xs)) own ∙ undone_p),
              HoldsMirrors-put h f held us' ts p t' r mirrors' restored,
            );
      }

  -- nothing is recorded yet for the pools of the list
  abbrev Unrecorded : (PoolId → List (Value × InsertionProof Hash)) → List PoolId → Type 0
  Unrecorded insertions [] = Unit
  Unrecorded insertions (p ∷ ps) = (insertions p ≡ []) × Unrecorded insertions ps

  Unrecorded-put :
      (insertions : PoolId → List (Value × InsertionProof Hash)) (p : PoolId)
      (applied : List (Value × InsertionProof Hash)) (ps : List PoolId)
      → Apart p ps
      → Unrecorded insertions ps
      → Unrecorded (put_pool p applied insertions) ps
  Unrecorded-put insertions p applied [] apart fresh = tt
  Unrecorded-put insertions p applied (q ∷ qs) apart fresh =
      let away : (code q == code p) ≡ false = ground (arith, apart.0) in
      (
        put_pool_away p q applied insertions away ∙ fresh.0,
        Unrecorded-put insertions p applied qs apart.1 fresh.1,
      )

  -- Every success of step 3b can be undone.
  pub insert_nullifiers-Unwinds :
      (summary : BlockSummary) (ps : List PoolId) (c c' : Chain h f)
      (ts : PoolId → IndexedMerkleTree Hash)
      (insertions recorded : PoolId → List (Value × InsertionProof Hash))
      → DistinctPools ps
      → HoldsTrees h f c.nullifiers ts
      → ((p : PoolId) → AllValues (summary.nullifiers_for p))
      → Unrecorded insertions ps
      → insert_nullifiers h f summary ps c insertions ≡ (c', ok recorded)
      → Unwinds h f c c' ps ts insertions recorded
  insert_nullifiers-Unwinds summary [] c c' ts insertions recorded distinct holds in_type fresh e =
      Unwinds-nil h f summary c c' ts insertions recorded holds e
  insert_nullifiers-Unwinds summary (p ∷ ps) c c' ts insertions recorded distinct holds in_type
        fresh e =
      elim (Bool-cases (is_empty (summary.nullifiers_for p))) [
        | inl empty ↦
            Unwinds-untouched summary p ps c c' ts insertions recorded distinct.0 fresh.0 (
              insert_nullifiers-Unwinds summary ps c c' ts insertions recorded distinct.1 holds
                in_type fresh.1 (sym (untouched_step h f summary p ps c insertions empty) ∙ e))
        | inr touched ↦
            let (t', applied, each, later) =
              touched_step h f summary p ps c c' insertions recorded (ts p) (holds p).0 touched e in
            let valid' =
              insert_each-IsValid h f (ts p) t' (summary.nullifiers_for p) applied (holds p).1
                (in_type p) each in
            Unwinds-touched summary p ps c c' ts insertions recorded t' applied distinct.0
              (holds p).1 (in_type p) touched each
              (insert_nullifiers-Unwinds summary ps
                (record c { nullifiers = put_pool p (some t') c.nullifiers }) c' (put_pool p t' ts)
                (put_pool p applied insertions) recorded distinct.1
                (put_pool-all (λ q o t. (o ≡ some t) × IsValid h t) p (some t') t' c.nullifiers ts
                  (refl, valid') holds)
                in_type (Unrecorded-put insertions p applied ps distinct.0 fresh.1) later)
      ]
