-- ===== src/Cohort/Joined.antt =====
-- cohort.rs: in the fold of `verify_cohort`, every node of a level stands under its parent.
use ztreexo.Prelude.{
  ℕ, suc, ◌+◌, ◌/◌, ◌%◌, ◌≤◌, ◌≡◌, inl, inr, true, false, List, [], ◌∷◌, Option, some, ok, arith,
  refl, sym, ap, ◌∙◌, ◌==◌, Bool-cases, subst, ==→eq,
}
use ztreexo.Pool.{PoolId}
use ztreexo.Digest.ImtHash.{ImtHash}
use ztreexo.Imt.Path.{sibling_index, join}
use ztreexo.Cohort.Verify.{node_of, starts_at, sibling_hash, parents}
use ztreexo.Cohort.Fold.{
  Ascends, Ascends-weaken, Ascends-raise, node_of-Ascends, node_of-head, node_of-tail,
  parents-inversion, parents-Ascends, starts_at-parents,
}

module _ {Hash : Type 0} (h : ImtHash Hash) (pool : PoolId) (provided : ℕ → ℕ → Option Hash)
    (ladder : List Hash) where
  sibling_hash-known :
      (level : ℕ) (all : List (ℕ × Hash)) (i : ℕ) (d : Hash)
      → node_of i all ≡ some d
      → sibling_hash h pool provided ladder level all i ≡ ok d
  unfolding sibling_hash
  sibling_hash-known level all i d e = rw (e, sibling_hash) refl

  join-swap : (i : ℕ) (d d' : Hash) → i % 2 ≡ 0 → join h pool (i + 1) d' d ≡ join h pool i d d'
  unfolding join
  join-swap i d d' even =
      let here : (i % 2 == 0) ≡ true = ground arith in
      let there : ((i + 1) % 2 == 0) ≡ false = ground arith in rw (here, there) refl

  -- The node `k` of the level, and the sibling it is joined with.
  abbrev pub Joined : ℕ → List (ℕ × Hash) → List (ℕ × Hash) → ℕ → Hash → Type 0
  Joined level all up k v =
      (s : Hash) × (sibling_hash h pool provided ladder level all (sibling_index k) ≡ ok s)
      × (node_of (k / 2) up ≡ some (join h pool k v s))

  -- two children of one parent
  Joined-pair :
      (level : ℕ) (all later : List (ℕ × Hash)) (i j : ℕ) (d d' : Hash)
      → j / 2 ≡ i / 2
      → suc i ≤ j
      → node_of i all ≡ some d
      → node_of j all ≡ some d'
      → Joined level all later j d'
      → Joined level all later i d
  unfolding sibling_index
  Joined-pair level all later i j d d' same above here there (s, found, entry) =
      let even : i % 2 ≡ 0 = omega arith in
      let next : j ≡ i + 1 = omega arith in
      let right : sibling_index i ≡ j = ground arith in
      let left : sibling_index j ≡ i = ground arith in
      let own : sibling_hash h pool provided ladder level all (sibling_index j) ≡ ok d =
        ap (sibling_hash h pool provided ladder level all) left
        ∙ sibling_hash-known level all i d here in
      let is_own : s ≡ d = ground arith in
      (
        d',
        ap (sibling_hash h pool provided ladder level all) right
            ∙ sibling_hash-known level all j d' there,
        ap (λ (n : ℕ). node_of n later) (sym same)
            ∙ entry
            ∙ ap some (
                ap (join h pool j d') is_own
                ∙ ap (λ (n : ℕ). join h pool n d' d) next
                ∙ join-swap i d d' even),
      )

  -- the node at the head of the list
  Joined-head :
      (level : ℕ) (all up rest : List (ℕ × Hash)) (i k : ℕ) (d v : Hash)
      → (i == k) ≡ true
      → node_of k ((i, d) ∷ rest) ≡ some v
      → Joined level all up i d
      → Joined level all up k v
  Joined-head level all up rest i k d v here there joined =
      let k_is : i ≡ k = ==→eq i k here in
      let v_is : some d ≡ some v =
        sym (node_of-head i d rest) ∙ ap (λ (n : ℕ). node_of n ((i, d) ∷ rest)) k_is ∙ there in
      let v_same : d ≡ v = ground (arith, v_is) in
      subst (λ (n : ℕ). Joined level all up n v) k_is (subst (Joined level all up i) v_same joined)

  pub parents-Joined :
      (level : ℕ) (all nodes up : List (ℕ × Hash)) (low : ℕ)
      → Ascends low nodes
      → ((k : ℕ) (v : Hash) → node_of k nodes ≡ some v → node_of k all ≡ some v)
      → parents h pool provided ladder level all nodes ≡ ok up
      → (k : ℕ) (v : Hash) → node_of k nodes ≡ some v
      → Joined level all up k v
  parents-Joined level all [] up low asc known e k v there = absurd (unfold node_of in cc)
  parents-Joined level all ((i, d) ∷ rest) up low asc known e k v there =
      let (s, later, found, above, made) =
        parents-inversion h pool provided ladder level all i d rest up e in
      let known' : (n : ℕ) (w : Hash) → node_of n rest ≡ some w → node_of n all ≡ some w = λ n w at.
        let apart : (i == n) ≡ false = ground (arith, node_of-Ascends (suc i) n rest w asc.1 at) in
        known n w (node_of-tail i n d rest apart ∙ at) in
      let up_there = parents-Joined level all rest later (suc i) asc.1 known' above in
      let asc' = parents-Ascends h pool provided ladder level all rest later (suc i) asc.1 above in
      elim (Bool-cases (starts_at (i / 2) later)) [
        | inl shared ↦
            let same : later ≡ up = sym (made ∙ rw shared refl) in
            subst (λ (x : List (ℕ × Hash)). Joined level all x k v) same
              (elim (Bool-cases (i == k)) [
                | inl here ↦
                    let (j, d', halves, at) =
                      starts_at-parents h pool provided ladder level all rest later (i / 2) above
                        shared in
                    Joined-head level all later rest i k d v here there (
                      Joined-pair level all later i j d d' halves
                        (node_of-Ascends (suc i) j rest d' asc.1 at)
                        (known i d (node_of-head i d rest)) (known' j d' at) (up_there j d' at))
                | inr other ↦ up_there k v (sym (node_of-tail i k d rest other) ∙ there)
              ])
        | inr apart ↦
            let same : (i / 2, join h pool i d s) ∷ later ≡ up = sym (made ∙ rw apart refl) in
            subst (λ (x : List (ℕ × Hash)). Joined level all x k v) same
              (elim (Bool-cases (i == k)) [
                | inl here ↦
                    Joined-head level all ((i / 2, join h pool i d s) ∷ later) rest i k d v here
                      there (s, found, node_of-head (i / 2) (join h pool i d s) later)
                | inr other ↦
                    let (s', found', entry) =
                      up_there k v (sym (node_of-tail i k d rest other) ∙ there) in
                    let raised =
                      Ascends-raise (i / 2) later
                        (Ascends-weaken (suc i / 2) (i / 2) later (omega arith) asc') apart in
                    let beyond : (i / 2 == k / 2) ≡ false =
                      ground (arith, node_of-Ascends (suc (i / 2)) (k / 2) later _ raised entry) in
                    (
                      s',
                      found',
                      node_of-tail (i / 2) (k / 2) (join h pool i d s) later beyond ∙ entry,
                    )
              ])
      ]
