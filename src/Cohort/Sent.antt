-- ===== src/Cohort/Sent.antt =====
-- cohort.rs: the nodes that `dedup_paths` sends are enough for `verify_cohort`, and they are right.
use ztreexo.Prelude.{
  ℕ, zero, suc, ◌≡◌, ◌⊎◌, inl, inr, true, false, ◌&&◌, List, [], ◌∷◌, Option, none, some, arith,
  refl, sym, ap, ap₂, ◌∙◌, ◌==◌, if◌then◌else◌, Bool-cases, Option-cases, subst, get_elem?,
}
use ztreexo.Digest.ImtHash.{ImtHash}
use ztreexo.Imt.Path.{sibling_index}
use ztreexo.Imt.Nodes.{put_node}
use ztreexo.Imt.Tree.{IndexedMerkleTree, node}
use ztreexo.Cohort.Prove.{among, halves, is_empty_hash, dedup_level, dedup_levels}

module _ {Hash : Type 0} (h : ImtHash Hash) (t : IndexedMerkleTree Hash) (ladder : List Hash) where
  -- only nodes of the tree
  abbrev pub Right : (ℕ → ℕ → Option Hash) → Type 0
  Right out = (l s : ℕ) → (out l s ≡ none) ⊎ (out l s ≡ some (node h t l s))

  abbrev Grows : (ℕ → ℕ → Option Hash) → (ℕ → ℕ → Option Hash) → Type 0
  Grows out out' = (l s : ℕ) → out l s ≡ some (node h t l s) → out' l s ≡ some (node h t l s)

  -- the node is sent, or it is the empty subtree
  abbrev pub Covers : (ℕ → ℕ → Option Hash) → ℕ → ℕ → Type 0
  Covers out l s = (out l s ≡ some (node h t l s)) ⊎ (get_elem? ladder l ≡ some (node h t l s))

  abbrev pub AllCovered : (ℕ → ℕ → Option Hash) → ℕ → List ℕ → List ℕ → Type 0
  AllCovered out level known [] = Unit
  AllCovered out level known (i ∷ rest) =
      (among (sibling_index i) known ≡ false → Covers out level (sibling_index i))
      × AllCovered out level known rest

  AllCovered-Grows :
      (out out' : ℕ → ℕ → Option Hash) (level : ℕ) (known rest : List ℕ)
      → Grows out out'
      → AllCovered out level known rest
      → AllCovered out' level known rest
  AllCovered-Grows out out' level known [] grows all = tt
  AllCovered-Grows out out' level known (i ∷ rest) grows all = (
    λ away. elim (all.0 away) [
      | inl sent ↦ inl (grows level (sibling_index i) sent)
      | inr empty ↦ inr empty
    ],
    AllCovered-Grows out out' level known rest grows all.1,
  )

  -- one round of the loop over `known`
  round :
      (level s : ℕ) (known : List ℕ) (out : ℕ → ℕ → Option Hash)
      → Right out
      → (let out' =
            (if among s known
              then out
              else if is_empty_hash h t ladder level (node h t level s)
              then out
              else put_node out level s (some (node h t level s))) in
          Right out' × Grows out out' × (among s known ≡ false → Covers out' level s))
  unfolding is_empty_hash
  round level s known out right = elim (Bool-cases (among s known)) [
    | inl held ↦ rw held (right, (λ l i e. e), λ away. absurd (cc (away)))
    | inr away ↦ elim (Bool-cases (is_empty_hash h t ladder level (node h t level s))) [
      | inl empty ↦
          rw (away, empty)
            (right, (λ l i e. e), λ a. inr (ladder_entry level (node h t level s) empty))
      | inr other ↦
          rw (away, other)
            (
              (λ l i. elim (Bool-cases (l == level && i == s)) [
                | inl here ↦ inr (put_here level s l i out here)
                | inr there ↦
                    subst (λ o. (o ≡ none) ⊎ (o ≡ some (node h t l i)))
                      (sym (put_there level s l i out there)) (right l i)
              ]),
              (λ l i e. elim (Bool-cases (l == level && i == s)) [
                | inl here ↦ put_here level s l i out here
                | inr there ↦ put_there level s l i out there ∙ e
              ]),
              λ a. inl (put_here level s level s out (ground arith)),
            )
    ]
  ]
    where
      put_here :
          (level s l i : ℕ) (out : ℕ → ℕ → Option Hash)
          → (l == level && i == s) ≡ true
          → put_node out level s (some (node h t level s)) l i ≡ some (node h t l i)
      put_here level s l i out here =
          let same_level : level ≡ l = ground arith in
          let same_index : s ≡ i = ground arith in
          unfold put_node in rw here (ap₂ (λ (a b : ℕ). some (node h t a b)) same_level same_index)

      put_there :
          (level s l i : ℕ) (out : ℕ → ℕ → Option Hash)
          → (l == level && i == s) ≡ false
          → put_node out level s (some (node h t level s)) l i ≡ out l i
      put_there level s l i out there = unfold put_node in rw there refl

      ladder_entry :
          (level : ℕ) (d : Hash)
          → is_empty_hash h t ladder level d ≡ true
          → get_elem? ladder level ≡ some d
      ladder_entry level d e = elim (Option-cases (get_elem? ladder level)) [
        | inl gone ↦ absurd (unfold is_empty_hash in ground arith)
        | inr (empty, found) ↦
            let same : h.beq empty d ≡ true = unfold is_empty_hash in ground arith in
            found ∙ ap some ((h.beq_iff empty d).0 same)
      ]

  dedup_level-AllCovered :
      (level : ℕ) (known rest : List ℕ) (out : ℕ → ℕ → Option Hash)
      → Right out
      → Right (dedup_level h t ladder level known rest out)
        × Grows out (dedup_level h t ladder level known rest out)
        × AllCovered (dedup_level h t ladder level known rest out) level known rest
  unfolding dedup_level
  dedup_level-AllCovered level known [] out right = (right, (λ l s e. e), tt)
  dedup_level-AllCovered level known (i ∷ rest) out right =
      let (right', grows', here) = round level (sibling_index i) known out right in
      let (right'', grows'', there) = dedup_level-AllCovered level known rest _ right' in
      (
        right'',
        (λ l s e. grows'' l s (grows' l s e)),
        (
          (λ away. elim (here away) [
            | inl sent ↦ inl (grows'' level (sibling_index i) sent)
            | inr empty ↦ inr empty
          ]),
          there,
        ),
      )

  -- all that the levels from `level` need
  abbrev pub LevelsCovered : (ℕ → ℕ → Option Hash) → ℕ → ℕ → List ℕ → Type 0
  LevelsCovered out zero level known = Unit
  LevelsCovered out (suc n) level known =
      AllCovered out level known known × LevelsCovered out n (suc level) (halves known)

  pub dedup_levels-LevelsCovered :
      (n level : ℕ) (known : List ℕ) (out : ℕ → ℕ → Option Hash)
      → Right out
      → Right (dedup_levels h t ladder n level known out)
        × Grows out (dedup_levels h t ladder n level known out)
        × LevelsCovered (dedup_levels h t ladder n level known out) n level known
  unfolding dedup_levels
  dedup_levels-LevelsCovered zero level known out right = (right, (λ l s e. e), tt)
  dedup_levels-LevelsCovered (suc n) level known out right =
      let (right', grows', covered) = dedup_level-AllCovered level known known out right in
      let (right'', grows'', levels) =
        dedup_levels-LevelsCovered n (suc level) (halves known) _ right' in
      (
        right'',
        (λ l s e. grows'' l s (grows' l s e)),
        (AllCovered-Grows _ _ level known known grows'' covered, levels),
      )
