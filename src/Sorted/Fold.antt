-- ===== src/Sorted/Fold.antt =====
-- sorted.rs: the fold of `verify_cohort`, against the tree that the root stands for.
use ztreexo.Prelude.{
  ℕ, zero, suc, ◌+◌, ◌-◌, ◌*◌, ◌/◌, ◌%◌, ◌^◌, ◌≤◌, ◌≡◌, ◌⊎◌, inl, inr, List, [], ◌∷◌, length, arith,
  refl, sym, ap, ap₂, ◌∙◌, ◌==◌, Bool-cases, pow-suc, ==→eq, ==→ne, ◌&&◌, subst,
}
use ztreexo.Sorted.Types.{SortedHash, SortedCohort, SortedCollision, two_nodes}
use ztreexo.Sorted.Rows.{row, RowsAt, row-pair}
use ztreexo.Sorted.Verify.{fringe, fold_pairs, fold_level, fold_run}

-- how many parents a run of `n` nodes from `index` has
abbrev pub parent_count : ℕ → ℕ → ℕ
parent_count index n = (index + n + 1) / 2 - index / 2

module _ {Hash : Type 0} (h : SortedHash Hash) (cohort : SortedCohort Hash) where
  length-fold_pairs :
      (level cursor : ℕ) (nodes : List Hash)
      → length (fold_pairs h cohort level cursor nodes) ≡ (length nodes + 1) / 2
  unfolding fold_pairs
  length-fold_pairs level cursor [] = refl
  length-fold_pairs level cursor (x ∷ []) = refl
  length-fold_pairs level cursor (x ∷ y ∷ nodes) =
      omega (arith, length-fold_pairs level (cursor + 2) nodes)

  pub length-fold_level :
      (level index : ℕ) (nodes : List Hash)
      → 1 ≤ length nodes
      → length (fold_level h cohort level index nodes) ≡ parent_count index (length nodes)
  unfolding fold_level
  length-fold_level level index [] some_node = absurd (omega arith)
  length-fold_level level index (x ∷ nodes) some_node =
      ground (
        arith,
        length-fold_pairs level (index + 1) nodes,
        length-fold_pairs level index (x ∷ nodes),
      )

  -- A run of at most `2 ^ (n + 1)` positions has at most `2 ^ n` parents, and at least one.
  parent_count_bounds :
      (n index count : ℕ)
      → 1 ≤ count
      → index + count ≤ 2 ^ suc n
      → (1 ≤ parent_count index count) × (index / 2 + parent_count index count ≤ 2 ^ n)
  parent_count_bounds n index count a b = (omega arith, omega (arith, pow-suc 2 n))

  module _ (f : ℕ → Hash) where
    abbrev pub RunAt : ℕ → ℕ → List Hash → Type 0
    RunAt level index nodes = RowsAt h cohort.pool f level index nodes

    abbrev pub true_node : ℕ → ℕ → Hash
    true_node level index = row h cohort.pool f level index

    node_split :
        (a b c d : Hash)
        → h.sorted_node cohort.pool a b ≡ h.sorted_node cohort.pool c d
        → SortedCollision h cohort.pool ⊎ ((a ≡ c) × (b ≡ d))
    node_split a b c d e = elim (Bool-cases (h.beq a c && h.beq b d)) [
      | inl same ↦ inr (ground (arith, h.beq_iff a c, h.beq_iff b d))
      | inr other ↦ inl (two_nodes a b c d (λ s. ground (arith, h.beq_iff a c, h.beq_iff b d)) e)
    ]

    fold_pairs_sound :
        (level cursor j : ℕ) (nodes : List Hash)
        → cursor ≡ j * 2
        → RunAt (suc level) j (fold_pairs h cohort level cursor nodes)
        → SortedCollision h cohort.pool ⊎ RunAt level cursor nodes
    unfolding fold_pairs
    fold_pairs_sound level cursor j [] even at = inr tt
    fold_pairs_sound level cursor j (x ∷ []) even at =
        elim (node_split _ _ _ _ (at.0 ∙ sym (row-pair h cohort.pool f level cursor j even))) [
          | inl broken ↦ inl broken
          | inr same ↦ inr (same.0, tt)
        ]
    fold_pairs_sound level cursor j (x ∷ y ∷ nodes) even at =
        elim (fold_pairs_sound level (cursor + 2) (suc j) nodes (omega arith) at.1) [
          | inl broken ↦ inl broken
          | inr rest ↦
              elim (node_split _ _ _ _
                (at.0 ∙ sym (row-pair h cohort.pool f level cursor j even))) [
                  | inl broken ↦ inl broken
                  | inr same ↦
                      inr (same.0, (same.1, subst (λ n. RunAt level n nodes) (omega arith) rest))
                ]
        ]

    fold_level_sound :
        (level index : ℕ) (nodes : List Hash)
        → RunAt (suc level) (index / 2) (fold_level h cohort level index nodes)
        → SortedCollision h cohort.pool ⊎ RunAt level index nodes
    unfolding fold_level
    fold_level_sound level index [] at = inr tt
    fold_level_sound level index (x ∷ nodes) at = elim (Bool-cases (index % 2 == 1)) [
      | inl odd ↦
          let at' = rw odd at at in
          let before : index - 1 ≡ index / 2 * 2 = omega (arith, ==→eq (index % 2) 1 odd) in
          let here : suc (index - 1) ≡ index = omega (arith, ==→eq (index % 2) 1 odd) in
          let next : index + 1 ≡ suc (index / 2) * 2 = omega (arith, ==→eq (index % 2) 1 odd) in
          elim (fold_pairs_sound level (index + 1) (suc (index / 2)) nodes next at'.1) [
            | inl broken ↦ inl broken
            | inr rest ↦
                elim (node_split _ _ _ _
                  (at'.0 ∙ sym (row-pair h cohort.pool f level (index - 1) (index / 2) before))) [
                    | inl broken ↦ inl broken
                    | inr same ↦ inr (
                      same.1 ∙ ap (true_node level) here,
                      subst (λ n. RunAt level n nodes) (omega arith) rest,
                    )
                  ]
          ]
      | inr even ↦
          fold_pairs_sound level index (index / 2) (x ∷ nodes)
            (omega (arith, ==→ne (index % 2) 1 even)) (rw even at at)
    ]

    -- What a run folds to is the root only if its nodes are those of the tree.
    pub fold_run_sound :
        (n level index : ℕ) (nodes : List Hash) (computed : Hash) (rest : List Hash)
        → 1 ≤ length nodes
        → index + length nodes ≤ 2 ^ n
        → fold_run h cohort n level index nodes ≡ computed ∷ rest
        → computed ≡ true_node (level + n) 0
        → SortedCollision h cohort.pool ⊎ RunAt level index nodes
    unfolding fold_run
    fold_run_sound zero level index [] computed rest some_node room e top = inr tt
    fold_run_sound zero level index (x ∷ []) computed rest some_node room e top =
        let same : x ≡ computed = ground arith in
        inr (same ∙ top ∙ ap₂ true_node (omega arith) (omega arith), tt)
    fold_run_sound zero level index (x ∷ y ∷ nodes) computed rest some_node room e top =
        absurd (omega arith)
    fold_run_sound (suc n) level index nodes computed rest some_node room e top =
        let count = length-fold_level level index nodes some_node in
        let bounds = parent_count_bounds n index (length nodes) some_node room in
        elim (fold_run_sound n (suc level) (index / 2) (fold_level h cohort level index nodes)
          computed rest (omega (arith, count, bounds.0)) (omega (arith, count, bounds.1)) e
          (top ∙ ap (λ l. true_node l 0) (omega arith))) [
            | inl broken ↦ inl broken
            | inr above ↦ fold_level_sound level index nodes above
          ]

    -- the siblings that the fold of `count` nodes from `index` asks for are those of the tree
    abbrev pub EdgesAt : ℕ → ℕ → ℕ → ℕ → Type 0
    EdgesAt zero level index count = Unit
    EdgesAt (suc n) level index count =
        (index % 2 ≡ 1 → fringe h cohort level (index - 1) ≡ true_node level (index - 1))
        × ((index + count) % 2 ≡ 1
            → fringe h cohort level (index + count) ≡ true_node level (index + count))
        × EdgesAt n (suc level) (index / 2) (parent_count index count)

    fold_pairs_complete :
        (level cursor j : ℕ) (nodes : List Hash)
        → cursor ≡ j * 2
        → RunAt level cursor nodes
        → ((cursor + length nodes) % 2 ≡ 1
            → fringe h cohort level (cursor + length nodes)
              ≡ true_node level (cursor + length nodes))
        → RunAt (suc level) j (fold_pairs h cohort level cursor nodes)
    unfolding fold_pairs
    fold_pairs_complete level cursor j [] even at edge = tt
    fold_pairs_complete level cursor j (x ∷ []) even at edge =
        let next : cursor + 1 ≡ suc cursor = omega arith in
        (
          ap₂ (h.sorted_node cohort.pool) at.0 (edge (omega arith) ∙ ap (true_node level) next)
              ∙ row-pair h cohort.pool f level cursor j even,
          tt,
        )
    fold_pairs_complete level cursor j (x ∷ y ∷ nodes) even at edge =
        let far : cursor + 2 + length nodes ≡ cursor + suc (suc (length nodes)) = omega arith in
        (
          ap₂ (h.sorted_node cohort.pool) at.0 at.1.0
              ∙ row-pair h cohort.pool f level cursor j even,
          fold_pairs_complete level (cursor + 2) (suc j) nodes (omega arith)
              (subst (λ n. RunAt level n nodes) (omega arith) at.1.1)
              (λ odd. rw far (edge (omega arith))),
        )

    fold_level_complete :
        (level index : ℕ) (nodes : List Hash)
        → RunAt level index nodes
        → (index % 2 ≡ 1 → fringe h cohort level (index - 1) ≡ true_node level (index - 1))
        → ((index + length nodes) % 2 ≡ 1
            → fringe h cohort level (index + length nodes) ≡ true_node level (index + length nodes))
        → RunAt (suc level) (index / 2) (fold_level h cohort level index nodes)
    unfolding fold_level
    fold_level_complete level index [] at left right = tt
    fold_level_complete level index (x ∷ nodes) at left right = elim (Bool-cases (index % 2 == 1)) [
      | inl odd ↦
          let o = ==→eq (index % 2) 1 odd in
          let here : index ≡ suc (index - 1) = omega arith in
          let far : index + 1 + length nodes ≡ index + suc (length nodes) = omega arith in
          rw odd (
            ap₂ (h.sorted_node cohort.pool) (left o) (at.0 ∙ ap (true_node level) here)
                ∙ row-pair h cohort.pool f level (index - 1) (index / 2) (omega arith),
            fold_pairs_complete level (index + 1) (suc (index / 2)) nodes (omega arith)
                (subst (λ n. RunAt level n nodes) (omega arith) at.1)
                (λ e. rw far (right (omega arith))),
          )
      | inr even ↦ rw even (
          fold_pairs_complete level index (index / 2) (x ∷ nodes)
            (omega (arith, ==→ne (index % 2) 1 even)) at right)
    ]

    -- A run of the tree's nodes, with the tree's nodes at its edges, folds to the root alone.
    pub fold_run_complete :
        (n level index : ℕ) (nodes : List Hash)
        → 1 ≤ length nodes
        → index + length nodes ≤ 2 ^ n
        → RunAt level index nodes
        → EdgesAt n level index (length nodes)
        → fold_run h cohort n level index nodes ≡ true_node (level + n) 0 ∷ []
    unfolding fold_run
    fold_run_complete zero level index [] some_node room at edges = absurd (omega arith)
    fold_run_complete zero level index (x ∷ []) some_node room at edges =
        ap (λ y. y ∷ []) (at.0 ∙ ap₂ true_node (omega arith) (omega arith))
    fold_run_complete zero level index (x ∷ y ∷ nodes) some_node room at edges =
        absurd (omega arith)
    fold_run_complete (suc n) level index nodes some_node room at edges =
        let count = length-fold_level level index nodes some_node in
        let bounds = parent_count_bounds n index (length nodes) some_node room in
        fold_run_complete n (suc level) (index / 2) (fold_level h cohort level index nodes)
          (omega (arith, count, bounds.0)) (omega (arith, count, bounds.1))
          (fold_level_complete level index nodes at edges.0 edges.1)
          (subst (EdgesAt n (suc level) (index / 2)) (sym count) edges.2)
        ∙ ap (λ l. true_node l 0 ∷ []) (omega arith)
