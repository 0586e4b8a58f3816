-- ===== src/Cohort/Proved.antt =====
-- cohort.rs: what `prove_prefix_cohort` returns passes `verify_cohort`.
use ztreexo.Prelude.{
  ℕ, suc, ◌^◌, ◌≡◌, ◌⊎◌, inl, true, false, List, [], ◌∷◌, map, Option, none, some, ok, arith, refl,
  sym, ap, ap₂, ◌∙◌, subst, get_elem?, get_elem?-lt,
}
use ztreexo.Digest.ImtHash.{ImtHash}
use ztreexo.Imt.Types.{Value, Leaf, covers, hash_leaf}
use ztreexo.Imt.Path.{check_depth, empty_ladder, empty_subtree_hashes}
use ztreexo.Imt.Subtree.{subtree-zero}
use ztreexo.Imt.Tree.{IndexedMerkleTree, node, root}
use ztreexo.Imt.Invariant.{IsValid, leaf_digest, leaf_digest-stored}
use ztreexo.Imt.Links.{Linked}
use ztreexo.Cohort.{PrefixRange, Status, contains, resolve}
use ztreexo.Cohort.Settled.{AllStored, Settles, resolve_sound}
use ztreexo.Cohort.Delivered.{resolve_complete}
use ztreexo.Cohort.Order.{Ascending-sort_by_value, sort_by_value-Present, leaves_at-Present}
use ztreexo.Cohort.Bracket.{among-cohort_indices}
use ztreexo.Cohort.Verify.{
  CohortProof, fold_levels, check_ascending, not_above, verify_cohort, sort_by_value,
}
use ztreexo.Cohort.Verified.{AllStored-sort}
use ztreexo.Cohort.Forged.{accepted_of}
use ztreexo.Cohort.Prove.{
  among, cohort_indices, leaves_at, dedup_levels, dedup_paths, prove_prefix_cohort,
}
use ztreexo.Cohort.Sent.{LevelsCovered, dedup_levels-LevelsCovered}
use ztreexo.Cohort.Refold.{IndicesBelow, fold_levels-nodes_at}
use ztreexo.Cohort.Chosen.{Rising, AllHeld, cohort_indices-chosen, cohort_indices-Occupied}

module _ {Hash : Type 0} (h : ImtHash Hash) (t : IndexedMerkleTree Hash) (valid : IsValid h t) where
  -- the leaves of a cohort: at these indices, ascending, and stored
  record Collected (indices : List ℕ) (ls : List (ℕ × Leaf)) : Type 0 where
    got : leaves_at h t indices ≡ ok ls
    hashed :
        map {B = ℕ × Hash} (λ (x : ℕ × Leaf). (x.0, hash_leaf h t.pool x.1)) ls
        ≡ map (λ (i : ℕ). (i, node h t 0 i)) indices
    stored : AllStored t (map (λ (x : ℕ × Leaf). x.1) ls)
    within : IndicesBelow (2 ^ t.depth) indices
    ascending :
        (previous : Option ℕ)
        → ((p : ℕ) → previous ≡ some p → Rising (suc p) indices)
        → check_ascending h ls previous ≡ ok tt

  -- the index of a leaf that holds or covers the value
  abbrev Chosen : Value → List ℕ → Type 0
  Chosen v indices =
      (i : ℕ) × (l : Leaf) × (get_elem? t.leaves i ≡ some l)
      × (among i indices ≡ true)
      × ((l.value ≡ v) ⊎ (covers l v ≡ true))

  leaf_node :
      (i : ℕ) (l : Leaf) → get_elem? t.leaves i ≡ some l → hash_leaf h t.pool l ≡ node h t 0 i
  unfolding node
  leaf_node i l e = sym (
      valid.cached 0 i (omega arith)
      ∙ subtree-zero h t.pool (leaf_digest h t.pool t.leaves) i
      ∙ leaf_digest-stored h t.pool t.leaves i l e)

  not_above-Rising :
      (i : ℕ) (rest : List ℕ) (previous : Option ℕ)
      → ((p : ℕ) → previous ≡ some p → Rising (suc p) (i ∷ rest))
      → not_above i previous ≡ false
  not_above-Rising i rest none rising = refl
  not_above-Rising i rest (some p) rising = ground (arith, (rising p refl).0)

  collected :
      (low : ℕ) (indices : List ℕ)
      → AllHeld t.leaves indices
      → Rising low indices
      → (ls : List (ℕ × Leaf)) × Collected indices ls
  unfolding leaves_at check_ascending
  collected low [] held rising = (
    [],
    record {
      got = refl;
      hashed = refl;
      stored = tt;
      within = tt;
      ascending = λ previous after. refl;
    },
  )
  collected low (i ∷ rest) held rising =
      let (l, there) = held.0 in
      let (ls, c) = collected (suc i) rest held.1 rising.1 in
      (
        (i, l) ∷ ls,
        record {
          got = let later = c.got in rw (there, leaves_at, later) refl;
          hashed = ap₂ (λ d ds. (i, d) ∷ ds) (leaf_node i l there) c.hashed;
          stored = ((i, there), c.stored);
          within = (omega (arith, get_elem?-lt t.leaves i there, valid.room), c.within);
          ascending = λ previous after.
              let first = not_above-Rising i rest previous after in
              let later =
                c.ascending (some i)
                  (λ p e. subst (λ (n : ℕ). Rising (suc n) rest) (ground (arith, e)) rising.1) in
              rw (first, check_ascending) later;
        },
      )

  dedup_paths-levels :
      (indices : List ℕ)
      → (ladder : List Hash) × (empty_subtree_hashes h t.pool t.depth ≡ ok ladder)
        × (check_depth h t.depth ≡ ok tt)
        × (dedup_paths h t indices
            ≡ ok (dedup_levels h t ladder t.depth 0 indices (λ level index. none)))
  unfolding dedup_paths empty_subtree_hashes check_depth
  dedup_paths-levels indices =
      let low = valid.depth_min in
      let high = valid.depth_max in
      let deep : check_depth h t.depth ≡ ok tt = ground arith in
      (
        empty_ladder h t.pool t.depth (h.imt_empty_leaf t.pool),
        rw (deep, empty_subtree_hashes) refl,
        deep,
        rw (deep, empty_subtree_hashes, dedup_paths) refl,
      )

  cohort_indices-among :
      (range : PrefixRange) (v : Value)
      → contains range v ≡ true
      → Chosen v (cohort_indices range t.index_by_value)
  cohort_indices-among range v within =
      let (entries, starts) = valid.starts in
      subst (λ ix. Chosen v (cohort_indices range ix)) (sym starts)
        (among-cohort_indices t.leaves range v entries (subst (Linked t.leaves) starts valid.linked)
          within)

  settled :
      (range : PrefixRange) (v : Value) (indices : List ℕ) (ls : List (ℕ × Leaf))
      → Chosen v indices
      → contains range v ≡ true
      → Collected indices ls
      → (status : Status) × (resolve {Hash = Hash}
            (sort_by_value (map (λ (x : ℕ × Leaf). x.1) ls))
            range
            v
          ≡ ok status)
        × Settles t v status
  settled range v indices ls (i, l, there, held, settles) within c =
      let plain = map (λ (x : ℕ × Leaf). x.1) ls in
      let stored = AllStored-sort t plain c.stored in
      let (n, at) =
        sort_by_value-Present l plain (leaves_at-Present h t indices ls i l c.got held there) in
      let answer =
        resolve_complete h t valid (sort_by_value plain) range v n l stored
          (Ascending-sort_by_value plain) within at settles in
      (_, answer, resolve_sound h t valid (sort_by_value plain) range v _ stored answer)

  -- For a range that some value lies in, `prove_prefix_cohort` on a valid tree returns a proof, and
  -- `verify_cohort` accepts it at the root of the tree: the nodes that were left out of the paths are
  -- computed from the others or are empty subtrees. From the leaves that it returns, `resolve` settles
  -- every value of the range, and its answer is right: `Spent` only for a value in the tree, and
  -- `Unspent` only for a value that is not, with a leaf of the tree that covers it.
  pub prove_prefix_cohort-Settles :
      (range : PrefixRange) (value : Value)
      → contains range value ≡ true
      → (proof : CohortProof Hash) × (leaves : List Leaf) × (prove_prefix_cohort h t range
          ≡ ok proof)
        × (verify_cohort h (root h t) proof ≡ ok leaves)
        × ((v : Value)
            → contains range v ≡ true
            → (status : Status) × (resolve {Hash = Hash} leaves range v ≡ ok status)
              × Settles t v status)
  unfolding prove_prefix_cohort root
  prove_prefix_cohort-Settles range value inside =
      let indices = cohort_indices range t.index_by_value in
      let (held, rising) = cohort_indices-chosen t.leaves range t.index_by_value valid.linked in
      let (entries, starts) = valid.starts in
      let (i, rest, some_index) =
        subst (λ ix. (i : ℕ) × (rest : List ℕ) × (cohort_indices range ix ≡ i ∷ rest)) (sym starts)
          (cohort_indices-Occupied range value entries inside) in
      let (ls, c) = collected 0 indices held rising in
      let (ladder, made, deep, sent) = dedup_paths-levels indices in
      let out = dedup_levels h t ladder t.depth 0 indices (λ level index. none) in
      let (right, _, covered) =
        dedup_levels-LevelsCovered h t ladder t.depth 0 indices (λ level index. none)
          (λ l s. inl refl) in
      let (top, folded, at_root) =
        fold_levels-nodes_at h t valid ladder out right t.depth 0 i rest (omega arith)
          (subst (IndicesBelow (2 ^ t.depth)) some_index c.within)
          (subst (LevelsCovered h t ladder out t.depth 0) some_index covered) in
      let proof : CohortProof Hash = record {
        pool = t.pool;
        depth = t.depth;
        range = range;
        leaves = ls;
        nodes = out;
      } in
      let got = c.got in
      (
        proof,
        sort_by_value (map (λ (x : ℕ × Leaf). x.1) ls),
        rw (got, prove_prefix_cohort, sent) refl,
        accepted_of h proof (root h t) ladder top deep made
            (c.ascending none (λ p e. absurd (cc e)))
            (ap (fold_levels h t.pool out ladder t.depth 0) (
                c.hashed
                ∙ ap (λ (ns : List ℕ). map {B = ℕ × Hash} (λ (n : ℕ). (n, node h t 0 n)) ns)
                    some_index)
              ∙ folded)
            (at_root ∙ refl),
        λ v within. settled range v indices ls (cohort_indices-among range v within) within c,
      )
