-- ===== src/Imt/Index.antt =====
-- `BTreeMap<Value, u64>` as imt.rs uses it for `index_by_value`: the entries in ascending order of
-- their keys.
use ztreexo.Prelude.{
  ℕ, Bool, true, false, List, [], ◌∷◌, Option, none, some, ltb, ◌==◌, if◌then◌else◌,
}

abbrev pub Index : Type 0
Index = List (ℕ × ℕ)

-- `get`
unfoldable pub lookup : ℕ → Index → Option ℕ
lookup k [] = none
lookup k ((j, i) ∷ rest) = if j == k then some i else lookup k rest

-- `contains_key`
unfoldable pub contains_key : ℕ → Index → Bool
contains_key k [] = false
contains_key k ((j, i) ∷ rest) = if j == k then true else contains_key k rest

-- `insert`
unfoldable pub insert : ℕ → ℕ → Index → Index
insert k i [] = (k, i) ∷ []
insert k i ((j, n) ∷ rest) =
    if ltb k j
    then (k, i) ∷ (j, n) ∷ rest
    else if j == k
    then (k, i) ∷ rest
    else (j, n) ∷ insert k i rest

-- `remove`
unfoldable pub remove : ℕ → Index → Index
remove k [] = []
remove k ((j, n) ∷ rest) = if j == k then rest else (j, n) ∷ remove k rest

-- `range(..=k).next_back()`: the last entry whose key is at most `k`
unfoldable pub last_at_most : ℕ → Index → Option (ℕ × ℕ)
last_at_most k [] = none
last_at_most k ((j, n) ∷ rest) =
    if ltb k j then none else elim (last_at_most k rest) [ none ↦ some (j, n) | some e ↦ some e ]

-- `keys()`
unfoldable pub keys : Index → List ℕ
keys [] = []
keys ((j, n) ∷ rest) = j ∷ keys rest
