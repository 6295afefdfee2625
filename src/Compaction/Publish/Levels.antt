-- ===== src/Compaction/Publish/Levels.antt =====
-- What the pruning, the sort, and the merge make of the two levels that are read.
use k_lsm_engine.Prelude.{
  ℕ, ◌≡◌, refl, ap, ◌∙◌, true, false, ◌||◌, Option, some, List, [], ◌∷◌, ◌++◌, map, arith, ltb,
  ◌==◌, if◌then◌else◌, Bool-cases, inl, inr, Bytes,
}
use k_lsm_engine.Bloom.{BloomFilter}
use k_lsm_engine.Store.{SstableLevel, SstableKeyRange, find_level, tables_of, filters_of, ranges_of}
use k_lsm_engine.Store.Disk.{
  StatOutcome, load_tables, load_bloom_filters, prune_tables, prune_ranges, kept_level,
}
use k_lsm_engine.Store.Manifest.{insert_level, sort_levels}
use k_lsm_engine.Compaction.{get_tables_for_level}
use k_lsm_engine.Compaction.Merge.{NewTable}
use k_lsm_engine.Compaction.Publish.{
  prune_level, prune_level_tables, higher_levels, merged_levels, names_of, ranges_of_new,
}

find_level-insert_level :
    (l : SstableLevel) (ls : List SstableLevel) (n : ℕ)
    → find_level (insert_level l ls) n ≡ find_level (l ∷ ls) n
unfolding find_level insert_level
find_level-insert_level l [] n = refl
find_level-insert_level l (x ∷ xs) n = elim (Bool-cases (ltb x.level l.level)) [
  | inr not_below ↦ rw not_below refl
  | inl below ↦ elim (Bool-cases (x.level == n)) [
    | inl here ↦
        let ne : (l.level == n) ≡ false = ground (arith, below, here) in rw (below, here, ne) refl
    | inr elsewhere ↦ rw (below, elsewhere) (find_level-insert_level l xs n)
  ]
]

-- The sort keeps the first level of each number.
pub find_level-sort_levels :
    (ls : List SstableLevel) (n : ℕ) → find_level (sort_levels ls) n ≡ find_level ls n
unfolding find_level sort_levels
find_level-sort_levels [] n = refl
find_level-sort_levels (l ∷ ls) n =
    find_level-insert_level l (sort_levels ls) n
    ∙ ap (λ o. if l.level == n then some l else o) (find_level-sort_levels ls n)

pub get_tables_for_level-find_level :
    (ls : List SstableLevel) (n : ℕ) → get_tables_for_level ls n ≡ tables_of (find_level ls n)
unfolding get_tables_for_level find_level tables_of
get_tables_for_level-find_level [] n = refl
get_tables_for_level-find_level (l ∷ ls) n = elim (Bool-cases (l.level == n)) [
  | inl here ↦ rw here refl
  | inr elsewhere ↦ rw elsewhere (get_tables_for_level-find_level ls n)
]

-- The names, the filters and the ranges of the level of a number.
abbrev pub IsLevelOf :
    List SstableLevel
    → ℕ
    → List Bytes
    → List (Bytes × BloomFilter)
    → List (Bytes × SstableKeyRange)
    → Type 0
IsLevelOf ls n tables filters ranges =
    (tables_of (find_level ls n) ≡ tables)
    × (filters_of (find_level ls n) ≡ filters)
    × (ranges_of (find_level ls n) ≡ ranges)

same_number : (n m : ℕ) → (n == m) ≡ true → n ≡ m
same_number n m h = ground arith

pub load_bloom_filters-IsLevelOf :
    (sidecars : ℕ → Bytes → Option Bytes) (ls : List SstableLevel) (n : ℕ)
    → IsLevelOf
        (load_bloom_filters sidecars ls)
        n
        (tables_of (find_level ls n))
        (load_tables sidecars n [] (tables_of (find_level ls n)))
        (ranges_of (find_level ls n))
unfolding load_bloom_filters load_tables find_level tables_of filters_of ranges_of
load_bloom_filters-IsLevelOf sidecars [] n = (refl, refl, refl)
load_bloom_filters-IsLevelOf sidecars (l ∷ ls) n = elim (Bool-cases (l.level == n)) [
  | inl here ↦
      rw here
        (refl, ap (λ m. load_tables sidecars m [] l.tables) (same_number l.level n here), refl)
  | inr elsewhere ↦ rw elsewhere (load_bloom_filters-IsLevelOf sidecars ls n)
]

module _ (stat : ℕ → Bytes → StatOutcome) where
  -- The pruned tables and ranges of the levels 0 and 1.
  pub tables_of-prune_level_0 :
      (ls : List SstableLevel)
      → tables_of (find_level (map (prune_level stat) ls) 0)
        ≡ (prune_tables stat 0 (tables_of (find_level ls 0))).0
  unfolding prune_level prune_level_tables prune_tables find_level tables_of kept_level
  tables_of-prune_level_0 [] = refl
  tables_of-prune_level_0 (l ∷ ls) = elim (Bool-cases (l.level == 0)) [
    | inl here ↦ let n = same_number l.level 0 here in rw n refl
    | inr elsewhere ↦ elim (Bool-cases (l.level == 1)) [
      | inl one ↦ let n = same_number l.level 1 one in rw n (tables_of-prune_level_0 ls)
      | inr other ↦ rw (elsewhere, other, elsewhere) (tables_of-prune_level_0 ls)
    ]
  ]

  abbrev IsPrunedLevel : List SstableLevel → Type 0
  IsPrunedLevel ls =
      let kept = (prune_tables stat 1 (tables_of (find_level ls 1))).0 in
      (tables_of (find_level (map (prune_level stat) ls) 1) ≡ kept)
      × (ranges_of (find_level (map (prune_level stat) ls) 1)
          ≡ prune_ranges (ranges_of (find_level ls 1)) [] kept)

  pub prune_level_1-IsPruned : (ls : List SstableLevel) → IsPrunedLevel ls
  unfolding prune_level prune_level_tables prune_tables find_level tables_of ranges_of kept_level
      prune_ranges
  prune_level_1-IsPruned [] = (refl, refl)
  prune_level_1-IsPruned (l ∷ ls) = elim (Bool-cases (l.level == 0)) [
    | inl here ↦ let n = same_number l.level 0 here in rw n (prune_level_1-IsPruned ls)
    | inr elsewhere ↦ elim (Bool-cases (l.level == 1)) [
      | inl one ↦ let n = same_number l.level 1 one in rw n (refl, refl)
      | inr other ↦ rw (elsewhere, other, other) (prune_level_1-IsPruned ls)
    ]
  ]

-- Below the levels besides 0 and 1, the others are found.
find_level-higher_levels :
    (ls rest : List SstableLevel) (n : ℕ)
    → (n == 0 || n == 1) ≡ true
    → find_level (higher_levels ls ++ rest) n ≡ find_level rest n
unfolding higher_levels find_level
find_level-higher_levels [] rest n low = refl
find_level-higher_levels (l ∷ ls) rest n low = elim (Bool-cases (l.level == 0 || l.level == 1)) [
  | inl out ↦ rw out (find_level-higher_levels ls rest n low)
  | inr kept ↦
      let ne : (l.level == n) ≡ false = ground (arith, low, kept) in
      rw (kept, ne) (find_level-higher_levels ls rest n low)
]

pub merged_levels-IsLevelOf_0 :
    (pruned : List SstableLevel) (new : List NewTable)
    → tables_of (find_level (merged_levels pruned new) 0) ≡ []
unfolding merged_levels tables_of find_level
merged_levels-IsLevelOf_0 pruned new =
    ap tables_of (find_level-sort_levels _ 0 ∙ find_level-higher_levels pruned _ 0 refl)

pub merged_levels-IsLevelOf_1 :
    (pruned : List SstableLevel) (new : List NewTable)
    → IsLevelOf (merged_levels pruned new) 1 (names_of new) [] (ranges_of_new new)
unfolding merged_levels tables_of filters_of ranges_of find_level
merged_levels-IsLevelOf_1 pruned new =
    let found = find_level-sort_levels _ 1 ∙ find_level-higher_levels pruned _ 1 refl in
    (ap tables_of found, ap filters_of found, ap ranges_of found)
