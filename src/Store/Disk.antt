-- ===== src/Store/Disk.antt =====
-- internal/storage/sstable.go: what the store reads from the disk besides the manifest. A sidecar
-- is none where opening it fails; `stat` is the outcome of `os.Stat` on the file of a table.
pub mod Loaded
use k_lsm_engine.Prelude.{
  ℕ, Bool, true, false, ◌≡◌, refl, sym, ap, inl, inr, Option, none, some, List, [], ◌∷◌, ◌++◌, ◌||◌,
  ◌==◌, if◌then◌else◌, Bool-cases, Bytes, str_eq, str_eq_iff, str_eq_refl, Result, ok, err,
  panicked,
}
use k_lsm_engine.Bloom.{BloomFilter, parse_sidecar}
use k_lsm_engine.Store.{SstableLevel, SstableKeyRange, lookup}

pub data StatOutcome : Type 0 where
  there missing unreadable : StatOutcome

-- An error is logged, and there is no filter.
unfoldable pub filter_or_none : Result BloomFilter → Option BloomFilter
filter_or_none (ok filter) = some filter
filter_or_none (err e) = none
filter_or_none panicked = none

unfoldable pub read_sidecar : Option Bytes → Option BloomFilter
unfolding filter_or_none
read_sidecar none = none
read_sidecar (some contents) = filter_or_none (parse_sidecar contents)

-- `filters[table] = filter`, if there is one
unfoldable pub set_filter :
    List (Bytes × BloomFilter) → Bytes → Option BloomFilter → List (Bytes × BloomFilter)
set_filter filters table none = filters
set_filter filters table (some filter) = (table, filter) ∷ filters

-- `if range, ok := ranges[table]; ok { pruned[table] = range }`
unfoldable pub keep_range :
    List (Bytes × SstableKeyRange) → Bytes → Option SstableKeyRange → List (Bytes × SstableKeyRange)
keep_range pruned table none = pruned
keep_range pruned table (some range) = (table, range) ∷ pruned

unfoldable pub prune_ranges :
    List (Bytes × SstableKeyRange)
    → List (Bytes × SstableKeyRange)
    → List Bytes
    → List (Bytes × SstableKeyRange)
unfolding keep_range
prune_ranges ranges pruned [] = pruned
prune_ranges ranges pruned (table ∷ rest) =
    prune_ranges ranges (keep_range pruned table (lookup table ranges)) rest

-- the tables that are kept, and those whose sidecar is removed
unfoldable pub keep_table : Bytes → StatOutcome → List Bytes × List Bytes → List Bytes × List Bytes
keep_table table there (kept, removed) = (table ∷ kept, removed)
keep_table table missing (kept, removed) = (kept, table ∷ removed)
keep_table table unreadable (kept, removed) = (kept, removed)

module _ (sidecars : ℕ → Bytes → Option Bytes) where
  unfoldable pub sidecar_filter : ℕ → Bytes → Option BloomFilter
  unfolding read_sidecar
  sidecar_filter level table = read_sidecar (sidecars level table)

  -- the loop over the tables of a level
  unfoldable pub load_tables :
      ℕ → List (Bytes × BloomFilter) → List Bytes → List (Bytes × BloomFilter)
  load_tables level filters [] = filters
  load_tables level filters (table ∷ rest) =
      load_tables level (set_filter filters table (sidecar_filter level table)) rest

  unfoldable pub load_bloom_filters : List SstableLevel → List SstableLevel
  load_bloom_filters [] = []
  load_bloom_filters (l ∷ rest) =
      record l { bloom_filters = load_tables l.level [] l.tables } ∷ load_bloom_filters rest

  -- the first level with the number
  unfoldable pub register_bloom_filter : List SstableLevel → ℕ → Bytes → List SstableLevel
  register_bloom_filter [] level table = []
  register_bloom_filter (l ∷ rest) level table =
      let others = register_bloom_filter rest level table in
      if l.level == level
      then record l {
        bloom_filters = set_filter l.bloom_filters table (sidecar_filter level table);
      }
        ∷ rest
      else l ∷ others

module _ (stat : ℕ → Bytes → StatOutcome) where
  unfoldable pub prune_tables : ℕ → List Bytes → List Bytes × List Bytes
  unfolding keep_table
  prune_tables level [] = ([], [])
  prune_tables level (table ∷ rest) = keep_table table (stat level table) (prune_tables level rest)

  unfoldable pub kept_level : SstableLevel → List Bytes → SstableLevel
  kept_level l kept = record {
    tables = kept;
    bloom_filters = [];
    key_ranges = prune_ranges l.key_ranges [] kept;
    level = l.level;
  }

  -- the levels that are kept, and the tables whose sidecar is removed, by their level
  unfoldable pub prune_levels_from_disk :
      List SstableLevel → List SstableLevel × List (ℕ × List Bytes)
  prune_levels_from_disk [] = ([], [])
  prune_levels_from_disk (l ∷ rest) =
      let (kept, removed) = prune_tables l.level l.tables in
      let (levels, orphans) = prune_levels_from_disk rest in
      (kept_level l kept ∷ levels, (l.level, removed) ∷ orphans)
