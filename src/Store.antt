-- ===== src/Store.antt =====
-- internal/storage/sstable.go: the levels in memory, the names of tables, and `getKey`. The files
-- are given as a function from level and name to the bytes, or to none where `os.Open` fails.
pub mod Names
pub mod Skip
pub mod Disk
pub mod Manifest
pub mod Publish
mod Tests
use k_lsm_engine.Prelude.{
  ℕ, zero, suc, ◌+◌, ◌-◌, ◌*◌, ◌/◌, ◌%◌, ◌^◌, Bool, true, false, ◌||◌, ◌&&◌, not, Option, none,
  some, List, [], ◌∷◌, ◌++◌, length, take, drop, ltb, leb, ◌==◌, if◌then◌else◌, Bytes, str_eq,
  str_le, Result, ok, err, panicked, ◌>>=◌,
}
use mathlib.Core.List.{reverse}
use k_lsm_engine.Std.Strconv.{decimal, digits_value}
use k_lsm_engine.Entry.{StorageEntry}
use k_lsm_engine.Table
use k_lsm_engine.Table.{open_block_based_table}
use k_lsm_engine.Bloom
use k_lsm_engine.Bloom.{BloomFilter}

abbrev pub max_levels : ℕ
max_levels = 2

pub record SstableKeyRange : Type 0 where
  pub min : Bytes
  pub max : Bytes

pub record SstableLevel : Type 0 where
  pub tables : List Bytes
  pub bloom_filters : List (Bytes × BloomFilter)
  pub key_ranges : List (Bytes × SstableKeyRange)
  pub level : ℕ

-- a Go map with string keys: `m[key]` and whether it is there
unfoldable pub lookup {ℓ} : {V : Type ℓ} → Bytes → List (Bytes × V) → Option V
lookup key [] = none
lookup key ((at, v) ∷ rest) = if str_eq at key then some v else lookup key rest

-- the first level with the number
unfoldable pub find_level : List SstableLevel → ℕ → Option SstableLevel
find_level [] n = none
find_level (l ∷ rest) n = if l.level == n then some l else find_level rest n

unfoldable pub tables_of : Option SstableLevel → List Bytes
tables_of none = []
tables_of (some l) = l.tables

unfoldable pub filters_of : Option SstableLevel → List (Bytes × BloomFilter)
filters_of none = []
filters_of (some l) = l.bloom_filters

unfoldable pub ranges_of : Option SstableLevel → List (Bytes × SstableKeyRange)
ranges_of none = []
ranges_of (some l) = l.key_ranges

unfoldable pub get_level_sstables : List SstableLevel → ℕ → List Bytes
unfolding tables_of find_level
get_level_sstables levels n = tables_of (find_level levels n)

unfoldable pub l1_table_may_contain : Bytes → Option SstableKeyRange → Bool
l1_table_may_contain key none = true
l1_table_may_contain key (some r) = str_le r.min key && str_le key r.max

-- "sst-" and ".db"
abbrev ss_table_prefix : Bytes
ss_table_prefix = 115 ∷ 115 ∷ 116 ∷ 45 ∷ []

abbrev pub ss_table_ext : Bytes
ss_table_ext = 46 ∷ 100 ∷ 98 ∷ []

strip_prefix : Bytes → Bytes → Option Bytes
strip_prefix [] s = some s
strip_prefix (p ∷ ps) [] = none
strip_prefix (p ∷ ps) (b ∷ s) = if p == b then strip_prefix ps s else none

-- `strconv.Atoi(s)`, with 0 where it fails or the number is not positive
positive_number : Option ℕ → Bytes → ℕ
positive_number none digits = 0
positive_number (some n) digits = if length digits == 0 || leb (2 ^ 63) n then 0 else n

positive_digits : Bytes → ℕ
unfolding positive_number
positive_digits digits = positive_number (digits_value 0 digits) digits

positive_atoi : Bytes → ℕ
unfolding positive_digits
positive_atoi [] = 0
positive_atoi (c ∷ s) = positive_digits (if c == 43 then s else c ∷ s)

-- `HasSuffix` and `TrimSuffix` on what is left of the prefix; the whole name is long enough for both
index_of_rest : Bytes → Option Bytes → ℕ
index_of_rest table none = 0
index_of_rest table (some rest) =
    let n = length rest - 3 in
    if leb 3 (length rest) && str_eq (drop n rest) ss_table_ext
    then positive_atoi (take n rest)
    else 0

pub get_sstable_index : Bytes → ℕ
unfolding index_of_rest positive_atoi strip_prefix
get_sstable_index table = index_of_rest table (strip_prefix ss_table_prefix table)

-- the loop of `getNextSSTableIndex`
unfoldable pub max_index : ℕ → List Bytes → ℕ
max_index max [] = max
max_index max (table ∷ rest) =
    let index = get_sstable_index table in max_index (if ltb max index then index else max) rest

-- An index is below 2 ^ 63; the sum would wrap only after 2 ^ 63 - 1 tables.
unfoldable pub get_next_sstable_index : List Bytes → ℕ
unfolding max_index
get_next_sstable_index tables = max_index 0 tables + 1

-- `fmt.Sprintf("%s%d%s", ssTablePrefix, count, ssTableExt)`
unfoldable pub table_name : ℕ → Bytes
table_name count = ss_table_prefix ++ (decimal count ++ ss_table_ext)

new_count : Option SstableLevel → ℕ
new_count none = 1
new_count (some l) = get_next_sstable_index l.tables

pub get_new_sstable_name : List SstableLevel → ℕ → Bytes
unfolding table_name new_count
get_new_sstable_name levels level = table_name (new_count (find_level levels level))

-- An error is logged, and the table is passed over.
found_or_none : Result (Option StorageEntry) → Result (Option StorageEntry)
found_or_none (ok found) = ok found
found_or_none (err e) = ok none
found_or_none panicked = panicked

-- `openBlockBasedTable` and `table.get`
read_opened : Bytes → Result Table.BlockBasedTable → Result (Option StorageEntry)
read_opened key (ok t) = found_or_none (Table.get t key)
read_opened key (err e) = ok none
read_opened key panicked = panicked

read_file : Bytes → Option Bytes → Result (Option StorageEntry)
unfolding read_opened
read_file key none = ok none
read_file key (some file) = read_opened key (open_block_based_table file)

-- what the scan does after a table: it ends with an entry or a panic, and else goes on
unfoldable pub or_else :
    Result (Option StorageEntry) → Result (Option StorageEntry) → Result (Option StorageEntry)
or_else (ok (some entry)) rest = ok (some entry)
or_else (ok none) rest = rest
or_else (err e) rest = err e
or_else panicked rest = panicked

module _ (sum32 : Bytes → ℕ) (files : ℕ → Bytes → Option Bytes) where
  pub read_table : ℕ → Bytes → Bytes → Result (Option StorageEntry)
  unfolding read_file
  read_table level key table = read_file key (files level table)

  -- `ok && !filter.found(key)`, negated
  pub filter_admits : Bytes → Option BloomFilter → Bool
  filter_admits key none = true
  filter_admits key (some filter) = Bloom.found sum32 filter key

  -- whether the key range and the filter let a read of the table through
  pub admits : List (Bytes × SstableKeyRange) → List (Bytes × BloomFilter) → Bytes → Bytes → Bool
  admits ranges filters key table =
      l1_table_may_contain key (lookup table ranges) && filter_admits key (lookup table filters)

  -- the loop over the tables of a level, the newest first
  pub scan :
      List (Bytes × SstableKeyRange)
      → List (Bytes × BloomFilter)
      → ℕ
      → Bytes
      → List Bytes
      → Result (Option StorageEntry)
  unfolding or_else
  scan ranges filters level key [] = ok none
  scan ranges filters level key (table ∷ rest) =
      let later = scan ranges filters level key rest in
      if admits ranges filters key table then or_else (read_table level key table) later else later

  -- Key ranges are used on level 1 only.
  unfoldable pub scan_level : List SstableLevel → Bytes → ℕ → Result (Option StorageEntry)
  unfolding filters_of ranges_of
  scan_level levels key level =
      let found = find_level levels level in
      let ranges = if level == 1 then ranges_of found else [] in
      scan ranges (filters_of found) level key (reverse (get_level_sstables levels level))

  -- the loop over the levels that are left
  unfoldable pub scan_levels : ℕ → List SstableLevel → Bytes → ℕ → Result (Option StorageEntry)
  scan_levels zero levels key level = ok none
  scan_levels (suc left) levels key level =
      or_else (scan_level levels key level) (scan_levels left levels key (level + 1))

  unfoldable pub get_key : List SstableLevel → Bytes → Result (Option StorageEntry)
  unfolding scan_levels
  get_key levels key = scan_levels max_levels levels key 0
