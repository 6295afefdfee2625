-- ===== src/Store/Tests.antt =====
-- The theorems on the table store at a level with one table of two entries.
use k_lsm_engine.Prelude.{
  if◌then◌else◌, ℕ, ◌+◌, ◌≡◌, refl, inr, Option, none, some, List, [], ◌∷◌, arith, Bytes, str_lt,
  str_eq, ok,
}
use k_lsm_engine.Entry.{SstableEntry, entry_type_put, entry_type_delete}
use k_lsm_engine.Table.{is_empty, has_nul, not_above, BlockBasedTable, write_block_based_table}
use k_lsm_engine.Table.Block.{IsTable}
use k_lsm_engine.Table.Open.{Holds, write_block_based_table-Holds}
use k_lsm_engine.Bloom.Members.{new_bloom_filter-IsFilter}
use k_lsm_engine.Bloom.Sidecar.{parse_sidecar-sidecar_contents}
use k_lsm_engine.Bloom.{
  new_bloom_filter, sidecar_contents, parse_sidecar, BloomFilter, bloom_filter_for_entries,
}
use k_lsm_engine.Store.{SstableKeyRange, lookup, l1_table_may_contain, get_sstable_index, scan}
use k_lsm_engine.Store.Disk.{sidecar_filter, load_tables}
use k_lsm_engine.Store.Disk.Loaded.{is_among, lookup-load_tables}
use k_lsm_engine.Std.Strconv.{digits_value}
use k_lsm_engine.Store.Skip.{IsSound, first_read, scan-first_read}

-- "sst-2.db"
abbrev name : Bytes
name = 115 ∷ 115 ∷ 116 ∷ 45 ∷ 50 ∷ 46 ∷ 100 ∷ 98 ∷ []

name_index : get_sstable_index name ≡ 2
unfolding get_sstable_index str_eq digits_value
name_index = refl

abbrev sum_bytes : Bytes → ℕ
sum_bytes [] = 0
sum_bytes (b ∷ bs) = b + sum_bytes bs

-- "a" has the value "1", and "b" is deleted.
abbrev sample : List SstableEntry
sample =
    record { k = 97 ∷ []; v = 49 ∷ []; type = entry_type_put }
    ∷ record { k = 98 ∷ []; v = []; type = entry_type_delete }
    ∷ []

sample-IsTable : IsTable none sample
unfolding not_above is_empty has_nul str_lt
sample-IsTable = (
  refl,
  record {
    key = record { filled = refl; fits = omega arith; no_nul = refl };
    value = record { filled = refl; fits = omega arith; no_nul = refl };
  },
  (
    refl,
    record { key = record { filled = refl; fits = omega arith; no_nul = refl }; value = tt },
    tt,
  ),
)

abbrev written :
    (file : Bytes) × (t : BlockBasedTable) × (write_block_based_table sample ≡ ok file)
    × Holds sample file t
written = write_block_based_table-Holds sample sample-IsTable (omega arith)

abbrev files : ℕ → Bytes → Option Bytes
files level table = some written.0

abbrev ranges : List (Bytes × SstableKeyRange)
ranges = (name, record { min = 97 ∷ []; max = 98 ∷ [] }) ∷ []

abbrev filters : List (Bytes × BloomFilter)
filters = (name, bloom_filter_for_entries sum_bytes sample) ∷ []

name-IsSound : IsSound sum_bytes files 1 ranges filters name
unfolding lookup str_eq l1_table_may_contain str_lt
name-IsSound = record {
  entries = sample;
  file = written.0;
  opened = written.1;
  there = refl;
  holds = written.3;
  filter = inr refl;
  range = (refl, (refl, tt));
}

scan-first_read_example :
    scan sum_bytes files ranges filters 1 (98 ∷ []) (name ∷ [])
    ≡ first_read sum_bytes files 1 ranges filters (98 ∷ []) (name ∷ [])
scan-first_read_example =
    scan-first_read sum_bytes files 1 ranges filters (98 ∷ []) (name ∷ []) (name-IsSound, tt)

abbrev new_sidecar :
    (contents : Bytes) × (sidecar_contents new_bloom_filter ≡ ok contents)
    × (parse_sidecar contents ≡ ok new_bloom_filter)
new_sidecar = parse_sidecar-sidecar_contents new_bloom_filter new_bloom_filter-IsFilter

abbrev sidecars : ℕ → Bytes → Option Bytes
sidecars level table = some new_sidecar.0

lookup-load_tables_example :
    lookup name (load_tables sidecars 0 [] (name ∷ []))
    ≡ (if is_among name (name ∷ []) then sidecar_filter sidecars 0 name else none)
lookup-load_tables_example = lookup-load_tables sidecars 0 name (name ∷ [])
