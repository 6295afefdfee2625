-- ===== src/Compaction/Merge/Tests.antt =====
-- The theorems on compaction at a table of one entry.
use k_lsm_engine.Prelude.{
  ℕ, ◌≡◌, refl, none, some, List, [], ◌∷◌, arith, Bool, true, false, Bytes, str_lt, ok, map,
}
use k_lsm_engine.Entry.{SstableEntry, entry_type_put}
use k_lsm_engine.Table.{is_empty, has_nul, not_above, BlockBasedTable, write_block_based_table}
use k_lsm_engine.Table.Block.{IsTable, stored}
use k_lsm_engine.Table.Order.{find_entry}
use k_lsm_engine.Table.Open.{Holds, write_block_based_table-Holds}
use k_lsm_engine.Store.Disk.{StatOutcome, missing}
use k_lsm_engine.Compaction.{SstableReader, new_sstable_reader, advance}
use k_lsm_engine.Compaction.Readers.{Yields, new_sstable_reader-Yields}
use k_lsm_engine.Compaction.Merge.{
  MergeState, push_reader, add_table, add_tables, heap_pop, take_least, free_number, write_chunk,
  flush_table, flush_chunk, append_item, take_item, next_of, advance_item, merge_loop, merge_tables,
}
use k_lsm_engine.Compaction.Merge.Newest.{IsAnswer, chunks}
use k_lsm_engine.Compaction.Merge.Rising.{Rising}
use k_lsm_engine.Compaction.Merge.Opened.{StoredTable, files_of}
use k_lsm_engine.Compaction.Merge.Tables.{sources_of, merge_tables-IsAnswer, merge_tables-Rising}

-- "a" has the value "1".
abbrev sample : List SstableEntry
sample = record { k = 97 ∷ []; v = 49 ∷ []; type = entry_type_put } ∷ []

sample-IsTable : IsTable none sample
unfolding not_above is_empty has_nul str_lt
sample-IsTable = (
  refl,
  record {
    key = record { filled = refl; fits = omega arith; no_nul = refl };
    value = record { filled = refl; fits = omega arith; no_nul = refl };
  },
  tt,
)

abbrev written :
    (file : Bytes) × (t : BlockBasedTable) × (write_block_based_table sample ≡ ok file)
    × Holds sample file t
written = write_block_based_table-Holds sample sample-IsTable (omega arith)

new_sstable_reader-Yields_example :
    (r : SstableReader) × (new_sstable_reader written.0 ≡ ok r) × Yields r (map stored sample)
new_sstable_reader-Yields_example = new_sstable_reader-Yields sample written.0 written.1 written.3

-- No number is taken, and no write fails.
abbrev all_free : ℕ → StatOutcome
all_free n = missing

abbrev no_faults : ℕ → Bool
no_faults n = false

abbrev merged_state : Bytes → SstableReader → MergeState
merged_state file r = record {
  readers = r ∷ [];
  heap = [];
  chunk = [];
  chunk_min_key = [];
  chunk_max_key = [];
  current_key = 97 ∷ [];
  first = false;
  next_l1_index = 2;
  new_tables =
      record {
        number = 1;
        key_range = record { min = 97 ∷ []; max = 97 ∷ [] };
        chunk = sample;
        file = file;
      }
      ∷ [];
}

merge_sample :
    (file : Bytes) (r r' r'' : SstableReader)
    → new_sstable_reader file ≡ ok r
    → advance r ≡ ok r'
    → r'.has_next ≡ true
    → r'.entry ≡ some (record { k = 97 ∷ []; v = 49 ∷ []; type = entry_type_put })
    → advance r' ≡ ok r''
    → r''.has_next ≡ false
    → write_block_based_table sample ≡ ok file
    → merge_tables all_free no_faults 1 1 1 (none ∷ []) (some file ∷ [])
      ≡ ok (merged_state file r'')
unfolding merge_tables add_tables add_table push_reader merge_loop heap_pop take_least take_item
    append_item advance_item next_of flush_chunk flush_table write_chunk free_number
merge_sample file r r' r'' opens runs next entry runs' stop writes =
    simp (opens, runs, next, entry, runs', stop, writes)

abbrev sample_table : StoredTable
sample_table = record {
  entries = sample;
  file = written.0;
  table = written.1;
  holds = written.3;
  valid = sample-IsTable;
}

-- The merge of a missing file of level 0 with the table of level 1 writes one table.
merged :
    (r : SstableReader) × (merge_tables all_free no_faults 1 1 1
        (files_of (none ∷ []))
        (files_of (some sample_table ∷ []))
      ≡ ok (merged_state written.0 r))
unfolding stored
merged =
    let (r, opens, (r', runs, next, entry, (r'', runs', stop))) =
      new_sstable_reader-Yields_example in
    (r'', merge_sample written.0 r r' r'' opens runs next entry runs' stop written.2)

merge_tables-IsAnswer_example :
    IsAnswer
      (97 ∷ [])
      (sources_of (none ∷ []) (some sample_table ∷ []))
      (find_entry (97 ∷ []) (chunks (merged_state written.0 merged.0).new_tables))
unfolding stored
merge_tables-IsAnswer_example =
    merge_tables-IsAnswer all_free no_faults 1 (none ∷ []) (some sample_table ∷ []) 1 1
      (merged_state written.0 merged.0) merged.1 (97 ∷ [])

merge_tables-Rising_example : Rising (chunks (merged_state written.0 merged.0).new_tables)
merge_tables-Rising_example =
    merge_tables-Rising all_free no_faults 1 (none ∷ []) (some sample_table ∷ []) 1 1
      (merged_state written.0 merged.0) merged.1
