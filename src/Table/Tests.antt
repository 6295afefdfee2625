-- ===== src/Table/Tests.antt =====
-- Runs of the table code, and the theorems at a small table.
use k_lsm_engine.Prelude.{
  ◌≤◌, ◌↔◌, ◌≡◌, refl, none, List, [], ◌∷◌, map, length, arith, Bytes, str_lt, ok, err, not_sorted,
  empty_field,
}
use k_lsm_engine.Entry.{SstableEntry, entry_type_put, entry_type_delete}
use k_lsm_engine.Table.{
  is_empty, has_nul, not_above, BlockBasedTable, encode_data_block, decode_data_block, get_in_block,
  write_block_based_table, sstable_max_entries,
}
use k_lsm_engine.Table.Block.{IsTable, stored, decode-encode_data_block}
use k_lsm_engine.Table.Order.{find_entry, IsTable-Rises}
use k_lsm_engine.Table.Find.{get_in_block_lem}
use k_lsm_engine.Table.Open.{Holds, write_block_based_table-Holds}
use k_lsm_engine.Table.Accepts.{write_block_based_table_iff}

-- "a" has the value "1", and "b" is deleted.
abbrev sample : List SstableEntry
sample =
    record { k = 97 ∷ []; v = 49 ∷ []; type = entry_type_put }
    ∷ record { k = 98 ∷ []; v = []; type = entry_type_delete }
    ∷ []

sample-IsTable : IsTable none sample
unfolding not_above is_empty has_nul str_lt
sample-IsTable = (
  refl,
  record {
    key = record { filled = refl; fits = omega arith; no_nul = refl };
    value = record { filled = refl; fits = omega arith; no_nul = refl };
  },
  (
    refl,
    record { key = record { filled = refl; fits = omega arith; no_nul = refl }; value = tt },
    tt,
  ),
)

-- The writer refuses a put without a value, and keys that do not rise.
empty_value :
    write_block_based_table (record { k = 97 ∷ []; v = []; type = entry_type_put } ∷ [])
    ≡ err empty_field
unfolding write_block_based_table not_above
empty_value = refl

same_key :
    write_block_based_table (
      record { k = 97 ∷ []; v = 49 ∷ []; type = entry_type_put }
      ∷ record { k = 97 ∷ []; v = 50 ∷ []; type = entry_type_put }
      ∷ [])
    ≡ err not_sorted
unfolding write_block_based_table not_above str_lt
same_key = refl

write_block_based_table-Holds_example :
    (file : Bytes) × (t : BlockBasedTable) × (write_block_based_table sample ≡ ok file)
    × Holds sample file t
write_block_based_table-Holds_example =
    write_block_based_table-Holds sample sample-IsTable (omega arith)

write_block_based_table_iff_example :
    ((file : Bytes) × (write_block_based_table sample ≡ ok file))
    ↔ (IsTable none sample × (length sample ≤ sstable_max_entries))
write_block_based_table_iff_example = write_block_based_table_iff sample

decode-encode_data_block_example :
    (b : Bytes) × (encode_data_block sample ≡ ok b)
    × (length b ≡ 4096)
    × (decode_data_block b ≡ ok (map stored sample))
decode-encode_data_block_example = decode-encode_data_block sample (omega arith) sample-IsTable

get_in_block_lem_example : get_in_block (98 ∷ []) sample ≡ find_entry (98 ∷ []) sample
get_in_block_lem_example =
    get_in_block_lem (98 ∷ []) sample (IsTable-Rises none sample sample-IsTable)
