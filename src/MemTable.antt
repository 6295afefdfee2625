-- ===== src/MemTable.antt =====
-- internal/storage/memtable.go: the skip list behind a lock. The coins of a new node's level are
-- given by the caller; the lock makes each call one step.
pub mod Valid
pub mod Interface
pub mod Snapshot
mod Tests
use k_lsm_engine.Prelude.{ℕ, Bool, Option, List, [], Bytes, Result, ok, ◌>>=◌}
use k_lsm_engine.Entry.{entry_type_put, entry_type_delete, StorageEntry, SstableEntry}
use k_lsm_engine.SkipList
use k_lsm_engine.SkipList.{SkipList, new_skip_list}

pub record MemTable : Type 0 where
  pub kv : SkipList

unfoldable pub new_mem_table : MemTable
new_mem_table = record { kv = new_skip_list }

unfoldable pub get : MemTable → Bytes → Result (Option StorageEntry)
get mem key = SkipList.get mem.kv key

-- The new table, and its size.
add_entry : MemTable → Bytes → StorageEntry → List Bool → Result (MemTable × ℕ)
add_entry mem key entry coins = do
  kv ← SkipList.add mem.kv key entry coins
  ok (record { kv = kv }, kv.size)

unfoldable pub put : MemTable → Bytes → Bytes → List Bool → Result (MemTable × ℕ)
unfolding add_entry
put mem key value coins = add_entry mem key (record { type = entry_type_put; value = value }) coins

unfoldable pub delete : MemTable → Bytes → List Bool → Result (MemTable × ℕ)
unfolding add_entry
delete mem key coins = add_entry mem key (record { type = entry_type_delete; value = [] }) coins

unfoldable pub entries : MemTable → Result (List SstableEntry)
entries mem = SkipList.entries mem.kv

unfoldable pub size : MemTable → ℕ
size mem = mem.kv.size

unfoldable pub clear : MemTable → Result MemTable
clear mem = do kv ← SkipList.clear mem.kv; ok (record { kv = kv })
