-- ===== src/Engine.antt =====
-- internal/storage/engine.go over the interfaces of its three parts. Every failure that a part can
-- report is a branch; a call that reports failure has returned false.
pub mod Parts
pub mod View
pub mod OnDisk
pub mod Recovery
pub mod Sample
mod Tests
use k_lsm_engine.Prelude.{
  ℕ, Bool, true, false, Option, none, some, List, [], ◌∷◌, ◌==◌, if◌then◌else◌, Bytes,
}
use k_lsm_engine.Entry.{EntryType, entry_type_put, entry_type_delete, other, StorageEntry}
use k_lsm_engine.Table.{sstable_max_entries}
use Parts.{MemTable, SstableStore, Wal, WalPayload}

abbrev pub flush_threshold : ℕ
flush_threshold = sstable_max_entries

abbrev pub compaction_threshold : ℕ
compaction_threshold = 5

pub record Engine (M S W : Type 0) : Type 0 where
  pub mem_table : M
  pub sstable_store : S
  pub wal : W

-- What `Get` returns for an entry that it found; `none` is the result with false.
pub reveal_typed : EntryType → Bytes → Option Bytes
reveal_typed entry_type_delete value = none
reveal_typed type value = some value

unfoldable pub reveal : StorageEntry → Option Bytes
unfolding reveal_typed
reveal entry = reveal_typed entry.type entry.value

-- the entry of the memtable, else the entry of the tables
unfoldable pub answer : Option StorageEntry → Option StorageEntry → Option Bytes
unfolding reveal
answer (some entry) below = reveal entry
answer none (some entry) = reveal entry
answer none none = none

module _ {M S W : Type 0} (mem : MemTable M) (store : SstableStore S) (log : Wal W) where
  pub get : Engine M S W → Bytes → Option Bytes
  get e key = answer (mem.get e.mem_table key) (store.get_key e.sstable_store key)

  pub maybe_compact_if_needed : Engine M S W → Engine M S W
  maybe_compact_if_needed e =
      if store.level0_count e.sstable_store == compaction_threshold
      then record e { sstable_store = (store.compact_sstables e.sstable_store).0 }
      else e

  -- `flushMemTableIfNeeded` after the table was saved
  pub truncate_and_clear : Engine M S W → Engine M S W
  truncate_and_clear e =
      let (wal', truncated) = log.truncate e.wal in
      if truncated
      then maybe_compact_if_needed (record e { wal = wal'; mem_table = mem.clear e.mem_table })
      else record e { wal = wal' }

  pub flush_mem_table_if_needed : Engine M S W → ℕ → Engine M S W
  flush_mem_table_if_needed e count =
      let (store', saved) =
        store.save_level0_sstable_entries e.sstable_store (mem.entries e.mem_table) in
      if count == flush_threshold
      then (if saved
          then truncate_and_clear (record e { sstable_store = store' })
          else record e { sstable_store = store' })
      else e

  -- `Put` and `Delete` once `newWALEntry` has made the entry for the log, or has failed
  pub put_logged : Engine M S W → Bytes → Bytes → Option WalPayload → Engine M S W
  put_logged e key value none = e
  put_logged e key value (some entry) =
      let (wal', appended) = log.append e.wal entry in
      let (mem', count) = mem.put e.mem_table key value in
      if appended
      then flush_mem_table_if_needed (record e { wal = wal'; mem_table = mem' }) count
      else record e { wal = wal' }

  pub put : Engine M S W → Bytes → Bytes → Engine M S W
  put e key value = put_logged e key value (log.new_wal_entry key value entry_type_put)

  pub delete_logged : Engine M S W → Bytes → Option WalPayload → Engine M S W
  delete_logged e key none = e
  delete_logged e key (some entry) =
      let (wal', appended) = log.append e.wal entry in
      let (mem', count) = mem.delete e.mem_table key in
      if appended
      then flush_mem_table_if_needed (record e { wal = wal'; mem_table = mem' }) count
      else record e { wal = wal' }

  pub delete : Engine M S W → Bytes → Engine M S W
  delete e key = delete_logged e key (log.new_wal_entry key [] entry_type_delete)

  -- the switch of `NewEngine` on the type of an entry of the log
  pub replay_entry : M → EntryType → Bytes → Bytes → M
  replay_entry m entry_type_delete key value = (mem.delete m key).0
  replay_entry m entry_type_put key value = (mem.put m key value).0
  replay_entry m (other t) key value = m

  pub replay : M → List WalPayload → M
  replay m [] = m
  replay m (p ∷ rest) = replay (replay_entry m p.type p.key p.value) rest

  -- `NewEngine` after its store was opened
  pub load_wal : W → S → Engine M S W
  load_wal w s = record {
    mem_table = replay mem.new_mem_table (log.get_all w);
    sstable_store = s;
    wal = w;
  }

  -- `NewEngine` over the files that are there; none if `newSSTableStore` ends the program
  pub new_engine : W → S → Option (Engine M S W)
  unfolding load_wal
  new_engine w s = elim (store.new_sstable_store s) [ none ↦ none | some s' ↦ some (load_wal w s') ]
