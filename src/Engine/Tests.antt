-- ===== src/Engine/Tests.antt =====
-- The theorems on the engine at the program's own parts.
use k_lsm_engine.Prelude.{◌≡◌, refl, none, some, true, false, [], ◌∷◌, if◌then◌else◌, str_eq}
use k_lsm_engine.Entry.{SstableEntry, entry_type_put, entry_type_delete}
use k_lsm_engine.Store.Disk.{load_bloom_filters, prune_levels_from_disk}
use k_lsm_engine.Store.Manifest.{get_all_sstables}
use k_lsm_engine.Store.Publish.{new_sstable_store, remove_orphans}
use k_lsm_engine.Wal.Interface.{LogFile}
use k_lsm_engine.Wal.Sample.{
  first, first-IsReadable, log, empty_log, empty_log-IsCleanLog, log_takes,
}
use k_lsm_engine.Engine.OnDisk.{disk_new, SavesTo, disk_save-SavesTo}
use k_lsm_engine.Engine.{get, flush_mem_table_if_needed, put, delete, load_wal, new_engine}
use k_lsm_engine.Engine.View.{get-flush, get-put, get-delete, accepted}
use k_lsm_engine.Engine.Recovery.{logged_value, new_engine-opens, new_engine-append}
use k_lsm_engine.Engine.Sample.{
  sum_bytes, saves, compactions, sees, stat_of_file, disk, table, store, start, empty_store,
  empty_store-IsDiskStore,
}

-- "a" with the value "1"
abbrev entry : SstableEntry
entry = record { k = 97 ∷ []; v = 49 ∷ []; type = entry_type_put }

get-flush_example :
    get table store log (flush_mem_table_if_needed table store log start 1953) (97 ∷ [])
    ≡ get table store log start (97 ∷ [])
get-flush_example = get-flush table store log start 1953 (97 ∷ []) empty_store-IsDiskStore

get-put_example : get table store log (put table store log start (98 ∷ []) (49 ∷ [])) (97 ∷ []) ≡ (
    if accepted table store log start.wal (log.new_wal_entry (98 ∷ []) (49 ∷ []) entry_type_put)
    then (if str_eq (98 ∷ []) (97 ∷ [])
        then some (49 ∷ [])
        else get table store log start (97 ∷ []))
    else get table store log start (97 ∷ []))
get-put_example =
    get-put table store log start empty_store-IsDiskStore (98 ∷ []) (49 ∷ []) (97 ∷ [])

get-delete_example : get table store log (delete table store log start (97 ∷ [])) (97 ∷ []) ≡ (
    if accepted table store log start.wal (log.new_wal_entry (97 ∷ []) [] entry_type_delete)
    then (if str_eq (97 ∷ []) (97 ∷ []) then none else get table store log start (97 ∷ []))
    else get table store log start (97 ∷ []))
get-delete_example = get-delete table store log start empty_store-IsDiskStore (97 ∷ []) [] (97 ∷ [])

opens : store.new_sstable_store empty_store ≡ some empty_store
unfolding disk_new new_sstable_store get_all_sstables prune_levels_from_disk remove_orphans
    load_bloom_filters
opens = refl

restarts :
    (w : LogFile)
    → new_engine table store log w empty_store ≡ some (load_wal table store log w empty_store)
restarts w = new_engine-opens table store log w empty_store empty_store opens

new_engine-append_example :
    get table store log
      (load_wal table store log (log.append empty_log first).0 empty_store)
      (97 ∷ [])
    ≡ (if str_eq (97 ∷ []) (97 ∷ [])
        then logged_value first.type first.value
            (get table store log (load_wal table store log empty_log empty_store) (97 ∷ []))
        else get table store log (load_wal table store log empty_log empty_store) (97 ∷ []))
new_engine-append_example =
    new_engine-append table store log empty_log empty_store first
      (load_wal table store log empty_log empty_store)
      (load_wal table store log (log.append empty_log first).0 empty_store) empty_log-IsCleanLog
      first-IsReadable (log_takes empty_log first) (restarts empty_log)
      (restarts (log.append empty_log first).0) (97 ∷ [])

disk_save-SavesTo_example :
    SavesTo sum_bytes
      (λ c. false)
      100
      100
      saves
      compactions
      sees
      true
      (λ level name. stat_of_file (disk.tables level name))
      (λ level name. true)
      empty_store
      (entry ∷ [])
      empty_store-IsDiskStore
      (store.save_level0_sstable_entries empty_store (entry ∷ []))
disk_save-SavesTo_example =
    disk_save-SavesTo sum_bytes (λ c. false) 100 100 saves compactions sees true
      (λ level name. stat_of_file (disk.tables level name)) (λ level name. true) empty_store
      (entry ∷ []) empty_store-IsDiskStore
