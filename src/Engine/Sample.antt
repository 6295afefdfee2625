-- ===== src/Engine/Sample.antt =====
-- An engine of the program's own parts: the memtable, the store on a disk, and the log of a file.
use k_lsm_engine.Prelude.{
  ℕ, ◌≡◌, refl, ap, ◌∙◌, true, false, Option, none, some, [], ◌∷◌, arith, Bytes,
}
use k_lsm_engine.MemTable.Interface.{Held, skip_list_table}
use k_lsm_engine.Store.{
  find_level, tables_of, filters_of, ranges_of, get_level_sstables, get_next_sstable_index,
  max_index,
}
use k_lsm_engine.Store.Disk.{StatOutcome, there, missing}
use k_lsm_engine.Store.Publish.{Disk, Outcomes, SidecarFault, ManifestFault, RemoveFault, sidecar}
use k_lsm_engine.Compaction.Publish.{CompactionOutcomes}
use k_lsm_engine.Compaction.Publish.Placed.{IsStore}
use k_lsm_engine.Compaction.Publish.Kept.{IsSeen}
use k_lsm_engine.Compaction.Publish.Answer.{newest_find}
use k_lsm_engine.Wal.Interface.{LogFile}
use k_lsm_engine.Wal.Sample.{log, empty_log}
use k_lsm_engine.Engine.Parts.{MemTable, SstableStore}
use k_lsm_engine.Engine.OnDisk.{DiskStore, disk_store, disk_get_key-levels_find}
use k_lsm_engine.Engine.{Engine, answer, get}

abbrev pub table : MemTable Held
table = skip_list_table ((true ∷ false ∷ []) ∷ [])

abbrev pub stat_of_file : Option Bytes → StatOutcome
stat_of_file none = missing
stat_of_file (some file) = there

abbrev pub sum_bytes : Bytes → ℕ
sum_bytes [] = 0
sum_bytes (b ∷ bs) = b

-- In the saves, the removal of an old table fails.
abbrev pub saves : ℕ → Outcomes
saves n = record {
  table = sidecar SidecarFault.none_fails;
  manifest_opens = true;
  manifest = ManifestFault.none_fails;
  remove = RemoveFault.table_fails;
}

abbrev pub compactions : ℕ → Disk → CompactionOutcomes
compactions n d = record {
  stat = λ level name. stat_of_file (d.tables level name);
  faults = λ n. sidecar SidecarFault.none_fails;
  manifest = ManifestFault.none_fails;
  removes = λ level name. RemoveFault.none_fails;
  orphan_stays = λ level name. true;
}

pub sees : (n : ℕ) (d : Disk) → IsSeen (compactions n d).stat d
sees n d level name file here = ap stat_of_file here

abbrev pub disk : Disk
disk = record { tables = λ level name. none; sidecars = λ level name. none; manifest = none }

abbrev pub store : SstableStore DiskStore
store =
    disk_store sum_bytes (λ c. false) 100 100 saves compactions sees true
      (λ level name. stat_of_file (disk.tables level name)) (λ level name. true)

abbrev pub empty_store : DiskStore
empty_store = record { disk = disk; levels = []; left = 100 }

disk-IsStore : IsStore sum_bytes disk []
unfolding find_level tables_of filters_of ranges_of
disk-IsStore = record {
  tables_0 = [];
  filters_0 = [];
  tables_1 = [];
  filters_1 = [];
  ranges_1 = [];
  level_0 = (refl, refl);
  level_1 = (refl, refl, refl);
  placed_0 = tt;
  placed_1 = tt;
}

next_of_none : get_next_sstable_index (get_level_sstables [] 0) ≡ 1
unfolding get_next_sstable_index get_level_sstables find_level tables_of max_index
next_of_none = refl

pub empty_store-IsDiskStore : store.IsValid empty_store
empty_store-IsDiskStore = record { store = disk-IsStore; numbers = omega (arith, next_of_none) }

-- "a" is in the memtable.
abbrev pub start : Engine Held DiskStore LogFile
start = record {
  mem_table = (table.put table.new_mem_table (97 ∷ []) (49 ∷ [])).0;
  sstable_store = empty_store;
  wal = empty_log;
}

abbrev pub empty_engine : Engine Held DiskStore LogFile
empty_engine = record {
  mem_table = table.new_mem_table;
  sstable_store = empty_store;
  wal = empty_log;
}

-- No key is there.
pub empty_engine-view : (k : Bytes) → get table store log empty_engine k ≡ none
unfolding get answer disk-IsStore newest_find
empty_engine-view k =
    let nothing =
      disk_get_key-levels_find sum_bytes (λ c. false) 100 100 saves compactions sees true
        (λ level name. stat_of_file (disk.tables level name)) (λ level name. true) empty_store
        disk-IsStore k in
    ap (λ o. answer o (store.get_key empty_store k)) (table.get-new k)
    ∙ ap (λ o. answer none o) nothing
