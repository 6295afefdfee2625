-- ===== src/Store/Publish.antt =====
-- How internal/storage/sstable.go publishes a table: its file and sidecar, the manifest, and the
-- levels in memory. Each failure of a call of the operating system is a value, with what was done
-- before it; a temporary file that is left or removed is not part of the disk here.
pub mod Saved
pub mod Safe
pub mod Ends
mod Tests
use k_lsm_engine.Prelude.{
  ℕ, Bool, true, false, ◌&&◌, not, Option, none, some, List, [], ◌∷◌, ◌++◌, ◌==◌, if◌then◌else◌,
  map, str_lt, Bytes, str_eq, Result, ok, err, panicked, ◌>>=◌, ◌>>◌, io_error,
}
use k_lsm_engine.Entry.{StorageEntry, SstableEntry}
use k_lsm_engine.Table.{write_block_based_table}
use k_lsm_engine.Bloom.{BloomFilter, sidecar_contents, bloom_filter_for_entries}
use k_lsm_engine.Store.{SstableLevel, get_new_sstable_name}
use k_lsm_engine.Store.Disk.Loaded.{is_among}
use k_lsm_engine.Store.Disk.{
  StatOutcome, load_bloom_filters, prune_levels_from_disk, register_bloom_filter,
}
use k_lsm_engine.Store.Manifest.{get_all_sstables, sort_levels, manifest_text}

-- The files of the tables and their sidecars, by level and name, and the manifest.
pub record Disk : Type 0 where
  pub tables : ℕ → Bytes → Option Bytes
  pub sidecars : ℕ → Bytes → Option Bytes
  pub manifest : Option Bytes

-- one file of a directory is written or removed
unfoldable pub put_file :
    (ℕ → Bytes → Option Bytes) → ℕ → Bytes → Option Bytes → ℕ → Bytes → Option Bytes
put_file files level name contents n other =
    if n == level && str_eq other name then contents else files n other

-- Where `writeBloomFilterSidecar` fails: before its rename, or when the directory is synced.
pub data SidecarFault : Type 0 where
  none_fails before_rename dir_sync_fails : SidecarFault

-- Where `writeSortedSSTableFile` fails: before the temporary file is there, when its mode is set,
-- while it is written, in the sidecar, in the rename, or when the directory is synced. The deferred
-- removal of the sidecar may fail as well: with `sidecar_stays` it does after the sidecar is in
-- place, and before this, the disk stays as it is with `create_fails`.
pub data TableFault : Type 0 where
  create_fails chmod_fails write_fails rename_fails sidecar_stays sync_dir_fails : TableFault
  sidecar : SidecarFault → TableFault

-- Where `rewriteManifestFromLevels` fails: before its rename, or when the directory is synced.
pub data ManifestFault : Type 0 where
  none_fails before_rename dir_sync_fails : ManifestFault

-- Which of the two removals of `removeSSTableAndBloom` fails.
pub data RemoveFault : Type 0 where
  none_fails table_fails sidecar_fails : RemoveFault

-- `os.Remove(bloomSidecarPath(filePath))`, whose error is ignored where it is deferred
unfoldable pub remove_sidecar : Disk → ℕ → Bytes → Disk
remove_sidecar d level name = record d { sidecars = put_file d.sidecars level name none }

unfoldable pub remove_sstable_and_bloom : RemoveFault → Disk → ℕ → Bytes → Disk
unfolding remove_sidecar
remove_sstable_and_bloom RemoveFault.none_fails d level name =
    remove_sidecar (record d { tables = put_file d.tables level name none }) level name
remove_sstable_and_bloom table_fails d level name = d
remove_sstable_and_bloom sidecar_fails d level name = record d {
  tables = put_file d.tables level name none;
}

-- the file that the rename puts in place
unfoldable pub put_table : Disk → ℕ → Bytes → Bytes → Disk
put_table d level name file = record d { tables = put_file d.tables level name (some file) }

unfoldable pub put_sidecar : Disk → ℕ → Bytes → Bytes → Disk
put_sidecar d level name contents = record d {
  sidecars = put_file d.sidecars level name (some contents);
}

unfoldable pub cons_level : SstableLevel → Option (List SstableLevel) → Option (List SstableLevel)
cons_level l none = none
cons_level l (some ls) = some (l ∷ ls)

-- `append(levels[i].tables, table)` for the first level with the number; none if there is none
unfoldable pub add_to_level : List SstableLevel → ℕ → Bytes → Option (List SstableLevel)
unfolding cons_level
add_to_level [] level table = none
add_to_level (l ∷ rest) level table =
    let later = cons_level l (add_to_level rest level table) in
    if l.level == level then some (record l { tables = l.tables ++ table ∷ [] } ∷ rest) else later

abbrev pub new_level : ℕ → Bytes → SstableLevel
new_level level table = record {
  tables = table ∷ [];
  bloom_filters = [];
  key_ranges = [];
  level = level;
}

-- the levels for the manifest
pub with_table : List SstableLevel → ℕ → Bytes → List SstableLevel
unfolding add_to_level
with_table levels level table = elim (add_to_level levels level table) [
  | none ↦ levels ++ new_level level table ∷ []
  | some ls ↦ ls
]

-- the levels in memory, which are sorted again if a level is added
unfoldable pub with_table_sorted : List SstableLevel → ℕ → Bytes → List SstableLevel
unfolding add_to_level
with_table_sorted levels level table = elim (add_to_level levels level table) [
  | none ↦ sort_levels (levels ++ new_level level table ∷ [])
  | some ls ↦ ls
]

-- The calls of the operating system in a save, as they turn out.
pub record Outcomes : Type 0 where
  pub table : TableFault
  pub manifest_opens : Bool
  pub manifest : ManifestFault
  pub remove : RemoveFault

module _ (sum32 : Bytes → ℕ) where
  -- from the file that is written to the end of `writeSortedSSTableFile`
  unfoldable pub rename_table :
      TableFault → Disk → ℕ → Bytes → Bytes → Bytes → Disk × Result (Unit {0})
  unfolding remove_sidecar put_table put_sidecar
  rename_table (sidecar SidecarFault.none_fails) d level name file contents =
      (put_table (put_sidecar d level name contents) level name file, ok tt)
  rename_table (sidecar f) d level name file contents = (remove_sidecar d level name, err io_error)
  rename_table sidecar_stays d level name file contents =
      (put_sidecar d level name contents, err io_error)
  rename_table sync_dir_fails d level name file contents =
      (put_table (put_sidecar d level name contents) level name file, err io_error)
  rename_table f d level name file contents = (remove_sidecar d level name, err io_error)

  -- the file and the sidecar that are written, if both can be
  unfoldable pub table_files : List SstableEntry → Result (Bytes × Bytes)
  table_files entries = do
    file ← write_block_based_table entries
    contents ← sidecar_contents (bloom_filter_for_entries sum32 entries)
    ok (file, contents)

  unfoldable pub write_files :
      TableFault → Disk → ℕ → Bytes → Result (Bytes × Bytes) → Disk × Result (Unit {0})
  unfolding rename_table remove_sidecar
  write_files f d level name (ok (file, contents)) = rename_table f d level name file contents
  write_files f d level name (err e) = (remove_sidecar d level name, err e)
  write_files f d level name panicked = (d, panicked)

  unfoldable pub write_sorted_sstable_file :
      TableFault → Disk → ℕ → Bytes → List SstableEntry → Disk × Result (Unit {0})
  unfolding write_files table_files remove_sidecar
  write_sorted_sstable_file create_fails d level name entries = (d, err io_error)
  write_sorted_sstable_file chmod_fails d level name entries =
      (remove_sidecar d level name, err io_error)
  write_sorted_sstable_file f d level name entries =
      write_files f d level name (table_files entries)

  module _ (is_print : ℕ → Bool) where
    unfoldable pub rewrite_manifest_from_levels :
        ManifestFault → Disk → List SstableLevel → Disk × Result (Unit {0})
    rewrite_manifest_from_levels ManifestFault.none_fails d levels =
        (record d { manifest = some (manifest_text is_print (sort_levels levels)) }, ok tt)
    rewrite_manifest_from_levels ManifestFault.before_rename d levels = (d, err io_error)
    rewrite_manifest_from_levels ManifestFault.dir_sync_fails d levels =
        (record d { manifest = some (manifest_text is_print (sort_levels levels)) }, err io_error)

    -- The levels in memory change only if the manifest was written.
    unfoldable pub after_rewrite :
        List SstableLevel
        → List SstableLevel
        → Disk × Result (Unit {0})
        → Disk × List SstableLevel × Result (Unit {0})
    after_rewrite levels changed (d, ok u) = (d, changed, ok tt)
    after_rewrite levels changed (d, err e) = (d, levels, err e)
    after_rewrite levels changed (d, panicked) = (d, levels, panicked)

    append_read :
        ManifestFault
        → Disk
        → List SstableLevel
        → ℕ
        → Bytes
        → Result (List SstableLevel)
        → Disk × List SstableLevel × Result (Unit {0})
    append_read f d levels level table (ok stored) =
        after_rewrite levels (with_table_sorted levels level table)
          (rewrite_manifest_from_levels f d (with_table stored level table))
    append_read f d levels level table (err e) = (d, levels, err e)
    append_read f d levels level table panicked = (d, levels, panicked)

    pub append_table_to_manifest_locked :
        Outcomes
        → Disk
        → List SstableLevel
        → ℕ
        → Bytes
        → Disk × List SstableLevel × Result (Unit {0})
    unfolding append_read after_rewrite
    append_table_to_manifest_locked o d levels level table =
        append_read o.manifest d levels level table (get_all_sstables o.manifest_opens d.manifest)

    -- The file of a table that did not get into the manifest is removed.
    after_append :
        RemoveFault
        → Bytes
        → Disk × List SstableLevel × Result (Unit {0})
        → Disk × List SstableLevel × Result (Unit {0})
    after_append f name (d, levels, ok u) =
        (d, register_bloom_filter d.sidecars levels 0 name, ok tt)
    after_append f name (d, levels, err e) = (remove_sstable_and_bloom f d 0 name, levels, err e)
    after_append f name (d, levels, panicked) = (d, levels, panicked)

    after_write :
        Outcomes
        → List SstableLevel
        → Bytes
        → Disk × Result (Unit {0})
        → Disk × List SstableLevel × Result (Unit {0})
    unfolding after_append
    after_write o levels name (d, ok u) =
        after_append o.remove name (append_table_to_manifest_locked o d levels 0 name)
    after_write o levels name (d, err e) = (d, levels, err e)
    after_write o levels name (d, panicked) = (d, levels, panicked)

    -- `saveLevel0SSTableWithWriter` with the writer of sorted entries
    pub save_level0_sstable_entries :
        Outcomes
        → Disk
        → List SstableLevel
        → List SstableEntry
        → Disk × List SstableLevel × Result (Unit {0})
    unfolding after_write
    save_level0_sstable_entries o d levels entries =
        let name = get_new_sstable_name levels 0 in
        after_write o levels name (write_sorted_sstable_file o.table d 0 name entries)

-- `sort.Strings` on the keys of a map, with their entries
insert_entry : Bytes → StorageEntry → List (Bytes × StorageEntry) → List (Bytes × StorageEntry)
insert_entry k v [] = (k, v) ∷ []
insert_entry k v ((at, w) ∷ rest) =
    let later = insert_entry k v rest in
    if str_lt at k then (at, w) ∷ later else (k, v) ∷ (at, w) ∷ rest

sort_entries : List (Bytes × StorageEntry) → List (Bytes × StorageEntry)
unfolding insert_entry
sort_entries [] = []
sort_entries ((k, v) ∷ rest) = insert_entry k v (sort_entries rest)

pub entries_of_map : List (Bytes × StorageEntry) → List SstableEntry
unfolding sort_entries
entries_of_map m =
    map (λ kv. record { k = kv.0; v = kv.1.value; type = kv.1.type }) (sort_entries m)

-- A map is the list of its keys, each of them once, and their entries.
pub save_level0_sstable :
    (Bytes → ℕ)
    → (ℕ → Bool)
    → Outcomes
    → Disk
    → List SstableLevel
    → List (Bytes × StorageEntry)
    → Disk × List SstableLevel × Result (Unit {0})
unfolding entries_of_map
save_level0_sstable sum32 is_print o d levels m =
    save_level0_sstable_entries sum32 is_print o d levels (entries_of_map m)

-- The sidecars of tables that are gone are removed, but those that stay because this fails.
unfoldable pub remove_orphans : (ℕ → Bytes → Bool) → Disk → List (ℕ × List Bytes) → Disk
remove_orphans stays d [] = d
remove_orphans stays d ((level, tables) ∷ rest) =
    remove_orphans stays
      (record d {
        sidecars = λ n name.
            if n == level && is_among name tables && not (stays n name)
            then none
            else d.sidecars n name;
      })
      rest

-- `newSSTableStore`: an error ends the program.
unfoldable pub new_sstable_store :
    Bool → (ℕ → Bytes → StatOutcome) → (ℕ → Bytes → Bool) → Disk → Result (Disk × List SstableLevel)
unfolding remove_orphans
new_sstable_store opens stat stays d = do
  stored ← get_all_sstables opens d.manifest
  let pruned = prune_levels_from_disk stat stored
  let d' = remove_orphans stays d pruned.1
  ok (d', load_bloom_filters d'.sidecars pruned.0)
