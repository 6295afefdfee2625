-- ===== src/Store/Publish/Saved.antt =====
-- What a save leaves on the disk and in memory.
use k_lsm_engine.Prelude.{
  ℕ, ◌≤◌, ◌≡◌, refl, Bool, true, false, ◌&&◌, Option, none, some, List, map, length, All, ◌==◌,
  Bytes, str_eq, ok,
}
use k_lsm_engine.Entry.{SstableEntry}
use k_lsm_engine.Table.{BlockBasedTable, sstable_max_entries}
use k_lsm_engine.Table.Block.{IsTable}
use k_lsm_engine.Table.Open.{Holds, write_block_based_table-Holds}
use k_lsm_engine.Bloom.{parse_sidecar, bloom_filter_for_entries}
use k_lsm_engine.Bloom.Members.{bloom_filter_for_entries-IsFilter}
use k_lsm_engine.Bloom.Sidecar.{parse_sidecar-sidecar_contents}
use k_lsm_engine.Store.{SstableLevel, get_new_sstable_name}
use k_lsm_engine.Store.Disk.{register_bloom_filter}
use k_lsm_engine.Store.Manifest.{get_all_sstables, sort_levels, manifest_text}
use k_lsm_engine.Store.Manifest.RoundTrip.{IsWritable, stored_level, get_all_sstables-manifest_text}
use k_lsm_engine.Store.Publish.{
  Disk, put_file, SidecarFault, ManifestFault, RemoveFault, sidecar, write_sorted_sstable_file,
  rewrite_manifest_from_levels, with_table, with_table_sorted, Outcomes,
  append_table_to_manifest_locked, save_level0_sstable_entries,
}

-- No call of the operating system fails.
abbrev pub no_fault : Outcomes
no_fault = record {
  table = sidecar SidecarFault.none_fails;
  manifest_opens = true;
  manifest = ManifestFault.none_fails;
  remove = RemoveFault.none_fails;
}

-- The files of all tables but one are the same.
abbrev pub IsApart : ℕ → Bytes → Disk → Disk → Type 0
IsApart level name d d' =
    (n : ℕ) (other : Bytes)
    → (n == level && str_eq other name) ≡ false
    → (d'.tables n other ≡ d.tables n other) × (d'.sidecars n other ≡ d.sidecars n other)

pub put_file-other :
    (files : ℕ → Bytes → Option Bytes) (level : ℕ) (name : Bytes) (contents : Option Bytes) (n : ℕ)
    (other : Bytes)
    → (n == level && str_eq other name) ≡ false
    → put_file files level name contents n other ≡ files n other
unfolding put_file
put_file-other files level name contents n other h = rw h refl

module _ (sum32 : Bytes → ℕ) (is_print : ℕ → Bool) where
  -- the disk after a save
  abbrev pub saved_disk : Disk → List SstableLevel → Bytes → Bytes → Bytes → Disk
  saved_disk d stored name file contents = record {
    tables = put_file d.tables 0 name (some file);
    sidecars = put_file d.sidecars 0 name (some contents);
    manifest = some (manifest_text is_print (sort_levels (with_table stored 0 name)));
  }

  -- The save of the entries comes to this, with the file of the table and its sidecar.
  pub record IsSaved (d : Disk) (levels stored : List SstableLevel) (entries : List SstableEntry)
      : Type 0 where
    pub file : Bytes
    pub table : BlockBasedTable
    pub contents : Bytes
    pub saves : save_level0_sstable_entries sum32 is_print no_fault d levels entries ≡ (
      saved_disk d stored (get_new_sstable_name levels 0) file contents,
      register_bloom_filter
          (saved_disk d stored (get_new_sstable_name levels 0) file contents).sidecars
          (with_table_sorted levels 0 (get_new_sstable_name levels 0))
          0
          (get_new_sstable_name levels 0),
      ok tt,
    )
    pub holds : Holds entries file table
    pub filter : parse_sidecar contents ≡ ok (bloom_filter_for_entries sum32 entries)
    pub reads :
        get_all_sstables true
          (saved_disk d stored (get_new_sstable_name levels 0) file contents).manifest
        ≡ ok (
            map
              (stored_level is_print)
              (sort_levels (with_table stored 0 (get_new_sstable_name levels 0))))

  -- Entries that fit a table are saved if no call of the operating system fails and the manifest
  -- reads as levels that can be written: the file holds them, the sidecar is their filter, and the
  -- manifest reads as those levels with the new table on level 0.
  pub save_level0_sstable_entries-IsSaved :
      (d : Disk) (levels stored : List SstableLevel) (entries : List SstableEntry)
      → IsTable none entries
      → length entries ≤ sstable_max_entries
      → get_all_sstables true d.manifest ≡ ok stored
      → All
          (IsWritable is_print)
          (sort_levels (with_table stored 0 (get_new_sstable_name levels 0)))
      → IsSaved d levels stored entries
  unfolding save_level0_sstable_entries write_sorted_sstable_file append_table_to_manifest_locked
      rewrite_manifest_from_levels
  save_level0_sstable_entries-IsSaved d levels stored entries t room manifest w =
      let name = get_new_sstable_name levels 0 in
      let (file, table, written, holds) = write_block_based_table-Holds entries t room in
      let (contents, sidecar_written, filter) =
        parse_sidecar-sidecar_contents (bloom_filter_for_entries sum32 entries)
          (bloom_filter_for_entries-IsFilter sum32 entries) in
      record {
        file = file;
        table = table;
        contents = contents;
        saves = rw (written, sidecar_written, manifest) refl;
        holds = holds;
        filter = filter;
        reads = get_all_sstables-manifest_text is_print (sort_levels (with_table stored 0 name)) w;
      }
