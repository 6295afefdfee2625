-- ===== src/Compaction/Publish/Placed.antt =====
-- The tables of a store on the disk and in memory, and what `getKey` answers from them.
use k_lsm_engine.Prelude.{ℕ, ◌≡◌, refl, ◌∙◌, ◌⊎◌, Option, none, some, List, [], ◌∷◌, All, Bytes, ok}
use k_lsm_engine.Entry.{StorageEntry, SstableEntry}
use k_lsm_engine.Bloom.{BloomFilter, bloom_filter_for_entries}
use k_lsm_engine.Store.{
  SstableKeyRange, SstableLevel, lookup, find_level, tables_of, filters_of, get_level_sstables,
  get_key, scan_level, scan_levels, or_else,
}
use k_lsm_engine.Store.Disk.{sidecar_filter}
use k_lsm_engine.Store.Publish.{Disk}
use k_lsm_engine.Engine.Parts.{over}
use k_lsm_engine.Compaction.Merge.Opened.{StoredTable}
use k_lsm_engine.Compaction.Publish.Answer.{newest_find, entries_of_tables}
use k_lsm_engine.Compaction.Publish.Merged.{levels_find}
use k_lsm_engine.Compaction.Publish.Reads.{IsReadable, stored_of, tables_read, scan-newest_find}
use k_lsm_engine.Compaction.Publish.Ranges.{AreWithin}
use k_lsm_engine.Compaction.Publish.Levels.{IsLevelOf}

module _ (sum32 : Bytes → ℕ) where
  -- no filter, or that of the entries
  abbrev pub IsOwn : List SstableEntry → Option BloomFilter → Type 0
  IsOwn entries o = (o ≡ none) ⊎ (o ≡ some (bloom_filter_for_entries sum32 entries))

  -- A table that can be read, and a sidecar that fits it.
  pub record IsPlaced (d : Disk) (level : ℕ) (ranges : List (Bytes × SstableKeyRange))
      (filters : List (Bytes × BloomFilter)) (table : Bytes) : Type 0 where
    pub readable : IsReadable sum32 d.tables level ranges filters table
    pub sidecar : IsOwn readable.sound.entries (sidecar_filter d.sidecars level table)

  -- The table is in its place on another disk, with another filter and another range.
  abbrev pub moved :
      (d d' : Disk) (level : ℕ) (ranges ranges' : List (Bytes × SstableKeyRange))
      (filters filters' : List (Bytes × BloomFilter)) (table : Bytes)
      (p : IsPlaced d level ranges filters table)
      → d'.tables level table ≡ d.tables level table
      → IsOwn p.readable.sound.entries (sidecar_filter d'.sidecars level table)
      → IsOwn p.readable.sound.entries (lookup table filters')
      → AreWithin (lookup table ranges') p.readable.sound.entries
      → IsPlaced d' level ranges' filters' table
  moved d d' level ranges ranges' filters filters' table p same sidecar filter range = record {
    readable = record {
      sound = record {
        entries = p.readable.sound.entries;
        file = p.readable.sound.file;
        opened = p.readable.sound.opened;
        there = same ∙ p.readable.sound.there;
        holds = p.readable.sound.holds;
        filter = filter;
        range = range;
      };
      valid = p.readable.valid;
    };
    sidecar = sidecar;
  }

  module _ (d : Disk) (level : ℕ) (ranges : List (Bytes × SstableKeyRange))
      (filters : List (Bytes × BloomFilter)) where
    abbrev pub AllPlaced : List Bytes → Type 0
    AllPlaced tables = All (IsPlaced d level ranges filters) tables

    abbrev pub all_readable :
        (tables : List Bytes)
        → AllPlaced tables
        → All (IsReadable sum32 d.tables level ranges filters) tables
    all_readable [] h = tt
    all_readable (t ∷ ts) h = (h.0.readable, all_readable ts h.1)

    abbrev pub placed_tables : (tables : List Bytes) → AllPlaced tables → List StoredTable
    placed_tables tables h =
        tables_read sum32 d.tables level ranges filters tables (all_readable tables h)

  -- The tables that are read, the newest last in each level.
  pub record IsStore (d : Disk) (levels : List SstableLevel) : Type 0 where
    pub tables_0 : List Bytes
    pub filters_0 : List (Bytes × BloomFilter)
    pub tables_1 : List Bytes
    pub filters_1 : List (Bytes × BloomFilter)
    pub ranges_1 : List (Bytes × SstableKeyRange)
    pub level_0 :
        (tables_of (find_level levels 0) ≡ tables_0)
        × (filters_of (find_level levels 0) ≡ filters_0)
    pub level_1 : IsLevelOf levels 1 tables_1 filters_1 ranges_1
    pub placed_0 : AllPlaced d 0 [] filters_0 tables_0
    pub placed_1 : AllPlaced d 1 ranges_1 filters_1 tables_1

  abbrev pub stored_0 :
      (d : Disk) (levels : List SstableLevel) → IsStore d levels → List StoredTable
  stored_0 d levels s = placed_tables d 0 [] s.filters_0 s.tables_0 s.placed_0

  abbrev pub stored_1 :
      (d : Disk) (levels : List SstableLevel) → IsStore d levels → List StoredTable
  stored_1 d levels s = placed_tables d 1 s.ranges_1 s.filters_1 s.tables_1 s.placed_1

  or_else-over :
      (a b : Option StorageEntry) → or_else (ok a) (or_else (ok b) (ok none)) ≡ ok (over a b)
  unfolding or_else
  or_else-over none none = refl
  or_else-over none (some e) = refl
  or_else-over (some e) b = refl

  -- `getKey` answers with the newest version of the key in the tables of the two levels.
  pub get_key-levels_find :
      (d : Disk) (levels : List SstableLevel) (s : IsStore d levels) (key : Bytes)
      → get_key sum32 d.tables levels key
        ≡ ok (levels_find key (stored_0 d levels s) (stored_1 d levels s))
  unfolding get_key scan_levels scan_level get_level_sstables
  get_key-levels_find d levels s key =
      let read_0 =
        scan-newest_find sum32 d.tables 0 [] s.filters_0 key s.tables_0
          (all_readable d 0 [] s.filters_0 s.tables_0 s.placed_0) in
      let read_1 =
        scan-newest_find sum32 d.tables 1 s.ranges_1 s.filters_1 key s.tables_1
          (all_readable d 1 s.ranges_1 s.filters_1 s.tables_1 s.placed_1) in
      rw (s.level_0.0, s.level_0.1, s.level_1.0, s.level_1.1, s.level_1.2, read_0, read_1)
        (or_else-over (newest_find key (entries_of_tables (stored_0 d levels s)))
          (newest_find key (entries_of_tables (stored_1 d levels s))))

  -- A step for each table that keeps its entries.
  pub record IsMove (d : Disk) (level : ℕ) (ranges : List (Bytes × SstableKeyRange))
      (filters : List (Bytes × BloomFilter)) (d' : Disk) (ranges' : List (Bytes × SstableKeyRange))
      (filters' : List (Bytes × BloomFilter)) : Type 0 where
    pub move :
        (t : Bytes) → IsPlaced d level ranges filters t → IsPlaced d' level ranges' filters' t
    pub keeps :
        (t : Bytes) (p : IsPlaced d level ranges filters t)
        → stored_of sum32 d'.tables level ranges' filters' t (move t p).readable
          ≡ stored_of sum32 d.tables level ranges filters t p.readable

  module _ (d : Disk) (level : ℕ) (ranges : List (Bytes × SstableKeyRange))
      (filters : List (Bytes × BloomFilter)) (d' : Disk) (ranges' : List (Bytes × SstableKeyRange))
      (filters' : List (Bytes × BloomFilter))
      (m : IsMove d level ranges filters d' ranges' filters') where
    abbrev pub all_moved :
        (tables : List Bytes)
        → AllPlaced d level ranges filters tables
        → AllPlaced d' level ranges' filters' tables
    all_moved [] h = tt
    all_moved (t ∷ ts) h = (m.move t h.0, all_moved ts h.1)

    pub placed_tables-all_moved :
        (tables : List Bytes) (h : AllPlaced d level ranges filters tables)
        → placed_tables d' level ranges' filters' tables (all_moved tables h)
          ≡ placed_tables d level ranges filters tables h
    placed_tables-all_moved [] h = refl
    placed_tables-all_moved (t ∷ ts) h = rw (m.keeps t h.0, placed_tables-all_moved ts h.1) refl
