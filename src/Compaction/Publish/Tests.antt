-- ===== src/Compaction/Publish/Tests.antt =====
-- A compaction of two tables: "a" is put in the older one and deleted in the newer one.
use k_lsm_engine.Prelude.{
  ℕ, ◌≤◌, ◌≡◌, ◌≢◌, refl, inl, Option, none, some, List, [], ◌∷◌, arith, Bool, true, false, ◌&&◌,
  ◌==◌, if◌then◌else◌, Bytes, str_eq, str_lt, ok,
}
use k_lsm_engine.Entry.{SstableEntry, entry_type_put, entry_type_delete}
use k_lsm_engine.Table.{is_empty, has_nul, not_above, BlockBasedTable, write_block_based_table}
use k_lsm_engine.Table.Block.{IsTable, stored}
use k_lsm_engine.Table.Open.{Holds, write_block_based_table-Holds}
use k_lsm_engine.Store.{
  SstableLevel, find_level, tables_of, filters_of, ranges_of, lookup, l1_table_may_contain,
}
use k_lsm_engine.Store.Disk.{StatOutcome, there, missing, unreadable, sidecar_filter}
use k_lsm_engine.Store.Publish.{Disk, SidecarFault, ManifestFault, RemoveFault, sidecar}
use k_lsm_engine.Compaction.Publish.{CompactionOutcomes, compact_sstables}
use k_lsm_engine.Compaction.Publish.Placed.{IsPlaced, IsStore, stored_0, stored_1}
use k_lsm_engine.Compaction.Publish.Kept.{IsSeen, IsKept}
use k_lsm_engine.Compaction.Publish.Runs.{IsFaultless, IsEmptied, compact_sstables-runs}
use k_lsm_engine.Compaction.Publish.Compact.{entries_in, compact_sstables-IsKept}

abbrev older : List SstableEntry
older = record { k = 97 ∷ []; v = 49 ∷ []; type = entry_type_put } ∷ []

abbrev newer : List SstableEntry
newer = record { k = 97 ∷ []; v = []; type = entry_type_delete } ∷ []

older-IsTable : IsTable none older
unfolding not_above is_empty has_nul str_lt
older-IsTable = (
  refl,
  record {
    key = record { filled = refl; fits = omega arith; no_nul = refl };
    value = record { filled = refl; fits = omega arith; no_nul = refl };
  },
  tt,
)

newer-IsTable : IsTable none newer
unfolding not_above is_empty has_nul str_lt
newer-IsTable = (
  refl,
  record { key = record { filled = refl; fits = omega arith; no_nul = refl }; value = tt },
  tt,
)

abbrev older_file :
    (file : Bytes) × (t : BlockBasedTable) × (write_block_based_table older ≡ ok file)
    × Holds older file t
older_file = write_block_based_table-Holds older older-IsTable (omega arith)

abbrev newer_file :
    (file : Bytes) × (t : BlockBasedTable) × (write_block_based_table newer ≡ ok file)
    × Holds newer file t
newer_file = write_block_based_table-Holds newer newer-IsTable (omega arith)

-- "1" and "2" in place of the names that the store gives
abbrev older_name : Bytes
older_name = 49 ∷ []

abbrev newer_name : Bytes
newer_name = 50 ∷ []

abbrev disk : Disk
disk = record {
  tables = λ level name.
      if level == 0 && str_eq name older_name
      then some older_file.0
      else (if level == 0 && str_eq name newer_name then some newer_file.0 else none);
  sidecars = λ level name. none;
  manifest = none;
}

abbrev levels : List SstableLevel
levels =
    record { tables = older_name ∷ newer_name ∷ []; bloom_filters = []; key_ranges = []; level = 0 }
    ∷ []

abbrev stat_of_file : Option Bytes → StatOutcome
stat_of_file none = missing
stat_of_file (some file) = there

-- No call fails.
abbrev outcomes : CompactionOutcomes
outcomes = record {
  stat = λ level name. stat_of_file (disk.tables level name);
  faults = λ n. sidecar SidecarFault.none_fails;
  manifest = ManifestFault.none_fails;
  removes = λ level name. RemoveFault.none_fails;
  orphan_stays = λ level name. true;
}

disk-IsSeen : IsSeen outcomes.stat disk
disk-IsSeen level name file here = rw here refl

abbrev sum_bytes : Bytes → ℕ
sum_bytes [] = 0
sum_bytes (b ∷ bs) = b

abbrev no_print : ℕ → Bool
no_print c = false

older-IsPlaced : IsPlaced sum_bytes disk 0 [] [] older_name
unfolding str_eq lookup l1_table_may_contain sidecar_filter
older-IsPlaced = record {
  readable = record {
    sound = record {
      entries = older;
      file = older_file.0;
      opened = older_file.1;
      there = refl;
      holds = older_file.3;
      filter = inl refl;
      range = (refl, tt);
    };
    valid = older-IsTable;
  };
  sidecar = inl refl;
}

newer-IsPlaced : IsPlaced sum_bytes disk 0 [] [] newer_name
unfolding str_eq lookup l1_table_may_contain sidecar_filter
newer-IsPlaced = record {
  readable = record {
    sound = record {
      entries = newer;
      file = newer_file.0;
      opened = newer_file.1;
      there = refl;
      holds = newer_file.3;
      filter = inl refl;
      range = (refl, tt);
    };
    valid = newer-IsTable;
  };
  sidecar = inl refl;
}

disk-IsStore : IsStore sum_bytes disk levels
unfolding find_level tables_of filters_of ranges_of
disk-IsStore = record {
  tables_0 = older_name ∷ newer_name ∷ [];
  filters_0 = [];
  tables_1 = [];
  filters_1 = [];
  ranges_1 = [];
  level_0 = (refl, refl);
  level_1 = (refl, refl, refl);
  placed_0 = (older-IsPlaced, (newer-IsPlaced, tt));
  placed_1 = tt;
}

two_entries :
    entries_in
      (stored_0 sum_bytes disk levels disk-IsStore)
      (stored_1 sum_bytes disk levels disk-IsStore)
    ≤ 2
unfolding older-IsPlaced newer-IsPlaced disk-IsStore stored
two_entries = omega arith

compact_sstables-IsKept_example :
    IsKept sum_bytes disk levels
      (compact_sstables sum_bytes outcomes no_print 1 2 disk levels).0
      (compact_sstables sum_bytes outcomes no_print 1 2 disk levels).1
compact_sstables-IsKept_example =
    compact_sstables-IsKept sum_bytes outcomes no_print 1 2 disk levels disk-IsStore disk-IsSeen

missing_not_unreadable : missing ≢ unreadable
missing_not_unreadable e = cc

outcomes-IsFaultless : IsFaultless outcomes 0
outcomes-IsFaultless = record {
  missing_from = λ n h. refl;
  readable = λ n. missing_not_unreadable;
  writes = λ n. refl;
  manifest = refl;
}

compact_sstables-runs_example :
    IsEmptied (compact_sstables sum_bytes outcomes no_print 1 2 disk levels)
unfolding disk-IsStore
compact_sstables-runs_example =
    compact_sstables-runs sum_bytes outcomes no_print 0 0 2 outcomes-IsFaultless (omega arith) disk
      levels disk-IsStore disk-IsSeen (omega arith) two_entries
