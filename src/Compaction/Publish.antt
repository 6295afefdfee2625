-- ===== src/Compaction/Publish.antt =====
-- `compactSSTables` in internal/storage/compaction.go around its merge: the pruning before it, and
-- the publishing of the new tables after it. Each failure of a call of the operating system is a
-- value, with what was done before it.
pub mod Answer
pub mod Unique
pub mod Merged
pub mod Reads
pub mod Numbers
pub mod Rounds
pub mod Names
pub mod Files
pub mod Levels
pub mod Values
pub mod Ranges
pub mod Placed
pub mod Kept
pub mod Pruned
pub mod Failed
pub mod New
pub mod Safe
pub mod Compact
pub mod Runs
mod Tests
use k_lsm_engine.Prelude.{
  ℕ, zero, suc, Bool, true, false, not, ◌||◌, Option, none, some, List, [], ◌∷◌, ◌++◌, map, length,
  ltb, ◌==◌, if◌then◌else◌, Bytes, Result, ok, err, panicked, ◌>>=◌,
}
use k_lsm_engine.Store.{SstableLevel, SstableKeyRange, table_name, get_next_sstable_index}
use k_lsm_engine.Store.Disk.{StatOutcome, prune_tables, kept_level, load_bloom_filters}
use k_lsm_engine.Store.Manifest.{sort_levels}
use k_lsm_engine.Store.Publish.{
  Disk, SidecarFault, TableFault, sidecar, ManifestFault, RemoveFault, remove_sstable_and_bloom,
  write_sorted_sstable_file, rewrite_manifest_from_levels, after_rewrite, remove_orphans,
}
use k_lsm_engine.Compaction.{get_tables_for_level}
use k_lsm_engine.Compaction.Merge.{
  NewTable, MergeState, add_tables, start_state, free_number, heap_pop, take_item, advance_item,
  merge_loop, merge_tables,
}

-- The calls of the operating system in a compaction, as they turn out: on a table of a level, in the
-- write of the table of a number, and in the rewrite of the manifest.
pub record CompactionOutcomes : Type 0 where
  pub stat : ℕ → Bytes → StatOutcome
  pub faults : ℕ → TableFault
  pub manifest : ManifestFault
  pub removes : ℕ → Bytes → RemoveFault
  pub orphan_stays : ℕ → Bytes → Bool

-- the tables that are there, and those that are gone, whose sidecar is removed
unfoldable pub prune_level_tables :
    (ℕ → Bytes → StatOutcome) → ℕ → List Bytes → List Bytes × List Bytes
prune_level_tables stat level tables = prune_tables stat level tables

unfoldable pub prune_level : (ℕ → Bytes → StatOutcome) → SstableLevel → SstableLevel
unfolding prune_level_tables
prune_level stat l =
    let kept = (prune_level_tables stat l.level l.tables).0 in
    if l.level == 0
    then record { tables = kept; bloom_filters = []; key_ranges = []; level = 0 }
    else if l.level == 1
    then kept_level stat l kept
    else l

unfoldable pub orphans_of : (ℕ → Bytes → StatOutcome) → SstableLevel → ℕ × List Bytes
unfolding prune_level_tables
orphans_of stat l =
    let removed = (prune_level_tables stat l.level l.tables).1 in
    (l.level, if l.level == 0 || l.level == 1 then removed else [])

unfoldable pub is_written : TableFault → Bool
is_written (sidecar SidecarFault.none_fails) = true
is_written f = false

-- `removeSSTableAndBloom` on each table; an error is logged
unfoldable pub remove_tables : (ℕ → Bytes → RemoveFault) → Disk → ℕ → List Bytes → Disk
remove_tables removes d level [] = d
remove_tables removes d level (table ∷ rest) =
    remove_tables removes (remove_sstable_and_bloom (removes level table) d level table) level rest

abbrev pub names_of : List NewTable → List Bytes
names_of = map (λ (t : NewTable). table_name t.number)

abbrev pub ranges_of_new : List NewTable → List (Bytes × SstableKeyRange)
ranges_of_new = map (λ (t : NewTable). (table_name t.number, t.key_range))

-- the levels besides 0 and 1
unfoldable pub higher_levels : List SstableLevel → List SstableLevel
higher_levels [] = []
higher_levels (l ∷ rest) =
    let others = higher_levels rest in if l.level == 0 || l.level == 1 then others else l ∷ others

-- the levels after the merge
unfoldable pub merged_levels : List SstableLevel → List NewTable → List SstableLevel
unfolding higher_levels
merged_levels pruned new = sort_levels (
    higher_levels pruned
    ++ record { tables = []; bloom_filters = []; key_ranges = []; level = 0 }
      ∷ record {
        tables = names_of new;
        bloom_filters = [];
        key_ranges = ranges_of_new new;
        level = 1;
      }
      ∷ [])

module _ (sum32 : Bytes → ℕ) (o : CompactionOutcomes) where
  abbrev pub stat_of_number : ℕ → StatOutcome
  stat_of_number n = o.stat 1 (table_name n)

  abbrev pub write_is_faulty : ℕ → Bool
  write_is_faulty n = not (is_written (o.faults n))

  -- the disk after the tables were written
  unfoldable pub write_new_tables : Disk → List NewTable → Disk
  write_new_tables d [] = d
  write_new_tables d (t ∷ ts) =
      write_new_tables
        (write_sorted_sstable_file sum32 (o.faults t.number) d 1 (table_name t.number) t.chunk).0 ts

  -- The state in which the loop of the merge ends or fails, and whether it fails in `flushChunk`.
  unfoldable pub merge_halt : ℕ → ℕ → MergeState → MergeState × Bool
  merge_halt rounds zero s = (s, false)
  merge_halt rounds (suc fuel) s = elim (heap_pop s.heap) [
    | none ↦ (s, false)
    | some (item, rest) ↦
        elim (take_item stat_of_number write_is_faulty rounds (record s { heap = rest }) item) [
          | ok s₁ ↦ elim (advance_item stat_of_number write_is_faulty s₁ item) [
            | ok s₂ ↦ merge_halt rounds fuel s₂
            | err e ↦ (s₁, false)
            | panicked ↦ (s₁, false)
          ]
          | err e ↦ (s, true)
          | panicked ↦ (s, true)
        ]
  ]

  -- what a write of the chunk that fails leaves
  unfoldable pub failed_write : ℕ → Disk → MergeState → Disk
  failed_write rounds d s =
      elim (free_number stat_of_number write_is_faulty rounds s.next_l1_index) [
        | ok n ↦ (write_sorted_sstable_file sum32 (o.faults n) d 1 (table_name n) s.chunk).0
        | err e ↦ d
        | panicked ↦ d
      ]

  -- The deferred removal of the new tables.
  unfoldable pub failed_after : ℕ → Disk → MergeState → Bool → Disk
  unfolding failed_write write_new_tables remove_tables
  failed_after rounds d s flush_fails =
      let d₁ = write_new_tables d s.new_tables in
      let d₂ = if flush_fails then failed_write rounds d₁ s else d₁ in
      remove_tables o.removes d₂ 1 (names_of s.new_tables)

  -- whether the last chunk is written
  unfoldable pub in_last_flush : Result MergeState → Bool → Bool
  in_last_flush (ok s) fails = true
  in_last_flush (err e) fails = fails
  in_last_flush panicked fails = fails

  -- The disk after a merge that failed; nothing was written if it failed in `addTables`.
  unfoldable pub failed_merge : ℕ → ℕ → Disk → Result MergeState → Disk
  unfolding merge_halt failed_after in_last_flush
  failed_merge rounds fuel d (ok s) =
      let (halt, flush_fails) = merge_halt rounds fuel s in
      failed_after rounds d halt
        (in_last_flush (merge_loop stat_of_number write_is_faulty rounds fuel s) flush_fails)
  failed_merge rounds fuel d (err e) = d
  failed_merge rounds fuel d panicked = d

  -- The old tables go once the manifest lists the new ones; if it could not be written, the new
  -- ones go.
  unfoldable pub after_publish :
      List SstableLevel
      → List SstableLevel
      → List Bytes
      → List Bytes
      → List Bytes
      → Disk × Result (Unit {0})
      → Disk × List SstableLevel × Result (Unit {0})
  unfolding remove_tables
  after_publish levels new names l0 l1 (d, ok u) =
      (remove_tables o.removes (remove_tables o.removes d 0 l0) 1 l1, new, ok tt)
  after_publish levels new names l0 l1 (d, err e) =
      (remove_tables o.removes d 1 names, levels, err e)
  after_publish levels new names l0 l1 (d, panicked) =
      (remove_tables o.removes d 1 names, levels, panicked)

  module _ (is_print : ℕ → Bool) (rounds fuel : ℕ) where
    -- from the end of the merge on
    unfoldable pub publish :
        Disk
        → List SstableLevel
        → List SstableLevel
        → List NewTable
        → Disk × List SstableLevel × Result (Unit {0})
    unfolding write_new_tables merged_levels after_publish
    publish d levels pruned new =
        let d₁ = write_new_tables d new in
        let next = load_bloom_filters d₁.sidecars (merged_levels pruned new) in
        after_publish levels next (names_of new) (get_tables_for_level pruned 0)
          (get_tables_for_level pruned 1)
          (rewrite_manifest_from_levels sum32 is_print o.manifest d₁ next)

    unfoldable pub after_merge :
        Disk
        → List SstableLevel
        → List SstableLevel
        → Result MergeState
        → Result MergeState
        → Disk × List SstableLevel × Result (Unit {0})
    unfolding publish failed_merge
    after_merge d levels pruned opened (ok s) = publish d levels pruned s.new_tables
    after_merge d levels pruned opened (err e) = (failed_merge rounds fuel d opened, levels, err e)
    after_merge d levels pruned opened panicked =
        (failed_merge rounds fuel d opened, levels, panicked)

    unfoldable pub merge_levels :
        Disk → List SstableLevel → List SstableLevel → Disk × List SstableLevel × Result (Unit {0})
    unfolding after_merge
    merge_levels d levels pruned =
        let l0 = get_tables_for_level pruned 0 in
        let l1 = get_tables_for_level pruned 1 in
        let l0_files = map (d.tables 0) l0 in
        let l1_files = map (d.tables 1) l1 in
        let next = get_next_sstable_index l1 in
        after_merge d levels pruned
          (add_tables 0 (start_state next) l0_files >>= λ s. add_tables 1 s l1_files)
          (merge_tables stat_of_number write_is_faulty rounds fuel next l0_files l1_files)

    -- With fewer than two tables on level 0 only the pruned levels are written; the rewrite also
    -- sorts them.
    unfoldable pub compact_pruned :
        Disk → List SstableLevel → List SstableLevel → Disk × List SstableLevel × Result (Unit {0})
    unfolding merge_levels after_rewrite
    compact_pruned d levels pruned =
        let merged = merge_levels d levels pruned in
        if ltb (length (get_tables_for_level pruned 0)) 2
        then after_rewrite sum32 is_print levels (sort_levels pruned)
            (rewrite_manifest_from_levels sum32 is_print o.manifest d pruned)
        else merged

    unfoldable pub compact_sstables :
        Disk → List SstableLevel → Disk × List SstableLevel × Result (Unit {0})
    unfolding compact_pruned prune_level orphans_of remove_orphans
    compact_sstables d levels =
        let d' = remove_orphans o.orphan_stays d (map (orphans_of o.stat) levels) in
        compact_pruned d' levels (load_bloom_filters d'.sidecars (map (prune_level o.stat) levels))
