-- ===== src/Compaction/Publish/Runs.antt =====
-- A compaction in which no call of the operating system fails.
use mathlib.Core.Path.{subst}
use k_lsm_engine.Prelude.{
  ℕ, suc, ◌≤◌, ◌≡◌, ◌≢◌, refl, sym, ap, ◌∙◌, Bool, false, List, [], map, length, ltb, arith, Bytes,
  Result, ok,
}
use k_lsm_engine.Store.{SstableLevel, get_level_sstables, table_name, get_next_sstable_index}
use k_lsm_engine.Store.Disk.{missing, unreadable, load_bloom_filters}
use k_lsm_engine.Store.Publish.{
  Disk, remove_orphans, SidecarFault, sidecar, ManifestFault, rewrite_manifest_from_levels,
}
use k_lsm_engine.Compaction.Merge.{MergeState}
use k_lsm_engine.Compaction.Merge.Runs.{merge_tables-runs}
use k_lsm_engine.Compaction.Publish.{
  CompactionOutcomes, is_written, stat_of_number, write_is_faulty, write_new_tables, merged_levels,
  orphans_of, prune_level, after_publish, publish, after_merge, merge_levels, compact_pruned,
  compact_sstables,
}
use k_lsm_engine.Compaction.Publish.Answer.{present}
use k_lsm_engine.Compaction.Publish.Reads.{files-tables_read}
use k_lsm_engine.Compaction.Publish.Levels.{
  get_tables_for_level-find_level, load_bloom_filters-IsLevelOf, merged_levels-IsLevelOf_0,
}
use k_lsm_engine.Compaction.Publish.Placed.{all_readable, IsStore, stored_0, stored_1}
use k_lsm_engine.Compaction.Publish.Compact.{entries_in}
use k_lsm_engine.Compaction.Publish.Kept.{IsSeen, IsMoved-of_less}
use k_lsm_engine.Compaction.Publish.Pruned.{remove_orphans-IsLess, IsMoved-pruned}

-- No write fails, the numbers from a bound on are free, and the outcome of `os.Stat` is known for
-- each number.
pub record IsFaultless (o : CompactionOutcomes) (bound : ℕ) : Type 0 where
  pub missing_from : (n : ℕ) → bound ≤ n → o.stat 1 (table_name n) ≡ missing
  pub readable : (n : ℕ) → o.stat 1 (table_name n) ≢ unreadable
  pub writes : (n : ℕ) → o.faults n ≡ sidecar SidecarFault.none_fails
  pub manifest : o.manifest ≡ ManifestFault.none_fails

-- The compaction succeeds, and level 0 is empty.
abbrev pub IsEmptied : Disk × List SstableLevel × Result (Unit {0}) → Type 0
IsEmptied r = (r.2 ≡ ok tt) × (get_level_sstables r.1 0 ≡ [])

module _ (sum32 : Bytes → ℕ) (o : CompactionOutcomes) (is_print : ℕ → Bool) (bound rounds fuel : ℕ)
    (faultless : IsFaultless o bound) (enough : bound ≤ rounds) where
  writes_work : (n : ℕ) → write_is_faulty sum32 o n ≡ false
  unfolding is_written
  writes_work n = rw (faultless.writes n) refl

  level_0_empty :
      (d : Disk) (pruned : List SstableLevel) (st : MergeState)
      → get_level_sstables
          (load_bloom_filters
            (write_new_tables sum32 o d st.new_tables).sidecars
            (merged_levels pruned st.new_tables))
          0
        ≡ []
  unfolding get_level_sstables
  level_0_empty d pruned st =
      (load_bloom_filters-IsLevelOf (write_new_tables sum32 o d st.new_tables).sidecars
        (merged_levels pruned st.new_tables) 0).0
      ∙ merged_levels-IsLevelOf_0 pruned st.new_tables

  compact_pruned-runs :
      (d : Disk) (levels pruned : List SstableLevel) (p : IsStore sum32 d pruned)
      → 2 ≤ length p.tables_0
      → entries_in (stored_0 sum32 d pruned p) (stored_1 sum32 d pruned p) ≤ fuel
      → IsEmptied (compact_pruned sum32 o is_print (suc rounds) fuel d levels pruned)
  unfolding compact_pruned merge_levels after_merge publish after_publish
      rewrite_manifest_from_levels
  compact_pruned-runs d levels pruned p many within =
      let at_0 = get_tables_for_level-find_level pruned 0 ∙ p.level_0.0 in
      let at_1 = get_tables_for_level-find_level pruned 1 ∙ p.level_1.0 in
      let read_0 =
        files-tables_read sum32 d.tables 0 [] p.filters_0 p.tables_0
          (all_readable sum32 d 0 [] p.filters_0 p.tables_0 p.placed_0) in
      let read_1 =
        files-tables_read sum32 d.tables 1 p.ranges_1 p.filters_1 p.tables_1
          (all_readable sum32 d 1 p.ranges_1 p.filters_1 p.tables_1 p.placed_1) in
      let (st, runs) =
        merge_tables-runs (stat_of_number sum32 o) (write_is_faulty sum32 o) bound rounds
          faultless.missing_from faultless.readable writes_work enough
          (present (stored_0 sum32 d pruned p)) (present (stored_1 sum32 d pruned p)) fuel
          (get_next_sstable_index p.tables_1) within in
      let enough_tables : ltb (length p.tables_0) 2 ≡ false = ground (arith, many) in
      rw (at_0, at_1, enough_tables, read_0, read_1, runs, faultless.manifest)
        (refl, level_0_empty d pruned st)

  -- If no call of the operating system fails, `os.Stat` finds every table that is there, no file of
  -- level 1 has a number from a bound on, and the search for a number has more rounds than the bound,
  -- and the fuel is at least the number of entries in the tables, then a compaction of a store with
  -- two tables or more on level 0 succeeds, and leaves no table on level 0.
  pub compact_sstables-runs :
      (d : Disk) (levels : List SstableLevel) (s : IsStore sum32 d levels)
      → IsSeen o.stat d
      → 2 ≤ length s.tables_0
      → entries_in (stored_0 sum32 d levels s) (stored_1 sum32 d levels s) ≤ fuel
      → IsEmptied (compact_sstables sum32 o is_print (suc rounds) fuel d levels)
  unfolding compact_sstables
  compact_sstables-runs d levels s seen many within =
      let orphans = map (orphans_of o.stat) levels in
      let d' = remove_orphans o.orphan_stays d orphans in
      let less = remove_orphans-IsLess o.orphan_stays d orphans in
      let first = IsMoved-of_less sum32 d d' (λ n t file here. less n t) levels s in
      let seen' : IsSeen o.stat d' = λ n t file here. seen n t file (sym (less n t).0 ∙ here) in
      let pruned = load_bloom_filters d'.sidecars (map (prune_level o.stat) levels) in
      let second = IsMoved-pruned sum32 o.stat d' levels first.store seen' in
      let within' =
        subst (λ n. n ≤ fuel)
          (sym (
            ap (λ ts. entries_in ts (stored_1 sum32 d' pruned second.store))
              (second.same_0 ∙ first.same_0)
            ∙ ap (entries_in (stored_0 sum32 d levels s)) (second.same_1 ∙ first.same_1)))
          within in
      compact_pruned-runs d' levels pruned second.store (rw (second.names_0, first.names_0) many)
        within'
