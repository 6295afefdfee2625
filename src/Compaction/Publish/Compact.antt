-- ===== src/Compaction/Publish/Compact.antt =====
-- `compactSSTables` in internal/storage/compaction.go, from the pruning to the removal of the old
-- tables.
use k_lsm_engine.Prelude.{
  ℕ, ◌≡◌, refl, sym, ◌∙◌, inl, inr, Bool, Option, List, map, length, ltb, Bytes, Result, ok, err,
  panicked, ◌>>=◌, bind-inv, Bool-cases,
}
use k_lsm_engine.Store.{SstableLevel, get_next_sstable_index}
use k_lsm_engine.Store.Disk.{load_bloom_filters}
use k_lsm_engine.Store.Publish.{Disk, remove_orphans}
use k_lsm_engine.Compaction.{get_tables_for_level}
use k_lsm_engine.Compaction.Merge.{MergeState, start_state, add_tables, merge_tables}
use k_lsm_engine.Compaction.Merge.Advance.{total}
use k_lsm_engine.Compaction.Merge.Opened.{StoredTable}
use k_lsm_engine.Compaction.Merge.Tables.{sources_of}
use k_lsm_engine.Compaction.Publish.{
  CompactionOutcomes, stat_of_number, write_is_faulty, orphans_of, prune_level, failed_merge,
  publish, after_merge, merge_levels, compact_pruned, compact_sstables,
}
use k_lsm_engine.Compaction.Publish.Answer.{present}
use k_lsm_engine.Compaction.Publish.Numbers.{IsNumbered}
use k_lsm_engine.Compaction.Publish.Rounds.{add_tables-IsNumbered, start-IsNumbered}
use k_lsm_engine.Compaction.Publish.Placed.{IsStore}
use k_lsm_engine.Compaction.Publish.Kept.{IsSeen, IsKept, IsKept-of_moved, IsMoved-of_less}
use k_lsm_engine.Compaction.Publish.Pruned.{remove_orphans-IsLess, IsMoved-pruned}
use k_lsm_engine.Compaction.Publish.Failed.{failed_merge-IsSame}
use k_lsm_engine.Compaction.Publish.Safe.{
  IsKept-trans, IsKept-of_same, rewritten-IsKept, publish-IsKept,
}

-- the number of entries in the tables of the two levels
abbrev pub entries_in : List StoredTable → List StoredTable → ℕ
entries_in l0 l1 = total (sources_of (present l0) (present l1))

module _ (sum32 : Bytes → ℕ) (o : CompactionOutcomes) (is_print : ℕ → Bool) (rounds fuel : ℕ) where
  opened-IsNumbered :
      (n : ℕ) (l0 l1 : List (Option Bytes)) (s : MergeState)
      → (add_tables 0 (start_state n) l0 >>= λ s₀. add_tables 1 s₀ l1) ≡ ok s
      → IsNumbered (stat_of_number sum32 o) (write_is_faulty sum32 o) rounds s
  opened-IsNumbered n l0 l1 s h =
      let stat = stat_of_number sum32 o in
      let fails = write_is_faulty sum32 o in
      let (s₀, added, h₁) = bind-inv (add_tables 0 (start_state n) l0) _ h in
      add_tables-IsNumbered stat fails rounds 1 s₀ s l1
        (add_tables-IsNumbered stat fails rounds 0 (start_state n) s₀ l0
          (start-IsNumbered stat fails rounds n) added)
        h₁

  module _ (d : Disk) (levels pruned : List SstableLevel) (s : IsStore sum32 d levels)
      (seen : IsSeen o.stat d) (kept : IsKept sum32 d levels d pruned) where
    after_merge-IsKept :
        (opened merged : Result MergeState)
        → ((st : MergeState)
            → opened ≡ ok st
            → IsNumbered (stat_of_number sum32 o) (write_is_faulty sum32 o) rounds st)
        → merge_tables
            (stat_of_number sum32 o)
            (write_is_faulty sum32 o)
            rounds
            fuel
            (get_next_sstable_index (get_tables_for_level pruned 1))
            (map (d.tables 0) (get_tables_for_level pruned 0))
            (map (d.tables 1) (get_tables_for_level pruned 1))
          ≡ merged
        → (let r = after_merge sum32 o is_print rounds fuel d levels pruned opened merged in
            IsKept sum32 d levels r.0 r.1)
    unfolding after_merge publish
    after_merge-IsKept opened (ok st) i e =
        publish-IsKept sum32 o is_print rounds fuel d levels pruned s seen kept st e o.manifest
    after_merge-IsKept opened (err why) i e =
        IsKept-of_same sum32 d (failed_merge sum32 o rounds fuel d opened) levels s
          (λ n t file here.
            failed_merge-IsSame sum32 o n t rounds fuel d opened (seen n t file here) i)
    after_merge-IsKept opened panicked i e =
        IsKept-of_same sum32 d (failed_merge sum32 o rounds fuel d opened) levels s
          (λ n t file here.
            failed_merge-IsSame sum32 o n t rounds fuel d opened (seen n t file here) i)

    compact_pruned-IsKept :
        (let r = compact_pruned sum32 o is_print rounds fuel d levels pruned in
          IsKept sum32 d levels r.0 r.1)
    unfolding compact_pruned merge_levels
    compact_pruned-IsKept = elim (Bool-cases (ltb (length (get_tables_for_level pruned 0)) 2)) [
      | inl few ↦ rw few (rewritten-IsKept sum32 is_print o.manifest d levels pruned s kept)
      | inr many ↦ rw many (after_merge-IsKept _ _ (opened-IsNumbered _ _ _) refl)
    ]

  -- A compaction of a store keeps every answer of `getKey` and leaves a store, whatever calls of the
  -- operating system fail, if `os.Stat` finds every table that is there.
  pub compact_sstables-IsKept :
      (d : Disk) (levels : List SstableLevel) (s : IsStore sum32 d levels)
      → IsSeen o.stat d
      → (let r = compact_sstables sum32 o is_print rounds fuel d levels in
          IsKept sum32 d levels r.0 r.1)
  unfolding compact_sstables
  compact_sstables-IsKept d levels s seen =
      let orphans = map (orphans_of o.stat) levels in
      let d' = remove_orphans o.orphan_stays d orphans in
      let less = remove_orphans-IsLess o.orphan_stays d orphans in
      let first = IsMoved-of_less sum32 d d' (λ n t file here. less n t) levels s in
      let seen' : IsSeen o.stat d' = λ n t file here. seen n t file (sym (less n t).0 ∙ here) in
      let pruned = load_bloom_filters d'.sidecars (map (prune_level o.stat) levels) in
      let second = IsMoved-pruned sum32 o.stat d' levels first.store seen' in
      let r = compact_pruned sum32 o is_print rounds fuel d' levels pruned in
      IsKept-trans sum32 d d' r.0 levels levels r.1
        (IsKept-of_moved sum32 d levels s d' levels first)
        (compact_pruned-IsKept d' levels pruned first.store seen'
          (IsKept-of_moved sum32 d' levels first.store d' pruned second))
