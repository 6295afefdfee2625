-- ===== src/Compaction/Publish/Merged.antt =====
-- The new tables of a merge answer as the tables that were merged, from the newest.
use k_lsm_engine.Prelude.{ℕ, ◌≡◌, refl, ap, Bool, Option, none, some, List, [], Bytes, ok}
use k_lsm_engine.Entry.{StorageEntry}
use k_lsm_engine.Store.Disk.{StatOutcome}
use k_lsm_engine.Table.Order.{find_entry}
use k_lsm_engine.Engine.Parts.{over}
use k_lsm_engine.Compaction.Merge.{MergeState, merge_tables}
use k_lsm_engine.Compaction.Merge.Newest.{IsAnswer, nowhere, chunks}
use k_lsm_engine.Compaction.Merge.Opened.{StoredTable, files_of, open_tables}
use k_lsm_engine.Compaction.Merge.Tables.{sources_of, merge_tables-IsAnswer, merge_tables-IsMerged}
use k_lsm_engine.Compaction.Publish.Unique.{IsAnswer-unique, IsAnswer-levels}
use k_lsm_engine.Compaction.Publish.Answer.{
  newest_find, entries_of_tables, present, open_tables-IsLevel, open_tables-append,
}

over-none : (o : Option StorageEntry) → over o none ≡ o
over-none none = refl
over-none (some e) = refl

-- what the tables of the two levels answer
abbrev pub levels_find : Bytes → List StoredTable → List StoredTable → Option StorageEntry
levels_find key l0 l1 =
    over (newest_find key (entries_of_tables l0)) (newest_find key (entries_of_tables l1))

sources-IsAnswer :
    (key : Bytes) (l0 l1 : List StoredTable)
    → IsAnswer key (sources_of (present l0) (present l1)) (levels_find key l0 l1)
sources-IsAnswer key l0 l1 =
    let opened = open_tables 0 (0, []) (present l0) in
    let first =
      open_tables-IsLevel key 0 (0, []) l0 none (record { below = tt; answer = nowhere refl tt }) in
    let second =
      open_tables-IsLevel key 1 (opened.0, []) l1 none
        (record { below = tt; answer = nowhere refl tt }) in
    let o = newest_find key (entries_of_tables l0) in
    let o' = newest_find key (entries_of_tables l1) in
    rw
      (
        ap (λ x. x.1) (open_tables-append 1 (opened.0, []) opened.1 l1),
        ← over-none o,
        ← over-none o',
      )
      (IsAnswer-levels key (open_tables 1 (opened.0, []) (present l1)).0 opened.0
        (open_tables 1 (opened.0, []) (present l1)).1 opened.1 (over o' none) (over o none)
        second.below first.below second.answer first.answer)

module _ (stat : ℕ → StatOutcome) (fails : ℕ → Bool) (rounds : ℕ) where
  -- If a merge succeeds, its new tables answer a key with the
  -- newest version, and with nothing if no merged table has the key.
  pub find_entry-merge_tables :
      (l0 l1 : List StoredTable) (fuel n : ℕ) (st : MergeState) (key : Bytes)
      → merge_tables stat fails rounds fuel n (files_of (present l0)) (files_of (present l1))
        ≡ ok st
      → find_entry key (chunks st.new_tables) ≡ levels_find key l0 l1
  find_entry-merge_tables l0 l1 fuel n st key merges =
      IsAnswer-unique key (sources_of (present l0) (present l1))
        (find_entry key (chunks st.new_tables)) (levels_find key l0 l1)
        (merge_tables-IsMerged stat fails rounds (present l0) (present l1) fuel n st
          merges).opens.merge.alone
        (merge_tables-IsAnswer stat fails rounds (present l0) (present l1) fuel n st merges key)
        (sources-IsAnswer key l0 l1)
