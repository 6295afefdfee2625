-- ===== src/Compaction/Publish/Safe.antt =====
-- A compaction changes no answer, whatever fails.
use mathlib.Core.Path.{subst}
use k_lsm_engine.Prelude.{
  ℕ, inl, inr, ◌≡◌, refl, sym, ap, ◌∙◌, inr, Bool, Option, some, List, [], ◌∷◌, map, Bytes, ok,
}
use k_lsm_engine.Bloom.{BloomFilter}
use k_lsm_engine.Store.{SstableKeyRange, SstableLevel, table_name, get_next_sstable_index}
use k_lsm_engine.Store.Disk.{there, missing, load_bloom_filters}
use k_lsm_engine.Store.Manifest.{sort_levels, manifest_text}
use k_lsm_engine.Store.Publish.{Disk, ManifestFault, rewrite_manifest_from_levels, after_rewrite}
use k_lsm_engine.Compaction.{get_tables_for_level}
use k_lsm_engine.Compaction.Merge.{MergeState, merge_tables}
use k_lsm_engine.Compaction.Merge.Opened.{files_of}
use k_lsm_engine.Compaction.Merge.Tables.{merge_tables-Rising}
use k_lsm_engine.Compaction.Publish.{
  CompactionOutcomes, stat_of_number, write_is_faulty, names_of, write_new_tables, remove_tables,
  merged_levels, after_publish,
}
use k_lsm_engine.Compaction.Publish.Answer.{present}
use k_lsm_engine.Compaction.Publish.Merged.{find_entry-merge_tables}
use k_lsm_engine.Compaction.Publish.Reads.{files-tables_read}
use k_lsm_engine.Compaction.Publish.Numbers.{IsNumbered}
use k_lsm_engine.Compaction.Publish.Names.{IsOther, other_of_ne}
use k_lsm_engine.Compaction.Publish.Rounds.{merge_tables-IsNumbered}
use k_lsm_engine.Compaction.Publish.Files.{IsSame, write_new_tables-IsSame, remove_tables-IsSame}
use k_lsm_engine.Compaction.Publish.Levels.{get_tables_for_level-find_level}
use k_lsm_engine.Compaction.Publish.Placed.{AllPlaced, all_readable, IsStore, stored_0, stored_1}
use k_lsm_engine.Compaction.Publish.Kept.{
  IsSeen, IsKept, IsKept-of_moved, IsMoved-of_less, IsMoved-sort_levels,
}
use k_lsm_engine.Compaction.Publish.Failed.{IsSame-trans, IsOther-new}
use k_lsm_engine.Compaction.Publish.New.{published-IsKept}

module _ (sum32 : Bytes → ℕ) where
  pub IsKept-trans :
      (d d' d'' : Disk) (levels levels' levels'' : List SstableLevel)
      → IsKept sum32 d levels d' levels'
      → IsKept sum32 d' levels' d'' levels''
      → IsKept sum32 d levels d'' levels''
  IsKept-trans d d' d'' levels levels' levels'' a b = record {
    store = b.store;
    names = elim b.names [
      | inr empty ↦ inr empty
      | inl same ↦ elim a.names [ inr empty ↦ inr (same ∙ empty) | inl same' ↦ inl (same ∙ same') ]
    ];
    answers = λ key. b.answers key ∙ a.answers key;
  }

  -- the files stay
  pub IsKept-of_same :
      (d d' : Disk) (levels : List SstableLevel)
      → IsStore sum32 d levels
      → ((n : ℕ) (t file : Bytes) → d.tables n t ≡ some file → IsSame n t d d')
      → IsKept sum32 d levels d' levels
  IsKept-of_same d d' levels s same = IsKept-of_moved sum32 d levels s d' levels (
      IsMoved-of_less sum32 d d' (λ n t file here. let h = same n t file here in (h.0, inr h.1))
        levels s)

  -- The manifest is written or not.
  pub rewritten-IsKept :
      (is_print : ℕ → Bool) (f : ManifestFault) (d : Disk) (levels pruned : List SstableLevel)
      (s : IsStore sum32 d levels)
      → IsKept sum32 d levels d pruned
      → (let r =
            after_rewrite sum32 is_print levels
              (sort_levels pruned)
              (rewrite_manifest_from_levels sum32 is_print f d pruned) in
          IsKept sum32 d levels r.0 r.1)
  unfolding after_rewrite rewrite_manifest_from_levels
  rewritten-IsKept is_print ManifestFault.none_fails d levels pruned s kept =
      let d₁ : Disk = record d { manifest = some (manifest_text is_print (sort_levels pruned)) } in
      let on_disk = IsKept-of_same d d₁ pruned kept.store (λ n t file here. (refl, refl)) in
      IsKept-trans d d d₁ levels pruned (sort_levels pruned) kept (
        IsKept-trans d d₁ d₁ pruned pruned (sort_levels pruned) on_disk (
          IsKept-of_moved sum32 d₁ pruned on_disk.store d₁ (sort_levels pruned)
            (IsMoved-sort_levels sum32 d₁ pruned on_disk.store)))
  rewritten-IsKept is_print ManifestFault.before_rename d levels pruned s kept =
      IsKept-of_same d d levels s (λ n t file here. (refl, refl))
  rewritten-IsKept is_print ManifestFault.dir_sync_fails d levels pruned s kept =
      IsKept-of_same d (record d { manifest = some (manifest_text is_print (sort_levels pruned)) })
        levels s (λ n t file here. (refl, refl))

module _ (sum32 : Bytes → ℕ) (o : CompactionOutcomes) (is_print : ℕ → Bool) (rounds fuel : ℕ) where
  IsOther-level_0 : (name : Bytes) (tables : List Bytes) → IsOther 1 name 0 tables
  IsOther-level_0 name [] = tt
  IsOther-level_0 name (t ∷ ts) = (refl, IsOther-level_0 name ts)

  -- The number of a new table is that of no table that is there.
  IsOther-placed :
      (d : Disk) (ranges : List (Bytes × SstableKeyRange)) (filters : List (Bytes × BloomFilter))
      (m : ℕ) (tables : List Bytes)
      → IsSeen o.stat d
      → o.stat 1 (table_name m) ≡ missing
      → AllPlaced sum32 d 1 ranges filters tables
      → IsOther 1 (table_name m) 1 tables
  IsOther-placed d ranges filters m [] seen free h = tt
  IsOther-placed d ranges filters m (t ∷ ts) seen free h = (
    other_of_ne 1 (table_name m) 1 t (λ e.
        let here = seen 1 t h.0.readable.sound.file h.0.readable.sound.there in
        let clash : there ≡ missing = sym here ∙ ap (o.stat 1) (sym e) ∙ free in cc),
    IsOther-placed d ranges filters m ts seen free h.1,
  )

  module _ (d : Disk) (levels pruned : List SstableLevel) (s : IsStore sum32 d levels)
      (seen : IsSeen o.stat d) (kept : IsKept sum32 d levels d pruned) where
    -- The manifest could not be written, and the new tables go.
    unpublished-IsKept :
        (st : MergeState) (manifest : Option Bytes)
        → IsNumbered (stat_of_number sum32 o) (write_is_faulty sum32 o) rounds st
        → IsKept sum32 d levels
            (remove_tables o.removes
              (record (write_new_tables sum32 o d st.new_tables) { manifest = manifest })
              1
              (names_of st.new_tables))
            levels
    unpublished-IsKept st manifest i =
        let new = st.new_tables in
        let d₁ = write_new_tables sum32 o d new in
        let d₂ : Disk = record d₁ { manifest = manifest } in
        let d₃ = remove_tables o.removes d₂ 1 (names_of new) in
        IsKept-of_same sum32 d d₃ levels s (λ n t file here.
          let other =
            IsOther-new sum32 o n t (seen n t file here) rounds st.next_l1_index new i.tables in
          let removed = remove_tables-IsSame o.removes d₂ 1 n t (names_of new) other in
          IsSame-trans n t d d₁ d₃ (write_new_tables-IsSame sum32 o d n t new other)
            (removed.0, removed.1))

    module _ (st : MergeState)
        (merges : merge_tables
            (stat_of_number sum32 o)
            (write_is_faulty sum32 o)
            rounds
            fuel
            (get_next_sstable_index (get_tables_for_level pruned 1))
            (map (d.tables 0) (get_tables_for_level pruned 0))
            (map (d.tables 1) (get_tables_for_level pruned 1))
          ≡ ok st) where
      tables_at_1 : get_tables_for_level pruned 1 ≡ kept.store.tables_1
      tables_at_1 = get_tables_for_level-find_level pruned 1 ∙ kept.store.level_1.0

      merged :
          merge_tables
            (stat_of_number sum32 o)
            (write_is_faulty sum32 o)
            rounds
            fuel
            (get_next_sstable_index (get_tables_for_level pruned 1))
            (files_of (present (stored_0 sum32 d pruned kept.store)))
            (files_of (present (stored_1 sum32 d pruned kept.store)))
          ≡ ok st
      merged =
          let p = kept.store in
          let at_0 = get_tables_for_level-find_level pruned 0 ∙ p.level_0.0 in
          let read_0 =
            files-tables_read sum32 d.tables 0 [] p.filters_0 p.tables_0
              (all_readable sum32 d 0 [] p.filters_0 p.tables_0 p.placed_0) in
          let read_1 =
            files-tables_read sum32 d.tables 1 p.ranges_1 p.filters_1 p.tables_1
              (all_readable sum32 d 1 p.ranges_1 p.filters_1 p.tables_1 p.placed_1) in
          let files_0 = sym (ap (map (d.tables 0)) at_0 ∙ read_0) in
          let files_1 = sym (ap (map (d.tables 1)) tables_at_1 ∙ read_1) in
          let run =
            merge_tables (stat_of_number sum32 o) (write_is_faulty sum32 o) rounds fuel
              (get_next_sstable_index (get_tables_for_level pruned 1)) in
          ap (λ fs. run fs (files_of (present (stored_1 sum32 d pruned kept.store)))) files_0
          ∙ ap (run (map (d.tables 0) (get_tables_for_level pruned 0))) files_1
          ∙ merges

      numbered : IsNumbered (stat_of_number sum32 o) (write_is_faulty sum32 o) rounds st
      numbered =
          merge_tables-IsNumbered (stat_of_number sum32 o) (write_is_faulty sum32 o) rounds fuel _ _
            _ st merges

      -- The manifest lists the new tables, and the old ones go.
      replaced-IsKept :
          (manifest : Option Bytes)
          → (let d₁ = write_new_tables sum32 o d st.new_tables in
              IsKept sum32 d levels
                (remove_tables o.removes
                  (remove_tables o.removes
                    (record d₁ { manifest = manifest })
                    0
                    (get_tables_for_level pruned 0))
                  1
                  (get_tables_for_level pruned 1))
                (load_bloom_filters d₁.sidecars (merged_levels pruned st.new_tables)))
      replaced-IsKept manifest =
          let p = kept.store in
          let l0 = get_tables_for_level pruned 0 in
          let l1 = get_tables_for_level pruned 1 in
          let d₁ = write_new_tables sum32 o d st.new_tables in
          let d₂ : Disk = record d₁ { manifest = manifest } in
          let d' = remove_tables o.removes d₂ 0 l0 in
          let d₃ = remove_tables o.removes d' 1 l1 in
          let next = load_bloom_filters d₁.sidecars (merged_levels pruned st.new_tables) in
          IsKept-trans sum32 d d d₃ levels pruned next kept (
            published-IsKept sum32 o rounds st.next_l1_index d pruned pruned p st d₃ numbered refl
              (merge_tables-Rising (stat_of_number sum32 o) (write_is_faulty sum32 o) rounds
                (present (stored_0 sum32 d pruned p)) (present (stored_1 sum32 d pruned p)) fuel _
                st merged)
              (λ key.
                find_entry-merge_tables (stat_of_number sum32 o) (write_is_faulty sum32 o) rounds
                  (stored_0 sum32 d pruned p) (stored_1 sum32 d pruned p) fuel _ st key merged)
              (λ u new.
                let name = table_name u.number in
                let first =
                  remove_tables-IsSame o.removes d₂ 0 1 name l0 (IsOther-level_0 name l0) in
                let other = subst (IsOther 1 name 1) (sym tables_at_1) (
                  IsOther-placed d p.ranges_1 p.filters_1 u.number p.tables_1 seen new.free
                    p.placed_1) in
                IsSame-trans 1 name d₁ d' d₃ (first.0, first.1)
                  (remove_tables-IsSame o.removes d' 1 1 name l1 other)))

      pub publish-IsKept :
          (f : ManifestFault)
          → (let d₁ = write_new_tables sum32 o d st.new_tables in
              let next = load_bloom_filters d₁.sidecars (merged_levels pruned st.new_tables) in
              let r =
                after_publish sum32 o levels next
                  (names_of st.new_tables)
                  (get_tables_for_level pruned 0)
                  (get_tables_for_level pruned 1)
                  (rewrite_manifest_from_levels sum32 is_print f d₁ next) in
              IsKept sum32 d levels r.0 r.1)
      unfolding after_publish rewrite_manifest_from_levels
      publish-IsKept ManifestFault.none_fails = replaced-IsKept _
      publish-IsKept ManifestFault.before_rename =
          unpublished-IsKept st (write_new_tables sum32 o d st.new_tables).manifest numbered
      publish-IsKept ManifestFault.dir_sync_fails = unpublished-IsKept st _ numbered
