-- ===== src/Compaction/Publish/New.antt =====
-- The new tables of a merge that succeeds are a store, which answers as the merged tables did.
use mathlib.Core.Path.{subst}
use k_lsm_engine.Prelude.{
  ℕ, ◌≡◌, refl, sym, ap, ◌∙◌, inr, some, List, [], ◌∷◌, All, Bytes, ok, ok-injective,
}
use k_lsm_engine.Bloom.{BloomFilter}
use k_lsm_engine.Table.Open.{Holds, write_block_based_table-Holds}
use k_lsm_engine.Table.Accepts.{write_block_based_table_iff}
use k_lsm_engine.Table.Order.{find_entry}
use k_lsm_engine.Store.{SstableKeyRange, SstableLevel, lookup, find_level, tables_of, table_name}
use k_lsm_engine.Store.Disk.{sidecar_filter, read_sidecar, load_tables, load_bloom_filters}
use k_lsm_engine.Store.Publish.{Disk}
use k_lsm_engine.Compaction.Merge.{NewTable, MergeState}
use k_lsm_engine.Compaction.Merge.Newest.{chunks}
use k_lsm_engine.Compaction.Merge.Rising.{Rising}
use k_lsm_engine.Compaction.Publish.{
  CompactionOutcomes, stat_of_number, write_is_faulty, names_of, ranges_of_new, merged_levels,
  write_new_tables,
}
use k_lsm_engine.Compaction.Publish.Answer.{newest_find, entries_of_tables}
use k_lsm_engine.Compaction.Publish.Merged.{levels_find}
use k_lsm_engine.Compaction.Publish.Numbers.{IsNew, IsNumbered}
use k_lsm_engine.Compaction.Publish.Files.{IsSame, IsInPlace, write_new_tables-IsInPlace}
use k_lsm_engine.Compaction.Publish.Values.{
  chunks_of, newest_find-chunks, read_back, read_back-levels_find,
}
use k_lsm_engine.Compaction.Publish.Ranges.{
  AreListed, ranges_of_new-AreListed, IsEnds-AreWithin, AreWithin,
}
use k_lsm_engine.Compaction.Publish.Levels.{
  load_bloom_filters-IsLevelOf, merged_levels-IsLevelOf_0, merged_levels-IsLevelOf_1,
}
use k_lsm_engine.Compaction.Publish.Placed.{
  IsPlaced, AllPlaced, placed_tables, IsStore, stored_0, stored_1, get_key-levels_find,
}
use k_lsm_engine.Compaction.Publish.Kept.{IsKept, IsOwn-load_tables}

ap_read_sidecar :
    (d₁ d₃ : Disk) (name : Bytes)
    → d₃.sidecars 1 name ≡ d₁.sidecars 1 name
    → sidecar_filter d₃.sidecars 1 name ≡ sidecar_filter d₁.sidecars 1 name
unfolding sidecar_filter
ap_read_sidecar d₁ d₃ name same = ap read_sidecar same

module _ (sum32 : Bytes → ℕ) (o : CompactionOutcomes) (rounds next : ℕ) where
  abbrev IsNewTable : NewTable → Type 0
  IsNewTable = IsNew (stat_of_number sum32 o) (write_is_faulty sum32 o) rounds next

  module _ (d₁ d₃ : Disk) (ranges : List (Bytes × SstableKeyRange)) (tables : List Bytes) where
    -- A new table on the disk on which it was written, and on the one at the end.
    record IsPut (u : NewTable) : Type 0 where
      new : IsNewTable u
      in_place : IsInPlace sum32 o d₁ u
      same : IsSame 1 (table_name u.number) d₁ d₃
      listed : lookup (table_name u.number) ranges ≡ some u.key_range

    abbrev filters : List (Bytes × BloomFilter)
    filters = load_tables d₁.sidecars 1 [] tables

    abbrev placed_new :
        (u : NewTable) → IsPut u → IsPlaced sum32 d₃ 1 ranges filters (table_name u.number)
    placed_new u p =
        let (valid, room) = (write_block_based_table_iff u.chunk).0 (u.file, p.new.file) in
        let (file, opened, written, holds) = write_block_based_table-Holds u.chunk valid room in
        let same_file = ok-injective file u.file (sym written ∙ p.new.file) in
        let within = IsEnds-AreWithin u.key_range u.chunk valid p.new.ends in
        record {
          readable = record {
            sound = record {
              entries = u.chunk;
              file = u.file;
              opened = opened;
              there = p.same.0 ∙ p.in_place.0;
              holds = subst (λ f. Holds u.chunk f opened) same_file holds;
              filter =
                  IsOwn-load_tables sum32 u.chunk d₁ 1 tables (table_name u.number)
                    (inr p.in_place.1);
              range = subst (λ r. AreWithin r u.chunk) (sym p.listed) within;
            };
            valid = valid;
          };
          sidecar = inr (ap_read_sidecar d₁ d₃ (table_name u.number) p.same.1 ∙ p.in_place.1);
        }

    abbrev all_new :
        (ts : List NewTable) → All IsPut ts → AllPlaced sum32 d₃ 1 ranges filters (names_of ts)
    all_new [] h = tt
    all_new (u ∷ ts) h = (placed_new u h.0, all_new ts h.1)

    entries-all_new :
        (ts : List NewTable) (h : All IsPut ts)
        → entries_of_tables (placed_tables sum32 d₃ 1 ranges filters (names_of ts) (all_new ts h))
          ≡ chunks_of ts
    entries-all_new [] h = refl
    entries-all_new (u ∷ ts) h = ap (λ ess. u.chunk ∷ ess) (entries-all_new ts h.1)

    puts :
        (ts : List NewTable)
        → All IsNewTable ts
        → All (IsInPlace sum32 o d₁) ts
        → AreListed ranges ts
        → ((u : NewTable) → IsNewTable u → IsSame 1 (table_name u.number) d₁ d₃)
        → All IsPut ts
    puts [] news in_place listed same = tt
    puts (u ∷ ts) news in_place listed same = (
      record { new = news.0; in_place = in_place.0; same = same u news.0; listed = listed.0 },
      puts ts news.1 in_place.1 listed.1 same,
    )

  -- If the new tables stay in place, they answer as the tables that were merged.
  pub published-IsKept :
      (d : Disk) (levels pruned : List SstableLevel) (s : IsStore sum32 d levels) (st : MergeState)
      (d₃ : Disk)
      → IsNumbered (stat_of_number sum32 o) (write_is_faulty sum32 o) rounds st
      → st.next_l1_index ≡ next
      → Rising (chunks st.new_tables)
      → ((key : Bytes)
          → find_entry key (chunks st.new_tables)
            ≡ levels_find key (stored_0 sum32 d levels s) (stored_1 sum32 d levels s))
      → ((u : NewTable)
          → IsNewTable u
          → IsSame 1 (table_name u.number) (write_new_tables sum32 o d st.new_tables) d₃)
      → IsKept sum32 d levels d₃ (
          load_bloom_filters
            (write_new_tables sum32 o d st.new_tables).sidecars
            (merged_levels pruned st.new_tables))
  unfolding newest_find
  published-IsKept d levels pruned s st d₃ i at rising answer same =
      let new = st.new_tables in
      let d₁ = write_new_tables sum32 o d new in
      let merged = merged_levels pruned new in
      let news : All IsNewTable new =
        subst (λ n. All (IsNew (stat_of_number sum32 o) (write_is_faulty sum32 o) rounds n) new) at
          i.tables in
      let put =
        puts d₁ d₃ (ranges_of_new new) (names_of new) new news
          (write_new_tables-IsInPlace sum32 o d rounds next new news i.distinct)
          (ranges_of_new-AreListed new i.distinct) same in
      let l_0 = load_bloom_filters-IsLevelOf d₁.sidecars merged 0 in
      let l_1 = load_bloom_filters-IsLevelOf d₁.sidecars merged 1 in
      let m_1 = merged_levels-IsLevelOf_1 pruned new in
      let store : IsStore sum32 d₃ (load_bloom_filters d₁.sidecars merged) = record {
        tables_0 = [];
        filters_0 = load_tables d₁.sidecars 0 [] (tables_of (find_level merged 0));
        tables_1 = names_of new;
        filters_1 = load_tables d₁.sidecars 1 [] (names_of new);
        ranges_1 = ranges_of_new new;
        level_0 = (l_0.0 ∙ merged_levels-IsLevelOf_0 pruned new, l_0.1);
        level_1 = (l_1.0 ∙ m_1.0, l_1.1 ∙ ap (load_tables d₁.sidecars 1 []) m_1.0, l_1.2 ∙ m_1.2);
        placed_0 = tt;
        placed_1 = all_new d₁ d₃ (ranges_of_new new) (names_of new) new put;
      } in
      record {
        store = store;
        names = inr store.level_0.0;
        answers = λ key.
            get_key-levels_find sum32 d₃ (load_bloom_filters d₁.sidecars merged) store key
            ∙ ap (λ ess. ok (newest_find key ess))
                (entries-all_new d₁ d₃ (ranges_of_new new) (names_of new) new put)
            ∙ ap ok (
                newest_find-chunks key new rising
                ∙ ap read_back (answer key)
                ∙ read_back-levels_find key (stored_0 sum32 d levels s) (stored_1 sum32 d levels s))
            ∙ sym (get_key-levels_find sum32 d levels s key);
      }
