-- ===== src/Engine/OnDisk/Saves.antt =====
-- A save keeps the store, and its answers lie over those before it.
use mathlib.Core.Path.{subst}
use k_lsm_engine.Prelude.{
  ℕ, ◌^◌, ◌<◌, ◌≡◌, ◌≢◌, refl, sym, ap, ◌∙◌, ◌⊎◌, inl, inr, Bool, true, false, Option, none, some,
  List, [], ◌∷◌, ◌++◌, All, map, if◌then◌else◌, Bool-cases, Bytes, str_eq, str_eq_iff, str_eq_refl,
  Result, ok, bind-inv, ok-injective,
}
use k_lsm_engine.Entry.{StorageEntry, SstableEntry}
use k_lsm_engine.Bloom.{BloomFilter, bloom_filter_for_entries, sidecar_contents, parse_sidecar}
use k_lsm_engine.Bloom.Members.{bloom_filter_for_entries-IsFilter}
use k_lsm_engine.Bloom.Sidecar.{parse_sidecar-sidecar_contents}
use k_lsm_engine.Table.{write_block_based_table}
use k_lsm_engine.Table.Block.{stored}
use k_lsm_engine.Table.Order.{find_entry}
use k_lsm_engine.Table.Open.{Holds, write_block_based_table-Holds}
use k_lsm_engine.Table.Accepts.{write_block_based_table_iff}
use k_lsm_engine.Store.{
  SstableKeyRange, SstableLevel, lookup, l1_table_may_contain, find_level, tables_of, filters_of,
  ranges_of, get_key, get_level_sstables, get_new_sstable_name, get_next_sstable_index,
}
use k_lsm_engine.Store.Names.{get_new_sstable_name-fresh}
use k_lsm_engine.Store.Disk.{set_filter, sidecar_filter, read_sidecar, filter_or_none}
use k_lsm_engine.Store.Disk.Loaded.{lookup-set_filter, first_of}
use k_lsm_engine.Store.Publish.{
  Disk, put_file, put_table, put_sidecar, table_files, Outcomes, save_level0_sstable_entries,
}
use k_lsm_engine.Store.Publish.Saved.{IsApart, put_file-other}
use k_lsm_engine.Store.Publish.Safe.{save_level0_sstable_entries-IsSafe}
use k_lsm_engine.Store.Publish.Ends.{is_ok, save_level0_sstable_entries-ends}
use k_lsm_engine.Engine.Parts.{over}
use k_lsm_engine.Engine.OnDisk.Levels.{IsLevels, saved-IsLevels}
use k_lsm_engine.Compaction.Publish.Answer.{newest_find, entries_of_tables, over_assoc}
use k_lsm_engine.Compaction.Publish.Merged.{levels_find}
use k_lsm_engine.Compaction.Publish.Names.{other_of_ne}
use k_lsm_engine.Compaction.Publish.Files.{put_file-own}
use k_lsm_engine.Compaction.Publish.Placed.{
  IsOwn, IsPlaced, moved, AllPlaced, placed_tables, IsStore, stored_0, stored_1,
  get_key-levels_find, IsMove, all_moved, placed_tables-all_moved,
}

newest_find-snoc :
    (key : Bytes) (ess : List (List SstableEntry)) (es : List SstableEntry)
    → newest_find key (ess ++ es ∷ []) ≡ over (find_entry key (map stored es)) (newest_find key ess)
unfolding newest_find
newest_find-snoc key [] es = over_none_end (find_entry key (map stored es))
  where
    over_none_end : (o : Option StorageEntry) → over none o ≡ over o none
    over_none_end none = refl
    over_none_end (some e) = refl
newest_find-snoc key (x ∷ ess) es =
    ap (λ o. over o (find_entry key (map stored x))) (newest_find-snoc key ess es)
    ∙ sym (
        over_assoc (find_entry key (map stored es)) (newest_find key ess)
          (find_entry key (map stored x)))

sidecar_filter-same :
    (d d' : Disk) (n : ℕ) (t : Bytes)
    → d'.sidecars n t ≡ d.sidecars n t
    → sidecar_filter d'.sidecars n t ≡ sidecar_filter d.sidecars n t
unfolding sidecar_filter
sidecar_filter-same d d' n t same = ap read_sidecar same

lookup-set_filter_other :
    (filters : List (Bytes × BloomFilter)) (name t : Bytes) (o : Option BloomFilter)
    → t ≢ name
    → lookup t (set_filter filters name o) ≡ lookup t filters
lookup-set_filter_other filters name t o ne = elim (Bool-cases (str_eq name t)) [
  | inl same ↦ absurd (ne (sym ((str_eq_iff name t).0 same)))
  | inr apart ↦ lookup-set_filter filters name t o ∙ rw apart refl
]

in_no_range :
    (name : Bytes) (es : List SstableEntry)
    → All
        (λ (e : SstableEntry).
          l1_table_may_contain e.k (lookup {V = SstableKeyRange} name []) ≡ true)
        es
unfolding l1_table_may_contain lookup
in_no_range name [] = tt
in_no_range name (e ∷ es) = (refl, in_no_range name es)

own_first :
    (name : Bytes) (filters : List (Bytes × BloomFilter)) (o : Option BloomFilter)
    {filter : BloomFilter}
    → o ≡ some filter
    → (if str_eq name name then first_of o (lookup name filters) else lookup name filters)
      ≡ some filter
unfolding first_of
own_first name filters o is = rw (str_eq_refl name, is) refl

module _ (sum32 : Bytes → ℕ) where
  table_files-inv :
      (es : List SstableEntry) (file contents : Bytes)
      → table_files sum32 es ≡ ok (file, contents)
      → (write_block_based_table es ≡ ok file)
        × (parse_sidecar contents ≡ ok (bloom_filter_for_entries sum32 es))
  unfolding table_files
  table_files-inv es file contents h =
      let (file', written, h₁) = bind-inv (write_block_based_table es) _ h in
      let (contents', made, h₂) =
        bind-inv (sidecar_contents (bloom_filter_for_entries sum32 es)) _ h₁ in
      let both = ok-injective (file', contents') (file, contents) h₂ in
      let (c, made', parses) =
        parse_sidecar-sidecar_contents (bloom_filter_for_entries sum32 es)
          (bloom_filter_for_entries-IsFilter sum32 es) in
      let same = ok-injective c contents' (sym made' ∙ made) ∙ ap (λ p. p.1) both in
      (
        written ∙ ap (λ p. ok p.0) both,
        subst (λ x. parse_sidecar x ≡ ok (bloom_filter_for_entries sum32 es)) same parses,
      )

  own_sidecar :
      (sidecars : ℕ → Bytes → Option Bytes) (name file contents : Bytes) (es : List SstableEntry)
      → table_files sum32 es ≡ ok (file, contents)
      → sidecar_filter (put_file sidecars 0 name (some contents)) 0 name
        ≡ some (bloom_filter_for_entries sum32 es)
  unfolding sidecar_filter read_sidecar filter_or_none
  own_sidecar sidecars name file contents es e =
      ap read_sidecar (put_file-own sidecars 0 name (some contents))
      ∙ ap filter_or_none (table_files-inv es file contents e).1

  module _ (name : Bytes) (d d' : Disk) (apart : IsApart 0 name d d') where
    abbrev move_1 :
        (ranges : List (Bytes × SstableKeyRange)) (filters : List (Bytes × BloomFilter))
        → IsMove sum32 d 1 ranges filters d' ranges filters
    move_1 ranges filters = record {
      move = λ t p.
          let a = apart 1 t refl in
          moved sum32 d d' 1 ranges ranges filters filters t p a.0
            (subst (IsOwn sum32 p.readable.sound.entries) (sym (sidecar_filter-same d d' 1 t a.1))
              p.sidecar)
            p.readable.sound.filter p.readable.sound.range;
      keeps = λ t p. refl;
    }

    module _ (filters filters' : List (Bytes × BloomFilter))
        (same : (t : Bytes) → t ≢ name → lookup t filters' ≡ lookup t filters) where
      abbrev kept_0 :
          (tables : List Bytes)
          → All (λ t. t ≢ name) tables
          → AllPlaced sum32 d 0 [] filters tables
          → AllPlaced sum32 d' 0 [] filters' tables
      kept_0 [] fresh h = tt
      kept_0 (t ∷ ts) fresh h =
          let a = apart 0 t (other_of_ne 0 t 0 name fresh.0) in
          let p = h.0 in
          (
            moved sum32 d d' 0 [] [] filters filters' t p a.0
                (subst (IsOwn sum32 p.readable.sound.entries)
                  (sym (sidecar_filter-same d d' 0 t a.1)) p.sidecar)
                (subst (IsOwn sum32 p.readable.sound.entries) (sym (same t fresh.0))
                  p.readable.sound.filter)
                p.readable.sound.range,
            kept_0 ts fresh.1 h.1,
          )

      placed_tables-kept_0 :
          (tables : List Bytes) (fresh : All (λ t. t ≢ name) tables)
          (h : AllPlaced sum32 d 0 [] filters tables)
          → placed_tables sum32 d' 0 [] filters' tables (kept_0 tables fresh h)
            ≡ placed_tables sum32 d 0 [] filters tables h
      placed_tables-kept_0 [] fresh h = refl
      placed_tables-kept_0 (t ∷ ts) fresh h = rw (placed_tables-kept_0 ts fresh.1 h.1) refl

  module _ (d : Disk) (filters : List (Bytes × BloomFilter)) (name : Bytes)
      (p : IsPlaced sum32 d 0 [] filters name) where
    abbrev snoc_placed :
        (tables : List Bytes)
        → AllPlaced sum32 d 0 [] filters tables
        → AllPlaced sum32 d 0 [] filters (tables ++ name ∷ [])
    snoc_placed [] h = (p, tt)
    snoc_placed (t ∷ ts) h = (h.0, snoc_placed ts h.1)

    entries-snoc_placed :
        (tables : List Bytes) (h : AllPlaced sum32 d 0 [] filters tables)
        → entries_of_tables
            (placed_tables sum32 d 0 [] filters (tables ++ name ∷ []) (snoc_placed tables h))
          ≡ entries_of_tables (placed_tables sum32 d 0 [] filters tables h)
            ++ p.readable.sound.entries ∷ []
    entries-snoc_placed [] h = refl
    entries-snoc_placed (t ∷ ts) h =
        ap (λ ess. h.0.readable.sound.entries ∷ ess) (entries-snoc_placed ts h.1)

  module _ (d : Disk) (levels : List SstableLevel) (s : IsStore sum32 d levels)
      (es : List SstableEntry) where
    -- A store, whose answers have the saved entries over those before, or are those before.
    pub record IsSaveOf (d' : Disk) (levels' : List SstableLevel) (saved : Bool) : Type 0 where
      pub store : IsStore sum32 d' levels'
      pub answers :
          (key : Bytes)
          → get_key sum32 d'.tables levels' key
            ≡ ok (
                let old = levels_find key (stored_0 sum32 d levels s) (stored_1 sum32 d levels s) in
                if saved then over (find_entry key (map stored es)) old else old)
      pub names :
          (tables_of (find_level levels' 0) ≡ tables_of (find_level levels 0))
          ⊎ (tables_of (find_level levels' 0)
              ≡ tables_of (find_level levels 0) ++ get_new_sstable_name levels 0 ∷ [])

    fresh_tables :
        get_next_sstable_index (get_level_sstables levels 0) < 2 ^ 63
        → All (λ t. t ≢ get_new_sstable_name levels 0) s.tables_0
    unfolding get_level_sstables
    fresh_tables small =
        subst (All (λ t. t ≢ get_new_sstable_name levels 0)) s.level_0.0
          (get_new_sstable_name-fresh levels 0 small).1

    failed-IsSaveOf :
        (d' : Disk)
        → IsApart 0 (get_new_sstable_name levels 0) d d'
        → All (λ t. t ≢ get_new_sstable_name levels 0) s.tables_0
        → IsSaveOf d' levels false
    failed-IsSaveOf d' apart fresh =
        let name = get_new_sstable_name levels 0 in
        let m = move_1 name d d' apart s.ranges_1 s.filters_1 in
        let store : IsStore sum32 d' levels = record {
          tables_0 = s.tables_0;
          filters_0 = s.filters_0;
          tables_1 = s.tables_1;
          filters_1 = s.filters_1;
          ranges_1 = s.ranges_1;
          level_0 = s.level_0;
          level_1 = s.level_1;
          placed_0 =
              kept_0 name d d' apart s.filters_0 s.filters_0 (λ t ne. refl) s.tables_0 fresh
                s.placed_0;
          placed_1 =
              all_moved sum32 d 1 s.ranges_1 s.filters_1 d' s.ranges_1 s.filters_1 m s.tables_1
                s.placed_1;
        } in
        let same_0 =
          placed_tables-kept_0 name d d' apart s.filters_0 s.filters_0 (λ t ne. refl) s.tables_0
            fresh s.placed_0 in
        let same_1 =
          placed_tables-all_moved sum32 d 1 s.ranges_1 s.filters_1 d' s.ranges_1 s.filters_1 m
            s.tables_1 s.placed_1 in
        record {
          store = store;
          answers = λ key.
              get_key-levels_find sum32 d' levels store key
              ∙ ap (λ ts. ok (levels_find key ts (stored_1 sum32 d' levels store))) same_0
              ∙ ap (λ ts. ok (levels_find key (stored_0 sum32 d levels s) ts)) same_1;
          names = inl refl;
        }

    -- the new table
    abbrev placed_new :
        (d' : Disk) (filters : List (Bytes × BloomFilter)) (name file contents : Bytes)
        → table_files sum32 es ≡ ok (file, contents)
        → d'.tables 0 name ≡ some file
        → sidecar_filter d'.sidecars 0 name ≡ some (bloom_filter_for_entries sum32 es)
        → lookup name filters ≡ some (bloom_filter_for_entries sum32 es)
        → IsPlaced sum32 d' 0 [] filters name
    placed_new d' filters name file contents e here own listed =
        let written = (table_files-inv es file contents e).0 in
        let (valid, room) = (write_block_based_table_iff es).0 (file, written) in
        let (file', opened, written', holds) = write_block_based_table-Holds es valid room in
        record {
          readable = record {
            sound = record {
              entries = es;
              file = file;
              opened = opened;
              there = here;
              holds =
                  subst (λ f. Holds es f opened) (ok-injective file' file (sym written' ∙ written))
                    holds;
              filter = inr listed;
              range = in_no_range name es;
            };
            valid = valid;
          };
          sidecar = inr own;
        }

    saved-IsSaveOf :
        (file contents : Bytes) (manifest : Option Bytes) (levels' : List SstableLevel)
        → table_files sum32 es ≡ ok (file, contents)
        → All (λ t. t ≢ get_new_sstable_name levels 0) s.tables_0
        → (let name = get_new_sstable_name levels 0 in
            let d' : Disk = record (put_table (put_sidecar d 0 name contents) 0 name file) {
              manifest = manifest;
            } in
            IsLevels d'.sidecars levels name levels' → IsSaveOf d' levels' true)
    unfolding put_table put_sidecar
    saved-IsSaveOf file contents manifest levels' e fresh l =
        let name = get_new_sstable_name levels 0 in
        let d' : Disk = record (put_table (put_sidecar d 0 name contents) 0 name file) {
          manifest = manifest;
        } in
        let apart : IsApart 0 name d d' = λ n other h. (
          put_file-other d.tables 0 name (some file) n other h,
          put_file-other d.sidecars 0 name (some contents) n other h,
        ) in
        let own = own_sidecar d.sidecars name file contents es e in
        let filters = set_filter s.filters_0 name (sidecar_filter d'.sidecars 0 name) in
        let others = λ (t : Bytes) (ne : t ≢ name).
          lookup-set_filter_other s.filters_0 name t (sidecar_filter d'.sidecars 0 name) ne in
        let listed =
          lookup-set_filter s.filters_0 name name (sidecar_filter d'.sidecars 0 name)
          ∙ own_first name s.filters_0 (sidecar_filter d'.sidecars 0 name) own in
        let new =
          placed_new d' filters name file contents e (put_file-own d.tables 0 name (some file)) own
            listed in
        let old_0 = kept_0 name d d' apart s.filters_0 filters others s.tables_0 fresh s.placed_0 in
        let m = move_1 name d d' apart s.ranges_1 s.filters_1 in
        let store : IsStore sum32 d' levels' = record {
          tables_0 = s.tables_0 ++ name ∷ [];
          filters_0 = filters;
          tables_1 = s.tables_1;
          filters_1 = s.filters_1;
          ranges_1 = s.ranges_1;
          level_0 = (
            l.tables_0 ∙ ap (λ ts. ts ++ name ∷ []) s.level_0.0,
            l.filters_0
                ∙ ap (λ fs. set_filter fs name (sidecar_filter d'.sidecars 0 name)) s.level_0.1,
          );
          level_1 = (
            ap tables_of l.level_1 ∙ s.level_1.0,
            ap filters_of l.level_1 ∙ s.level_1.1,
            ap ranges_of l.level_1 ∙ s.level_1.2,
          );
          placed_0 = snoc_placed d' filters name new s.tables_0 old_0;
          placed_1 =
              all_moved sum32 d 1 s.ranges_1 s.filters_1 d' s.ranges_1 s.filters_1 m s.tables_1
                s.placed_1;
        } in
        let same_0 =
          placed_tables-kept_0 name d d' apart s.filters_0 filters others s.tables_0 fresh
            s.placed_0 in
        let same_1 =
          placed_tables-all_moved sum32 d 1 s.ranges_1 s.filters_1 d' s.ranges_1 s.filters_1 m
            s.tables_1 s.placed_1 in
        let ess =
          entries-snoc_placed d' filters name new s.tables_0 old_0
          ∙ ap (λ ts. entries_of_tables ts ++ es ∷ []) same_0 in
        record {
          store = store;
          answers = λ key.
              let old_0' = newest_find key (entries_of_tables (stored_0 sum32 d levels s)) in
              let old_1' = newest_find key (entries_of_tables (stored_1 sum32 d levels s)) in
              get_key-levels_find sum32 d' levels' store key
              ∙ ap
                  (λ ts. ok (
                    over (newest_find key ts)
                      (newest_find key (entries_of_tables (stored_1 sum32 d' levels' store)))))
                  ess
              ∙ ap
                  (λ ts. ok (
                    over
                      (newest_find key (entries_of_tables (stored_0 sum32 d levels s) ++ es ∷ []))
                      (newest_find key (entries_of_tables ts))))
                  same_1
              ∙ ap (λ o. ok (over o old_1'))
                  (newest_find-snoc key (entries_of_tables (stored_0 sum32 d levels s)) es)
              ∙ ap ok (sym (over_assoc (find_entry key (map stored es)) old_0' old_1'));
          names = inr l.tables_0;
        }

    -- However a save ends, it leaves a store.
    pub save_level0_sstable_entries-IsSaveOf :
        (is_print : ℕ → Bool) (o : Outcomes)
        → get_next_sstable_index (get_level_sstables levels 0) < 2 ^ 63
        → (let r = save_level0_sstable_entries sum32 is_print o d levels es in
            IsSaveOf r.0 r.1 (is_ok r.2))
    unfolding is_ok
    save_level0_sstable_entries-IsSaveOf is_print o small =
        let name = get_new_sstable_name levels 0 in
        let r = save_level0_sstable_entries sum32 is_print o d levels es in
        let safe = save_level0_sstable_entries-IsSafe sum32 is_print o d levels es in
        elim (save_level0_sstable_entries-ends sum32 is_print o d levels es) [
          | inl (failed, kept) ↦ subst (IsSaveOf r.0 r.1) (sym failed) (
              subst (λ ls. IsSaveOf r.0 ls false) (sym kept)
                (failed-IsSaveOf r.0 safe.apart (fresh_tables small)))
          | inr (file, contents, manifest, e, is) ↦
              subst
                (λ (w : Disk × List SstableLevel × Result (Unit {0})). IsSaveOf w.0 w.1 (is_ok w.2))
                (sym is)
                (saved-IsSaveOf file contents manifest _ e (fresh_tables small)
                  (saved-IsLevels _ levels name))
        ]
