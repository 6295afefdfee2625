-- ===== src/Compaction/Publish/Kept.antt =====
-- Steps that keep the tables of a store, and so its answers.
use mathlib.Core.Path.{subst}
use k_lsm_engine.Prelude.{
  ℕ, ◌≡◌, refl, sym, ap, ◌∙◌, ◌⊎◌, inl, inr, Option, none, some, List, [], ◌∷◌, Bytes, ok,
  Bool-cases, str_eq, str_eq_iff,
}
use k_lsm_engine.Entry.{SstableEntry}
use k_lsm_engine.Bloom.{BloomFilter}
use k_lsm_engine.Store.{
  find_level, SstableKeyRange, SstableLevel, lookup, l1_table_may_contain, tables_of, filters_of,
  ranges_of, get_key,
}
use k_lsm_engine.Store.Disk.{
  StatOutcome, there, sidecar_filter, read_sidecar, load_tables, prune_tables, keep_table,
  keep_range, prune_ranges,
}
use k_lsm_engine.Store.Disk.Loaded.{is_among, lookup-load_tables}
use k_lsm_engine.Store.Manifest.{sort_levels}
use k_lsm_engine.Store.Publish.{Disk}
use k_lsm_engine.Compaction.Publish.Merged.{levels_find}
use k_lsm_engine.Compaction.Publish.Ranges.{AreWithin}
use k_lsm_engine.Compaction.Publish.Levels.{find_level-sort_levels}
use k_lsm_engine.Compaction.Publish.Placed.{
  IsOwn, moved, AllPlaced, IsStore, stored_0, stored_1, get_key-levels_find, IsMove, all_moved,
  placed_tables-all_moved,
}

-- The file is the same, and the sidecar is the same or gone.
abbrev pub IsLess : ℕ → Bytes → Disk → Disk → Type 0
IsLess n name d d' =
    (d'.tables n name ≡ d.tables n name)
    × ((d'.sidecars n name ≡ none) ⊎ (d'.sidecars n name ≡ d.sidecars n name))

-- `os.Stat` finds every table that is on the disk.
abbrev pub IsSeen : (ℕ → Bytes → StatOutcome) → Disk → Type 0
IsSeen stat d = (n : ℕ) (name file : Bytes) → d.tables n name ≡ some file → stat n name ≡ there

module _ (sum32 : Bytes → ℕ) where
  -- The store after a step is a store, and no answer changed.
  pub record IsKept (d : Disk) (levels : List SstableLevel) (d' : Disk)
      (levels' : List SstableLevel) : Type 0 where
    pub store : IsStore sum32 d' levels'
    -- the tables of level 0 stay, or it is empty
    pub names :
        (tables_of (find_level levels' 0) ≡ tables_of (find_level levels 0))
        ⊎ (tables_of (find_level levels' 0) ≡ [])
    pub answers :
        (key : Bytes) → get_key sum32 d'.tables levels' key ≡ get_key sum32 d.tables levels key

  -- A store with the same tables, in the same order.
  pub record IsMoved (d : Disk) (levels : List SstableLevel) (s : IsStore sum32 d levels)
      (d' : Disk) (levels' : List SstableLevel) : Type 0 where
    pub store : IsStore sum32 d' levels'
    pub names_0 : store.tables_0 ≡ s.tables_0
    pub same_0 : stored_0 sum32 d' levels' store ≡ stored_0 sum32 d levels s
    pub same_1 : stored_1 sum32 d' levels' store ≡ stored_1 sum32 d levels s

  abbrev pub IsKept-of_moved :
      (d : Disk) (levels : List SstableLevel) (s : IsStore sum32 d levels) (d' : Disk)
      (levels' : List SstableLevel)
      → IsMoved d levels s d' levels'
      → IsKept d levels d' levels'
  IsKept-of_moved d levels s d' levels' m = record {
    store = m.store;
    names = inl (m.store.level_0.0 ∙ m.names_0 ∙ sym s.level_0.0);
    answers = λ key.
        get_key-levels_find sum32 d' levels' m.store key
        ∙ ap (λ ts. ok (levels_find key ts (stored_1 sum32 d' levels' m.store))) m.same_0
        ∙ ap (λ ts. ok (levels_find key (stored_0 sum32 d levels s) ts)) m.same_1
        ∙ sym (get_key-levels_find sum32 d levels s key);
  }

  IsOwn-less :
      (entries : List SstableEntry) (d d' : Disk) (n : ℕ) (t : Bytes)
      → (d'.sidecars n t ≡ none) ⊎ (d'.sidecars n t ≡ d.sidecars n t)
      → IsOwn sum32 entries (sidecar_filter d.sidecars n t)
      → IsOwn sum32 entries (sidecar_filter d'.sidecars n t)
  unfolding sidecar_filter read_sidecar
  IsOwn-less entries d d' n t (inl gone) own = inl (ap read_sidecar gone)
  IsOwn-less entries d d' n t (inr same) own =
      subst (λ o. IsOwn sum32 entries (read_sidecar o)) (sym same) own

  module _ (d d' : Disk)
      (less : (n : ℕ) (t file : Bytes) → d.tables n t ≡ some file → IsLess n t d d') where
    IsMove-less :
        (n : ℕ) (ranges : List (Bytes × SstableKeyRange)) (filters : List (Bytes × BloomFilter))
        → IsMove sum32 d n ranges filters d' ranges filters
    IsMove-less n ranges filters = record {
      move = λ t p.
          let l = less n t p.readable.sound.file p.readable.sound.there in
          moved sum32 d d' n ranges ranges filters filters t p l.0
            (IsOwn-less p.readable.sound.entries d d' n t l.1 p.sidecar) p.readable.sound.filter
            p.readable.sound.range;
      keeps = λ t p. refl;
    }

    -- The disk keeps the tables it has, and the levels in memory stay.
    pub IsMoved-of_less :
        (levels : List SstableLevel) (s : IsStore sum32 d levels) → IsMoved d levels s d' levels
    IsMoved-of_less levels s =
        let m_0 = IsMove-less 0 [] s.filters_0 in
        let m_1 = IsMove-less 1 s.ranges_1 s.filters_1 in
        record {
          store = record {
            tables_0 = s.tables_0;
            filters_0 = s.filters_0;
            tables_1 = s.tables_1;
            filters_1 = s.filters_1;
            ranges_1 = s.ranges_1;
            level_0 = s.level_0;
            level_1 = s.level_1;
            placed_0 =
                all_moved sum32 d 0 [] s.filters_0 d' [] s.filters_0 m_0 s.tables_0 s.placed_0;
            placed_1 =
                all_moved sum32 d 1 s.ranges_1 s.filters_1 d' s.ranges_1 s.filters_1 m_1 s.tables_1
                  s.placed_1;
          };
          names_0 = refl;
          same_0 =
              placed_tables-all_moved sum32 d 0 [] s.filters_0 d' [] s.filters_0 m_0 s.tables_0
                s.placed_0;
          same_1 =
              placed_tables-all_moved sum32 d 1 s.ranges_1 s.filters_1 d' s.ranges_1 s.filters_1 m_1
                s.tables_1 s.placed_1;
        }

  -- The sort of the levels changes no table.
  pub IsMoved-sort_levels :
      (d : Disk) (levels : List SstableLevel) (s : IsStore sum32 d levels)
      → IsMoved d levels s d (sort_levels levels)
  IsMoved-sort_levels d levels s =
      let at_0 = find_level-sort_levels levels 0 in
      let at_1 = find_level-sort_levels levels 1 in
      record {
        store = record {
          tables_0 = s.tables_0;
          filters_0 = s.filters_0;
          tables_1 = s.tables_1;
          filters_1 = s.filters_1;
          ranges_1 = s.ranges_1;
          level_0 = (ap tables_of at_0 ∙ s.level_0.0, ap filters_of at_0 ∙ s.level_0.1);
          level_1 = (
            ap tables_of at_1 ∙ s.level_1.0,
            ap filters_of at_1 ∙ s.level_1.1,
            ap ranges_of at_1 ∙ s.level_1.2,
          );
          placed_0 = s.placed_0;
          placed_1 = s.placed_1;
        };
        names_0 = refl;
        same_0 = refl;
        same_1 = refl;
      }

  -- The filter of a table after they were loaded.
  pub IsOwn-load_tables :
      (entries : List SstableEntry) (d : Disk) (n : ℕ) (tables : List Bytes) (t : Bytes)
      → IsOwn sum32 entries (sidecar_filter d.sidecars n t)
      → IsOwn sum32 entries (lookup t (load_tables d.sidecars n [] tables))
  IsOwn-load_tables entries d n tables t own = elim (Bool-cases (is_among t tables)) [
    | inl among ↦ rw (lookup-load_tables d.sidecars n t tables, among) own
    | inr apart ↦ inl (rw (lookup-load_tables d.sidecars n t tables, apart) refl)
  ]

  AreWithin-none : (es : List SstableEntry) → AreWithin none es
  unfolding l1_table_may_contain
  AreWithin-none [] = tt
  AreWithin-none (e ∷ es) = (refl, AreWithin-none es)

  abbrev Keeps : List (Bytes × SstableKeyRange) → List (Bytes × SstableKeyRange) → Bytes → Type 0
  Keeps ranges pruned t = (lookup t pruned ≡ none) ⊎ (lookup t pruned ≡ lookup t ranges)

  keep_range-Keeps :
      (ranges pruned : List (Bytes × SstableKeyRange)) (table t : Bytes)
      (o : Option SstableKeyRange)
      → lookup table ranges ≡ o
      → Keeps ranges pruned t
      → Keeps ranges (keep_range pruned table o) t
  unfolding keep_range lookup
  keep_range-Keeps ranges pruned table t none e h = h
  keep_range-Keeps ranges pruned table t (some r) e h = elim (Bool-cases (str_eq table t)) [
    | inl same ↦ let at = (str_eq_iff table t).0 same in inr (rw same (rw (← at) (sym e)))
    | inr ne ↦ rw ne h
  ]

  prune_ranges-Keeps :
      (ranges pruned : List (Bytes × SstableKeyRange)) (tables : List Bytes) (t : Bytes)
      → Keeps ranges pruned t
      → Keeps ranges (prune_ranges ranges pruned tables) t
  unfolding prune_ranges
  prune_ranges-Keeps ranges pruned [] t h = h
  prune_ranges-Keeps ranges pruned (table ∷ rest) t h =
      prune_ranges-Keeps ranges (keep_range pruned table (lookup table ranges)) rest t
        (keep_range-Keeps ranges pruned table t (lookup table ranges) refl h)

  pub AreWithin-prune_ranges :
      (ranges : List (Bytes × SstableKeyRange)) (tables : List Bytes) (t : Bytes)
      (es : List SstableEntry)
      → AreWithin (lookup t ranges) es
      → AreWithin (lookup t (prune_ranges ranges [] tables)) es
  unfolding lookup
  AreWithin-prune_ranges ranges tables t es h =
      elim (prune_ranges-Keeps ranges [] tables t (inl refl)) [
        | inl gone ↦ subst (λ o. AreWithin o es) (sym gone) (AreWithin-none es)
        | inr same ↦ subst (λ o. AreWithin o es) (sym same) h
      ]

  -- Every table that is there is kept.
  pub prune_tables-placed :
      (stat : ℕ → Bytes → StatOutcome) (d : Disk) (n : ℕ) (ranges : List (Bytes × SstableKeyRange))
      (filters : List (Bytes × BloomFilter)) (tables : List Bytes)
      → IsSeen stat d
      → AllPlaced sum32 d n ranges filters tables
      → prune_tables stat n tables ≡ (tables, [])
  unfolding prune_tables keep_table
  prune_tables-placed stat d n ranges filters [] seen h = refl
  prune_tables-placed stat d n ranges filters (t ∷ ts) seen h =
      rw
        (
          seen n t h.0.readable.sound.file h.0.readable.sound.there,
          prune_tables-placed stat d n ranges filters ts seen h.1,
        )
        refl
