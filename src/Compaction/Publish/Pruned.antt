-- ===== src/Compaction/Publish/Pruned.antt =====
-- The pruning before a merge, and the removal of the sidecars of tables that are gone.
use k_lsm_engine.Prelude.{
  ℕ, Bool, ◌≡◌, refl, ap, ◌∙◌, ◌⊎◌, inl, inr, none, List, [], ◌∷◌, map, Bytes, ◌==◌, ◌&&◌, not,
  if◌then◌else◌, Bool-cases,
}
use k_lsm_engine.Store.{SstableLevel, find_level, tables_of, ranges_of}
use k_lsm_engine.Store.Disk.{StatOutcome, load_tables, load_bloom_filters, prune_ranges}
use k_lsm_engine.Store.Disk.Loaded.{is_among}
use k_lsm_engine.Store.Publish.{Disk, remove_orphans}
use k_lsm_engine.Compaction.Publish.{prune_level}
use k_lsm_engine.Compaction.Publish.Levels.{
  load_bloom_filters-IsLevelOf, tables_of-prune_level_0, prune_level_1-IsPruned,
}
use k_lsm_engine.Compaction.Publish.Placed.{
  moved, IsStore, IsMove, all_moved, placed_tables-all_moved,
}
use k_lsm_engine.Compaction.Publish.Kept.{
  IsLess, IsSeen, IsMoved, IsOwn-load_tables, AreWithin-prune_ranges, prune_tables-placed,
}

IsLess-trans :
    (n : ℕ) (t : Bytes) (d d' d'' : Disk) → IsLess n t d d' → IsLess n t d' d'' → IsLess n t d d''
IsLess-trans n t d d' d'' a (same, inl gone) = (same ∙ a.0, inl gone)
IsLess-trans n t d d' d'' (same, inl gone) (same', inr kept) = (same' ∙ same, inl (kept ∙ gone))
IsLess-trans n t d d' d'' (same, inr kept) (same', inr kept') = (same' ∙ same, inr (kept' ∙ kept))

-- The removal touches no table.
pub remove_orphans-IsLess :
    (stays : ℕ → Bytes → Bool) (d : Disk) (orphans : List (ℕ × List Bytes)) (n : ℕ) (t : Bytes)
    → IsLess n t d (remove_orphans stays d orphans)
unfolding remove_orphans
remove_orphans-IsLess stays d [] n t = (refl, inr refl)
remove_orphans-IsLess stays d ((level, tables) ∷ rest) n t =
    let d₁ : Disk = record d {
      sidecars = λ m name.
          if m == level && is_among name tables && not (stays m name)
          then none
          else d.sidecars m name;
    } in
    let own : (d₁.sidecars n t ≡ none) ⊎ (d₁.sidecars n t ≡ d.sidecars n t) =
      elim (Bool-cases (n == level && is_among t tables && not (stays n t))) [
        | inl out ↦ inl (rw out refl)
        | inr kept ↦ inr (rw kept refl)
      ] in
    IsLess-trans n t d d₁ (remove_orphans stays d₁ rest) (refl, own)
      (remove_orphans-IsLess stays d₁ rest n t)

module _ (sum32 : Bytes → ℕ) (stat : ℕ → Bytes → StatOutcome) (d : Disk)
    (levels : List SstableLevel) (s : IsStore sum32 d levels) (seen : IsSeen stat d) where
  pruned_0 : tables_of (find_level (map (prune_level stat) levels) 0) ≡ s.tables_0
  pruned_0 =
      tables_of-prune_level_0 stat levels
      ∙ rw
          (
            s.level_0.0,
            prune_tables-placed sum32 stat d 0 [] s.filters_0 s.tables_0 seen s.placed_0,
          )
          refl

  pruned_1 :
      (tables_of (find_level (map (prune_level stat) levels) 1) ≡ s.tables_1)
      × (ranges_of (find_level (map (prune_level stat) levels) 1)
          ≡ prune_ranges s.ranges_1 [] s.tables_1)
  pruned_1 =
      let p = prune_level_1-IsPruned stat levels in
      let kept =
        prune_tables-placed sum32 stat d 1 s.ranges_1 s.filters_1 s.tables_1 seen s.placed_1 in
      (p.0 ∙ rw (s.level_1.0, kept) refl, p.1 ∙ rw (s.level_1.0, s.level_1.2, kept) refl)

  abbrev move_0 : IsMove sum32 d 0 [] s.filters_0 d [] (load_tables d.sidecars 0 [] s.tables_0)
  move_0 = record {
    move = λ t p.
        moved sum32 d d 0 [] [] s.filters_0 (load_tables d.sidecars 0 [] s.tables_0) t p refl
          p.sidecar (IsOwn-load_tables sum32 p.readable.sound.entries d 0 s.tables_0 t p.sidecar)
          p.readable.sound.range;
    keeps = λ t p. refl;
  }

  abbrev move_1 :
      IsMove sum32 d 1 s.ranges_1 s.filters_1 d
        (prune_ranges s.ranges_1 [] s.tables_1)
        (load_tables d.sidecars 1 [] s.tables_1)
  move_1 = record {
    move = λ t p.
        moved sum32 d d 1 s.ranges_1 (prune_ranges s.ranges_1 [] s.tables_1) s.filters_1
          (load_tables d.sidecars 1 [] s.tables_1) t p refl p.sidecar
          (IsOwn-load_tables sum32 p.readable.sound.entries d 1 s.tables_1 t p.sidecar)
          (AreWithin-prune_ranges sum32 s.ranges_1 s.tables_1 t p.readable.sound.entries
            p.readable.sound.range);
    keeps = λ t p. refl;
  }

  -- The pruned levels have the same tables if `os.Stat` finds them.
  pub IsMoved-pruned :
      IsMoved sum32 d levels s d (load_bloom_filters d.sidecars (map (prune_level stat) levels))
  IsMoved-pruned =
      let pruned = map (prune_level stat) levels in
      let l_0 = load_bloom_filters-IsLevelOf d.sidecars pruned 0 in
      let l_1 = load_bloom_filters-IsLevelOf d.sidecars pruned 1 in
      let filters_0 = load_tables d.sidecars 0 [] s.tables_0 in
      let filters_1 = load_tables d.sidecars 1 [] s.tables_1 in
      let ranges_1 = prune_ranges s.ranges_1 [] s.tables_1 in
      record {
        store = record {
          tables_0 = s.tables_0;
          filters_0 = filters_0;
          tables_1 = s.tables_1;
          filters_1 = filters_1;
          ranges_1 = ranges_1;
          level_0 = (l_0.0 ∙ pruned_0, l_0.1 ∙ ap (load_tables d.sidecars 0 []) pruned_0);
          level_1 = (
            l_1.0 ∙ pruned_1.0,
            l_1.1 ∙ ap (load_tables d.sidecars 1 []) pruned_1.0,
            l_1.2 ∙ pruned_1.1,
          );
          placed_0 = all_moved sum32 d 0 [] s.filters_0 d [] filters_0 move_0 s.tables_0 s.placed_0;
          placed_1 =
              all_moved sum32 d 1 s.ranges_1 s.filters_1 d ranges_1 filters_1 move_1 s.tables_1
                s.placed_1;
        };
        names_0 = refl;
        same_0 =
            placed_tables-all_moved sum32 d 0 [] s.filters_0 d [] filters_0 move_0 s.tables_0
              s.placed_0;
        same_1 =
            placed_tables-all_moved sum32 d 1 s.ranges_1 s.filters_1 d ranges_1 filters_1 move_1
              s.tables_1 s.placed_1;
      }
