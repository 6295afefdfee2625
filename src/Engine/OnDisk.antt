-- ===== src/Engine/OnDisk.antt =====
-- The store of sstable.go and compaction.go is the table store of the engine's interface. The calls
-- of the operating system that fail in each save and each compaction are given, but `os.Stat` finds
-- the tables that are there.
pub mod Levels
pub mod Saves
use k_lsm_engine.Prelude.{
  ℕ, zero, suc, ◌+◌, ◌^◌, ◌<◌, ◌≤◌, ◌≡◌, refl, sym, ap, ◌∙◌, ◌⊎◌, inl, inr, Bool, true, false,
  Option, none, some, List, [], ◌∷◌, ◌++◌, map, length, arith, if◌then◌else◌, Bytes, Result, ok,
  err, panicked,
}
use mathlib.Core.Path.{subst}
use mathlib.Core.Bool.{true≢false}
use k_lsm_engine.Entry.{StorageEntry, SstableEntry}
use k_lsm_engine.Table.Block.{stored}
use k_lsm_engine.Table.Order.{find_entry}
use k_lsm_engine.Store.{
  SstableLevel, get_key, find_level, tables_of, get_level_sstables, get_next_sstable_index,
  get_new_sstable_name,
}
use k_lsm_engine.Store.Names.{
  get_new_sstable_name-fresh, get_next_sstable_index-snoc, get_next_sstable_index-nil,
}
use k_lsm_engine.Store.Disk.{StatOutcome}
use k_lsm_engine.Store.Publish.{Disk, Outcomes, save_level0_sstable_entries, new_sstable_store}
use k_lsm_engine.Store.Publish.Ends.{is_ok}
use k_lsm_engine.Compaction.Publish.{CompactionOutcomes, compact_sstables}
use k_lsm_engine.Compaction.Publish.Placed.{IsStore, stored_0, stored_1, get_key-levels_find}
use k_lsm_engine.Compaction.Publish.Merged.{levels_find}
use k_lsm_engine.Compaction.Publish.Kept.{IsSeen, IsKept}
use k_lsm_engine.Compaction.Publish.Compact.{compact_sstables-IsKept}
use k_lsm_engine.Engine.Parts.{SstableStore, over}
use Saves.{IsSaveOf, save_level0_sstable_entries-IsSaveOf}

-- The files, the levels in memory, and the number of saves that are left: names of tables are
-- numbered, and after 2 ^ 63 of them a Go integer cannot hold the next number.
pub record DiskStore : Type 0 where
  pub disk : Disk
  pub levels : List SstableLevel
  pub left : ℕ

-- `getKey` with its answer and whether there is one; an error is no answer
found_or_none : Result (Option StorageEntry) → Option StorageEntry
found_or_none (ok o) = o
found_or_none (err e) = none
found_or_none panicked = none

opened_store : ℕ → Result (Disk × List SstableLevel) → Option DiskStore
opened_store left (ok (d, levels)) = some (record { disk = d; levels = levels; left = left })
opened_store left (err e) = none
opened_store left panicked = none

next_0-same :
    (levels levels' : List SstableLevel)
    → tables_of (find_level levels' 0) ≡ tables_of (find_level levels 0)
    → get_next_sstable_index (get_level_sstables levels' 0)
      ≡ get_next_sstable_index (get_level_sstables levels 0)
unfolding get_level_sstables
next_0-same levels levels' h = ap get_next_sstable_index h

next_0-snoc :
    (levels levels' : List SstableLevel)
    → get_next_sstable_index (get_level_sstables levels 0) < 2 ^ 63
    → tables_of (find_level levels' 0)
      ≡ tables_of (find_level levels 0) ++ get_new_sstable_name levels 0 ∷ []
    → get_next_sstable_index (get_level_sstables levels' 0)
      ≡ get_next_sstable_index (get_level_sstables levels 0) + 1
unfolding get_level_sstables
next_0-snoc levels levels' small h =
    ap get_next_sstable_index h
    ∙ get_next_sstable_index-snoc (tables_of (find_level levels 0)) (get_new_sstable_name levels 0)
        (get_new_sstable_name-fresh levels 0 small).0

next_0-nil :
    (levels levels' : List SstableLevel)
    → tables_of (find_level levels' 0) ≡ []
    → get_next_sstable_index (get_level_sstables levels' 0)
      ≤ get_next_sstable_index (get_level_sstables levels 0)
unfolding get_level_sstables
next_0-nil levels levels' h =
    subst
      (λ ts. get_next_sstable_index ts ≤ get_next_sstable_index (tables_of (find_level levels 0)))
      (sym h) (get_next_sstable_index-nil (tables_of (find_level levels 0)))

module _ (sum32 : Bytes → ℕ) (is_print : ℕ → Bool) (rounds fuel : ℕ) (saves : ℕ → Outcomes)
    (compactions : ℕ → Disk → CompactionOutcomes)
    (sees : (n : ℕ) (d : Disk) → IsSeen (compactions n d).stat d) (opens : Bool)
    (stat : ℕ → Bytes → StatOutcome) (stays : ℕ → Bytes → Bool) where
  -- A store whose tables can be read, and whose numbers do not run out.
  pub record IsDiskStore (s : DiskStore) : Type 0 where
    pub store : IsStore sum32 s.disk s.levels
    pub numbers : get_next_sstable_index (get_level_sstables s.levels 0) + s.left < 2 ^ 63

  pub disk_get_key : DiskStore → Bytes → Option StorageEntry
  unfolding found_or_none
  disk_get_key s key = found_or_none (get_key sum32 s.disk.tables s.levels key)

  -- No save succeeds when none is left.
  save_with : ℕ → Disk → List SstableLevel → List SstableEntry → DiskStore × Bool
  save_with zero d levels es = (record { disk = d; levels = levels; left = zero }, false)
  save_with (suc left) d levels es =
      let (d', levels', done) =
        save_level0_sstable_entries sum32 is_print (saves left) d levels es in
      (record { disk = d'; levels = levels'; left = left }, is_ok done)

  pub disk_save : DiskStore → List SstableEntry → DiskStore × Bool
  unfolding save_with
  disk_save s es = save_with s.left s.disk s.levels es

  pub disk_compact : DiskStore → DiskStore × Bool
  disk_compact s =
      let (d', levels', done) =
        compact_sstables sum32 (compactions s.left s.disk) is_print rounds fuel s.disk s.levels in
      (record { disk = d'; levels = levels'; left = s.left }, is_ok done)

  unfoldable pub disk_new : DiskStore → Option DiskStore
  unfolding opened_store
  disk_new s = opened_store s.left (new_sstable_store opens stat stays s.disk)

  pub disk_get_key-levels_find :
      (s : DiskStore) (v : IsStore sum32 s.disk s.levels) (key : Bytes)
      → disk_get_key s key
        ≡ levels_find key (stored_0 sum32 s.disk s.levels v) (stored_1 sum32 s.disk s.levels v)
  unfolding disk_get_key
  disk_get_key-levels_find s v key =
      ap found_or_none (get_key-levels_find sum32 s.disk s.levels v key)

  module _ (s : DiskStore) (es : List SstableEntry) (v : IsDiskStore s) where
    abbrev pub SavesTo : DiskStore × Bool → Type 0
    SavesTo (s', saved) =
        IsDiskStore s'
        × ((key : Bytes)
            → disk_get_key s' key ≡ (
                if saved
                then over (find_entry key (map stored es)) (disk_get_key s key)
                else disk_get_key s key))

    save_with-SavesTo : (left : ℕ) → s.left ≡ left → SavesTo (save_with left s.disk s.levels es)
    unfolding save_with disk_get_key
    save_with-SavesTo zero none_left =
        (record { store = v.store; numbers = omega (arith, v.numbers, none_left) }, λ key. refl)
    save_with-SavesTo (suc left) some_left =
        let small : get_next_sstable_index (get_level_sstables s.levels 0) < 2 ^ 63 =
          omega (arith, v.numbers, some_left) in
        let saved =
          save_level0_sstable_entries-IsSaveOf sum32 s.disk s.levels v.store es is_print
            (saves left) small in
        (
          record {
            store = saved.store;
            numbers = elim saved.names [
              | inl same ↦ omega (arith, v.numbers, some_left, next_0-same s.levels _ same)
              | inr longer ↦
                  omega (arith, v.numbers, some_left, next_0-snoc s.levels _ small longer)
            ];
          },
          λ key.
              ap found_or_none (saved.answers key)
              ∙ sym (
                  ap
                    (λ old.
                      if is_ok
                        (save_level0_sstable_entries sum32 is_print (saves left) s.disk s.levels
                          es).2
                      then over (find_entry key (map stored es)) old
                      else old)
                    (disk_get_key-levels_find s v.store key)),
        )

  -- However a save of entries to a valid store ends, the store stays valid, and getKey answers with
  -- the saved entries over what it answered before if the save succeeded, and as before if it did not.
  pub disk_save-SavesTo :
      (s : DiskStore) (es : List SstableEntry) (v : IsDiskStore s) → SavesTo s es v (disk_save s es)
  unfolding disk_save
  disk_save-SavesTo s es v = save_with-SavesTo s es v s.left refl

  pub get_key-disk_save :
      (s : DiskStore) (es : List SstableEntry) (key : Bytes)
      → IsDiskStore s
      → (disk_save s es).1 ≡ true
      → disk_get_key (disk_save s es).0 key
        ≡ over (find_entry key (map stored es)) (disk_get_key s key)
  get_key-disk_save s es key v saved = let h = (disk_save-SavesTo s es v).1 key in h ∙ rw saved refl

  pub get_key-disk_save_failed :
      (s : DiskStore) (es : List SstableEntry) (key : Bytes)
      → IsDiskStore s
      → (disk_save s es).1 ≡ false
      → disk_get_key (disk_save s es).0 key ≡ disk_get_key s key
  get_key-disk_save_failed s es key v failed =
      let h = (disk_save-SavesTo s es v).1 key in h ∙ rw failed refl

  pub disk_compact-kept :
      (s : DiskStore)
      → IsDiskStore s
      → IsDiskStore (disk_compact s).0
        × ((key : Bytes) → disk_get_key (disk_compact s).0 key ≡ disk_get_key s key)
  unfolding disk_compact disk_get_key
  disk_compact-kept s v =
      let o = compactions s.left s.disk in
      let kept =
        compact_sstables-IsKept sum32 o is_print rounds fuel s.disk s.levels v.store
          (sees s.left s.disk) in
      let bound : get_next_sstable_index
            (get_level_sstables (compact_sstables sum32 o is_print rounds fuel s.disk s.levels).1 0)
          ≤ get_next_sstable_index (get_level_sstables s.levels 0) =
        elim kept.names [
          | inl same ↦ omega (arith, next_0-same s.levels _ same)
          | inr empty ↦ next_0-nil s.levels _ empty
        ] in
      (
        record { store = kept.store; numbers = omega (arith, v.numbers, bound) },
        λ key. ap found_or_none (kept.answers key),
      )

  abbrev pub disk_store : SstableStore DiskStore
  disk_store = record {
    get_key = disk_get_key;
    save_level0_sstable_entries = disk_save;
    level0_count = λ s. length (get_level_sstables s.levels 0);
    compact_sstables = disk_compact;
    new_sstable_store = disk_new;
    IsValid = IsDiskStore;
    IsValid-save = λ s es v. (disk_save-SavesTo s es v).0;
    IsValid-compact = λ s v. (disk_compact-kept s v).0;
    get_key-save = get_key-disk_save;
    get_key-save_failed = get_key-disk_save_failed;
    get_key-compact = λ s key v. (disk_compact-kept s v).1 key;
  }
