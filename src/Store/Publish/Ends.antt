-- ===== src/Store/Publish/Ends.antt =====
-- The two ways a save ends, and the levels after it.
use mathlib.Core.Path.{subst}
use k_lsm_engine.Prelude.{
  ℕ, ◌≡◌, refl, sym, ap, ◌⊎◌, inl, inr, Bool, true, false, Option, none, some, List, [], ◌∷◌, ◌++◌,
  arith, ◌==◌, if◌then◌else◌, Bool-cases, Bytes, Result, ok, err, panicked,
}
use k_lsm_engine.Entry.{SstableEntry}
use k_lsm_engine.Store.{SstableLevel, get_new_sstable_name, find_level}
use k_lsm_engine.Store.Disk.{register_bloom_filter, set_filter, sidecar_filter}
use k_lsm_engine.Store.Publish.{
  Disk, SidecarFault, TableFault, ManifestFault, create_fails, chmod_fails, write_fails,
  rename_fails, sidecar_stays, sync_dir_fails, sidecar, put_table, put_sidecar, rename_table,
  table_files, write_files, write_sorted_sstable_file, rewrite_manifest_from_levels, new_level,
  with_table_sorted, Outcomes, append_read, append_table_to_manifest_locked, after_rewrite,
  after_append, after_write, save_level0_sstable_entries,
}

unfoldable pub is_ok {ℓ} : {A : Type ℓ} → Result A → Bool
is_ok (ok a) = true
is_ok (err e) = false
is_ok panicked = false

module _ (sum32 : Bytes → ℕ) where
  -- The write fails, or puts both files in place.
  abbrev pub EndsWrite : Disk → ℕ → Bytes → List SstableEntry → Disk × Result (Unit {0}) → Type 0
  EndsWrite d level name es r =
      (is_ok r.1 ≡ false)
      ⊎ ((file : Bytes) × (contents : Bytes) × (table_files sum32 es ≡ ok (file, contents))
          × (r ≡ (put_table (put_sidecar d level name contents) level name file, ok tt)))

  rename_table-ends :
      (f : TableFault) (d : Disk) (level : ℕ) (name file contents : Bytes) (es : List SstableEntry)
      → table_files sum32 es ≡ ok (file, contents)
      → EndsWrite d level name es (rename_table sum32 f d level name file contents)
  unfolding rename_table is_ok
  rename_table-ends (sidecar SidecarFault.none_fails) d level name file contents es e =
      inr (file, contents, e, refl)
  rename_table-ends (sidecar SidecarFault.before_rename) d level name file contents es e = inl refl
  rename_table-ends (sidecar SidecarFault.dir_sync_fails) d level name file contents es e = inl refl
  rename_table-ends sidecar_stays d level name file contents es e = inl refl
  rename_table-ends sync_dir_fails d level name file contents es e = inl refl
  rename_table-ends create_fails d level name file contents es e = inl refl
  rename_table-ends chmod_fails d level name file contents es e = inl refl
  rename_table-ends write_fails d level name file contents es e = inl refl
  rename_table-ends rename_fails d level name file contents es e = inl refl

  write_files-ends :
      (f : TableFault) (d : Disk) (level : ℕ) (name : Bytes) (es : List SstableEntry)
      (r : Result (Bytes × Bytes))
      → table_files sum32 es ≡ r
      → EndsWrite d level name es (write_files sum32 f d level name r)
  unfolding write_files is_ok
  write_files-ends f d level name es (ok (file, contents)) e =
      rename_table-ends f d level name file contents es e
  write_files-ends f d level name es (err why) e = inl refl
  write_files-ends f d level name es panicked e = inl refl

  write_sorted_sstable_file-ends :
      (f : TableFault) (d : Disk) (level : ℕ) (name : Bytes) (es : List SstableEntry)
      → EndsWrite d level name es (write_sorted_sstable_file sum32 f d level name es)
  unfolding write_sorted_sstable_file is_ok
  write_sorted_sstable_file-ends create_fails d level name es = inl refl
  write_sorted_sstable_file-ends chmod_fails d level name es = inl refl
  write_sorted_sstable_file-ends f d level name es =
      write_files-ends f d level name es (table_files sum32 es) refl

  module _ (is_print : ℕ → Bool) where
    -- The save fails and keeps the levels, or the table is in its place and in the levels.
    abbrev pub EndsSave :
        Disk
        → List SstableLevel
        → List SstableEntry
        → Disk × List SstableLevel × Result (Unit {0})
        → Type 0
    EndsSave d levels es r =
        let name = get_new_sstable_name levels 0 in
        ((is_ok r.2 ≡ false) × (r.1 ≡ levels))
        ⊎ ((file : Bytes) × (contents : Bytes) × (manifest : Option Bytes) × (table_files sum32 es
              ≡ ok (file, contents))
            × (let d₁ : Disk = record (put_table (put_sidecar d 0 name contents) 0 name file) {
              manifest = manifest;
            } in
                r ≡ (
                  d₁,
                  register_bloom_filter d₁.sidecars (with_table_sorted levels 0 name) 0 name,
                  ok tt,
                )))

    abbrev IsPending :
        List SstableLevel → Disk → Bytes → Disk × List SstableLevel × Result (Unit {0}) → Type 0
    IsPending levels d₁ name r =
        ((is_ok r.2 ≡ false) × (r.1 ≡ levels))
        ⊎ ((manifest : Option Bytes) × (r
              ≡ (record d₁ { manifest = manifest }, with_table_sorted levels 0 name, ok tt)))

    append_read-ends :
        (f : ManifestFault) (d₁ : Disk) (levels : List SstableLevel) (name : Bytes)
        (stored : Result (List SstableLevel))
        → IsPending levels d₁ name (append_read sum32 is_print f d₁ levels 0 name stored)
    unfolding append_read after_rewrite rewrite_manifest_from_levels is_ok
    append_read-ends ManifestFault.none_fails d₁ levels name (ok stored) = inr (_, refl)
    append_read-ends ManifestFault.before_rename d₁ levels name (ok stored) = inl (refl, refl)
    append_read-ends ManifestFault.dir_sync_fails d₁ levels name (ok stored) = inl (refl, refl)
    append_read-ends f d₁ levels name (err why) = inl (refl, refl)
    append_read-ends f d₁ levels name panicked = inl (refl, refl)

    after_append-ends :
        (o : Outcomes) (d : Disk) (levels : List SstableLevel) (es : List SstableEntry)
        (file contents : Bytes) (r : Disk × List SstableLevel × Result (Unit {0}))
        → table_files sum32 es ≡ ok (file, contents)
        → IsPending levels
            (put_table
              (put_sidecar d 0 (get_new_sstable_name levels 0) contents)
              0
              (get_new_sstable_name levels 0)
              file)
            (get_new_sstable_name levels 0)
            r
        → EndsSave d levels es
            (after_append sum32 is_print o.remove (get_new_sstable_name levels 0) r)
    unfolding after_append is_ok
    after_append-ends o d levels es file contents (d₂, ls, ok u) e (inl (never, kept)) = cc
    after_append-ends o d levels es file contents (d₂, ls, err why) e (inl (failed, kept)) =
        inl (refl, kept)
    after_append-ends o d levels es file contents (d₂, ls, panicked) e (inl (failed, kept)) =
        inl (refl, kept)
    after_append-ends o d levels es file contents r e (inr (manifest, is)) = inr (
      file,
      contents,
      manifest,
      e,
      ap (after_append sum32 is_print o.remove (get_new_sstable_name levels 0)) is,
    )

    after_write-ends :
        (o : Outcomes) (d : Disk) (levels : List SstableLevel) (es : List SstableEntry)
        (r : Disk × Result (Unit {0}))
        → EndsWrite d 0 (get_new_sstable_name levels 0) es r
        → EndsSave d levels es
            (after_write sum32 is_print o levels (get_new_sstable_name levels 0) r)
    unfolding after_write append_table_to_manifest_locked is_ok
    after_write-ends o d levels es (d₁, ok u) (inl never) = cc
    after_write-ends o d levels es (d₁, err why) (inl failed) = inl (refl, refl)
    after_write-ends o d levels es (d₁, panicked) (inl failed) = inl (refl, refl)
    after_write-ends o d levels es r (inr (file, contents, e, is)) =
        subst
          (λ w.
            EndsSave d levels es
              (after_write sum32 is_print o levels (get_new_sstable_name levels 0) w))
          (sym is)
          (after_append-ends o d levels es file contents _ e (
            append_read-ends o.manifest
              (put_table (put_sidecar d 0 (get_new_sstable_name levels 0) contents) 0
                (get_new_sstable_name levels 0) file)
              levels (get_new_sstable_name levels 0) _))

    pub save_level0_sstable_entries-ends :
        (o : Outcomes) (d : Disk) (levels : List SstableLevel) (es : List SstableEntry)
        → EndsSave d levels es (save_level0_sstable_entries sum32 is_print o d levels es)
    unfolding save_level0_sstable_entries
    save_level0_sstable_entries-ends o d levels es =
        after_write-ends o d levels es
          (write_sorted_sstable_file sum32 o.table d 0 (get_new_sstable_name levels 0) es)
          (write_sorted_sstable_file-ends o.table d 0 (get_new_sstable_name levels 0) es)

-- the level with the table
abbrev pub added : Bytes → Option SstableLevel → SstableLevel
added name none = new_level 0 name
added name (some l) = record l { tables = l.tables ++ name ∷ [] }

abbrev pub registered :
    (ℕ → Bytes → Option Bytes) → Bytes → Option SstableLevel → Option SstableLevel
registered sidecars name none = none
registered sidecars name (some l) =
    some (record l {
      bloom_filters = set_filter l.bloom_filters name (sidecar_filter sidecars 0 name);
    })

pub find_level-register_0 :
    (sidecars : ℕ → Bytes → Option Bytes) (ls : List SstableLevel) (name : Bytes)
    → find_level (register_bloom_filter sidecars ls 0 name) 0
      ≡ registered sidecars name (find_level ls 0)
unfolding find_level register_bloom_filter
find_level-register_0 sidecars [] name = refl
find_level-register_0 sidecars (l ∷ ls) name = elim (Bool-cases (l.level == 0)) [
  | inl here ↦ rw (here, here) refl
  | inr elsewhere ↦ rw (elsewhere, elsewhere) (find_level-register_0 sidecars ls name)
]

pub find_level-register_1 :
    (sidecars : ℕ → Bytes → Option Bytes) (ls : List SstableLevel) (name : Bytes)
    → find_level (register_bloom_filter sidecars ls 0 name) 1 ≡ find_level ls 1
unfolding find_level register_bloom_filter
find_level-register_1 sidecars [] name = refl
find_level-register_1 sidecars (l ∷ ls) name = elim (Bool-cases (l.level == 0)) [
  | inl here ↦ let ne : (l.level == 1) ≡ false = ground (arith, here) in rw (here, ne) refl
  | inr elsewhere ↦
      rw elsewhere
        (ap (λ o. if l.level == 1 then some l else o) (find_level-register_1 sidecars ls name))
]
