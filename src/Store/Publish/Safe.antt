-- ===== src/Store/Publish/Safe.antt =====
-- What a save leaves alone, whatever fails.
use mathlib.Core.Path.{subst}
use k_lsm_engine.Prelude.{
  ℕ, ◌≡◌, ◌⊎◌, inl, inr, refl, sym, ap, ◌∙◌, Bool, Option, none, some, List, Bytes, Result, ok, err,
  panicked,
}
use k_lsm_engine.Entry.{SstableEntry}
use k_lsm_engine.Store.{SstableLevel, get_new_sstable_name}
use k_lsm_engine.Store.Manifest.{get_all_sstables, sort_levels, manifest_text}
use k_lsm_engine.Store.Publish.{
  Disk, SidecarFault, TableFault, ManifestFault, RemoveFault, create_fails, chmod_fails,
  sidecar_stays, sync_dir_fails, sidecar, table_fails, sidecar_fails, remove_sidecar,
  remove_sstable_and_bloom, put_table, put_sidecar, rename_table, table_files, write_files,
  write_sorted_sstable_file, rewrite_manifest_from_levels, with_table, Outcomes, append_read,
  append_table_to_manifest_locked, after_rewrite, after_append, after_write,
  save_level0_sstable_entries,
}
use k_lsm_engine.Store.Publish.Saved.{IsApart, put_file-other}

IsApart-trans :
    (level : ℕ) (name : Bytes) (d d' d'' : Disk)
    → IsApart level name d d'
    → IsApart level name d' d''
    → IsApart level name d d''
IsApart-trans level name d d' d'' h k n other apart =
    let a = h n other apart in let b = k n other apart in (b.0 ∙ a.0, b.1 ∙ a.1)

module _ (sum32 : Bytes → ℕ) where
  -- The write of a table touches its own files only, and not the manifest.
  pub record IsWrite (level : ℕ) (name : Bytes) (d d' : Disk) : Type 0 where
    pub apart : IsApart level name d d'
    pub manifest : d'.manifest ≡ d.manifest

  remove_sidecar-IsWrite :
      (d : Disk) (level : ℕ) (name : Bytes) → IsWrite level name d (remove_sidecar d level name)
  unfolding remove_sidecar
  remove_sidecar-IsWrite d level name = record {
    apart = λ n other h. (refl, put_file-other d.sidecars level name none n other h);
    manifest = refl;
  }

  put_both-IsWrite :
      (d : Disk) (level : ℕ) (name file contents : Bytes)
      → IsWrite level name d (put_table (put_sidecar d level name contents) level name file)
  unfolding put_table put_sidecar
  put_both-IsWrite d level name file contents = record {
    apart = λ n other h. (
      put_file-other d.tables level name (some file) n other h,
      put_file-other d.sidecars level name (some contents) n other h,
    );
    manifest = refl;
  }

  put_sidecar-IsWrite :
      (d : Disk) (level : ℕ) (name contents : Bytes)
      → IsWrite level name d (put_sidecar d level name contents)
  unfolding put_sidecar
  put_sidecar-IsWrite d level name contents = record {
    apart = λ n other h. (refl, put_file-other d.sidecars level name (some contents) n other h);
    manifest = refl;
  }

  rename_table-IsWrite :
      (f : TableFault) (d : Disk) (level : ℕ) (name file contents : Bytes)
      → IsWrite level name d (rename_table sum32 f d level name file contents).0
  unfolding rename_table
  rename_table-IsWrite (sidecar SidecarFault.none_fails) d level name file contents =
      put_both-IsWrite d level name file contents
  rename_table-IsWrite sidecar_stays d level name file contents =
      put_sidecar-IsWrite d level name contents
  rename_table-IsWrite sync_dir_fails d level name file contents =
      put_both-IsWrite d level name file contents
  rename_table-IsWrite f d level name file contents = remove_sidecar-IsWrite d level name

  write_files-IsWrite :
      (f : TableFault) (d : Disk) (level : ℕ) (name : Bytes) (r : Result (Bytes × Bytes))
      → IsWrite level name d (write_files sum32 f d level name r).0
  unfolding write_files
  write_files-IsWrite f d level name (ok (file, contents)) =
      rename_table-IsWrite f d level name file contents
  write_files-IsWrite f d level name (err e) = remove_sidecar-IsWrite d level name
  write_files-IsWrite f d level name panicked = record {
    apart = λ n other h. (refl, refl);
    manifest = refl;
  }

  pub write_sorted_sstable_file-IsWrite :
      (f : TableFault) (d : Disk) (level : ℕ) (name : Bytes) (entries : List SstableEntry)
      → IsWrite level name d (write_sorted_sstable_file sum32 f d level name entries).0
  unfolding write_sorted_sstable_file
  write_sorted_sstable_file-IsWrite create_fails d level name entries = record {
    apart = λ n other h. (refl, refl);
    manifest = refl;
  }
  write_sorted_sstable_file-IsWrite chmod_fails d level name entries =
      remove_sidecar-IsWrite d level name
  write_sorted_sstable_file-IsWrite f d level name entries =
      write_files-IsWrite f d level name (table_files sum32 entries)

  module _ (is_print : ℕ → Bool) where
    -- What every save keeps: the files of all other tables; the manifest, unless it lists what it did
    -- and the new table; and the levels in memory, unless the save succeeds.
    pub record IsSafe (o : Outcomes) (d : Disk) (levels : List SstableLevel)
        (result : Disk × List SstableLevel × Result (Unit {0})) : Type 0 where
      pub apart : IsApart 0 (get_new_sstable_name levels 0) d result.0
      pub manifest :
          (result.0.manifest ≡ d.manifest)
          ⊎ ((stored : List SstableLevel) × (get_all_sstables o.manifest_opens d.manifest
                ≡ ok stored)
              × (result.0.manifest
                  ≡ some (
                      manifest_text is_print
                        (sort_levels (with_table stored 0 (get_new_sstable_name levels 0))))))
      pub levels_kept : (result.2 ≡ ok tt) ⊎ (result.1 ≡ levels)

    -- The manifest after a step, and the levels in memory.
    record IsAppended (o : Outcomes) (d : Disk) (levels : List SstableLevel) (name : Bytes)
        (result : Disk × List SstableLevel × Result (Unit {0})) : Type 0 where
      files :
          (n : ℕ) (other : Bytes)
          → (result.0.tables n other ≡ d.tables n other)
            × (result.0.sidecars n other ≡ d.sidecars n other)
      manifest :
          (result.0.manifest ≡ d.manifest)
          ⊎ ((stored : List SstableLevel) × (get_all_sstables o.manifest_opens d.manifest
                ≡ ok stored)
              × (result.0.manifest
                  ≡ some (manifest_text is_print (sort_levels (with_table stored 0 name)))))
      levels_kept : (result.2 ≡ ok tt) ⊎ (result.1 ≡ levels)

    append_read-IsAppended :
        (o : Outcomes) (f : ManifestFault) (d : Disk) (levels : List SstableLevel) (name : Bytes)
        (r : Result (List SstableLevel))
        → get_all_sstables o.manifest_opens d.manifest ≡ r
        → IsAppended o d levels name (append_read sum32 is_print f d levels 0 name r)
    unfolding append_read after_rewrite rewrite_manifest_from_levels
    append_read-IsAppended o ManifestFault.none_fails d levels name (ok stored) e = record {
      files = λ n other. (refl, refl);
      manifest = inr (stored, e, refl);
      levels_kept = inl refl;
    }
    append_read-IsAppended o ManifestFault.before_rename d levels name (ok stored) e = record {
      files = λ n other. (refl, refl);
      manifest = inl refl;
      levels_kept = inr refl;
    }
    append_read-IsAppended o ManifestFault.dir_sync_fails d levels name (ok stored) e = record {
      files = λ n other. (refl, refl);
      manifest = inr (stored, e, refl);
      levels_kept = inr refl;
    }
    append_read-IsAppended o f d levels name (err why) e = record {
      files = λ n other. (refl, refl);
      manifest = inl refl;
      levels_kept = inr refl;
    }
    append_read-IsAppended o f d levels name panicked e = record {
      files = λ n other. (refl, refl);
      manifest = inl refl;
      levels_kept = inr refl;
    }

    pub remove-IsWrite :
        (f : RemoveFault) (d : Disk) (level : ℕ) (name : Bytes)
        → IsWrite level name d (remove_sstable_and_bloom f d level name)
    unfolding remove_sstable_and_bloom remove_sidecar
    remove-IsWrite RemoveFault.none_fails d level name = record {
      apart = λ n other h. (
        put_file-other d.tables level name none n other h,
        put_file-other d.sidecars level name none n other h,
      );
      manifest = refl;
    }
    remove-IsWrite table_fails d level name = record {
      apart = λ n other h. (refl, refl);
      manifest = refl;
    }
    remove-IsWrite sidecar_fails d level name = record {
      apart = λ n other h. (put_file-other d.tables level name none n other h, refl);
      manifest = refl;
    }

    -- The manifest of a save in terms of the disk before it.
    abbrev KeepsManifest : Outcomes → Disk → Bytes → Option Bytes → Type 0
    KeepsManifest o d name manifest =
        (manifest ≡ d.manifest)
        ⊎ ((stored : List SstableLevel) × (get_all_sstables o.manifest_opens d.manifest ≡ ok stored)
            × (manifest ≡ some (manifest_text is_print (sort_levels (with_table stored 0 name)))))

    manifest_before :
        (o : Outcomes) (d d₁ : Disk) (name : Bytes) (manifest : Option Bytes)
        → d₁.manifest ≡ d.manifest
        → KeepsManifest o d₁ name manifest
        → KeepsManifest o d name manifest
    manifest_before o d d₁ name manifest e (inl same) = inl (same ∙ e)
    manifest_before o d d₁ name manifest e (inr (stored, reads, text)) =
        inr (stored, ap (get_all_sstables o.manifest_opens) (sym e) ∙ reads, text)

    after_append-IsSafe :
        (o : Outcomes) (d d₁ : Disk) (levels : List SstableLevel)
        (res : Disk × List SstableLevel × Result (Unit {0}))
        → IsWrite 0 (get_new_sstable_name levels 0) d d₁
        → IsAppended o d₁ levels (get_new_sstable_name levels 0) res
        → IsSafe o d levels
            (after_append sum32 is_print o.remove (get_new_sstable_name levels 0) res)
    unfolding after_append
    after_append-IsSafe o d d₁ levels (d₂, ls, ok u) w a = record {
      apart =
          IsApart-trans 0 (get_new_sstable_name levels 0) d d₁ d₂ w.apart
            (λ n other h. a.files n other);
      manifest =
          manifest_before o d d₁ (get_new_sstable_name levels 0) d₂.manifest w.manifest a.manifest;
      levels_kept = inl refl;
    }
    after_append-IsSafe o d d₁ levels (d₂, ls, err e) w a =
        let name = get_new_sstable_name levels 0 in
        let r = remove-IsWrite o.remove d₂ 0 name in
        let d₃ = remove_sstable_and_bloom o.remove d₂ 0 name in
        record {
          apart =
              IsApart-trans 0 name d d₂ d₃
                (IsApart-trans 0 name d d₁ d₂ w.apart (λ n other h. a.files n other)) r.apart;
          manifest =
              manifest_before o d d₁ name d₃.manifest w.manifest
                (subst (KeepsManifest o d₁ name) (sym r.manifest) a.manifest);
          levels_kept = a.levels_kept;
        }
    after_append-IsSafe o d d₁ levels (d₂, ls, panicked) w a = record {
      apart =
          IsApart-trans 0 (get_new_sstable_name levels 0) d d₁ d₂ w.apart
            (λ n other h. a.files n other);
      manifest =
          manifest_before o d d₁ (get_new_sstable_name levels 0) d₂.manifest w.manifest a.manifest;
      levels_kept = a.levels_kept;
    }

    after_write-IsSafe :
        (o : Outcomes) (d : Disk) (levels : List SstableLevel) (res : Disk × Result (Unit {0}))
        → IsWrite 0 (get_new_sstable_name levels 0) d res.0
        → IsSafe o d levels
            (after_write sum32 is_print o levels (get_new_sstable_name levels 0) res)
    unfolding after_write append_table_to_manifest_locked
    after_write-IsSafe o d levels (d₁, ok u) w =
        let name = get_new_sstable_name levels 0 in
        after_append-IsSafe o d d₁ levels
          (append_table_to_manifest_locked sum32 is_print o d₁ levels 0 name) w
          (append_read-IsAppended o o.manifest d₁ levels name
            (get_all_sstables o.manifest_opens d₁.manifest) refl)
    after_write-IsSafe o d levels (d₁, err e) w = record {
      apart = w.apart;
      manifest = inl w.manifest;
      levels_kept = inr refl;
    }
    after_write-IsSafe o d levels (d₁, panicked) w = record {
      apart = w.apart;
      manifest = inl w.manifest;
      levels_kept = inr refl;
    }

    -- Wherever a save fails, or if it succeeds, the files of all other tables stay, the manifest is
    -- the old one or lists the old tables and the new one, and the levels in memory change only if
    -- the save succeeds.
    pub save_level0_sstable_entries-IsSafe :
        (o : Outcomes) (d : Disk) (levels : List SstableLevel) (entries : List SstableEntry)
        → IsSafe o d levels (save_level0_sstable_entries sum32 is_print o d levels entries)
    unfolding save_level0_sstable_entries
    save_level0_sstable_entries-IsSafe o d levels entries =
        let name = get_new_sstable_name levels 0 in
        after_write-IsSafe o d levels (write_sorted_sstable_file sum32 o.table d 0 name entries)
          (write_sorted_sstable_file-IsWrite o.table d 0 name entries)
