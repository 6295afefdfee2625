-- ===== src/Compaction/Publish/Files.antt =====
-- The files that the writes and the removals of a compaction change.
use k_lsm_engine.Prelude.{
  ℕ, ◌≡◌, refl, ap, ◌∙◌, Bool, true, false, not, Option, some, List, [], ◌∷◌, All, arith, ◌==◌,
  Bytes, str_eq_refl,
}
use k_lsm_engine.Bloom.{bloom_filter_for_entries}
use k_lsm_engine.Bloom.Members.{bloom_filter_for_entries-IsFilter}
use k_lsm_engine.Bloom.Sidecar.{parse_sidecar-sidecar_contents}
use k_lsm_engine.Store.{table_name}
use k_lsm_engine.Store.Disk.{sidecar_filter, read_sidecar}
use k_lsm_engine.Store.Publish.{
  Disk, put_file, SidecarFault, TableFault, sidecar, RemoveFault, remove_sstable_and_bloom,
  write_sorted_sstable_file,
}
use k_lsm_engine.Store.Publish.Safe.{write_sorted_sstable_file-IsWrite, remove-IsWrite}
use k_lsm_engine.Compaction.Merge.{NewTable}
use k_lsm_engine.Compaction.Publish.{
  CompactionOutcomes, is_written, write_is_faulty, stat_of_number, write_new_tables, remove_tables,
  names_of,
}
use k_lsm_engine.Compaction.Publish.Numbers.{AreDistinct, IsNew}
use k_lsm_engine.Compaction.Publish.Names.{IsOther, IsOther-names_of}

-- The file of a name and its sidecar are the same.
abbrev pub IsSame : ℕ → Bytes → Disk → Disk → Type 0
IsSame n name d d' = (d'.tables n name ≡ d.tables n name) × (d'.sidecars n name ≡ d.sidecars n name)

is_written_inv : (f : TableFault) → is_written f ≡ true → f ≡ sidecar SidecarFault.none_fails
unfolding is_written
is_written_inv (sidecar SidecarFault.none_fails) h = refl
is_written_inv (sidecar SidecarFault.before_rename) h = cc
is_written_inv (sidecar SidecarFault.dir_sync_fails) h = cc
is_written_inv TableFault.create_fails h = cc
is_written_inv TableFault.chmod_fails h = cc
is_written_inv TableFault.write_fails h = cc
is_written_inv TableFault.rename_fails h = cc
is_written_inv TableFault.sidecar_stays h = cc
is_written_inv TableFault.sync_dir_fails h = cc

not-false : (b : Bool) → not b ≡ false → b ≡ true
not-false b h = ground arith

pub put_file-own :
    (files : ℕ → Bytes → Option Bytes) (level : ℕ) (name : Bytes) (contents : Option Bytes)
    → put_file files level name contents level name ≡ contents
unfolding put_file
put_file-own files level name contents =
    let here : (level == level) ≡ true = ground arith in rw (here, str_eq_refl name) refl

module _ (sum32 : Bytes → ℕ) (o : CompactionOutcomes) where
  -- The file of a new table and its filter are in place.
  abbrev pub IsInPlace : Disk → NewTable → Type 0
  IsInPlace d t =
      (d.tables 1 (table_name t.number) ≡ some t.file)
      × (sidecar_filter d.sidecars 1 (table_name t.number)
          ≡ some (bloom_filter_for_entries sum32 t.chunk))

  write_new-IsInPlace :
      (d : Disk) (rounds next : ℕ) (t : NewTable)
      → IsNew (stat_of_number sum32 o) (write_is_faulty sum32 o) rounds next t
      → IsInPlace
          (write_sorted_sstable_file sum32 (o.faults t.number) d 1 (table_name t.number) t.chunk).0
          t
  unfolding write_sorted_sstable_file sidecar_filter
  write_new-IsInPlace d rounds next t n =
      let works = is_written_inv (o.faults t.number) (not-false _ n.writes) in
      let (contents, written, filter) =
        parse_sidecar-sidecar_contents (bloom_filter_for_entries sum32 t.chunk)
          (bloom_filter_for_entries-IsFilter sum32 t.chunk) in
      rw (works, n.file, written)
        (
          put_file-own d.tables 1 (table_name t.number) (some t.file),
          rw (put_file-own d.sidecars 1 (table_name t.number) (some contents), filter) refl,
        )

  pub write_new_tables-IsSame :
      (d : Disk) (n : ℕ) (name : Bytes) (ts : List NewTable)
      → IsOther n name 1 (names_of ts)
      → IsSame n name d (write_new_tables sum32 o d ts)
  unfolding write_new_tables
  write_new_tables-IsSame d n name [] h = (refl, refl)
  write_new_tables-IsSame d n name (t ∷ ts) h =
      let d₁ =
        (write_sorted_sstable_file sum32 (o.faults t.number) d 1 (table_name t.number) t.chunk).0 in
      let a =
        (write_sorted_sstable_file-IsWrite sum32 (o.faults t.number) d 1 (table_name t.number)
            t.chunk).apart
          n name h.0 in
      let b = write_new_tables-IsSame d₁ n name ts h.1 in (b.0 ∙ a.0, b.1 ∙ a.1)

  pub write_new_tables-IsInPlace :
      (d : Disk) (rounds next : ℕ) (ts : List NewTable)
      → All (IsNew (stat_of_number sum32 o) (write_is_faulty sum32 o) rounds next) ts
      → AreDistinct ts
      → All (IsInPlace (write_new_tables sum32 o d ts)) ts
  unfolding write_new_tables sidecar_filter
  write_new_tables-IsInPlace d rounds next [] news distinct = tt
  write_new_tables-IsInPlace d rounds next (t ∷ ts) news distinct =
      let d₁ =
        (write_sorted_sstable_file sum32 (o.faults t.number) d 1 (table_name t.number) t.chunk).0 in
      let own = write_new-IsInPlace d rounds next t news.0 in
      let kept =
        write_new_tables-IsSame d₁ 1 (table_name t.number) ts
          (IsOther-names_of 1 t.number ts distinct.0) in
      (
        (kept.0 ∙ own.0, ap read_sidecar kept.1 ∙ own.1),
        write_new_tables-IsInPlace d₁ rounds next ts news.1 distinct.1,
      )

pub remove_tables-IsSame :
    (removes : ℕ → Bytes → RemoveFault) (d : Disk) (level n : ℕ) (name : Bytes)
    (tables : List Bytes)
    → IsOther n name level tables
    → IsSame n name d (remove_tables removes d level tables)
unfolding remove_tables
remove_tables-IsSame removes d level n name [] h = (refl, refl)
remove_tables-IsSame removes d level n name (t ∷ ts) h =
    let a = (remove-IsWrite (λ b. 0) (λ c. true) (removes level t) d level t).apart n name h.0 in
    let b =
      remove_tables-IsSame removes (remove_sstable_and_bloom (removes level t) d level t) level n
        name ts h.1 in
    (b.0 ∙ a.0, b.1 ∙ a.1)
