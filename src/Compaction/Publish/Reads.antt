-- ===== src/Compaction/Publish/Reads.antt =====
-- A scan of readable tables answers with the newest version of a key.
use mathlib.Core.List.{reverse, reverse-append}
use k_lsm_engine.Prelude.{
  ℕ, ◌≡◌, refl, sym, ap, ◌∙◌, Option, none, some, List, [], ◌∷◌, ◌++◌, All, map, Bytes, Result, ok,
}
use k_lsm_engine.Entry.{StorageEntry}
use k_lsm_engine.Bloom.{BloomFilter}
use k_lsm_engine.Table.Block.{IsTable, stored}
use k_lsm_engine.Table.Order.{find_entry}
use k_lsm_engine.Engine.Parts.{over}
use k_lsm_engine.Store.{SstableKeyRange, or_else, scan, read_table}
use k_lsm_engine.Store.Skip.{IsSound, first_read, scan-first_read, read_table-find}
use k_lsm_engine.Compaction.Merge.Opened.{StoredTable, files_of}
use k_lsm_engine.Compaction.Publish.Answer.{newest_find, entries_of_tables, present}

module _ (sum32 : Bytes → ℕ) (files : ℕ → Bytes → Option Bytes) (level : ℕ)
    (ranges : List (Bytes × SstableKeyRange)) (filters : List (Bytes × BloomFilter)) where
  -- A sound table, whose entries are in their order.
  pub record IsReadable (table : Bytes) : Type 0 where
    pub sound : IsSound sum32 files level ranges filters table
    pub valid : IsTable none sound.entries

  abbrev pub stored_of : (table : Bytes) → IsReadable table → StoredTable
  stored_of table r = record {
    entries = r.sound.entries;
    file = r.sound.file;
    table = r.sound.opened;
    holds = r.sound.holds;
    valid = r.valid;
  }

  abbrev pub tables_read : (tables : List Bytes) → All IsReadable tables → List StoredTable
  tables_read [] h = []
  tables_read (table ∷ rest) h = stored_of table h.0 ∷ tables_read rest h.1

  pub files-tables_read :
      (tables : List Bytes) (h : All IsReadable tables)
      → map (files level) tables ≡ files_of (present (tables_read tables h))
  files-tables_read [] h = refl
  files-tables_read (table ∷ rest) h =
      ap (λ o. o ∷ map (files level) rest) h.0.sound.there
      ∙ ap (λ os. some h.0.sound.file ∷ os) (files-tables_read rest h.1)

  or_else_assoc :
      (a b c : Result (Option StorageEntry)) → or_else (or_else a b) c ≡ or_else a (or_else b c)
  unfolding or_else
  or_else_assoc (ok (some e)) b c = refl
  or_else_assoc (ok none) b c = refl
  or_else_assoc (Result.err e) b c = refl
  or_else_assoc Result.panicked b c = refl

  module _ (key : Bytes) where
    first_read-append :
        (a b : List Bytes)
        → first_read sum32 files level ranges filters key (a ++ b)
          ≡ or_else
              (first_read sum32 files level ranges filters key a)
              (first_read sum32 files level ranges filters key b)
    unfolding first_read or_else
    first_read-append [] b = refl
    first_read-append (t ∷ a) b =
        ap (or_else (read_table sum32 files level key t)) (first_read-append a b)
        ∙ sym (
            or_else_assoc (read_table sum32 files level key t)
              (first_read sum32 files level ranges filters key a)
              (first_read sum32 files level ranges filters key b))

    or_else-over : (a b : Option StorageEntry) → or_else (ok a) (ok b) ≡ ok (over a b)
    unfolding or_else
    or_else-over none b = refl
    or_else-over (some e) b = refl

    or_else-none : (r : Result (Option StorageEntry)) → or_else r (ok none) ≡ r
    unfolding or_else
    or_else-none (ok none) = refl
    or_else-none (ok (some e)) = refl
    or_else-none (Result.err e) = refl
    or_else-none Result.panicked = refl

    first_read-reverse :
        (tables : List Bytes) (h : All IsReadable tables)
        → first_read sum32 files level ranges filters key (reverse tables)
          ≡ ok (newest_find key (entries_of_tables (tables_read tables h)))
    unfolding newest_find first_read
    first_read-reverse [] h = refl
    first_read-reverse (t ∷ ts) h =
        ap (first_read sum32 files level ranges filters key) (reverse-append (t ∷ []) ts)
        ∙ first_read-append (reverse ts) (t ∷ [])
        ∙ rw
            (
              first_read-reverse ts h.1,
              or_else-none (read_table sum32 files level key t),
              read_table-find sum32 files level ranges filters key t h.0.sound,
            )
            (or_else-over (newest_find key (entries_of_tables (tables_read ts h.1)))
              (find_entry key (map stored h.0.sound.entries)))

    All-append :
        (a b : List Bytes)
        → All (IsSound sum32 files level ranges filters) a
        → All (IsSound sum32 files level ranges filters) b
        → All (IsSound sum32 files level ranges filters) (a ++ b)
    All-append [] b h k = k
    All-append (t ∷ a) b h k = (h.0, All-append a b h.1 k)

    reverse-AllSound :
        (tables : List Bytes)
        → All IsReadable tables
        → All (IsSound sum32 files level ranges filters) (reverse tables)
    reverse-AllSound [] h = tt
    reverse-AllSound (t ∷ ts) h =
        rw (reverse-append (t ∷ []) ts)
          (All-append (reverse ts) (t ∷ []) (reverse-AllSound ts h.1) (h.0.sound, tt))

    -- The scan of a level whose tables are readable, the newest first.
    pub scan-newest_find :
        (tables : List Bytes) (h : All IsReadable tables)
        → scan sum32 files ranges filters level key (reverse tables)
          ≡ ok (newest_find key (entries_of_tables (tables_read tables h)))
    scan-newest_find tables h =
        scan-first_read sum32 files level ranges filters key (reverse tables)
          (reverse-AllSound tables h)
        ∙ first_read-reverse tables h
