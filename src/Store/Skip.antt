-- ===== src/Store/Skip.antt =====
-- Key ranges and bloom filters only save reads: they never change an answer.
use mathlib.Core.Bool.{true≢false}
use k_lsm_engine.Prelude.{
  ℕ, ◌≡◌, refl, sym, ap, ◌∙◌, ◌⊎◌, inl, inr, Bool, true, false, ◌&&◌, Option, none, some, List, [],
  ◌∷◌, map, All, arith, Bool-cases, Bytes, str_eq, str_eq_iff, Result, ok,
}
use k_lsm_engine.Entry.{StorageEntry, SstableEntry}
use k_lsm_engine.Table.{BlockBasedTable}
use k_lsm_engine.Table.Block.{stored}
use k_lsm_engine.Table.Order.{find_entry}
use k_lsm_engine.Table.Open.{Holds}
use k_lsm_engine.Bloom.{BloomFilter, bloom_filter_for_entries}
use k_lsm_engine.Bloom.Members.{found-bloom_filter_for_entries}
use k_lsm_engine.Store.{
  read_file, read_opened, found_or_none, SstableKeyRange, lookup, l1_table_may_contain, read_table,
  filter_admits, admits, or_else, scan,
}

find_entry-absent :
    (key : Bytes) (es : List SstableEntry)
    → All (λ e. str_eq e.k key ≡ false) es
    → find_entry key (map stored es) ≡ none
unfolding find_entry stored
find_entry-absent key [] h = refl
find_entry-absent key (e ∷ es) h = rw h.0 (find_entry-absent key es h.1)

-- If all the keys pass a test that the key fails, the key is not among them.
absent_by :
    (test : Bytes → Bool) (key : Bytes) (es : List SstableEntry)
    → test key ≡ false
    → All (λ e. test e.k ≡ true) es
    → All (λ e. str_eq e.k key ≡ false) es
absent_by test key [] fails h = tt
absent_by test key (e ∷ es) fails h = (
  elim (Bool-cases (str_eq e.k key)) [
    | inl same ↦ absurd (true≢false (sym h.0 ∙ ap test ((str_eq_iff e.k key).0 same) ∙ fails))
    | inr ne ↦ ne
  ],
  absent_by test key es fails h.1,
)

fails_of_and : (a b : Bool) → a && b ≡ false → (a ≡ false) ⊎ (b ≡ false)
fails_of_and a b h = ground arith

module _ (sum32 : Bytes → ℕ) (files : ℕ → Bytes → Option Bytes) (level : ℕ)
    (ranges : List (Bytes × SstableKeyRange)) (filters : List (Bytes × BloomFilter)) where
  -- The file of a table holds entries; its filter, if it has one, is that of the entries, and its
  -- range, if it has one, has all their keys.
  pub record IsSound (table : Bytes) : Type 0 where
    pub entries : List SstableEntry
    pub file : Bytes
    pub opened : BlockBasedTable
    pub there : files level table ≡ some file
    pub holds : Holds entries file opened
    pub filter :
        (lookup table filters ≡ none)
        ⊎ (lookup table filters ≡ some (bloom_filter_for_entries sum32 entries))
    pub range : All (λ e. l1_table_may_contain e.k (lookup table ranges) ≡ true) entries

  -- The tables in their order, each one read.
  unfoldable pub first_read : Bytes → List Bytes → Result (Option StorageEntry)
  first_read key [] = ok none
  first_read key (table ∷ rest) =
      or_else (read_table sum32 files level key table) (first_read key rest)

  module _ (key : Bytes) where
    pub read_table-find :
        (table : Bytes) (s : IsSound table)
        → read_table sum32 files level key table ≡ ok (find_entry key (map stored s.entries))
    unfolding read_table read_file read_opened found_or_none
    read_table-find table s = rw (s.there, s.holds.opens, s.holds.answers key)

    filter_admits-own :
        (table : Bytes) (s : IsSound table)
        → All (λ e. filter_admits sum32 files e.k (lookup table filters) ≡ true) s.entries
    unfolding filter_admits
    filter_admits-own table s = elim s.filter [
      | inl none' ↦ rw none' (all_refl s.entries)
      | inr some' ↦ rw some' (found-bloom_filter_for_entries sum32 s.entries)
    ]
      where
        all_refl : (es : List SstableEntry) → All (λ e. true ≡ true) es
        all_refl [] = tt
        all_refl (e ∷ es) = (refl, all_refl es)

    skipped_reads_none :
        (table : Bytes)
        → IsSound table
        → admits sum32 files ranges filters key table ≡ false
        → read_table sum32 files level key table ≡ ok none
    unfolding admits
    skipped_reads_none table s h =
        read_table-find table s
        ∙ ap ok (
            find_entry-absent key s.entries (elim (fails_of_and _ _ h) [
              | inl out ↦
                  absent_by (λ k. l1_table_may_contain k (lookup table ranges)) key s.entries out
                    s.range
              | inr absent ↦
                  absent_by (λ k. filter_admits sum32 files k (lookup table filters)) key s.entries
                    absent (filter_admits-own table s)
            ]))

    or_else-none : (rest : Result (Option StorageEntry)) → or_else (ok none) rest ≡ rest
    unfolding or_else
    or_else-none rest = refl

    -- The scan of a level that skips tables by their key range and their filter answers as one that
    -- reads every table in the same order, if each table is sound.
    pub scan-first_read :
        (tables : List Bytes)
        → All IsSound tables
        → scan sum32 files ranges filters level key tables ≡ first_read key tables
    unfolding scan first_read
    scan-first_read [] h = refl
    scan-first_read (table ∷ rest) h =
        elim (Bool-cases (admits sum32 files ranges filters key table)) [
          | inl read ↦ rw (read, scan-first_read rest h.1)
          | inr skipped ↦
              rw (skipped, skipped_reads_none table h.0 skipped)
                (scan-first_read rest h.1 ∙ sym (or_else-none (first_read key rest)))
        ]
