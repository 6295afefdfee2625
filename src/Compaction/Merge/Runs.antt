-- ===== src/Compaction/Merge/Runs.antt =====
-- The whole merge where no call of the operating system fails.
use mathlib.Core.Path.{subst}
use k_lsm_engine.Prelude.{
  ℕ, zero, suc, ◌+◌, ◌≤◌, ◌≡◌, ◌≢◌, inl, refl, sym, Bool, true, false, Option, none, some, List, [],
  ◌∷◌, map, All, arith, Bytes, ok, err, io_error,
}
use k_lsm_engine.Entry.{EntryType, entry_type_put, entry_type_delete, other, SstableEntry}
use k_lsm_engine.Table.Block.{IsTable, IsStorableEntry, stored}
use k_lsm_engine.Store.Disk.{StatOutcome, missing, there, unreadable}
use k_lsm_engine.Compaction.{SstableReader, advance}
use k_lsm_engine.Compaction.Readers.{Yields, new_sstable_reader-Yields}
use k_lsm_engine.Compaction.Merge.{
  MergeState, push_reader, add_table, add_tables, free_number, merge_tables,
}
use k_lsm_engine.Compaction.Merge.Least.{Source}
use k_lsm_engine.Compaction.Merge.Newest.{output}
use k_lsm_engine.Compaction.Merge.Opened.{
  StoredTable, files_of, open_table, open_tables, add_tables-IsOpened,
}
use k_lsm_engine.Compaction.Merge.Tables.{sources_of}
use k_lsm_engine.Compaction.Merge.Advance.{total}
use k_lsm_engine.Compaction.Merge.Rising.{Rising, IsSorted, merge_loop-Rising}
use k_lsm_engine.Compaction.Merge.Success.{AreStorable, IsKept, flush_chunk-runs, merge_loop-runs}

stored_fields-IsStorableEntry :
    (k v : Bytes) (type : EntryType)
    → IsStorableEntry (record { k = k; v = v; type = type })
    → IsStorableEntry (stored (record { k = k; v = v; type = type }))
unfolding stored
stored_fields-IsStorableEntry k v entry_type_put h = record { key = h.key; value = h.value }
stored_fields-IsStorableEntry k v entry_type_delete h = record { key = h.key; value = tt }
stored_fields-IsStorableEntry k v (other t) h = absurd h.value

map-AreStorable :
    (before : Option Bytes) (es : List SstableEntry)
    → IsTable before es
    → AreStorable (map stored es)
map-AreStorable before [] h = tt
map-AreStorable before (e ∷ es) h =
    (stored_fields-IsStorableEntry e.k e.v e.type h.1, map-AreStorable (some e.k) es h.2)

open_table-IsKept :
    (level : ℕ) (opened : ℕ × List Source) (es : List SstableEntry)
    → All IsKept opened.1
    → AreStorable es
    → All IsKept (open_table level opened es).1
open_table-IsKept level opened [] kept h = kept
open_table-IsKept level opened (e ∷ es) kept h = (h, kept)

open_tables-IsKept :
    (level : ℕ) (opened : ℕ × List Source) (ts : List (Option StoredTable))
    → All IsKept opened.1
    → All IsKept (open_tables level opened ts).1
open_tables-IsKept level opened [] kept = kept
open_tables-IsKept level opened (none ∷ ts) kept = open_tables-IsKept level opened ts kept
open_tables-IsKept level opened (some t ∷ ts) kept =
    open_tables-IsKept level (open_table level opened (map stored t.entries)) ts (
      open_table-IsKept level opened (map stored t.entries) kept
        (map-AreStorable none t.entries t.valid))

advance-runs :
    (r : SstableReader) (es : List SstableEntry)
    → Yields r es
    → (r' : SstableReader) × (advance r ≡ ok r')
advance-runs r [] (r', runs, _) = (r', runs)
advance-runs r (e ∷ es) (r', runs, _, _, _) = (r', runs)

add_tables-runs :
    (level : ℕ) (st : MergeState) (ts : List (Option StoredTable))
    → (st' : MergeState) × (add_tables level st (files_of ts) ≡ ok st')
unfolding add_tables add_table
add_tables-runs level st [] = (st, refl)
add_tables-runs level st (none ∷ ts) = add_tables-runs level st ts
add_tables-runs level st (some t ∷ ts) =
    let (r, opens, yields) = new_sstable_reader-Yields t.entries t.file t.table t.holds in
    let (r', runs) = advance-runs r (map stored t.entries) yields in
    let (st', rest) = add_tables-runs level (push_reader st level r') ts in
    (st', rw (opens, runs) rest)

module _ (stat : ℕ → StatOutcome) (fails : ℕ → Bool) (bound : ℕ)
    (missing_from : (n : ℕ) → bound ≤ n → stat n ≡ missing)
    (readable : (n : ℕ) → stat n ≢ unreadable) where
  -- The search passes the numbers that files have, all of them below the bound.
  free_number-finds :
      (rounds n : ℕ) → bound ≤ n + rounds → (m : ℕ) × (free_number stat fails (suc rounds) n ≡ ok m)
  unfolding free_number
  free_number-finds zero n enough =
      let free = missing_from n (omega (arith, enough)) in (n, rw (free_number, free) refl)
  free_number-finds (suc rounds) n enough =
      by_outcome (stat n) refl (free_number-finds rounds (n + 1) (omega (arith, enough)))
    where
      by_outcome :
          (o : StatOutcome)
          → stat n ≡ o
          → (m : ℕ) × (free_number stat fails (suc rounds) (n + 1) ≡ ok m)
          → (m : ℕ) × ((elim o [
            | missing ↦ ok n
            | there ↦ free_number stat fails (suc rounds) (n + 1)
            | unreadable ↦ err io_error
          ])
              ≡ ok m)
      by_outcome missing e later = (n, refl)
      by_outcome there e later = later
      by_outcome unreadable e later = absurd (readable n e)

module _ (stat : ℕ → StatOutcome) (fails : ℕ → Bool) (bound rounds : ℕ)
    (missing_from : (n : ℕ) → bound ≤ n → stat n ≡ missing)
    (readable : (n : ℕ) → stat n ≢ unreadable) (writes : (n : ℕ) → fails n ≡ false)
    (enough : bound ≤ rounds) where
  -- The merge of the table files of two levels, of which some may be missing, succeeds on the fuel
  -- of their entries if the numbers from a bound on are free, the search for a number has more
  -- rounds than the bound, the outcome of os.Stat is known for each number, and no write fails for
  -- a reason of the operating system.
  pub merge_tables-runs :
      (l0 l1 : List (Option StoredTable)) (fuel n : ℕ)
      → total (sources_of l0 l1) ≤ fuel
      → (st : MergeState) × (merge_tables stat fails (suc rounds) fuel n (files_of l0) (files_of l1)
          ≡ ok st)
  unfolding merge_tables
  merge_tables-runs l0 l1 fuel n fuelled =
      let free = λ (n : ℕ).
        free_number-finds stat fails bound missing_from readable rounds n (omega (arith, enough)) in
      let start : MergeState = record {
        readers = [];
        heap = [];
        chunk = [];
        chunk_min_key = [];
        chunk_max_key = [];
        current_key = [];
        first = true;
        next_l1_index = n;
        new_tables = [];
      } in
      let (s₀, adds₀) = add_tables-runs 0 start l0 in
      let (s₁, adds₁) = add_tables-runs 1 s₀ l1 in
      let o₀ =
        add_tables-IsOpened start s₀ (0, []) 0 l0
          (record {
            merge = record { heap = refl; sources = tt; alone = tt };
            count = refl;
            below = tt;
            first = refl;
            chunk = refl;
            new_tables = refl;
          })
          adds₀ in
      let level0 = open_tables 0 (0, []) l0 in
      let ss = (open_tables 1 level0 l1).1 in
      let o = add_tables-IsOpened s₀ s₁ level0 1 l1 o₀ adds₁ in
      let nothing : output s₁ ≡ [] = rw (o.new_tables, o.chunk) refl in
      let sorted : IsSorted s₁ ss = record {
        rising = subst Rising (sym nothing) tt;
        place = inl (o.first, nothing);
      } in
      let (s₂, loops, writable) =
        merge_loop-runs stat fails (suc rounds) free writes fuel s₁ ss fuelled (record {
          merge = o.merge;
          sorted = sorted;
          kept = open_tables-IsKept 1 level0 l1 (open_tables-IsKept 0 (0, []) l0 tt);
          writable = record {
            storable = subst AreStorable (sym o.chunk) tt;
            fits = rw o.chunk (omega arith);
          };
        }) in
      let rising = merge_loop-Rising stat fails (suc rounds) fuel s₁ s₂ ss o.merge sorted loops in
      let (st, flushes, _) =
        flush_chunk-runs stat fails (suc rounds) free writes s₂ rising writable in
      (st, rw (adds₀, adds₁, loops) flushes)
