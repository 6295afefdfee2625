-- ===== src/MemTable/Snapshot.antt =====
-- A memtable and the table that is written from its snapshot.
use k_lsm_engine.Prelude.{
  ◌≤◌, ◌≡◌, refl, sym, ◌∙◌, true, false, Option, none, some, List, [], ◌∷◌, map, length, All, Bytes,
  str_lt, ok, ok-injective,
}
use k_lsm_engine.Entry.{SstableEntry}
use k_lsm_engine.Table
use k_lsm_engine.Table.{BlockBasedTable, not_above, write_block_based_table, open_block_based_table}
use k_lsm_engine.Table.Block.{IsStorableEntry, IsTable}
use k_lsm_engine.Table.Open.{write_block_based_table-Holds}
use k_lsm_engine.SkipList.Chain.{Cell}
use k_lsm_engine.SkipList.Invariant.{IsOrdered}
use k_lsm_engine.SkipList.Reads.{cell_entry}
use k_lsm_engine.MemTable.{MemTable, entries}
use k_lsm_engine.MemTable
use k_lsm_engine.MemTable.Valid.{IsMemTable, entries-cells, entries-find_entry}

not_above-lt : (a b : Bytes) → str_lt a b ≡ true → not_above (some a) b ≡ false
unfolding not_above
not_above-lt a b h = rw h

IsTable-cells :
    (before : Option Bytes) (cells : List Cell)
    → All (λ c. not_above before c.key ≡ false) cells
    → IsOrdered cells
    → All IsStorableEntry (map cell_entry cells)
    → IsTable before (map cell_entry cells)
IsTable-cells before [] h o s = tt
IsTable-cells before (c ∷ cells) h o s =
    (h.0, s.0, IsTable-cells (some c.key) cells (above c.key cells o.0) o.1 s.1)
  where
    above :
        (k : Bytes) (cs : List Cell)
        → All (λ d. str_lt k d.key ≡ true) cs
        → All (λ d. not_above (some k) d.key ≡ false) cs
    above k [] a = tt
    above k (d ∷ cs) a = (not_above-lt k d.key a.0, above k cs a.1)

none_above : (cells : List Cell) → All (λ c. not_above none c.key ≡ false) cells
unfolding not_above
none_above [] = tt
none_above (c ∷ cells) = (refl, none_above cells)

-- The snapshot of a valid memtable of at most 1953 entries that fit their fields is written to a
-- table that opens and answers every key as the memtable does.
pub get-write-entries :
    (mem : MemTable) (cells : List Cell) (es : List SstableEntry)
    → IsMemTable mem cells
    → entries mem ≡ ok es
    → All IsStorableEntry es
    → length es ≤ 1953
    → (file : Bytes) × (t : BlockBasedTable) × (write_block_based_table es ≡ ok file)
      × (open_block_based_table file ≡ ok t)
      × ((key : Bytes) → Table.get t key ≡ MemTable.get mem key)
get-write-entries mem cells es v snapshot fit few =
    let own = entries-find_entry mem cells v in
    let e : es ≡ map cell_entry cells =
      ok-injective _ _ (sym snapshot ∙ entries-cells mem cells v) in
    let sorted : IsTable none es =
      rw e (IsTable-cells none cells (none_above cells) v.list.ordered (rw e at fit)) in
    let same : own.0 ≡ es = ok-injective _ _ (sym own.1 ∙ snapshot) in
    let (file, t, written, holds) = write_block_based_table-Holds es sorted few in
    (file, t, written, holds.opens, λ key. holds.answers key ∙ sym (rw same at (own.2 key)))
