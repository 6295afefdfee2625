-- ===== src/Compaction.antt =====
-- internal/storage/compaction.go: the readers of the tables and the order of the merge heap. The
-- path of a reader is only text of its errors, and is left out.
pub mod Order
pub mod Readers
pub mod Merge
pub mod Publish
use k_lsm_engine.Prelude.{
  ℕ, zero, suc, ◌+◌, ◌-◌, Bool, true, false, not, Option, none, some, List, [], ◌∷◌, length, ltb,
  ◌==◌, if◌then◌else◌, get_elem?, Bytes, str_eq, str_lt, Result, ok, err, panicked, ◌>>=◌,
}
use k_lsm_engine.Entry.{StorageEntry, SstableEntry, entry_type_put}
use k_lsm_engine.Table.{BlockBasedTable, open_block_based_table, read_block}
use k_lsm_engine.Store.{SstableLevel}

-- `entries` is none where it is nil in the source.
pub record SstableReader : Type 0 where
  pub table : BlockBasedTable
  pub block : ℕ
  pub entries : Option (List SstableEntry)
  pub entry_at : ℕ
  pub entry : Option SstableEntry
  pub has_next : Bool

pub new_sstable_reader : Bytes → Result SstableReader
new_sstable_reader file = do
  table ← open_block_based_table file
  ok (record {
    table = table;
    block = 0;
    entries = none;
    entry_at = 0;
    entry = none;
    has_next = false;
  })

-- the current block, read if it is not there
load : SstableReader → Option (List SstableEntry) → Result (List SstableEntry × SstableReader)
load r (some es) = ok (es, r)
load r none = do
  es ← read_block r.table r.block
  ok (es, record r { entries = some es; entry_at = 0 })

-- the next entry of the block, or else what the next round of the loop does
yield_entry : SstableReader → Option SstableEntry → Result SstableReader → Result SstableReader
yield_entry r none rest = rest
yield_entry r (some e) rest =
    ok (record r { entry = some e; entry_at = r.entry_at + 1; has_next = true })

-- The rounds that are left are the blocks that are left.
pub advance_loop : ℕ → SstableReader → Result SstableReader
unfolding load yield_entry
advance_loop zero r = ok (record r { has_next = false })
advance_loop (suc left) r = do
  loaded ← load r r.entries
  yield_entry loaded.1 (get_elem? loaded.0 loaded.1.entry_at)
      (advance_loop left (record loaded.1 { block = loaded.1.block + 1; entries = none }))

pub advance : SstableReader → Result SstableReader
unfolding advance_loop
advance r = advance_loop (length r.table.index - r.block) r

pub record SstableHeapItem : Type 0 where
  pub key : Bytes
  pub entry : StorageEntry
  pub table_index : ℕ
  pub level : ℕ

-- `sstableHeap.Less` of two items
pub less : SstableHeapItem → SstableHeapItem → Bool
less a b =
    if not (str_eq a.key b.key)
    then str_lt a.key b.key
    else if not (a.level == b.level)
    then ltb a.level b.level
    else ltb b.table_index a.table_index

unfoldable pub get_tables_for_level : List SstableLevel → ℕ → List Bytes
get_tables_for_level [] level = []
get_tables_for_level (l ∷ rest) level =
    if l.level == level then l.tables else get_tables_for_level rest level
