-- ===== src/Compaction/Merge.antt =====
-- The merge of `compactSSTables` in internal/storage/compaction.go: from the files of the two levels
-- to the new tables of level 1.
--
-- The heap of container/heap is the list of its items, and `Pop` takes the least of them: no two
-- items have one table, so there is only one least item, whatever the layout of the heap.
pub mod Least
pub mod Newest
pub mod Steps
pub mod Advance
pub mod Answers
pub mod Loop
pub mod Rising
pub mod Opened
pub mod Success
pub mod Runs
pub mod Tables
mod Tests
use k_lsm_engine.Prelude.{
  ℕ, zero, suc, ◌+◌, Bool, true, false, not, Option, none, some, List, [], ◌∷◌, ◌++◌, length, ◌||◌,
  ◌==◌, if◌then◌else◌, get_elem?, set, Bytes, str_eq, Result, ok, err, panicked, ◌>>=◌, checked,
  io_error, out_of_fuel,
}
use k_lsm_engine.Entry.{StorageEntry, SstableEntry, storage_entry, other}
use k_lsm_engine.Table.{write_block_based_table, sstable_max_entries}
use k_lsm_engine.Store.{SstableKeyRange}
use k_lsm_engine.Store.Disk.{StatOutcome, there, missing, unreadable}
use k_lsm_engine.Compaction.{SstableReader, new_sstable_reader, advance, SstableHeapItem, less}

-- A table that was written: its number, the chunk, and the file.
pub record NewTable : Type 0 where
  pub number : ℕ
  pub key_range : SstableKeyRange
  pub chunk : List SstableEntry
  pub file : Bytes

-- the variables of the merge
pub record MergeState : Type 0 where
  pub readers : List SstableReader
  pub heap : List SstableHeapItem
  pub chunk : List SstableEntry
  pub chunk_min_key : Bytes
  pub chunk_max_key : Bytes
  pub current_key : Bytes
  pub first : Bool
  pub next_l1_index : ℕ
  pub new_tables : List NewTable

-- the state before the tables are opened
abbrev pub start_state : ℕ → MergeState
start_state next_l1_index = record {
  readers = [];
  heap = [];
  chunk = [];
  chunk_min_key = [];
  chunk_max_key = [];
  current_key = [];
  first = true;
  next_l1_index = next_l1_index;
  new_tables = [];
}

-- `r.entry`, which is the zero value before the first `advance`
abbrev pub entry_of : Option SstableEntry → SstableEntry
entry_of none = record { k = []; v = []; type = other [] }
entry_of (some e) = e

abbrev pub item_of : SstableEntry → ℕ → ℕ → SstableHeapItem
item_of e table_index level = record {
  key = e.k;
  entry = storage_entry e;
  table_index = table_index;
  level = level;
}

-- the least of an item and those behind it, with the other ones
pub take_least : SstableHeapItem → List SstableHeapItem → SstableHeapItem × List SstableHeapItem
take_least m [] = (m, [])
take_least m (x ∷ xs) =
    let (least, others) = take_least (if less x m then x else m) xs in
    (least, (if less x m then m else x) ∷ others)

unfoldable pub heap_pop : List SstableHeapItem → Option (SstableHeapItem × List SstableHeapItem)
heap_pop [] = none
heap_pop (m ∷ xs) = some (take_least m xs)

-- `addTables` for one file, which is none where it does not exist
unfoldable pub push_reader : MergeState → ℕ → SstableReader → MergeState
push_reader s level r =
    if r.has_next
    then record s {
      readers = s.readers ++ r ∷ [];
      heap = item_of (entry_of r.entry) (length s.readers) level ∷ s.heap;
    }
    else s

unfoldable pub add_table : MergeState → ℕ → Option Bytes → Result MergeState
unfolding push_reader
add_table s level none = ok s
add_table s level (some file) = do
  r ← new_sstable_reader file
  r' ← advance r
  ok (push_reader s level r')

unfoldable pub add_tables : ℕ → MergeState → List (Option Bytes) → Result MergeState
unfolding add_table
add_tables level s [] = ok s
add_tables level s (file ∷ files) = do s' ← add_table s level file; add_tables level s' files

-- `stat` is the outcome of `os.Stat` on the file of a number, and `fails` tells whether writing it
-- fails for a reason of the operating system.
module _ (stat : ℕ → StatOutcome) (fails : ℕ → Bool) where
  -- the loop of `flushChunk` for a number that no file has, on as many rounds as are given
  unfoldable pub free_number : ℕ → ℕ → Result ℕ
  free_number zero n = err io_error
  free_number (suc rounds) n =
      let later = free_number rounds (n + 1) in
      elim (stat n) [ missing ↦ ok n | there ↦ later | unreadable ↦ err io_error ]

  unfoldable pub write_chunk : ℕ → List SstableEntry → Result Bytes
  write_chunk n chunk = if fails n then err io_error else write_block_based_table chunk

  unfoldable pub flush_table : ℕ → MergeState → Result MergeState
  unfolding write_chunk
  flush_table rounds s = do
    n ← free_number rounds s.next_l1_index
    file ← write_chunk n s.chunk
    ok (record s {
      next_l1_index = n + 1;
      new_tables =
          s.new_tables
          ++ record {
            number = n;
            key_range = record { min = s.chunk_min_key; max = s.chunk_max_key };
            chunk = s.chunk;
            file = file;
          }
            ∷ [];
      chunk = [];
      chunk_min_key = [];
      chunk_max_key = [];
    })

  unfoldable pub flush_chunk : ℕ → MergeState → Result MergeState
  unfolding flush_table
  flush_chunk rounds s =
      let flushed = flush_table rounds s in if length s.chunk == 0 then ok s else flushed

  unfoldable pub append_item : MergeState → SstableHeapItem → MergeState
  append_item s item = record s {
    chunk = s.chunk ++ record { k = item.key; v = item.entry.value; type = item.entry.type } ∷ [];
    chunk_min_key = if length s.chunk == 0 then item.key else s.chunk_min_key;
    chunk_max_key = item.key;
    current_key = item.key;
    first = false;
  }

  -- An item whose key was taken already is an older version of it.
  unfoldable pub take_item : ℕ → MergeState → SstableHeapItem → Result MergeState
  unfolding append_item
  take_item rounds s item =
      let full = length s.chunk == sstable_max_entries in
      let flushed = flush_chunk rounds s >>= λ s'. ok (append_item s' item) in
      if s.first || not (str_eq item.key s.current_key)
      then (if full then flushed else ok (append_item s item))
      else ok s

  -- `r.advance` on the reader of the item, and `heap.Push` of its next entry
  unfoldable pub next_of : MergeState → SstableHeapItem → SstableReader → MergeState
  next_of s item r = record s {
    readers = set s.readers item.table_index r;
    heap =
        if r.has_next
        then item_of (entry_of r.entry) item.table_index item.level ∷ s.heap
        else s.heap;
  }

  unfoldable pub advance_item : MergeState → SstableHeapItem → Result MergeState
  unfolding next_of
  advance_item s item = do
    r ← checked (get_elem? s.readers item.table_index)
    r' ← advance r
    ok (next_of s item r')

  -- The loop `for h.Len() > 0`. A round takes one entry of one table, so that the number of entries
  -- in all tables is enough fuel.
  unfoldable pub merge_loop : ℕ → ℕ → MergeState → Result MergeState
  merge_loop rounds zero s = elim s.heap [ [] ↦ ok s | item ∷ rest ↦ err out_of_fuel ]
  merge_loop rounds (suc fuel) s = elim (heap_pop s.heap) [
    | none ↦ ok s
    | some (item, rest) ↦ do
      s₁ ← take_item rounds (record s { heap = rest }) item
      s₂ ← advance_item s₁ item
      merge_loop rounds fuel s₂
  ]

  -- the state before the loop, and the chunk that is left after it
  unfoldable pub merge_tables :
      ℕ → ℕ → ℕ → List (Option Bytes) → List (Option Bytes) → Result MergeState
  merge_tables rounds fuel next_l1_index l0_files l1_files = do
    s₀ ← add_tables 0 (start_state next_l1_index) l0_files
    s₁ ← add_tables 1 s₀ l1_files
    s₂ ← merge_loop rounds fuel s₁
    flush_chunk rounds s₂
