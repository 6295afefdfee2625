-- ===== src/MemTable/Interface.antt =====
-- The memtable of memtable.go and memtable_skiplist.go meets the interface of the engine.
use k_lsm_engine.Prelude.{ℕ, ◌≡◌, refl, Bool, none, List, [], ◌∷◌, map, Bytes, Result, ok}
use k_lsm_engine.Entry.{entry_type_put, entry_type_delete, StorageEntry}
use k_lsm_engine.Engine.Parts
use k_lsm_engine.SkipList.Chain.{Cell}
use k_lsm_engine.SkipList.Invariant.{lookup_cells}
use k_lsm_engine.SkipList.Reads.{cell_entry}
use k_lsm_engine.MemTable
use k_lsm_engine.MemTable.{MemTable, new_mem_table}
use k_lsm_engine.MemTable.Valid.{
  IsMemTable, IsUpdate, get-IsMemTable, new_mem_table-IsMemTable, put-IsUpdate, delete-IsUpdate,
  clear-IsMemTable, entries-cells, find_entry-stored-cells,
}

-- A memtable with the coins of its next nodes: one list for each of them, and none after the last.
pub record Held : Type 0 where
  pub mem : MemTable
  pub coins : List (List Bool)
  pub cells : List Cell
  pub valid : IsMemTable mem cells

abbrev pub next_coins : List (List Bool) → List Bool
next_coins [] = []
next_coins (c ∷ rest) = c

abbrev pub later_coins : List (List Bool) → List (List Bool)
later_coins [] = []
later_coins (c ∷ rest) = rest

abbrev pub put_set :
    (h : Held) (key value : Bytes)
    → IsUpdate h.mem h.cells key
        (record { type = entry_type_put; value = value })
        (MemTable.put h.mem key value (next_coins h.coins))
put_set h key value = put-IsUpdate h.mem h.cells h.valid key value (next_coins h.coins)

abbrev pub delete_set :
    (h : Held) (key : Bytes)
    → IsUpdate h.mem h.cells key
        (record { type = entry_type_delete; value = [] })
        (MemTable.delete h.mem key (next_coins h.coins))
delete_set h key = delete-IsUpdate h.mem h.cells h.valid key (next_coins h.coins)

abbrev pub held_after :
    (h : Held) {key : Bytes} {entry : StorageEntry} {run : Result (MemTable × ℕ)}
    → IsUpdate h.mem h.cells key entry run
    → Held × ℕ
held_after h s = (
  record { mem = s.mem'; coins = later_coins h.coins; cells = s.cells'; valid = s.valid },
  s.mem'.kv.size,
)

pub get_clear : (h : Held) (key : Bytes) → lookup_cells key [] ≡ none
unfolding lookup_cells
get_clear h key = refl

-- What the operations of the interface are: runs of the memtable, none of which panics.
pub record Runs (h : Held) (t : Parts.MemTable Held) : Type 0 where
  pub get : (key : Bytes) → MemTable.get h.mem key ≡ ok (t.get h key)
  pub put :
      (key value : Bytes)
      → MemTable.put h.mem key value (next_coins h.coins)
        ≡ ok ((t.put h key value).0.mem, (t.put h key value).1)
  pub delete :
      (key : Bytes)
      → MemTable.delete h.mem key (next_coins h.coins)
        ≡ ok ((t.delete h key).0.mem, (t.delete h key).1)
  pub entries : MemTable.entries h.mem ≡ ok (t.entries h)
  pub clear : MemTable.clear h.mem ≡ ok (t.clear h).mem

-- The memtable of the engine, from the coins of all nodes to come.
abbrev pub skip_list_table : List (List Bool) → Parts.MemTable Held
skip_list_table coins = record {
  new_mem_table = record {
    mem = new_mem_table;
    coins = coins;
    cells = [];
    valid = new_mem_table-IsMemTable;
  };
  get = λ h key. lookup_cells key h.cells;
  put = λ h key value. held_after h (put_set h key value);
  delete = λ h key. held_after h (delete_set h key);
  entries = λ h. map cell_entry h.cells;
  clear = λ h.
      let c = clear-IsMemTable h.mem h.cells h.valid in
      record { mem = c.0; coins = h.coins; cells = []; valid = c.2 };
  get-new = λ key.
      get_clear
        (record {
          mem = new_mem_table;
          coins = coins;
          cells = [];
          valid = new_mem_table-IsMemTable;
        })
        key;
  get-put = λ h key value at. (put_set h key value).answers at;
  get-delete = λ h key at. (delete_set h key).answers at;
  get-clear = λ h key. get_clear h key;
  find-entries = λ h key. find_entry-stored-cells h.mem h.cells key h.valid;
}

-- Each operation that the engine calls is a run of the memtable that succeeds and returns what the
-- interface says, from every memtable that the operations can lead to.
pub skip_list_table-Runs : (coins : List (List Bool)) (h : Held) → Runs h (skip_list_table coins)
skip_list_table-Runs coins h = record {
  get = λ key. get-IsMemTable h.mem h.cells key h.valid;
  put = λ key value. (put_set h key value).runs;
  delete = λ key. (delete_set h key).runs;
  entries = entries-cells h.mem h.cells h.valid;
  clear = (clear-IsMemTable h.mem h.cells h.valid).1;
}
