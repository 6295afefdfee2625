-- ===== src/MemTable/Valid.antt =====
-- The memtable as a map: its operations succeed and act as those of a map from keys to entries.
use k_lsm_engine.Prelude.{
  ℕ, ◌+◌, ◌≡◌, inl, inr, refl, sym, ap, ◌∙◌, Bool, Option, none, some, List, [], ◌∷◌, map,
  if◌then◌else◌, Bool-cases, Bytes, str_eq, Result, ok,
}
use mathlib.Core.Path.{subst}
use mathlib.Core.Option
use mathlib.Core.Option.{some-injective}
use k_lsm_engine.Entry.{
  entry_type_put, entry_type_delete, StorageEntry, SstableEntry, storage_entry,
}
use k_lsm_engine.Table.Block.{stored}
use k_lsm_engine.Table.Order.{find_entry}
use k_lsm_engine.SkipList.Chain.{Cell}
use k_lsm_engine.SkipList.Invariant.{IsSkipList, lookup_cells}
use k_lsm_engine.SkipList.Reads.{get-lookup_cells, entries-map-cells, cell_entry}
use k_lsm_engine.SkipList.Add.{is_there, add-IsAdded}
use k_lsm_engine.SkipList.Fresh.{new_skip_list-IsSkipList, clear-IsSkipList}
use k_lsm_engine.MemTable.{MemTable, new_mem_table, get, add_entry, put, delete, entries, clear}

-- what is left of an entry when it is stored in a table
abbrev pub stored_entry : StorageEntry → StorageEntry
stored_entry e = storage_entry (stored (record { k = []; v = e.value; type = e.type }))

-- A skip list of entries that storing does not change.
pub record IsMemTable (mem : MemTable) (cells : List Cell) : Type 0 where
  pub list : IsSkipList mem.kv cells
  pub clean :
      (key : Bytes) (e : StorageEntry) → lookup_cells key cells ≡ some e → stored_entry e ≡ e

pub get-IsMemTable :
    (mem : MemTable) (cells : List Cell) (key : Bytes)
    → IsMemTable mem cells
    → get mem key ≡ ok (lookup_cells key cells)
unfolding get
get-IsMemTable mem cells key v = get-lookup_cells mem.kv cells key v.list

pub new_mem_table-IsMemTable : IsMemTable new_mem_table []
unfolding new_mem_table lookup_cells
new_mem_table-IsMemTable = record { list = new_skip_list-IsSkipList; clean = λ key e h. cc }

-- What `put` or `delete` makes of a memtable.
pub record IsUpdate (mem : MemTable) (cells : List Cell) (key : Bytes) (entry : StorageEntry)
    (run : Result (MemTable × ℕ)) : Type 0 where
  pub mem' : MemTable
  pub cells' : List Cell
  pub runs : run ≡ ok (mem', mem'.kv.size)
  pub valid : IsMemTable mem' cells'
  pub answers :
      (at : Bytes)
      → lookup_cells at cells' ≡ (if str_eq key at then some entry else lookup_cells at cells)
  pub size : mem'.kv.size ≡ (if is_there key cells then mem.kv.size else mem.kv.size + 1)

module _ (mem : MemTable) (cells : List Cell) (v : IsMemTable mem cells) (key : Bytes) where
  clean_set :
      (entry : StorageEntry)
      → stored_entry entry ≡ entry
      → (cells' : List Cell)
      → ((at : Bytes)
          → lookup_cells at cells' ≡ (if str_eq key at then some entry else lookup_cells at cells))
      → (at : Bytes) (e : StorageEntry) → lookup_cells at cells' ≡ some e
      → stored_entry e ≡ e
  clean_set entry c cells' answers at e h = elim (Bool-cases (str_eq key at)) [
    | inl same ↦
        let found : some entry ≡ some e = rw same at (sym (answers at) ∙ h) in
        subst (λ (x : StorageEntry). stored_entry x ≡ x) (some-injective _ _ found) c
    | inr ne ↦ v.clean at e (rw ne at (sym (answers at) ∙ h))
  ]

  add_entry-IsUpdate :
      (entry : StorageEntry) (coins : List Bool)
      → stored_entry entry ≡ entry
      → IsUpdate mem cells key entry (add_entry mem key entry coins)
  unfolding add_entry
  add_entry-IsUpdate entry coins c =
      let a = add-IsAdded mem.kv key entry coins cells v.list in
      record {
        mem' = record { kv = a.list };
        cells' = a.cells';
        runs = rw a.adds;
        valid = record { list = a.valid; clean = clean_set entry c a.cells' a.answers };
        answers = a.answers;
        size = a.size;
      }

  -- A `put` succeeds, whatever the coins show: it keeps the memtable valid, sets the entry of the
  -- key alone, and returns the new number of keys.
  pub put-IsUpdate :
      (value : Bytes) (coins : List Bool)
      → IsUpdate mem cells key
          (record { type = entry_type_put; value = value })
          (put mem key value coins)
  unfolding put
  put-IsUpdate value coins = add_entry-IsUpdate _ coins (unfold stored in refl)

  -- A `delete` succeeds and sets the entry of the key to a tombstone.
  pub delete-IsUpdate :
      (coins : List Bool)
      → IsUpdate mem cells key
          (record { type = entry_type_delete; value = [] })
          (delete mem key coins)
  unfolding delete
  delete-IsUpdate coins = add_entry-IsUpdate _ coins (unfold stored in refl)

pub clear-IsMemTable :
    (mem : MemTable) (cells : List Cell)
    → IsMemTable mem cells
    → (mem' : MemTable) × (clear mem ≡ ok mem') × IsMemTable mem' []
unfolding clear lookup_cells
clear-IsMemTable mem cells v =
    let c = clear-IsSkipList mem.kv cells v.list in
    (record { kv = c.0 }, rw c.1, record { list = c.2; clean = λ key e h. cc })

find_entry-cells :
    (key : Bytes) (cells : List Cell)
    → find_entry key (map stored (map cell_entry cells))
      ≡ Option.map stored_entry (lookup_cells key cells)
unfolding find_entry lookup_cells stored
find_entry-cells key [] = refl
find_entry-cells key (c ∷ cells) = elim (Bool-cases (str_eq c.key key)) [
  | inl same ↦ rw same
  | inr ne ↦ rw ne (find_entry-cells key cells)
]

clean_found :
    (o : Option StorageEntry)
    → ((e : StorageEntry) → o ≡ some e → stored_entry e ≡ e)
    → Option.map stored_entry o ≡ o
clean_found none h = refl
clean_found (some e) h = ap some (h e refl)

pub entries-cells :
    (mem : MemTable) (cells : List Cell)
    → IsMemTable mem cells
    → entries mem ≡ ok (map cell_entry cells)
unfolding entries
entries-cells mem cells v = entries-map-cells mem.kv cells v.list

pub find_entry-stored-cells :
    (mem : MemTable) (cells : List Cell) (key : Bytes)
    → IsMemTable mem cells
    → find_entry key (map stored (map cell_entry cells)) ≡ lookup_cells key cells
find_entry-stored-cells mem cells key v =
    find_entry-cells key cells ∙ clean_found (lookup_cells key cells) (v.clean key)

-- The snapshot of a memtable, stored in a table, answers every key as the memtable does.
pub entries-find_entry :
    (mem : MemTable) (cells : List Cell)
    → IsMemTable mem cells
    → (es : List SstableEntry) × (entries mem ≡ ok es)
      × ((key : Bytes) → get mem key ≡ ok (find_entry key (map stored es)))
entries-find_entry mem cells v = (
  map cell_entry cells,
  entries-cells mem cells v,
  λ key. get-IsMemTable mem cells key v ∙ ap ok (sym (find_entry-stored-cells mem cells key v)),
)
