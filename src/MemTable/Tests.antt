-- ===== src/MemTable/Tests.antt =====
-- The theorems on the memtable at one key.
use mathlib.Core.Path.{subst}
use mathlib.Core.Option.{some-injective}
use k_lsm_engine.Prelude.{
  Bool-cases, inl, inr, ℕ, zero, suc, ◌<◌, ◌≡◌, refl, ◌∙◌, Option, none, some, true, [], ◌∷◌,
  replicate, get_elem?, arith, Bytes, str_eq, ok,
}
use k_lsm_engine.Entry.{StorageEntry, entry_type_put, entry_type_delete}
use k_lsm_engine.Table
use k_lsm_engine.Table.{
  is_empty, has_nul, BlockBasedTable, write_block_based_table, open_block_based_table,
}
use k_lsm_engine.Table.Block.{stored, IsStorableEntry}
use k_lsm_engine.SkipList.{no_entry}
use k_lsm_engine.SkipList.Chain.{Cell, first_at}
use k_lsm_engine.SkipList.Fresh.{get_elem?-replicate}
use k_lsm_engine.SkipList.Invariant.{lookup_cells}
use k_lsm_engine.SkipList.Reads.{cell_entry}
use k_lsm_engine.MemTable
use k_lsm_engine.MemTable.{MemTable, entries}
use k_lsm_engine.MemTable.Valid.{
  stored_entry, IsMemTable, IsUpdate, entries-cells, put-IsUpdate, delete-IsUpdate,
}
use k_lsm_engine.MemTable.Snapshot.{get-write-entries}
use k_lsm_engine.MemTable.Interface.{Held, Runs, skip_list_table, skip_list_table-Runs}

-- "a" has the value "1".
abbrev entry : StorageEntry
entry = record { type = entry_type_put; value = 49 ∷ [] }

abbrev cell : Cell
cell = record { at = 1; key = 97 ∷ []; value = entry; height = 1 }

abbrev table : MemTable
table = record {
  kv = record {
    nodes =
        record { key = []; value = no_entry; next = some 1 ∷ replicate 15 none }
        ∷ record { key = 97 ∷ []; value = entry; next = none ∷ [] }
        ∷ [];
    levels = 1;
    size = 1;
  };
}

head_next :
    (i : ℕ) → i < 16 → get_elem? (some 1 ∷ replicate 15 none) i ≡ some (first_at i (cell ∷ []))
head_next zero h = refl
head_next (suc i) h = get_elem?-replicate 15 i none (omega arith) ∙ ground arith

cell_next : (i : ℕ) → i < 1 → get_elem? {A = Option ℕ} (none ∷ []) i ≡ some (first_at i [])
cell_next zero h = refl
cell_next (suc i) h = absurd (omega arith)

table-IsMemTable : IsMemTable table (cell ∷ [])
unfolding stored lookup_cells
table-IsMemTable = record {
  list = record {
    linked = (
      record { node = _; there = refl; key = refl; value = refl; next = head_next },
      (omega arith, tt),
      (record { node = _; there = refl; key = refl; value = refl; next = cell_next }, tt, tt),
    );
    ordered = (tt, tt);
    heights = (omega arith, tt);
    levels = omega arith;
    size = refl;
    room = omega arith;
  };
  clean = λ key e h. elim (Bool-cases (str_eq (97 ∷ []) key)) [
    | inl same ↦
        let found : some entry ≡ some e = rw same at h in
        subst (λ (x : StorageEntry). stored_entry x ≡ x) (some-injective _ _ found) refl
    | inr ne ↦ let absent = rw ne at h in cc
  ];
}

put-IsUpdate_example :
    IsUpdate table
      (cell ∷ [])
      (98 ∷ [])
      (record { type = entry_type_put; value = 50 ∷ [] })
      (MemTable.put table (98 ∷ []) (50 ∷ []) (true ∷ []))
put-IsUpdate_example =
    put-IsUpdate table (cell ∷ []) table-IsMemTable (98 ∷ []) (50 ∷ []) (true ∷ [])

delete-IsUpdate_example :
    IsUpdate table
      (cell ∷ [])
      (97 ∷ [])
      (record { type = entry_type_delete; value = [] })
      (MemTable.delete table (97 ∷ []) [])
delete-IsUpdate_example = delete-IsUpdate table (cell ∷ []) table-IsMemTable (97 ∷ []) []

fits : IsStorableEntry (cell_entry cell)
unfolding is_empty has_nul
fits = record {
  key = record { filled = refl; fits = omega arith; no_nul = refl };
  value = record { filled = refl; fits = omega arith; no_nul = refl };
}

get-write-entries_example :
    (file : Bytes) × (t : BlockBasedTable) × (write_block_based_table (cell_entry cell ∷ [])
      ≡ ok file)
    × (open_block_based_table file ≡ ok t)
    × ((key : Bytes) → Table.get t key ≡ MemTable.get table key)
get-write-entries_example =
    get-write-entries table (cell ∷ []) (cell_entry cell ∷ []) table-IsMemTable
      (entries-cells table (cell ∷ []) table-IsMemTable) (fits, tt) (omega arith)

abbrev held : Held
held = record { mem = table; coins = []; cells = cell ∷ []; valid = table-IsMemTable }

skip_list_table-Runs_example : Runs held (skip_list_table [])
skip_list_table-Runs_example = skip_list_table-Runs [] held
