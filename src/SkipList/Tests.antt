-- ===== src/SkipList/Tests.antt =====
-- Runs of the skip list: keys added out of order, one of them twice.
use k_lsm_engine.Prelude.{
  ℕ, ◌≤◌, false, some, none, [], ◌∷◌, ◌≡◌, refl, Result, ok, map, true, ◌>>=◌, str_eq, str_lt,
}
use k_lsm_engine.Entry.{entry_type_put, StorageEntry, SstableEntry}
use k_lsm_engine.SkipList.{
  skip_list_max_levels, Node, SkipList, new_skip_list, generate_level, generate_level_loop, add,
  get, entries, clear,
}
use k_lsm_engine.SkipList.Levels.{generate_level_bounds}
use k_lsm_engine.SkipList.Invariant.{lookup_cells}
use k_lsm_engine.SkipList.Reads.{get-lookup_cells, entries-map-cells, cell_entry}
use k_lsm_engine.SkipList.Add.{IsAdded, add-IsAdded}
use k_lsm_engine.SkipList.Fresh.{new_skip_list-IsSkipList}
use k_lsm_engine.SkipList.Clear.{IsEmpty, clear-IsEmpty}

abbrev value : ℕ → StorageEntry
value n = record { type = entry_type_put; value = n ∷ [] }

abbrev filled : Result SkipList
filled = do
  l₁ ← add new_skip_list (98 ∷ []) (value 1) (true ∷ true ∷ [])
  l₂ ← add l₁ (97 ∷ []) (value 2) []
  l₃ ← add l₂ (99 ∷ []) (value 3) (true ∷ false ∷ true ∷ [])
  add l₃ (97 ∷ []) (value 4) []

entry : ℕ → ℕ → SstableEntry
entry key n = record { k = key ∷ []; v = n ∷ []; type = entry_type_put }

entries_filled : (filled >>= entries) ≡ ok (entry 97 4 ∷ entry 98 1 ∷ entry 99 3 ∷ [])
unfolding new_skip_list add entries generate_level generate_level_loop str_eq str_lt entry
entries_filled = refl

get_filled : (filled >>= λ l. get l (99 ∷ [])) ≡ ok (some (value 3))
unfolding new_skip_list add get generate_level generate_level_loop str_eq str_lt
get_filled = refl

generate_level_bounds_example :
    (1 ≤ generate_level (true ∷ true ∷ false ∷ []))
    × (generate_level (true ∷ true ∷ false ∷ []) ≤ skip_list_max_levels)
generate_level_bounds_example = generate_level_bounds (true ∷ true ∷ false ∷ [])

-- a list with one key, and what `clear` makes of it
abbrev one_key : Result SkipList
one_key = add new_skip_list (98 ∷ []) (value 1) [] >>= clear

get_cleared : (one_key >>= λ l. get l (98 ∷ [])) ≡ ok none
unfolding new_skip_list add get clear generate_level generate_level_loop str_eq str_lt
get_cleared = refl

abbrev first : Node
first = record { key = []; value = value 0; next = some 1 ∷ none ∷ [] }

abbrev second : Node
second = record { key = 98 ∷ []; value = value 1; next = none ∷ [] }

abbrev two_nodes : SkipList
two_nodes = record { nodes = first ∷ second ∷ []; levels = 1; size = 1 }

clear-IsEmpty_example : (c : SkipList) × (clear two_nodes ≡ ok c) × IsEmpty c
clear-IsEmpty_example = clear-IsEmpty two_nodes first (second ∷ []) refl

-- "b" is added to an empty list, and "a" to the result.
abbrev added : IsAdded new_skip_list [] (98 ∷ []) (value 1) (true ∷ [])
added = add-IsAdded new_skip_list (98 ∷ []) (value 1) (true ∷ []) [] new_skip_list-IsSkipList

add-IsAdded_example : IsAdded added.list added.cells' (97 ∷ []) (value 2) []
add-IsAdded_example = add-IsAdded added.list (97 ∷ []) (value 2) [] added.cells' added.valid

get-lookup_cells_example : get added.list (98 ∷ []) ≡ ok (lookup_cells (98 ∷ []) added.cells')
get-lookup_cells_example = get-lookup_cells added.list added.cells' (98 ∷ []) added.valid

entries-map-cells_example : entries added.list ≡ ok (map cell_entry added.cells')
entries-map-cells_example = entries-map-cells added.list added.cells' added.valid
