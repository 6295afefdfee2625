-- ===== src/SkipList/Reads.antt =====
-- What `get` and `entries` answer for a skip list that holds its cells.
use k_lsm_engine.Prelude.{
  ℕ, zero, suc, ◌≤◌, ◌<◌, ◌≡◌, inl, inr, refl, sym, ap, ◌∙◌, Bool, true, false, Option, none, some,
  List, [], ◌∷◌, ◌++◌, All, map, length, length-append, ltb, get_elem?, if◌then◌else◌, Bool-cases,
  arith, Bytes, str_eq, Result, ok,
}
use k_lsm_engine.Entry.{SstableEntry}
use k_lsm_engine.SkipList.{
  Node, SkipList, head, next_at, find_update, same_key, value_at, get, entries, entries_from,
}
use k_lsm_engine.SkipList.Chain.{
  Cell, first_at, last_from, Linked, next_at-first_at, Linked-last_from, Linked-append,
  last_from_height,
}
use k_lsm_engine.SkipList.Walk.{AreBelow, AreFrom, updates, find_update-updates, get_elem?-updates}
use k_lsm_engine.SkipList.Link.{first_at-none, find_last-behind, All-after}
use k_lsm_engine.SkipList.Invariant.{
  IsOrdered, head_cell, IsSkipList, split, lookup_cells, split-IsSplit, found, cell_at, cell_value,
  lookup_cells-append, lookup_cells-found,
}

pub IsOrdered-after : (before after : List Cell) → IsOrdered (before ++ after) → IsOrdered after
IsOrdered-after [] after o = o
IsOrdered-after (c ∷ before) after o = IsOrdered-after before after o.1

by_test :
    (b : Bool) (d : Cell)
    → ◌≡◌ {A = Result (Option ℕ)}
        (ok (if b then some d.at else none))
        (ok (cell_at (if b then some d else none)))
by_test true d = refl
by_test false d = refl

same_key-found :
    (nodes : List Node) (key : Bytes) (levels : ℕ) (after : List Cell)
    → Linked nodes after
    → All (λ c. (0 < c.height) × (c.height ≤ levels)) after
    → same_key nodes key (first_at 0 after) ≡ ok (cell_at (found key after))
unfolding same_key
same_key-found nodes key levels [] l h = refl
same_key-found nodes key levels (d ∷ after) l h =
    let tall : ltb 0 d.height ≡ true = ground (arith, h.0) in
    rw (tall, l.0.there, l.0.key) (by_test (str_eq d.key key) d)

-- What the search for a key finds: the updates, and the cell with the key.
pub record IsPath (l : SkipList) (key : Bytes) (before after : List Cell) : Type 0 where
  pub path : find_update l.levels l.nodes key head [] ≡ ok (updates l.levels head_cell before [])
  pub last :
      get_elem? (updates l.levels head_cell before []) 0 ≡ some (last_from 0 head_cell before).0.at
  pub next : next_at l.nodes (last_from 0 head_cell before).0.at 0 ≡ ok (first_at 0 after)
  pub same : same_key l.nodes key (first_at 0 after) ≡ ok (cell_at (found key after))

module _ (l : SkipList) (key : Bytes) (before after : List Cell)
    (v : IsSkipList l (before ++ after)) (b : AreBelow key before) (f : AreFrom key after) where
  pub find_update-IsPath : IsPath l key before after
  find_update-IsPath = record {
    path =
        find_update-updates l.nodes key l.levels head_cell before after [] v.levels.1 v.linked b f
          (omega (arith, v.room, length-append before after));
    last = get_elem?-updates l.levels 0 head_cell before [] v.levels.0;
    next =
        next_at-first_at l.nodes (last_from 0 head_cell before).0
          ((last_from 0 head_cell before).1 ++ after) 0
          (Linked-last_from l.nodes 0 head_cell before after v.linked).0
          (last_from_height 0 head_cell before (omega arith))
        ∙ ap ok (
            first_at-none 0 (last_from 0 head_cell before).1 after
              (find_last-behind 0 head_cell before));
    same =
        same_key-found l.nodes key l.levels after
          (Linked-append l.nodes (head_cell ∷ before) after v.linked)
          (All-after (λ c. (0 < c.height) × (c.height ≤ l.levels)) before after v.heights);
  }

value_at-found :
    (nodes : List Node) (key : Bytes) (after : List Cell)
    → Linked nodes after
    → value_at nodes (cell_at (found key after)) ≡ ok (cell_value (found key after))
unfolding value_at
value_at-found nodes key [] l = refl
value_at-found nodes key (d ∷ after) l = elim (Bool-cases (str_eq d.key key)) [
  | inl same ↦ rw (same, l.0.there, l.0.value)
  | inr ne ↦ rw ne
]

-- The entry with the key is found, and none if there is none.
pub get-lookup_cells :
    (l : SkipList) (cells : List Cell) (key : Bytes)
    → IsSkipList l cells
    → get l key ≡ ok (lookup_cells key cells)
unfolding get
get-lookup_cells l cells key v =
    let (before, after) = split key cells in
    let s = split-IsSplit key cells v.ordered in
    let v' : IsSkipList l (before ++ after) = rw s.whole v in
    let p = find_update-IsPath l key before after v' s.below s.from in
    let answer : lookup_cells key cells ≡ cell_value (found key after) =
      ap (lookup_cells key) (sym s.whole)
      ∙ lookup_cells-append key before after s.below
      ∙ lookup_cells-found key after s.from (IsOrdered-after before after v'.ordered) in
    rw (p.path, p.last, p.next, p.same, answer)
      (value_at-found l.nodes key after
        (Linked-append l.nodes (head_cell ∷ before) after v'.linked))

-- the entry of a cell
abbrev pub cell_entry : Cell → SstableEntry
cell_entry c = record { k = c.key; v = c.value.value; type = c.value.type }

entries_from-cells :
    (nodes : List Node) (fuel levels : ℕ) (cells : List Cell)
    → Linked nodes cells
    → All (λ c. (0 < c.height) × (c.height ≤ levels)) cells
    → length cells ≤ fuel
    → entries_from fuel nodes (first_at 0 cells) ≡ ok (map cell_entry cells)
unfolding entries_from
entries_from-cells nodes zero levels [] l h m = refl
entries_from-cells nodes (suc fuel) levels [] l h m = refl
entries_from-cells nodes zero levels (c ∷ cells) l h m = absurd (omega arith)
entries_from-cells nodes (suc fuel) levels (c ∷ cells) l h m =
    let tall : ltb 0 c.height ≡ true = ground (arith, h.0) in
    rw (
      tall,
      l.0.there,
      next_at-first_at nodes c cells 0 l.0 h.0.0,
      entries_from-cells nodes fuel levels cells l.2 h.1 (omega arith),
      l.0.key,
      l.0.value,
    )

-- The snapshot is the entries of the cells, in the order of their keys.
pub entries-map-cells :
    (l : SkipList) (cells : List Cell) → IsSkipList l cells → entries l ≡ ok (map cell_entry cells)
unfolding entries
entries-map-cells l cells v =
    rw (next_at-first_at l.nodes head_cell cells 0 v.linked.0 (omega arith)) (
      entries_from-cells l.nodes (length l.nodes) l.levels cells v.linked.2 v.heights
        (omega (arith, v.room)))
