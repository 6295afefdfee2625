-- ===== src/SkipList/Invariant.antt =====
-- The invariant of the skip list, and what `get` and `entries` answer by it.
use k_lsm_engine.Prelude.{
  ℕ, ◌≤◌, ◌<◌, ◌≡◌, inl, inr, refl, ap, true, false, Option, none, some, List, [], ◌∷◌, ◌++◌, All,
  length, if◌then◌else◌, Bool-cases, arith, Bytes, str_eq, str_lt, str_eq_iff, str_lt_irrefl,
  str_lt_trans,
}
use k_lsm_engine.Entry.{StorageEntry}
use k_lsm_engine.SkipList.{SkipList, head, no_entry}
use k_lsm_engine.SkipList.Chain.{Cell, Linked}
use k_lsm_engine.SkipList.Walk.{AreBelow, AreFrom}

-- The keys rise strictly.
abbrev pub IsOrdered : List Cell → Type 0
IsOrdered [] = Unit
IsOrdered (c ∷ rest) = All (λ d. str_lt c.key d.key ≡ true) rest × IsOrdered rest

abbrev pub head_cell : Cell
head_cell = record { at = head; key = []; value = no_entry; height = 16 }

-- The skip list holds the cells.
pub record IsSkipList (l : SkipList) (cells : List Cell) : Type 0 where
  pub linked : Linked l.nodes (head_cell ∷ cells)
  pub ordered : IsOrdered cells
  pub heights : All (λ c. (0 < c.height) × (c.height ≤ l.levels)) cells
  pub levels : (1 ≤ l.levels) × (l.levels ≤ 16)
  pub size : l.size ≡ length cells
  pub room : length cells < length l.nodes

-- The cells below a key, and the others.
pub split : Bytes → List Cell → List Cell × List Cell
split key [] = ([], [])
split key (c ∷ rest) =
    let (before, after) = split key rest in
    if str_lt c.key key then (c ∷ before, after) else ([], c ∷ rest)

-- What `get` is meant to answer.
unfoldable pub lookup_cells : Bytes → List Cell → Option StorageEntry
lookup_cells key [] = none
lookup_cells key (c ∷ rest) = if str_eq c.key key then some c.value else lookup_cells key rest

pub record IsSplit (key : Bytes) (cells before after : List Cell) : Type 0 where
  pub whole : before ++ after ≡ cells
  pub below : AreBelow key before
  pub from : AreFrom key after

from_of_above :
    (key : Bytes) (c : Cell) (rest : List Cell)
    → str_lt c.key key ≡ false
    → All (λ d. str_lt c.key d.key ≡ true) rest
    → AreFrom key rest
from_of_above key c [] h a = tt
from_of_above key c (d ∷ rest) h a =
    (ground (arith, str_lt_trans c.key d.key key), from_of_above key c rest h a.1)

pub split-IsSplit :
    (key : Bytes) (cells : List Cell)
    → IsOrdered cells
    → IsSplit key cells (split key cells).0 (split key cells).1
unfolding split
split-IsSplit key [] o = record { whole = refl; below = tt; from = tt }
split-IsSplit key (c ∷ rest) o =
    let s = split-IsSplit key rest o.1 in
    elim (Bool-cases (str_lt c.key key)) [
      | inl lt ↦ rw lt (record { whole = ap (◌∷◌ c) s.whole; below = (lt, s.below); from = s.from })
      | inr ge ↦
          rw ge (record { whole = refl; below = tt; from = (ge, from_of_above key c rest ge o.0) })
    ]

-- The cell with the key, if it is the first of those that are not below the key.
abbrev pub found : Bytes → List Cell → Option Cell
found key [] = none
found key (d ∷ rest) = if str_eq d.key key then some d else none

abbrev pub cell_at : Option Cell → Option ℕ
cell_at none = none
cell_at (some c) = some c.at

abbrev pub cell_value : Option Cell → Option StorageEntry
cell_value none = none
cell_value (some c) = some c.value

pub lookup_cells-append :
    (key : Bytes) (before after : List Cell)
    → AreBelow key before
    → lookup_cells key (before ++ after) ≡ lookup_cells key after
unfolding lookup_cells
lookup_cells-append key [] after b = refl
lookup_cells-append key (c ∷ before) after b =
    ground (
      arith,
      b.0,
      str_eq_iff c.key key,
      str_lt_irrefl key,
      lookup_cells-append key before after b.1,
    )

-- Above the key there is none with the key.
lookup_cells_above :
    (key : Bytes) (c : Cell) (rest : List Cell)
    → str_lt c.key key ≡ false
    → All (λ d. str_lt c.key d.key ≡ true) rest
    → lookup_cells key rest ≡ none
unfolding lookup_cells
lookup_cells_above key c [] h a = refl
lookup_cells_above key c (d ∷ rest) h a =
    ground (arith, a.0, str_eq_iff d.key key, lookup_cells_above key c rest h a.1)

pub lookup_cells-found :
    (key : Bytes) (after : List Cell)
    → AreFrom key after
    → IsOrdered after
    → lookup_cells key after ≡ cell_value (found key after)
unfolding lookup_cells
lookup_cells-found key [] f o = refl
lookup_cells-found key (d ∷ rest) f o = elim (Bool-cases (str_eq d.key key)) [
  | inl same ↦ rw same
  | inr ne ↦ rw ne (lookup_cells_above key d rest f.0 o.0)
]
