-- ===== src/SkipList/Chain.antt =====
-- The linked levels of a skip list, seen as one list of cells in the order of the level 0. On the
-- level i a node points to the next cell that is higher than i.
use k_lsm_engine.Prelude.{
  ℕ, ◌≤◌, ◌<◌, ◌≡◌, ◌≢◌, inl, inr, refl, sym, ◌∙◌, Bool, true, false, Option, none, some, List, [],
  ◌∷◌, ◌++◌, All, get_elem?, ltb, if◌then◌else◌, Bool-cases, Option-cases, arith, Bytes, ok,
}
use k_lsm_engine.Entry.{StorageEntry}
use k_lsm_engine.SkipList.{Node, next_at}

-- A node by what it means: its index, its key and value, and the number of levels that it is on.
pub record Cell : Type 0 where
  pub at : ℕ
  pub key : Bytes
  pub value : StorageEntry
  pub height : ℕ

abbrev pub is_tall : ℕ → Cell → Bool
is_tall i c = ltb i c.height

-- the pointer to the first of the cells on the level
abbrev pub first_at : ℕ → List Cell → Option ℕ
first_at i [] = none
first_at i (c ∷ rest) = if is_tall i c then some c.at else first_at i rest

-- the last of the cells on the level, with the cells behind it
abbrev pub or_this :
    Option (Cell × List Cell) → Option (Cell × List Cell) → Option (Cell × List Cell)
or_this (some found) this = some found
or_this none this = this

abbrev pub find_last : ℕ → List Cell → Option (Cell × List Cell)
find_last i [] = none
find_last i (c ∷ rest) = or_this (find_last i rest) (if is_tall i c then some (c, rest) else none)

abbrev pub from_last : Cell × List Cell → Option (Cell × List Cell) → Cell × List Cell
from_last start none = start
from_last start (some found) = found

abbrev pub last_from : ℕ → Cell → List Cell → Cell × List Cell
last_from i c rest = from_last (c, rest) (find_last i rest)

-- The node of the cell is there, and points on each of its levels to the first cell behind it.
pub record IsNode (nodes : List Node) (c : Cell) (rest : List Cell) : Type 0 where
  pub node : Node
  pub there : get_elem? nodes c.at ≡ some node
  pub key : node.key ≡ c.key
  pub value : node.value ≡ c.value
  pub next : (i : ℕ) → i < c.height → get_elem? node.next i ≡ some (first_at i rest)

abbrev pub IsApart : Cell → List Cell → Type 0
IsApart c rest = All (λ d. c.at ≢ d.at) rest

abbrev pub Linked : List Node → List Cell → Type 0
Linked nodes [] = Unit
Linked nodes (c ∷ rest) = IsNode nodes c rest × IsApart c rest × Linked nodes rest

pub next_at-first_at :
    (nodes : List Node) (c : Cell) (rest : List Cell) (i : ℕ)
    → IsNode nodes c rest
    → i < c.height
    → next_at nodes c.at i ≡ ok (first_at i rest)
unfolding next_at
next_at-first_at nodes c rest i n h = rw (n.there, n.next i h)

pub Linked-append :
    (nodes : List Node) (before after : List Cell)
    → Linked nodes (before ++ after)
    → Linked nodes after
Linked-append nodes [] after h = h
Linked-append nodes (c ∷ before) after h = Linked-append nodes before after h.2

from_last-or_this :
    (start this : Cell × List Cell) (o : Option (Cell × List Cell))
    → from_last start (or_this o (some this)) ≡ from_last this o
from_last-or_this start this none = refl
from_last-or_this start this (some found) = refl

or_this-none : (o : Option (Cell × List Cell)) → or_this o none ≡ o
or_this-none none = refl
or_this-none (some found) = refl

-- `last_from` past a cell that is on the level, and past one that is not
pub last_from-tall :
    (i : ℕ) (start : Cell × List Cell) (d : Cell) (mid : List Cell)
    → is_tall i d ≡ true
    → from_last start (find_last i (d ∷ mid)) ≡ last_from i d mid
last_from-tall i start d mid h = rw h (from_last-or_this start (d, mid) (find_last i mid))

pub find_last-low :
    (i : ℕ) (d : Cell) (mid : List Cell)
    → is_tall i d ≡ false
    → find_last i (d ∷ mid) ≡ find_last i mid
find_last-low i d mid h = rw h (or_this-none (find_last i mid))

find_last-above :
    (i k : ℕ) (mid : List Cell) {f : Cell × List Cell}
    → i ≤ k
    → find_last k mid ≡ some f
    → (g : Cell × List Cell) × (find_last i mid ≡ some g)
find_last-above i k [] le h = cc
find_last-above i k (d ∷ mid) {f} le h = elim (Option-cases (find_last i mid)) [
  | inl nothing ↦ elim (Bool-cases (is_tall i d)) [
    | inl tall ↦ ((d, mid), rw (nothing, tall))
    | inr low ↦ elim (Option-cases (find_last k mid)) [
      | inl nothing' ↦
          let low' : is_tall k d ≡ false = ground arith in
          let e = sym (find_last-low k d mid low' ∙ nothing') ∙ h in cc
      | inr (g, found) ↦
          let below = find_last-above i k mid le found in let e = sym nothing ∙ below.1 in cc
    ]
  ]
  | inr (g, found) ↦ (g, rw found)
]

-- What is linked stays linked from the last cell of a level on.
pub Linked-last_from :
    (nodes : List Node) (i : ℕ) (c : Cell) (mid after : List Cell)
    → Linked nodes (c ∷ mid ++ after)
    → Linked nodes ((last_from i c mid).0 ∷ (last_from i c mid).1 ++ after)
Linked-last_from nodes i c [] after h = h
Linked-last_from nodes i c (d ∷ mid) after h =
    let rest = Linked-last_from nodes i d mid after h.2 in
    elim (Option-cases (find_last i mid)) [
      | inl nothing ↦ elim (Bool-cases (is_tall i d)) [
        | inl tall ↦ rw (nothing, tall) h.2
        | inr low ↦ rw (nothing, low) h
      ]
      | inr (g, found) ↦ rw found (rw found at rest)
    ]

-- A cell that is left behind on a level is so on the levels below.
pub last_from-below :
    (i k : ℕ) (c : Cell) (mid : List Cell)
    → i ≤ k
    → last_from i (last_from k c mid).0 (last_from k c mid).1 ≡ last_from i c mid
last_from-below i k c [] le = refl
last_from-below i k c (d ∷ mid) le =
    let rest = last_from-below i k d mid le in
    elim (Option-cases (find_last k mid)) [
      | inl nothing ↦ elim (Bool-cases (is_tall k d)) [
        | inl tall ↦
            let tall' : is_tall i d ≡ true = ground arith in
            rw (nothing, tall) (sym (last_from-tall i (c, d ∷ mid) d mid tall'))
        | inr low ↦ rw (nothing, low) refl
      ]
      | inr (g, found) ↦
          let below = find_last-above i k mid le found in
          rw (found, below.1) (rw (found, below.1) at rest)
    ]

-- The last cell of a level is on the level.
pub last_from_height :
    (i : ℕ) (c : Cell) (mid : List Cell) → i < c.height → i < (last_from i c mid).0.height
last_from_height i c [] h = h
last_from_height i c (d ∷ mid) h = elim (Option-cases (find_last i mid)) [
  | inl nothing ↦ elim (Bool-cases (is_tall i d)) [
    | inl tall ↦ rw (nothing, tall) (ground arith)
    | inr low ↦ rw (nothing, low) h
  ]
  | inr (g, found) ↦ elim (Bool-cases (is_tall i d)) [
    | inl tall ↦ let rest = last_from_height i d mid (ground arith) in rw found (rw found at rest)
    | inr low ↦ let rest = last_from_height i c mid h in rw found (rw found at rest)
  ]
]
