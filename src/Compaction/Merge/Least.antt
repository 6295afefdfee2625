-- ===== src/Compaction/Merge/Least.antt =====
-- The items of the heap with what their tables still hold, and the least of them.
use mathlib.Core.Path.{subst}
use k_lsm_engine.Prelude.{
  ◌≡◌, inl, inr, refl, sym, Bool, true, false, Option, some, List, [], ◌∷◌, map, All, arith,
  if◌then◌else◌, Bool-cases, Bytes, str_eq,
}
use k_lsm_engine.Entry.{StorageEntry, SstableEntry}
use k_lsm_engine.Table.Order.{find_entry}
use k_lsm_engine.Compaction.{SstableHeapItem, less}
use k_lsm_engine.Compaction.Order.{less_irrefl, less_trans, less_total}
use k_lsm_engine.Compaction.Merge.{take_least}

-- An item, and the entries that its table has behind it.
pub record Source : Type 0 where
  pub item : SstableHeapItem
  pub rest : List SstableEntry

-- What the source answers for a key.
abbrev pub find : Bytes → Source → Option StorageEntry
find key s = if str_eq s.item.key key then some s.item.entry else find_entry key s.rest

abbrev pub items : List Source → List SstableHeapItem
items ss = map (λ (s : Source). s.item) ss

-- `take_least` on sources
abbrev pub lesser : Source → Source → Source
lesser x m = if less x.item m.item then x else m

abbrev pub greater : Source → Source → Source
greater x m = if less x.item m.item then m else x

abbrev pub least_of : Source → List Source → Source
least_of m [] = m
least_of m (x ∷ xs) = least_of (lesser x m) xs

abbrev pub others_of : Source → List Source → List Source
others_of m [] = []
others_of m (x ∷ xs) = greater x m ∷ others_of (lesser x m) xs

if_item : (b : Bool) (x m : Source) → (if b then x.item else m.item) ≡ (if b then x else m).item
if_item true x m = refl
if_item false x m = refl

pub take_least-items :
    (m : Source) (xs : List Source)
    → take_least m.item (items xs) ≡ ((least_of m xs).item, items (others_of m xs))
unfolding take_least
take_least-items m [] = refl
take_least-items m (x ∷ xs) = rw (
  if_item (less x.item m.item) x m,
  if_item (less x.item m.item) m x,
  take_least-items (lesser x m) xs,
)

module _ {κ} (P : Source → Type κ) where
  pub All-least_of :
      (m : Source) (xs : List Source) → All P (m ∷ xs) → All P (least_of m xs ∷ others_of m xs)
  All-least_of m [] h = h
  All-least_of m (x ∷ xs) h = elim (Bool-cases (less x.item m.item)) [
    | inl lt ↦ let rest = All-least_of x xs (h.1.0, h.1.1) in rw lt (rest.0, (h.0, rest.1))
    | inr ge ↦ let rest = All-least_of m xs (h.0, h.1.1) in rw ge (rest.0, (h.1.0, rest.1))
  ]

  pub least_of-All :
      (m : Source) (xs : List Source) → All P (least_of m xs ∷ others_of m xs) → All P (m ∷ xs)
  least_of-All m [] h = h
  least_of-All m (x ∷ xs) h = elim (Bool-cases (less x.item m.item)) [
    | inl lt ↦
        let h' = rw lt at h in
        let rest = least_of-All x xs (h'.0, h'.1.1) in (h'.1.0, (rest.0, rest.1))
    | inr ge ↦
        let h' = rw ge at h in
        let rest = least_of-All m xs (h'.0, h'.1.1) in (rest.0, (h'.1.0, rest.1))
  ]

-- `x < l ≤ m` of items
less-le : (x l m : SstableHeapItem) → less x l ≡ true → less m l ≡ false → less x m ≡ true
unfolding less
less-le x l m lt le = elim (Bool-cases (less l m)) [
  | inl lm ↦ less_trans x l m lt lm
  | inr ge ↦ let (key, level, index) = less_total l m ge le in rw (← key, ← level, ← index) lt
]

abbrev pub IsNotLess : SstableHeapItem → Source → Type 0
IsNotLess l s = less s.item l ≡ false

-- None of the items is below the least one.
pub least_of-IsNotLess :
    (m : Source) (xs : List Source) → All (IsNotLess (least_of m xs).item) (m ∷ xs)
least_of-IsNotLess m [] = (less_irrefl m.item, tt)
least_of-IsNotLess m (x ∷ xs) = elim (Bool-cases (less x.item m.item)) [
  | inl lt ↦
      let rest = least_of-IsNotLess x xs in
      let l = least_of x xs in
      let above : less m.item l.item ≡ false =
        ground (arith, rest.0, less_trans x.item m.item l.item) in
      let e : lesser x m ≡ x = rw lt in
      subst (λ (s : Source). All (IsNotLess (least_of s xs).item) (m ∷ x ∷ xs)) (sym e)
        (above, (rest.0, rest.1))
  | inr ge ↦
      let rest = least_of-IsNotLess m xs in
      let l = least_of m xs in
      let above : less x.item l.item ≡ false =
        ground (arith, rest.0, less-le x.item l.item m.item) in
      let e : lesser x m ≡ m = rw ge in
      subst (λ (s : Source). All (IsNotLess (least_of s xs).item) (m ∷ x ∷ xs)) (sym e)
        (rest.0, (above, rest.1))
]
