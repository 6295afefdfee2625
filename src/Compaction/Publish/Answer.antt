-- ===== src/Compaction/Publish/Answer.antt =====
-- What a merge answers, as a lookup through the tables from the newest.
use mathlib.Core.Path.{subst}
use k_lsm_engine.Prelude.{
  ℕ, ◌+◌, ◌<◌, ◌≡◌, ◌⊎◌, inl, inr, refl, ap, ◌∙◌, false, Option, none, some, List, [], ◌∷◌, ◌++◌,
  All, arith, map, Option-cases, Bytes,
}
use k_lsm_engine.Entry.{StorageEntry, SstableEntry}
use k_lsm_engine.Table.Block.{stored}
use k_lsm_engine.Table.Order.{find_entry}
use k_lsm_engine.Engine.Parts.{over}
use k_lsm_engine.Compaction.{SstableHeapItem}
use k_lsm_engine.Compaction.Merge.{item_of}
use k_lsm_engine.Compaction.Merge.Least.{Source, find}
use k_lsm_engine.Compaction.Merge.Newest.{IsAnswer, nowhere, newest, is_newer}
use k_lsm_engine.Compaction.Merge.Opened.{StoredTable, open_table, open_tables}

-- A later table of a level is a newer one.
unfoldable pub newest_find : Bytes → List (List SstableEntry) → Option StorageEntry
newest_find key [] = none
newest_find key (es ∷ rest) = over (newest_find key rest) (find_entry key (map stored es))

abbrev pub entries_of_tables : List StoredTable → List (List SstableEntry)
entries_of_tables = map (λ (t : StoredTable). t.entries)

abbrev pub present : List StoredTable → List (Option StoredTable)
present = map some

-- The sources are of one level, and their indices below a number.
abbrev pub IsBelow : ℕ → ℕ → List Source → Type 0
IsBelow level n ss = All (λ (s : Source). (s.item.level ≡ level) × (s.item.table_index < n)) ss

IsBelow-suc : (level n : ℕ) (ss : List Source) → IsBelow level n ss → IsBelow level (n + 1) ss
IsBelow-suc level n [] h = tt
IsBelow-suc level n (s ∷ ss) h = ((h.0.0, omega (arith, h.0.1)), IsBelow-suc level n ss h.1)

-- None of the sources is newer than one with a later index.
none_newer :
    (key : Bytes) (level n : ℕ) (item : SstableHeapItem) (ss : List Source)
    → item.level ≡ level
    → item.table_index ≡ n
    → IsBelow level n ss
    → All (λ s. (find key s ≡ none) ⊎ (is_newer s.item item ≡ false)) ss
none_newer key level n item [] l i h = tt
none_newer key level n item (s ∷ ss) l i h =
    let same = h.0.0 in
    let low = h.0.1 in
    (inr (ground (arith, l, i, same, low)), none_newer key level n item ss l i h.1)

-- A source of a later index is asked first.
IsAnswer-later :
    (key : Bytes) (level n : ℕ) (s : Source) (ss : List Source) (o : Option StorageEntry)
    → s.item.level ≡ level
    → s.item.table_index ≡ n
    → IsBelow level n ss
    → IsAnswer key ss o
    → IsAnswer key (s ∷ ss) (over (find key s) o)
IsAnswer-later key level n s ss o l i below answer = elim (Option-cases (find key s)) [
  | inr (e, there) ↦ rw there (
      newest e refl (record {
        source = s;
        among = inl refl;
        entry = there;
        newest = (inr (ground arith), none_newer key level n s.item ss l i below);
      }))
  | inl absent ↦ rw absent (elim answer [
    | nowhere e all ↦ nowhere e (absent, all)
    | newest e found m ↦ newest e found (record {
      source = m.source;
      among = inr m.among;
      entry = m.entry;
      newest = (inl absent, m.newest);
    })
  ])
]

-- The tables of a level, opened after each other.
pub record IsLevel (key : Bytes) (level : ℕ) (opened : ℕ × List Source) (o : Option StorageEntry)
    : Type 0 where
  pub below : IsBelow level opened.0 opened.1
  pub answer : IsAnswer key opened.1 o

open_table-IsLevel :
    (key : Bytes) (level : ℕ) (opened : ℕ × List Source) (es : List SstableEntry)
    (o : Option StorageEntry)
    → IsLevel key level opened o
    → IsLevel key level (open_table level opened es) (over (find_entry key es) o)
unfolding find_entry
open_table-IsLevel key level (n, ss) [] o h = h
open_table-IsLevel key level (n, ss) (e ∷ es) o h = record {
  below = ((refl, omega arith), IsBelow-suc level n ss h.below);
  answer =
      IsAnswer-later key level n (record { item = item_of e n level; rest = es }) ss o refl refl
        h.below h.answer;
}

pub over_assoc : (a b c : Option StorageEntry) → over a (over b c) ≡ over (over a b) c
over_assoc (some x) b c = refl
over_assoc none b c = refl

pub open_tables-IsLevel :
    (key : Bytes) (level : ℕ) (opened : ℕ × List Source) (ts : List StoredTable)
    (o : Option StorageEntry)
    → IsLevel key level opened o
    → IsLevel key level
        (open_tables level opened (present ts))
        (over (newest_find key (entries_of_tables ts)) o)
unfolding newest_find
open_tables-IsLevel key level opened [] o h = h
open_tables-IsLevel key level opened (t ∷ ts) o h =
    subst (IsLevel key level (open_tables level opened (present (t ∷ ts))))
      (over_assoc (newest_find key (entries_of_tables ts)) (find_entry key (map stored t.entries))
        o)
      (open_tables-IsLevel key level (open_table level opened (map stored t.entries)) ts
        (over (find_entry key (map stored t.entries)) o)
        (open_table-IsLevel key level opened (map stored t.entries) o h))

open_table-append :
    (level n : ℕ) (a b : List Source) (es : List SstableEntry)
    → open_table level (n, a ++ b) es
      ≡ ((open_table level (n, a) es).0, (open_table level (n, a) es).1 ++ b)
open_table-append level n a b [] = refl
open_table-append level n a b (e ∷ es) = refl

pub open_tables-append :
    (level : ℕ) (opened : ℕ × List Source) (b : List Source) (ts : List StoredTable)
    → open_tables level (opened.0, opened.1 ++ b) (present ts)
      ≡ ((open_tables level opened (present ts)).0, (open_tables level opened (present ts)).1 ++ b)
open_tables-append level opened b [] = refl
open_tables-append level opened b (t ∷ ts) =
    ap (λ x. open_tables level x (present ts))
      (open_table-append level opened.0 opened.1 b (map stored t.entries))
    ∙ open_tables-append level (open_table level opened (map stored t.entries)) b ts
