-- ===== src/Compaction/Publish/Values.antt =====
-- The new tables of a merge, each read back, answer as their entries together.
use mathlib.Core.Path.{subst}
use k_lsm_engine.Prelude.{
  ◌≡◌, refl, sym, ap, ◌∙◌, ◌⊎◌, inl, inr, true, Option, none, some, List, [], ◌∷◌, ◌++◌, map, arith,
  Bool-cases, Bytes, str_eq, str_eq_iff, str_lt_irrefl,
}
use k_lsm_engine.Entry.{
  EntryType, entry_type_put, entry_type_delete, other, StorageEntry, SstableEntry,
}
use k_lsm_engine.Table.Block.{stored, stored_value}
use k_lsm_engine.Table.Order.{find_entry}
use k_lsm_engine.Engine.Parts.{over}
use k_lsm_engine.Compaction.Merge.{NewTable}
use k_lsm_engine.Compaction.Merge.Newest.{RisesFrom, chunks, find_entry_above}
use k_lsm_engine.Compaction.Merge.Rising.{Rising}
use k_lsm_engine.Compaction.Merge.Opened.{StoredTable}
use k_lsm_engine.Compaction.Publish.Answer.{newest_find, entries_of_tables}
use k_lsm_engine.Compaction.Publish.Merged.{levels_find}

-- an entry as a table gives it back
unfoldable pub read_back : Option StorageEntry → Option StorageEntry
read_back none = none
read_back (some e) = some (record { type = e.type; value = stored_value e.type e.value })

find_entry-stored :
    (key : Bytes) (es : List SstableEntry)
    → find_entry key (map stored es) ≡ read_back (find_entry key es)
unfolding find_entry stored read_back
find_entry-stored key [] = refl
find_entry-stored key (e ∷ es) = elim (Bool-cases (str_eq e.k key)) [
  | inl same ↦ rw same refl
  | inr ne ↦ rw ne (find_entry-stored key es)
]

read_back-over :
    (a b : Option StorageEntry) → read_back (over a b) ≡ over (read_back a) (read_back b)
unfolding read_back
read_back-over none b = refl
read_back-over (some e) b = refl

stored_value_idem :
    (type : EntryType) (v : Bytes) → stored_value type (stored_value type v) ≡ stored_value type v
unfolding stored_value
stored_value_idem entry_type_put v = refl
stored_value_idem entry_type_delete v = refl
stored_value_idem (other t) v = refl

read_back_idem : (a : Option StorageEntry) → read_back (read_back a) ≡ read_back a
unfolding read_back stored_value
read_back_idem none = refl
read_back_idem (some e) =
    ap (λ v. some (record { type = e.type; value = v })) (stored_value_idem e.type e.value)

read_back-newest_find :
    (key : Bytes) (ess : List (List SstableEntry))
    → read_back (newest_find key ess) ≡ newest_find key ess
unfolding newest_find read_back
read_back-newest_find key [] = refl
read_back-newest_find key (es ∷ ess) =
    read_back-over (newest_find key ess) (find_entry key (map stored es))
    ∙ rw
        (
          read_back-newest_find key ess,
          find_entry-stored key es,
          read_back_idem (find_entry key es),
        )
        refl

pub read_back-levels_find :
    (key : Bytes) (l0 l1 : List StoredTable)
    → read_back (levels_find key l0 l1) ≡ levels_find key l0 l1
read_back-levels_find key l0 l1 =
    read_back-over (newest_find key (entries_of_tables l0)) (newest_find key (entries_of_tables l1))
    ∙ rw
        (
          read_back-newest_find key (entries_of_tables l0),
          read_back-newest_find key (entries_of_tables l1),
        )
        refl

find_entry-append :
    (key : Bytes) (a b : List SstableEntry)
    → find_entry key (a ++ b) ≡ over (find_entry key a) (find_entry key b)
unfolding find_entry
find_entry-append key [] b = refl
find_entry-append key (e ∷ a) b = elim (Bool-cases (str_eq e.k key)) [
  | inl same ↦ rw same refl
  | inr ne ↦ rw ne (find_entry-append key a b)
]

find_entry-RisesFrom :
    (key : Bytes) (es : List SstableEntry) → RisesFrom key es → find_entry key es ≡ none
unfolding find_entry
find_entry-RisesFrom key [] r = refl
find_entry-RisesFrom key (e ∷ es) r =
    ground (arith, r.0, str_eq_iff e.k key, str_lt_irrefl key, find_entry_above key e.k es r.0 r.1)

over-none_inv : (a b : Option StorageEntry) → over a b ≡ none → b ≡ none
over-none_inv none b h = h
over-none_inv (some e) b h = cc

RisesFrom-behind : (from : Bytes) (a b : List SstableEntry) → RisesFrom from (a ++ b) → Rising b
RisesFrom-behind from [] [] r = tt
RisesFrom-behind from [] (e ∷ b) r = r.1
RisesFrom-behind from (e ∷ a) b r = RisesFrom-behind e.k a b r.1

Rising-behind : (a b : List SstableEntry) → Rising (a ++ b) → Rising b
Rising-behind [] b r = r
Rising-behind (e ∷ a) b r = RisesFrom-behind e.k a b r

none_behind :
    (key : Bytes) (e : SstableEntry) (a b : List SstableEntry)
    → str_eq e.k key ≡ true
    → RisesFrom e.k (a ++ b)
    → find_entry key b ≡ none
none_behind key e a b same r =
    let k = (str_eq_iff e.k key).0 same in
    over-none_inv (find_entry key a) (find_entry key b) (
      sym (find_entry-append key a b)
      ∙ find_entry-RisesFrom key (a ++ b) (subst (λ at. RisesFrom at (a ++ b)) k r))

-- A key is in one of two runs at most.
RisesFrom-apart :
    (key : Bytes) (e : SstableEntry) (a b : List SstableEntry)
    → RisesFrom e.k (a ++ b)
    → (find_entry key (e ∷ a) ≡ none) ⊎ (find_entry key b ≡ none)
unfolding find_entry
RisesFrom-apart key e [] b r = elim (Bool-cases (str_eq e.k key)) [
  | inl same ↦ inr (none_behind key e [] b same r)
  | inr ne ↦ inl (rw ne refl)
]
RisesFrom-apart key e (x ∷ a) b r = elim (Bool-cases (str_eq e.k key)) [
  | inl same ↦ inr (none_behind key e (x ∷ a) b same r)
  | inr ne ↦ elim (RisesFrom-apart key x a b r.1) [
    | inl absent ↦ inl (rw ne absent)
    | inr absent ↦ inr absent
  ]
]

Rising-apart :
    (key : Bytes) (a b : List SstableEntry)
    → Rising (a ++ b)
    → (find_entry key a ≡ none) ⊎ (find_entry key b ≡ none)
unfolding find_entry
Rising-apart key [] b r = inl refl
Rising-apart key (e ∷ a) b r = RisesFrom-apart key e a b r

over_swap :
    (a b : Option StorageEntry)
    → (a ≡ none) ⊎ (b ≡ none)
    → over (read_back b) (read_back a) ≡ read_back (over a b)
unfolding read_back
over_swap none none h = refl
over_swap none (some y) h = refl
over_swap (some x) none h = refl
over_swap (some x) (some y) (inl h) = cc
over_swap (some x) (some y) (inr h) = cc

abbrev pub chunks_of : List NewTable → List (List SstableEntry)
chunks_of = map (λ (t : NewTable). t.chunk)

-- If their keys rise from one table to the next, it does not matter in which order they are read.
pub newest_find-chunks :
    (key : Bytes) (ts : List NewTable)
    → Rising (chunks ts)
    → newest_find key (chunks_of ts) ≡ read_back (find_entry key (chunks ts))
unfolding newest_find read_back find_entry
newest_find-chunks key [] r = refl
newest_find-chunks key (t ∷ ts) r =
    rw
      (
        newest_find-chunks key ts (Rising-behind t.chunk (chunks ts) r),
        find_entry-stored key t.chunk,
        find_entry-append key t.chunk (chunks ts),
      )
      (over_swap (find_entry key t.chunk) (find_entry key (chunks ts))
        (Rising-apart key t.chunk (chunks ts) r))
