-- ===== src/Engine/OnDisk/Levels.antt =====
-- The levels that are read after a save.
use k_lsm_engine.Prelude.{
  ℕ, ◌≡◌, refl, ap, ◌∙◌, inl, inr, true, false, Option, none, some, List, [], ◌∷◌, ◌++◌, arith,
  ◌==◌, if◌then◌else◌, Bool-cases, Bytes,
}
use k_lsm_engine.Store.{SstableLevel, find_level, tables_of, filters_of}
use k_lsm_engine.Store.Disk.{register_bloom_filter, set_filter, sidecar_filter}
use k_lsm_engine.Store.Manifest.{sort_levels}
use k_lsm_engine.Store.Publish.{cons_level, add_to_level, new_level, with_table_sorted}
use k_lsm_engine.Store.Publish.Ends.{
  added, registered, find_level-register_0, find_level-register_1,
}
use k_lsm_engine.Compaction.Publish.Levels.{find_level-sort_levels}

-- The search for level 0 fails, or changes this level only.
abbrev EndsAdd : Bytes → List SstableLevel → Option (List SstableLevel) → Type 0
EndsAdd name levels none = find_level levels 0 ≡ none
EndsAdd name levels (some ls) =
    (find_level ls 0 ≡ some (added name (find_level levels 0)))
    × (find_level ls 1 ≡ find_level levels 1)

cons_level-ends :
    (name : Bytes) (l : SstableLevel) (levels : List SstableLevel) (o : Option (List SstableLevel))
    → (l.level == 0) ≡ false
    → EndsAdd name levels o
    → EndsAdd name (l ∷ levels) (cons_level l o)
unfolding cons_level find_level
cons_level-ends name l levels none ne h = rw ne h
cons_level-ends name l levels (some ls) ne h =
    (rw ne h.0, ap (λ o. if l.level == 1 then some l else o) h.1)

add_to_level-ends :
    (name : Bytes) (levels : List SstableLevel) → EndsAdd name levels (add_to_level levels 0 name)
unfolding add_to_level find_level
add_to_level-ends name [] = refl
add_to_level-ends name (l ∷ levels) = elim (Bool-cases (l.level == 0)) [
  | inr ne ↦ rw ne (
      cons_level-ends name l levels (add_to_level levels 0 name) ne (add_to_level-ends name levels))
  | inl here ↦
      let ne : (l.level == 1) ≡ false = ground (arith, here) in rw here (rw here refl, rw ne refl)
]

find_level-snoc :
    (levels : List SstableLevel) (l : SstableLevel) (n : ℕ)
    → (l.level == n) ≡ false
    → find_level (levels ++ l ∷ []) n ≡ find_level levels n
unfolding find_level
find_level-snoc [] l n ne = rw ne refl
find_level-snoc (x ∷ levels) l n ne =
    ap (λ o. if x.level == n then some x else o) (find_level-snoc levels l n ne)

find_level-snoc_none :
    (levels : List SstableLevel) (l : SstableLevel) (n : ℕ)
    → (l.level == n) ≡ true
    → find_level levels n ≡ none
    → find_level (levels ++ l ∷ []) n ≡ some l
unfolding find_level
find_level-snoc_none [] l n here absent = rw here refl
find_level-snoc_none (x ∷ levels) l n here absent = elim (Bool-cases (x.level == n)) [
  | inl there ↦ let never = rw there at absent in cc
  | inr ne ↦ rw ne (find_level-snoc_none levels l n here (rw ne at absent))
]

IsWithTable : Bytes → List SstableLevel → List SstableLevel → Type 0
IsWithTable name levels ls =
    (find_level ls 0 ≡ some (added name (find_level levels 0)))
    × (find_level ls 1 ≡ find_level levels 1)

with_table_sorted-IsWithTable :
    (levels : List SstableLevel) (name : Bytes)
    → IsWithTable name levels (with_table_sorted levels 0 name)
unfolding with_table_sorted IsWithTable
with_table_sorted-IsWithTable levels name =
    by_search (add_to_level levels 0 name) (add_to_level-ends name levels)
  where
    by_search :
        (o : Option (List SstableLevel))
        → EndsAdd name levels o
        → IsWithTable name levels
            (elim o [ none ↦ sort_levels (levels ++ new_level 0 name ∷ []) | some ls ↦ ls ])
    by_search none absent = (
      find_level-sort_levels (levels ++ new_level 0 name ∷ []) 0
          ∙ find_level-snoc_none levels (new_level 0 name) 0 refl absent
          ∙ rw absent refl,
      find_level-sort_levels (levels ++ new_level 0 name ∷ []) 1
          ∙ find_level-snoc levels (new_level 0 name) 1 refl,
    )
    by_search (some ls) h = h

-- The tables, filters and ranges of the two levels after a save.
pub record IsLevels (sidecars : ℕ → Bytes → Option Bytes) (levels : List SstableLevel)
    (name : Bytes) (ls : List SstableLevel) : Type 0 where
  pub tables_0 : tables_of (find_level ls 0) ≡ tables_of (find_level levels 0) ++ name ∷ []
  pub filters_0 :
      filters_of (find_level ls 0)
      ≡ set_filter (filters_of (find_level levels 0)) name (sidecar_filter sidecars 0 name)
  pub level_1 : find_level ls 1 ≡ find_level levels 1

tables_of-added :
    (sidecars : ℕ → Bytes → Option Bytes) (name : Bytes) (o : Option SstableLevel)
    → (tables_of (registered sidecars name (some (added name o))) ≡ tables_of o ++ name ∷ [])
      × (filters_of (registered sidecars name (some (added name o)))
          ≡ set_filter (filters_of o) name (sidecar_filter sidecars 0 name))
unfolding tables_of filters_of
tables_of-added sidecars name none = (refl, refl)
tables_of-added sidecars name (some l) = (refl, refl)

pub saved-IsLevels :
    (sidecars : ℕ → Bytes → Option Bytes) (levels : List SstableLevel) (name : Bytes)
    → IsLevels sidecars levels name
        (register_bloom_filter sidecars (with_table_sorted levels 0 name) 0 name)
unfolding IsWithTable
saved-IsLevels sidecars levels name =
    let ls = with_table_sorted levels 0 name in
    let (at_0, at_1) = with_table_sorted-IsWithTable levels name in
    let found = find_level-register_0 sidecars ls name ∙ ap (registered sidecars name) at_0 in
    let fields = tables_of-added sidecars name (find_level levels 0) in
    record {
      tables_0 = ap tables_of found ∙ fields.0;
      filters_0 = ap filters_of found ∙ fields.1;
      level_1 = find_level-register_1 sidecars ls name ∙ at_1;
    }
