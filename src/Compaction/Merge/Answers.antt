-- ===== src/Compaction/Merge/Answers.antt =====
-- How the answers of sources go over to the least of them and to what is left behind it.
use mathlib.Core.Path.{subst}
use k_lsm_engine.Prelude.{
  ◌≡◌, ◌⊎◌, inl, inr, refl, Bool, true, false, Option, none, some, List, [], ◌∷◌, All, arith,
  if◌then◌else◌, Bool-cases, Bytes, str_eq, str_lt, str_eq_iff, str_lt_total,
}
use k_lsm_engine.Entry.{StorageEntry, SstableEntry}
use k_lsm_engine.Table.Order.{find_entry}
use k_lsm_engine.Compaction.{SstableReader, SstableHeapItem, less}
use k_lsm_engine.Compaction.Merge.Least.{
  Source, find, lesser, least_of, others_of, least_of-All, IsNotLess,
}
use k_lsm_engine.Compaction.Merge.Newest.{
  IsSource, is_newer, Among, IsAnswer, nowhere, newest, find-above,
}
use k_lsm_engine.Compaction.Merge.Advance.{behind}

-- The source does not have the key, or not in a newer version than the item.
abbrev pub IsOlder : Bytes → SstableHeapItem → Source → Type 0
IsOlder key item s = (find key s ≡ none) ⊎ (is_newer s.item item ≡ false)

Among-if :
    (s m x : Source) (xs : List Source) (b : Bool)
    → Among s ((if b then m else x) ∷ (if b then x else m) ∷ xs)
    → Among s (m ∷ x ∷ xs)
Among-if s m x xs true a = a
Among-if s m x xs false (inl e) = inr (inl e)
Among-if s m x xs false (inr (inl e)) = inl e
Among-if s m x xs false (inr (inr there)) = inr (inr there)

pub Among-least_of :
    (s m : Source) (xs : List Source) → Among s (least_of m xs ∷ others_of m xs) → Among s (m ∷ xs)
Among-least_of s m [] a = a
Among-least_of s m (x ∷ xs) a = Among-if s m x xs (less x.item m.item) (elim a [
  | inl e ↦ inr (Among-least_of s (lesser x m) xs (inl e))
  | inr (inl e) ↦ inl e
  | inr (inr there) ↦ inr (Among-least_of s (lesser x m) xs (inr there))
])

-- What the least source and the others answer is what all answer.
pub IsAnswer-least_of :
    (key : Bytes) (m : Source) (xs : List Source) (o : Option StorageEntry)
    → IsAnswer key (least_of m xs ∷ others_of m xs) o
    → IsAnswer key (m ∷ xs) o
IsAnswer-least_of key m xs o (nowhere e all) =
    nowhere e (least_of-All (λ (s : Source). find key s ≡ none) m xs all)
IsAnswer-least_of key m xs o (newest e found n) = newest e found (record {
  source = n.source;
  among = Among-least_of n.source m xs n.among;
  entry = n.entry;
  newest = least_of-All (IsOlder key n.source.item) m xs n.newest;
})

-- An item of another key answers nothing.
pub IsAnswer-behind :
    (key : Bytes) (item : SstableHeapItem) (es : List SstableEntry) (ss : List Source)
    (o : Option StorageEntry)
    → str_eq item.key key ≡ false
    → IsAnswer key (behind item es ss) o
    → IsAnswer key (record { item = item; rest = es } ∷ ss) o
unfolding find_entry
IsAnswer-behind key item [] ss o ne (nowhere e all) = nowhere e (rw ne refl, all)
IsAnswer-behind key item (x ∷ es) ss o ne (nowhere e all) = nowhere e (rw ne all.0, all.1)
IsAnswer-behind key item [] ss o ne (newest e found n) = newest e found (record {
  source = n.source;
  among = inr n.among;
  entry = n.entry;
  newest = (inl (rw ne refl), n.newest);
})
IsAnswer-behind key item (x ∷ es) ss o ne (newest e found n) = elim n.among [
  | inl here ↦
      let found_here = subst (λ (s : Source). find key s ≡ some e) here n.entry in
      let none_newer =
        subst (λ (s : Source). All (IsOlder key s.item) (behind item (x ∷ es) ss)) here n.newest in
      newest e found (record {
        source = record { item = item; rest = x ∷ es };
        among = inl refl;
        entry = rw ne found_here;
        newest = (rw ne none_newer.0, none_newer.1);
      })
  | inr there ↦ newest e found (record {
    source = n.source;
    among = inr there;
    entry = n.entry;
    newest = (rw ne n.newest.0, n.newest.1);
  })
]

-- What is not less than an item with the key is no newer version of the key.
IsNotLess-IsOlder :
    (key : Bytes) (readers : List SstableReader) (l : SstableHeapItem) (s : Source)
    → str_eq l.key key ≡ true
    → IsNotLess l s
    → IsSource readers s
    → IsOlder key l s
unfolding less
IsNotLess-IsOlder key readers l s same h source = elim (Bool-cases (str_eq s.item.key l.key)) [
  | inl eq ↦ inr (rw eq at h)
  | inr ne ↦
      let not_below : str_lt s.item.key l.key ≡ false = rw ne at h in
      let e : l.key ≡ key = (str_eq_iff l.key key).0 same in
      let above : str_lt l.key s.item.key ≡ true = elim (Bool-cases (str_lt l.key s.item.key)) [
        | inl lt ↦ lt
        | inr ge ↦
            ground (arith, str_lt_total s.item.key l.key not_below ge, str_eq_iff s.item.key l.key)
      ] in
      inl (find-above key s (rw (← e) above) source.rises)
]

pub All-IsOlder :
    (key : Bytes) (readers : List SstableReader) (l : SstableHeapItem) (ss : List Source)
    → str_eq l.key key ≡ true
    → All (IsNotLess l) ss
    → All (IsSource readers) ss
    → All (IsOlder key l) ss
All-IsOlder key readers l [] same h sources = tt
All-IsOlder key readers l (s ∷ ss) same h sources = (
  IsNotLess-IsOlder key readers l s same h.0 sources.0,
  All-IsOlder key readers l ss same h.1 sources.1,
)
