-- ===== src/Compaction/Merge/Newest.antt =====
-- The sources that a state of the merge holds, its output, and the newest version of a key.
use k_lsm_engine.Prelude.{
  ◌≡◌, ◌≢◌, ◌⊎◌, inl, inr, refl, sym, ap, ◌∙◌, Bool, true, false, not, Option, none, some, List, [],
  ◌∷◌, ◌++◌, All, arith, ltb, ◌==◌, append_assoc, if◌then◌else◌, Bool-cases, Bytes, str_eq, str_lt,
  str_eq_iff, str_lt_irrefl, str_lt_trans, get_elem?,
}
use k_lsm_engine.Entry.{StorageEntry, SstableEntry}
use k_lsm_engine.Table.Order.{find_entry}
use k_lsm_engine.Compaction.{SstableReader, SstableHeapItem}
use k_lsm_engine.Compaction.Readers.{Yields}
use k_lsm_engine.Compaction.Merge.{NewTable, MergeState}
use k_lsm_engine.Compaction.Merge.Least.{Source, find, items}

-- The keys rise strictly, from above the key on.
abbrev pub RisesFrom : Bytes → List SstableEntry → Type 0
RisesFrom key [] = Unit
RisesFrom key (e ∷ es) = (str_lt key e.k ≡ true) × RisesFrom e.k es

-- The reader of the item yields the rest of its table, whose keys rise.
pub record IsSource (readers : List SstableReader) (s : Source) : Type 0 where
  pub reader : SstableReader
  pub there : get_elem? readers s.item.table_index ≡ some reader
  pub yields : Yields reader s.rest
  pub rises : RisesFrom s.item.key s.rest

abbrev pub IsAlone : Source → List Source → Type 0
IsAlone s ss = All (λ (x : Source). s.item.table_index ≢ x.item.table_index) ss

abbrev pub AreAlone : List Source → Type 0
AreAlone [] = Unit
AreAlone (s ∷ ss) = IsAlone s ss × AreAlone ss

-- The state of the merge holds these sources.
pub record IsMerge (st : MergeState) (ss : List Source) : Type 0 where
  pub heap : st.heap ≡ items ss
  pub sources : All (IsSource st.readers) ss
  pub alone : AreAlone ss

-- all entries that were taken, in their order
abbrev pub chunks : List NewTable → List SstableEntry
chunks [] = []
chunks (t ∷ ts) = t.chunk ++ chunks ts

abbrev pub output : MergeState → List SstableEntry
output st = chunks st.new_tables ++ st.chunk

-- `a` is of a newer table than `b`: of a lower level, or a later one of the level.
abbrev pub is_newer : SstableHeapItem → SstableHeapItem → Bool
is_newer a b =
    if not (a.level == b.level) then ltb a.level b.level else ltb b.table_index a.table_index

abbrev pub Among : Source → List Source → Type 0
Among s [] = ⊥
Among s (x ∷ xs) = (s ≡ x) ⊎ Among s xs

-- The source has the entry for the key, and no newer one has the key.
pub record IsNewest (key : Bytes) (ss : List Source) (e : StorageEntry) : Type 0 where
  pub source : Source
  pub among : Among source ss
  pub entry : find key source ≡ some e
  pub newest : All (λ s. (find key s ≡ none) ⊎ (is_newer s.item source.item ≡ false)) ss

-- None if no source has the key, and else the newest version of it.
pub data IsAnswer (key : Bytes) (ss : List Source) (o : Option StorageEntry) : Type 0 where
  nowhere : o ≡ none → All (λ s. find key s ≡ none) ss → IsAnswer key ss o
  newest : (e : StorageEntry) → o ≡ some e → IsNewest key ss e → IsAnswer key ss o

abbrev pub entry_of_item : SstableHeapItem → SstableEntry
entry_of_item item = record { k = item.key; v = item.entry.value; type = item.entry.type }

pub find_entry-append_some :
    (key : Bytes) (a b : List SstableEntry) (e : StorageEntry)
    → find_entry key a ≡ some e
    → find_entry key (a ++ b) ≡ some e
unfolding find_entry
find_entry-append_some key [] b e h = cc
find_entry-append_some key (x ∷ a) b e h = elim (Bool-cases (str_eq x.k key)) [
  | inl same ↦ rw same (rw same at h)
  | inr ne ↦ rw ne (find_entry-append_some key a b e (rw ne at h))
]

pub find_entry-append_none :
    (key : Bytes) (a b : List SstableEntry)
    → find_entry key a ≡ none
    → find_entry key (a ++ b) ≡ find_entry key b
unfolding find_entry
find_entry-append_none key [] b h = refl
find_entry-append_none key (x ∷ a) b h = elim (Bool-cases (str_eq x.k key)) [
  | inl same ↦ let h' = rw same at h in cc
  | inr ne ↦ rw ne (find_entry-append_none key a b (rw ne at h))
]

pub find_entry_above :
    (key from : Bytes) (es : List SstableEntry)
    → str_lt key from ≡ true
    → RisesFrom from es
    → find_entry key es ≡ none
unfolding find_entry
find_entry_above key from [] lt r = refl
find_entry_above key from (e ∷ es) lt r =
    let above = str_lt_trans key from e.k lt r.0 in
    ground
      (arith, above, str_eq_iff e.k key, str_lt_irrefl key, find_entry_above key e.k es above r.1)

-- A source whose item is above the key does not have it.
pub find-above :
    (key : Bytes) (s : Source)
    → str_lt key s.item.key ≡ true
    → RisesFrom s.item.key s.rest
    → find key s ≡ none
find-above key s lt r = ground (
  arith,
  str_eq_iff s.item.key key,
  str_lt_irrefl key,
  find_entry_above key s.item.key s.rest lt r,
)

pub chunks-append : (ts us : List NewTable) → chunks (ts ++ us) ≡ chunks ts ++ chunks us
chunks-append [] us = refl
chunks-append (t ∷ ts) us =
    ap (λ (es : List SstableEntry). t.chunk ++ es) (chunks-append ts us)
    ∙ sym (append_assoc t.chunk (chunks ts) (chunks us))
