-- ===== src/Compaction/Merge/Advance.antt =====
-- The step of the merge that goes on to the next entry of a table: `advance_item`.
use k_lsm_engine.Prelude.{
  ℕ, suc, ◌+◌, ◌≡◌, ◌≢◌, inl, inr, refl, sym, ap, ◌∙◌, Bool, true, false, some, List, [], ◌∷◌, All,
  arith, if◌then◌else◌, Bool-cases, get_elem?, set, ok, bind-inv, ok-injective, checked, length,
}
use k_lsm_engine.Entry.{SstableEntry}
use k_lsm_engine.Store.Disk.{StatOutcome}
use k_lsm_engine.SkipList.Link.{get_elem?-set_self, get_elem?-set_other}
use k_lsm_engine.Compaction.{SstableReader, SstableHeapItem, advance, less}
use k_lsm_engine.Compaction.Readers.{Yields}
use k_lsm_engine.Compaction.Merge.{MergeState, item_of, next_of, advance_item}
use k_lsm_engine.Compaction.Merge.Least.{
  Source, items, least_of, others_of, lesser, greater, All-least_of,
}
use k_lsm_engine.Compaction.Merge.Newest.{IsSource, IsMerge, AreAlone, IsAlone, RisesFrom, output}

-- The sources after the entry of one was taken.
abbrev pub behind : SstableHeapItem → List SstableEntry → List Source → List Source
behind item [] ss = ss
behind item (e ∷ es) ss = record { item = item_of e item.table_index item.level; rest = es } ∷ ss

abbrev pub total : List Source → ℕ
total [] = 0
total (s ∷ ss) = suc (length s.rest + total ss)

total_rest :
    (item : SstableHeapItem) (es : List SstableEntry) (ss : List Source)
    → suc (total (behind item es ss)) ≡ suc (length es + total ss)
total_rest item [] ss = omega arith
total_rest item (e ∷ es) ss = omega arith

pub total-behind :
    (s : Source) (ss : List Source) → suc (total (behind s.item s.rest ss)) ≡ total (s ∷ ss)
total-behind s ss = total_rest s.item s.rest ss

total_both :
    (m x : Source)
    → length (lesser x m).rest + length (greater x m).rest ≡ length m.rest + length x.rest
total_both m x = elim (Bool-cases (less x.item m.item)) [
  | inl lt ↦ rw lt (omega arith)
  | inr ge ↦ rw ge refl
]

pub total-least_of :
    (m : Source) (xs : List Source) → total (least_of m xs ∷ others_of m xs) ≡ total (m ∷ xs)
total-least_of m [] = refl
total-least_of m (x ∷ xs) = omega (arith, total-least_of (lesser x m) xs, total_both m x)

AreAlone-if :
    (b : Bool) (m x : Source) (xs : List Source)
    → AreAlone (m ∷ x ∷ xs)
    → AreAlone ((if b then m else x) ∷ (if b then x else m) ∷ xs)
AreAlone-if true m x xs h = h
AreAlone-if false m x xs h = ((λ e. h.0.0 (sym e), h.1.0), (h.0.1, h.1.1))

pub least_of-AreAlone :
    (m : Source) (xs : List Source) → AreAlone (m ∷ xs) → AreAlone (least_of m xs ∷ others_of m xs)
least_of-AreAlone m [] h = h
least_of-AreAlone m (x ∷ xs) h =
    let (apart, rest) = AreAlone-if (less x.item m.item) m x xs h in
    let (ne, others) =
      All-least_of (λ (s : Source). (greater x m).item.table_index ≢ s.item.table_index)
        (lesser x m) xs apart in
    let (alone, all) = least_of-AreAlone (lesser x m) xs rest in
    (((λ e. ne (sym e)), alone), (others, all))

-- The readers of the other sources stay.
IsSource-set :
    (readers : List SstableReader) (i : ℕ) (r : SstableReader) (ss : List Source)
    → All (λ (x : Source). i ≢ x.item.table_index) ss
    → All (IsSource readers) ss
    → All (IsSource (set readers i r)) ss
IsSource-set readers i r [] alone h = tt
IsSource-set readers i r (s ∷ ss) alone h = (
  record {
    reader = h.0.reader;
    there = get_elem?-set_other readers i s.item.table_index r alone.0 ∙ h.0.there;
    yields = h.0.yields;
    rises = h.0.rises;
  },
  IsSource-set readers i r ss alone.1 h.1,
)

module _ (stat : ℕ → StatOutcome) (fails : ℕ → Bool) where
  pub record IsAdvanced (st : MergeState) (s : Source) (ss : List Source) : Type 0 where
    pub to : MergeState
    pub runs : advance_item stat fails st s.item ≡ ok to
    pub merge : IsMerge to (behind s.item s.rest ss)

  advance_item_rest :
      (st : MergeState) (item : SstableHeapItem) (es : List SstableEntry) (ss : List Source)
      (reader : SstableReader)
      → st.heap ≡ items ss
      → get_elem? st.readers item.table_index ≡ some reader
      → Yields reader es
      → RisesFrom item.key es
      → All (IsSource st.readers) ss
      → IsAlone (record { item = item; rest = es }) ss
      → AreAlone ss
      → IsAdvanced st (record { item = item; rest = es }) ss
  unfolding advance_item next_of
  advance_item_rest st item [] ss reader heap there (r, runs, stop) rises sources alone others =
      record {
        to = next_of stat fails st item r;
        runs = rw (there, runs) refl;
        merge = record {
          heap = rw stop heap;
          sources = IsSource-set st.readers item.table_index r ss alone sources;
          alone = others;
        };
      }
  advance_item_rest st item (e ∷ es) ss reader heap there (r, runs, next, entry, yields) rises
        sources alone others =
      record {
        to = next_of stat fails st item r;
        runs = rw (there, runs) refl;
        merge = record {
          heap = rw (next, entry, heap);
          sources = (
            record {
              reader = r;
              there = get_elem?-set_self st.readers item.table_index r there;
              yields = yields;
              rises = rises.1;
            },
            IsSource-set st.readers item.table_index r ss alone sources,
          );
          alone = (alone, others);
        };
      }

  -- The step succeeds, and the state holds what is left of the tables.
  pub advance_item-IsAdvanced :
      (st : MergeState) (s : Source) (ss : List Source)
      → st.heap ≡ items ss
      → IsSource st.readers s
      → All (IsSource st.readers) ss
      → IsAlone s ss
      → AreAlone ss
      → IsAdvanced st s ss
  advance_item-IsAdvanced st s ss heap source sources alone others =
      advance_item_rest st s.item s.rest ss source.reader heap source.there source.yields
        source.rises sources alone others

  -- The step does not change what was taken.
  pub advance_item-output :
      (st st' : MergeState) (item : SstableHeapItem)
      → advance_item stat fails st item ≡ ok st'
      → (output st' ≡ output st) × (st'.first ≡ st.first) × (st'.current_key ≡ st.current_key)
  unfolding advance_item next_of
  advance_item-output st st' item h =
      let (r, _, h₁) = bind-inv (checked (get_elem? st.readers item.table_index)) _ h in
      let (r', _, h₂) = bind-inv (advance r) _ h₁ in
      let e = ok-injective _ _ h₂ in
      (
        ap output (sym e),
        ap (λ (x : MergeState). x.first) (sym e),
        ap (λ (x : MergeState). x.current_key) (sym e),
      )
