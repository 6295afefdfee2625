-- ===== src/Compaction/Merge/Success.antt =====
-- The rounds of the merge where no call of the operating system fails.
use mathlib.Core.Path.{subst}
use k_lsm_engine.Prelude.{
  ℕ, zero, suc, ◌+◌, ◌≤◌, ◌<◌, ◌≡◌, inl, inr, refl, sym, ap, ◌∙◌, Bool, false, not, ◌||◌, none,
  some, List, [], ◌∷◌, ◌++◌, All, arith, length, length-append, ◌==◌, Bool-cases, Bytes, str_eq, ok,
  bind-inv, ok-injective, checked, get_elem?,
}
use k_lsm_engine.Entry.{SstableEntry}
use k_lsm_engine.Table.{not_above, sstable_max_entries}
use k_lsm_engine.Table.Block.{IsTable, IsStorableEntry}
use k_lsm_engine.Table.Open.{write_block_based_table-Holds}
use k_lsm_engine.Store.Disk.{StatOutcome}
use k_lsm_engine.Compaction.{SstableHeapItem, advance}
use k_lsm_engine.Compaction.Merge.{
  MergeState, free_number, write_chunk, flush_table, flush_chunk, append_item, take_item,
  merge_loop, heap_pop, next_of, advance_item,
}
use k_lsm_engine.Compaction.Merge.Least.{Source, items, least_of, others_of, All-least_of}
use k_lsm_engine.Compaction.Merge.Newest.{
  IsMerge, IsSource, RisesFrom, output, chunks, entry_of_item,
}
use k_lsm_engine.Compaction.Merge.Steps.{take_item-IsTaken}
use k_lsm_engine.Compaction.Merge.Advance.{
  behind, total, total-behind, total-least_of, least_of-AreAlone, advance_item-IsAdvanced,
}
use k_lsm_engine.Compaction.Merge.Loop.{IsStep, heap_pop-items}
use k_lsm_engine.Compaction.Merge.Opened.{nil_of}
use k_lsm_engine.Compaction.Merge.Rising.{Rising, IsSorted, round-IsSorted}

abbrev pub AreStorable : List SstableEntry → Type 0
AreStorable es = All IsStorableEntry es

abbrev pub IsKept : Source → Type 0
IsKept s = IsStorableEntry (entry_of_item s.item) × AreStorable s.rest

AreStorable-append :
    (es : List SstableEntry) (x : SstableEntry)
    → AreStorable es
    → IsStorableEntry x
    → AreStorable (es ++ x ∷ [])
AreStorable-append [] x h y = (y, tt)
AreStorable-append (e ∷ es) x h y = (h.0, AreStorable-append es x h.1 y)

RisesFrom-Rising : (key : Bytes) (es : List SstableEntry) → RisesFrom key es → Rising es
RisesFrom-Rising key [] h = tt
RisesFrom-Rising key (e ∷ es) h = h.1

Rising-suffix : (a b : List SstableEntry) → Rising (a ++ b) → Rising b
Rising-suffix [] b h = h
Rising-suffix (e ∷ a) b h = Rising-suffix a b (RisesFrom-Rising e.k (a ++ b) h)

RisesFrom-IsTable :
    (key : Bytes) (es : List SstableEntry)
    → RisesFrom key es
    → AreStorable es
    → IsTable (some key) es
unfolding not_above
RisesFrom-IsTable key [] r h = tt
RisesFrom-IsTable key (e ∷ es) r h = (ground (arith, r.0), h.0, RisesFrom-IsTable e.k es r.1 h.1)

Rising-IsTable : (es : List SstableEntry) → Rising es → AreStorable es → IsTable none es
unfolding not_above
Rising-IsTable [] r h = tt
Rising-IsTable (e ∷ es) r h = (refl, h.0, RisesFrom-IsTable e.k es r h.1)

-- The chunk can be written.
pub record IsWritable (st : MergeState) : Type 0 where
  pub storable : AreStorable st.chunk
  pub fits : length st.chunk ≤ sstable_max_entries

module _ (stat : ℕ → StatOutcome) (fails : ℕ → Bool) (rounds : ℕ)
    (free : (n : ℕ) → (m : ℕ) × (free_number stat fails rounds n ≡ ok m))
    (writes : (n : ℕ) → fails n ≡ false) where
  pub flush_chunk-runs :
      (st : MergeState)
      → Rising (output st)
      → IsWritable st
      → (st' : MergeState) × (flush_chunk stat fails rounds st ≡ ok st') × (st'.chunk ≡ [])
  unfolding flush_chunk flush_table write_chunk
  flush_chunk-runs st rising w =
      let (m, numbered) = free st.next_l1_index in
      let table =
        Rising-IsTable st.chunk (Rising-suffix (chunks st.new_tables) st.chunk rising) w.storable in
      let (file, _, written, _) = write_block_based_table-Holds st.chunk table w.fits in
      elim (Bool-cases (length st.chunk == 0)) [
        | inl empty ↦ (st, rw empty refl, nil_of st.chunk (ground arith))
        | inr filled ↦ (
          record st {
            next_l1_index = m + 1;
            new_tables =
                st.new_tables
                ++ record {
                  number = m;
                  key_range = record { min = st.chunk_min_key; max = st.chunk_max_key };
                  chunk = st.chunk;
                  file = file;
                }
                  ∷ [];
            chunk = [];
            chunk_min_key = [];
            chunk_max_key = [];
          },
          rw (filled, flush_table, numbered, write_chunk, writes m, written) refl,
          refl,
        )
      ]

  record IsAppended (st : MergeState) (item : SstableHeapItem) : Type 0 where
    to : MergeState
    runs : take_item stat fails rounds st item ≡ ok to
    writable : IsWritable to

  append_item-IsWritable :
      (st : MergeState) (item : SstableHeapItem)
      → IsWritable st
      → length st.chunk < sstable_max_entries
      → IsStorableEntry (entry_of_item item)
      → IsWritable (append_item stat fails st item)
  unfolding append_item
  append_item-IsWritable st item w room entry = record {
    storable = AreStorable-append st.chunk (entry_of_item item) w.storable entry;
    fits = omega (arith, length-append st.chunk (entry_of_item item ∷ []));
  }

  take_item-IsAppended :
      (st : MergeState) (item : SstableHeapItem)
      → Rising (output st)
      → IsWritable st
      → IsStorableEntry (entry_of_item item)
      → IsAppended st item
  unfolding take_item
  take_item-IsAppended st item rising w entry =
      elim (Bool-cases (st.first || not (str_eq item.key st.current_key))) [
        | inr old ↦ record { to = st; runs = rw old refl; writable = w }
        | inl new ↦ elim (Bool-cases (length st.chunk == sstable_max_entries)) [
          | inl full ↦
              let (s₁, flushed, empty) = flush_chunk-runs st rising w in
              record {
                to = append_item stat fails s₁ item;
                runs = rw (new, full, flushed) refl;
                writable =
                    append_item-IsWritable s₁ item
                      (record {
                        storable = subst AreStorable (sym empty) tt;
                        fits = rw empty (omega arith);
                      })
                      (rw empty (omega arith)) entry;
              }
          | inr room ↦ record {
            to = append_item stat fails st item;
            runs = rw (new, room) refl;
            writable = append_item-IsWritable st item w (ground (arith, w.fits)) entry;
          }
        ]
      ]

  advance_item-chunk :
      (st st' : MergeState) (item : SstableHeapItem)
      → advance_item stat fails st item ≡ ok st'
      → st.chunk ≡ st'.chunk
  unfolding advance_item next_of
  advance_item-chunk st st' item h =
      let (r, _, h₁) = bind-inv (checked (get_elem? st.readers item.table_index)) _ h in
      let (r', _, h₂) = bind-inv (advance r) _ h₁ in
      ap (λ (s : MergeState). s.chunk) (ok-injective _ _ h₂)

  pub record IsReady (st : MergeState) (ss : List Source) : Type 0 where
    pub merge : IsMerge st ss
    pub sorted : IsSorted st ss
    pub kept : All IsKept ss
    pub writable : IsWritable st

  -- A round that runs.
  record IsRun (st : MergeState) (m : Source) (xs : List Source) : Type 0 where
    to : MergeState
    runs :
        (fuel : ℕ)
        → merge_loop stat fails rounds (suc fuel) st ≡ merge_loop stat fails rounds fuel to
    ready : IsReady to (behind (least_of m xs).item (least_of m xs).rest (others_of m xs))

  IsKept-behind :
      (item : SstableHeapItem) (es : List SstableEntry) (ss : List Source)
      → AreStorable es
      → All IsKept ss
      → All IsKept (behind item es ss)
  IsKept-behind item [] ss h k = k
  IsKept-behind item (e ∷ es) ss h k = (h, k)

  IsReady-IsRun :
      (st : MergeState) (m : Source) (xs : List Source) → IsReady st (m ∷ xs) → IsRun st m xs
  unfolding merge_loop
  IsReady-IsRun st m xs ready =
      let l = least_of m xs in
      let os = others_of m xs in
      let st₀ : MergeState = record st { heap = items os } in
      let kept = All-least_of IsKept m xs ready.kept in
      let a =
        take_item-IsAppended st₀ l.item ready.sorted.rising
          (record { storable = ready.writable.storable; fits = ready.writable.fits }) kept.0.0 in
      let t = take_item-IsTaken stat fails rounds st₀ a.to l.item a.runs in
      let (source, sources) =
        All-least_of (IsSource a.to.readers) m xs (
          subst (λ readers. All (IsSource readers) (m ∷ xs)) (sym t.readers) ready.merge.sources) in
      let (alone, others) = least_of-AreAlone m xs ready.merge.alone in
      let d = advance_item-IsAdvanced stat fails a.to l os t.heap source sources alone others in
      let popped = ap heap_pop ready.merge.heap ∙ heap_pop-items stat fails rounds m xs in
      let r : IsStep stat fails rounds st = record {
        item = l.item;
        rest = items os;
        popped = popped;
        taken = a.to;
        takes = t;
        next = d.to;
        goes = d.runs;
      } in
      let chunk = advance_item-chunk a.to d.to l.item d.runs in
      record {
        to = d.to;
        runs = λ fuel. rw (merge_loop, popped, a.runs, d.runs) refl;
        ready = record {
          merge = d.merge;
          sorted = round-IsSorted stat fails rounds 0 st d.to m xs ready.merge ready.sorted r;
          kept = IsKept-behind l.item l.rest os kept.0.1 kept.1;
          writable = record {
            storable = subst AreStorable chunk a.writable.storable;
            fits = rw (← chunk) a.writable.fits;
          };
        };
      }

  -- The loop ends with the fuel of the entries that are left.
  pub merge_loop-runs :
      (fuel : ℕ) (st : MergeState) (ss : List Source)
      → total ss ≤ fuel
      → IsReady st ss
      → (st' : MergeState) × (merge_loop stat fails rounds fuel st ≡ ok st') × IsWritable st'
  unfolding merge_loop heap_pop
  merge_loop-runs zero st [] enough ready = (st, rw ready.merge.heap refl, ready.writable)
  merge_loop-runs zero st (m ∷ xs) enough ready = absurd (omega arith)
  merge_loop-runs (suc fuel) st [] enough ready = (st, rw ready.merge.heap refl, ready.writable)
  merge_loop-runs (suc fuel) st (m ∷ xs) enough ready =
      let r = IsReady-IsRun st m xs ready in
      let l = least_of m xs in
      let left : total (behind l.item l.rest (others_of m xs)) ≤ fuel =
        omega (arith, total-behind l (others_of m xs), total-least_of m xs) in
      let (st', runs, writable) =
        merge_loop-runs fuel r.to (behind l.item l.rest (others_of m xs)) left r.ready in
      (st', r.runs fuel ∙ runs, writable)
