-- ===== src/Compaction/Publish/Rounds.antt =====
-- Every state of a merge has numbered tables.
use mathlib.Core.Path.{subst}
use k_lsm_engine.Prelude.{
  ℕ, zero, suc, ◌≡◌, inl, inr, refl, ap, Bool, false, not, ◌||◌, Option, none, some, List, [], ◌∷◌,
  ◌++◌, length, arith, ◌==◌, get_elem?, Bool-cases, Bytes, str_eq, ok, ◌>>=◌, checked, bind-inv,
  ok-injective,
}
use k_lsm_engine.Entry.{SstableEntry}
use k_lsm_engine.Table.{sstable_max_entries}
use k_lsm_engine.Store.Disk.{StatOutcome}
use k_lsm_engine.Compaction.{SstableReader, SstableHeapItem, advance}
use k_lsm_engine.Compaction.Merge.{
  MergeState, flush_chunk, append_item, take_item, next_of, advance_item, heap_pop, merge_loop,
  push_reader, add_table, add_tables, start_state, merge_tables,
}
use k_lsm_engine.Compaction.{new_sstable_reader}
use k_lsm_engine.Compaction.Merge.Loop.{merge_loop-zero}
use k_lsm_engine.Compaction.Publish.Numbers.{IsNumbered, flush_table-IsNumbered}

module _ (stat : ℕ → StatOutcome) (fails : ℕ → Bool) (rounds : ℕ) where
  flush_chunk-IsNumbered :
      (st st' : MergeState)
      → IsNumbered stat fails rounds st
      → flush_chunk stat fails rounds st ≡ ok st'
      → IsNumbered stat fails rounds st'
  unfolding flush_chunk
  flush_chunk-IsNumbered st st' i h = elim (Bool-cases (length st.chunk == 0)) [
    | inl empty ↦ subst (IsNumbered stat fails rounds) (ok-injective _ _ (rw empty at h)) i
    | inr filled ↦ elim i.chunk [
      | inl nil ↦ let f = rw nil at filled in cc
      | inr ends ↦ flush_table-IsNumbered stat fails rounds st st' i ends (rw filled at h)
    ]
  ]

  append_item-IsNumbered :
      (st : MergeState) (item : SstableHeapItem)
      → IsNumbered stat fails rounds st
      → IsNumbered stat fails rounds (append_item stat fails st item)
  unfolding append_item
  append_item-IsNumbered st item i =
      let e : SstableEntry = record {
        k = item.key;
        v = item.entry.value;
        type = item.entry.type;
      } in
      record {
        tables = i.tables;
        distinct = i.distinct;
        chunk = elim i.chunk [
          | inl nil ↦ inr (record {
            first = e;
            behind = [];
            starts = rw nil refl;
            min_key = rw nil refl;
            before = [];
            last = e;
            ends = rw nil refl;
            max_key = refl;
          })
          | inr ends ↦ inr (record {
            first = ends.first;
            behind = ends.behind ++ e ∷ [];
            starts = ap (λ (es : List SstableEntry). es ++ e ∷ []) ends.starts;
            min_key =
                let n = ap (λ (es : List SstableEntry). length es) ends.starts in
                let filled : (length st.chunk == 0) ≡ false = ground (arith, n) in
                rw filled ends.min_key;
            before = st.chunk;
            last = e;
            ends = refl;
            max_key = refl;
          })
        ];
      }

  pub take_item-IsNumbered :
      (st st' : MergeState) (item : SstableHeapItem)
      → IsNumbered stat fails rounds st
      → take_item stat fails rounds st item ≡ ok st'
      → IsNumbered stat fails rounds st'
  unfolding take_item
  take_item-IsNumbered st st' item i h =
      elim (Bool-cases (st.first || not (str_eq item.key st.current_key))) [
        | inr old ↦ subst (IsNumbered stat fails rounds) (ok-injective _ _ (rw old at h)) i
        | inl new ↦ elim (Bool-cases (length st.chunk == sstable_max_entries)) [
          | inl full ↦
              let (s₁, flushed, h₁) =
                bind-inv (flush_chunk stat fails rounds st) _ (rw (new, full) at h) in
              subst (IsNumbered stat fails rounds) (ok-injective _ _ h₁)
                (append_item-IsNumbered s₁ item (flush_chunk-IsNumbered st s₁ i flushed))
          | inr room ↦
              subst (IsNumbered stat fails rounds) (ok-injective _ _ (rw (new, room) at h))
                (append_item-IsNumbered st item i)
        ]
      ]

  pub advance_item-IsNumbered :
      (st st' : MergeState) (item : SstableHeapItem)
      → IsNumbered stat fails rounds st
      → advance_item stat fails st item ≡ ok st'
      → IsNumbered stat fails rounds st'
  unfolding advance_item next_of
  advance_item-IsNumbered st st' item i h =
      let (r, _, h₁) = bind-inv (checked (get_elem? st.readers item.table_index)) _ h in
      let (r', _, h₂) = bind-inv (advance r) _ h₁ in
      subst (IsNumbered stat fails rounds) (ok-injective _ _ h₂)
        (record { tables = i.tables; distinct = i.distinct; chunk = i.chunk })

  pub popped-IsNumbered :
      (st : MergeState) (rest : List SstableHeapItem)
      → IsNumbered stat fails rounds st
      → IsNumbered stat fails rounds (record st { heap = rest })
  popped-IsNumbered st rest i = record { tables = i.tables; distinct = i.distinct; chunk = i.chunk }

  push_reader-IsNumbered :
      (st : MergeState) (level : ℕ) (r : SstableReader)
      → IsNumbered stat fails rounds st
      → IsNumbered stat fails rounds (push_reader st level r)
  unfolding push_reader
  push_reader-IsNumbered st level r i = elim (Bool-cases r.has_next) [
    | inl more ↦ rw more (record { tables = i.tables; distinct = i.distinct; chunk = i.chunk })
    | inr done ↦ rw done i
  ]

  add_table-IsNumbered :
      (level : ℕ) (st st' : MergeState) (file : Option Bytes)
      → IsNumbered stat fails rounds st
      → add_table st level file ≡ ok st'
      → IsNumbered stat fails rounds st'
  unfolding add_table
  add_table-IsNumbered level st st' none i h =
      subst (IsNumbered stat fails rounds) (ok-injective _ _ h) i
  add_table-IsNumbered level st st' (some file) i h =
      let (r, _, h₁) = bind-inv (new_sstable_reader file) _ h in
      let (r', _, h₂) = bind-inv (advance r) _ h₁ in
      subst (IsNumbered stat fails rounds) (ok-injective _ _ h₂)
        (push_reader-IsNumbered st level r' i)

  pub add_tables-IsNumbered :
      (level : ℕ) (st st' : MergeState) (files : List (Option Bytes))
      → IsNumbered stat fails rounds st
      → add_tables level st files ≡ ok st'
      → IsNumbered stat fails rounds st'
  unfolding add_tables
  add_tables-IsNumbered level st st' [] i h =
      subst (IsNumbered stat fails rounds) (ok-injective _ _ h) i
  add_tables-IsNumbered level st st' (file ∷ files) i h =
      let (s₁, added, h₁) = bind-inv (add_table st level file) _ h in
      add_tables-IsNumbered level s₁ st' files (add_table-IsNumbered level st s₁ file i added) h₁

  pub merge_loop-IsNumbered :
      (fuel : ℕ) (st st' : MergeState)
      → IsNumbered stat fails rounds st
      → merge_loop stat fails rounds fuel st ≡ ok st'
      → IsNumbered stat fails rounds st'
  unfolding merge_loop
  merge_loop-IsNumbered zero st st' i h =
      subst (IsNumbered stat fails rounds) (merge_loop-zero stat fails rounds st st' h) i
  merge_loop-IsNumbered (suc fuel) st st' i h =
      round fuel st st' i (heap_pop st.heap) h (merge_loop-IsNumbered fuel)
    where
      round :
          (fuel : ℕ) (st st' : MergeState)
          → IsNumbered stat fails rounds st
          → (o : Option (SstableHeapItem × List SstableHeapItem))
          → (elim o [
            | none ↦ ok st
            | some (item, rest) ↦
                take_item stat fails rounds (record st { heap = rest }) item >>= λ s₁.
                advance_item stat fails s₁ item >>= λ s₂. merge_loop stat fails rounds fuel s₂
          ])
            ≡ ok st'
          → ((s s' : MergeState)
              → IsNumbered stat fails rounds s
              → merge_loop stat fails rounds fuel s ≡ ok s'
              → IsNumbered stat fails rounds s')
          → IsNumbered stat fails rounds st'
      round fuel st st' i none h later = subst (IsNumbered stat fails rounds) (ok-injective _ _ h) i
      round fuel st st' i (some (item, rest)) h later =
          let (s₁, taken, h₁) =
            bind-inv (take_item stat fails rounds (record st { heap = rest }) item) _ h in
          let (s₂, advanced, h₂) = bind-inv (advance_item stat fails s₁ item) _ h₁ in
          later s₂ st'
            (advance_item-IsNumbered s₁ s₂ item
              (take_item-IsNumbered (record st { heap = rest }) s₁ item
                (popped-IsNumbered st rest i) taken)
              advanced)
            h₂

  pub start-IsNumbered : (n : ℕ) → IsNumbered stat fails rounds (start_state n)
  start-IsNumbered n = record { tables = tt; distinct = tt; chunk = inl refl }

  -- The new tables of a merge that succeeds are numbered.
  pub merge_tables-IsNumbered :
      (fuel n : ℕ) (l0 l1 : List (Option Bytes)) (st : MergeState)
      → merge_tables stat fails rounds fuel n l0 l1 ≡ ok st
      → IsNumbered stat fails rounds st
  unfolding merge_tables
  merge_tables-IsNumbered fuel n l0 l1 st h =
      let (s₀, added, h₁) = bind-inv (add_tables 0 (start_state n) l0) _ h in
      let (s₁, added', h₂) = bind-inv (add_tables 1 s₀ l1) _ h₁ in
      let (s₂, merged, h₃) = bind-inv (merge_loop stat fails rounds fuel s₁) _ h₂ in
      flush_chunk-IsNumbered s₂ st
        (merge_loop-IsNumbered fuel s₁ s₂
          (add_tables-IsNumbered 1 s₀ s₁ l1
            (add_tables-IsNumbered 0 (start_state n) s₀ l0 (start-IsNumbered n) added) added')
          merged)
        h₃
