-- ===== src/Compaction/Merge/Steps.antt =====
-- What the parts of a round of the merge do to its state.
use mathlib.Core.Path.{subst}
use k_lsm_engine.Prelude.{
  ℕ, ◌≡◌, ◌⊎◌, inl, inr, refl, sym, ap, ◌∙◌, Bool, true, false, not, List, [], ◌∷◌, ◌++◌, length,
  arith, ◌==◌, append-nil, append_assoc, ◌||◌, Bool-cases, str_eq, ok, bind-inv, ok-injective,
}
use k_lsm_engine.Entry.{SstableEntry}
use k_lsm_engine.Table.{sstable_max_entries}
use k_lsm_engine.Store.Disk.{StatOutcome}
use k_lsm_engine.Compaction.{SstableHeapItem}
use k_lsm_engine.Compaction.Merge.{
  MergeState, flush_chunk, flush_table, write_chunk, free_number, append_item, take_item,
}
use k_lsm_engine.Compaction.Merge.Newest.{chunks, output, entry_of_item, chunks-append}

-- Only the chunk and the new tables change, and together they stay what they are.
pub record IsFlushed (st st' : MergeState) : Type 0 where
  pub heap : st'.heap ≡ st.heap
  pub readers : st'.readers ≡ st.readers
  pub current_key : st'.current_key ≡ st.current_key
  pub first : st'.first ≡ st.first
  pub output : output st' ≡ output st

pub record IsTaken (st : MergeState) (item : SstableHeapItem) (st' : MergeState) : Type 0 where
  pub heap : st'.heap ≡ st.heap
  pub readers : st'.readers ≡ st.readers
  -- an older version of the key that was taken last, or a new entry
  pub taken :
      ((st.first ≡ false) × (str_eq item.key st.current_key ≡ true) × (st' ≡ st))
      ⊎ ((output st' ≡ output st ++ entry_of_item item ∷ [])
          × (st'.current_key ≡ item.key)
          × (st'.first ≡ false)
          × ((st.first ≡ true) ⊎ (str_eq item.key st.current_key ≡ false)))

module _ (stat : ℕ → StatOutcome) (fails : ℕ → Bool) (rounds : ℕ) where
  flush_table-IsFlushed :
      (st st' : MergeState) → flush_table stat fails rounds st ≡ ok st' → IsFlushed st st'
  unfolding flush_table
  flush_table-IsFlushed st st' h =
      let (n, _, h₁) = bind-inv (free_number stat fails rounds st.next_l1_index) _ h in
      let (file, _, h₂) = bind-inv (write_chunk stat fails n st.chunk) _ h₁ in
      subst (λ (s : MergeState). IsFlushed st s) (ok-injective _ _ h₂)
        (record {
          heap = refl;
          readers = refl;
          current_key = refl;
          first = refl;
          output =
              append-nil _
              ∙ chunks-append st.new_tables _
              ∙ ap (λ (es : List SstableEntry). chunks st.new_tables ++ es) (append-nil st.chunk);
        })

  pub flush_chunk-IsFlushed :
      (st st' : MergeState) → flush_chunk stat fails rounds st ≡ ok st' → IsFlushed st st'
  unfolding flush_chunk
  flush_chunk-IsFlushed st st' h = elim (Bool-cases (length st.chunk == 0)) [
    | inl empty ↦
        subst (λ (s : MergeState). IsFlushed st s) (ok-injective _ _ (rw empty at h))
          (record { heap = refl; readers = refl; current_key = refl; first = refl; output = refl })
    | inr filled ↦ flush_table-IsFlushed st st' (rw filled at h)
  ]

  append_item-IsTaken :
      (st st' : MergeState) (item : SstableHeapItem)
      → IsFlushed st st'
      → (st.first ≡ true) ⊎ (str_eq item.key st.current_key ≡ false)
      → IsTaken st item (append_item stat fails st' item)
  unfolding append_item
  append_item-IsTaken st st' item f other = record {
    heap = f.heap;
    readers = f.readers;
    taken = inr (
      sym (append_assoc (chunks st'.new_tables) st'.chunk (entry_of_item item ∷ []))
          ∙ ap (λ (es : List SstableEntry). es ++ entry_of_item item ∷ []) f.output,
      refl,
      refl,
      other,
    );
  }

  pub take_item-IsTaken :
      (st st' : MergeState) (item : SstableHeapItem)
      → take_item stat fails rounds st item ≡ ok st'
      → IsTaken st item st'
  unfolding take_item
  take_item-IsTaken st st' item h =
      elim (Bool-cases (st.first || not (str_eq item.key st.current_key))) [
        | inr old ↦
            let same : st ≡ st' = ok-injective _ _ (rw old at h) in
            subst (λ (s : MergeState). IsTaken st item s) same
              (record {
                heap = refl;
                readers = refl;
                taken = inl (ground arith, ground arith, refl);
              })
        | inl new ↦
            let other : (st.first ≡ true) ⊎ (str_eq item.key st.current_key ≡ false) =
              elim (Bool-cases st.first) [
                | inl first ↦ inl first
                | inr later ↦ inr (ground arith)
              ] in
            elim (Bool-cases (length st.chunk == sstable_max_entries)) [
              | inl full ↦
                  let (s₁, flushed, h₁) =
                    bind-inv (flush_chunk stat fails rounds st) _ (rw (new, full) at h) in
                  subst (λ (s : MergeState). IsTaken st item s) (ok-injective _ _ h₁)
                    (append_item-IsTaken st s₁ item (flush_chunk-IsFlushed st s₁ flushed) other)
              | inr room ↦
                  subst (λ (s : MergeState). IsTaken st item s)
                    (ok-injective _ _ (rw (new, room) at h))
                    (append_item-IsTaken st st item
                      (record {
                        heap = refl;
                        readers = refl;
                        current_key = refl;
                        first = refl;
                        output = refl;
                      })
                      other)
            ]
      ]
