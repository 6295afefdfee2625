-- ===== src/Compaction/Merge/Tables.antt =====
-- The merge from the files on: the readers that `addTables` opens, the loop, and the last chunk.
use mathlib.Core.Path.{subst}
use k_lsm_engine.Prelude.{
  ℕ, ◌≡◌, inl, inr, refl, sym, ap, ◌∙◌, Bool, Option, List, [], ◌++◌, arith, ◌==◌, length,
  append-nil, Bool-cases, Bytes, ok, bind-inv, ok-injective,
}
use k_lsm_engine.Table.Order.{find_entry}
use k_lsm_engine.Store.Disk.{StatOutcome}
use k_lsm_engine.Compaction.Merge.{
  MergeState, add_tables, free_number, write_chunk, flush_table, flush_chunk, merge_loop,
  merge_tables,
}
use k_lsm_engine.Compaction.Merge.Least.{Source}
use k_lsm_engine.Compaction.Merge.Newest.{output, chunks, IsAnswer}
use k_lsm_engine.Compaction.Merge.Steps.{flush_chunk-IsFlushed}
use k_lsm_engine.Compaction.Merge.Rising.{Rising, merge_loop-Rising}
use k_lsm_engine.Entry.{SstableEntry}
use k_lsm_engine.Compaction.Merge.Loop.{merge_loop-IsAnswer}
use k_lsm_engine.Compaction.Merge.Opened.{
  StoredTable, files_of, open_tables, nil_of, IsOpened, add_tables-IsOpened,
}

-- The sources of the tables of both levels.
abbrev pub sources_of : List (Option StoredTable) → List (Option StoredTable) → List Source
sources_of l0 l1 = (open_tables 1 (open_tables 0 (0, []) l0) l1).1

module _ (stat : ℕ → StatOutcome) (fails : ℕ → Bool) (rounds : ℕ) where
  flush_chunk-empty :
      (st st' : MergeState) → flush_chunk stat fails rounds st ≡ ok st' → st'.chunk ≡ []
  unfolding flush_chunk flush_table
  flush_chunk-empty st st' h = elim (Bool-cases (length st.chunk == 0)) [
    | inl empty ↦ rw (← ok-injective _ _ (rw empty at h)) (nil_of st.chunk (ground arith))
    | inr filled ↦
        let (n, _, h₁) =
          bind-inv (free_number stat fails rounds st.next_l1_index) _ (rw filled at h) in
        let (file, _, h₂) = bind-inv (write_chunk stat fails n st.chunk) _ h₁ in
        ap (λ (s : MergeState). s.chunk) (sym (ok-injective _ _ h₂))
  ]

  -- A merge that succeeds: the state that the loop starts from, the one it ends in, and the output.
  pub record IsMerged (fuel : ℕ) (ss : List Source) (st : MergeState) : Type 0 where
    pub start : MergeState
    pub opened : ℕ
    pub opens : IsOpened start (opened, ss)
    pub end : MergeState
    pub loops : merge_loop stat fails rounds fuel start ≡ ok end
    pub all : chunks st.new_tables ≡ output end

  pub merge_tables-IsMerged :
      (l0 l1 : List (Option StoredTable)) (fuel n : ℕ) (st : MergeState)
      → merge_tables stat fails rounds fuel n (files_of l0) (files_of l1) ≡ ok st
      → IsMerged fuel (sources_of l0 l1) st
  unfolding merge_tables
  merge_tables-IsMerged l0 l1 fuel n st h =
      let (s₀, adds₀, h₀) = bind-inv (add_tables 0 _ (files_of l0)) _ h in
      let (s₁, adds₁, h₁) = bind-inv (add_tables 1 s₀ (files_of l1)) _ h₀ in
      let (s₂, loops, h₂) = bind-inv (merge_loop stat fails rounds fuel s₁) _ h₁ in
      let o₀ =
        add_tables-IsOpened _ s₀ (0, []) 0 l0
          (record {
            merge = record { heap = refl; sources = tt; alone = tt };
            count = refl;
            below = tt;
            first = refl;
            chunk = refl;
            new_tables = refl;
          })
          adds₀ in
      let o = add_tables-IsOpened s₀ s₁ (open_tables 0 (0, []) l0) 1 l1 o₀ adds₁ in
      let left =
        ap (λ (es : List SstableEntry). chunks st.new_tables ++ es) (flush_chunk-empty s₂ st h₂) in
      record {
        start = s₁;
        opened = (open_tables 1 (open_tables 0 (0, []) l0) l1).0;
        opens = o;
        end = s₂;
        loops = loops;
        all =
            sym (left ∙ append-nil (chunks st.new_tables))
            ∙ (flush_chunk-IsFlushed stat fails rounds s₂ st h₂).output;
      }

  -- If a merge of table files succeeds, its new
  -- tables together answer each key with the newest version in the merged tables, the one of the
  -- lower level or in a level of the later table, and a key of none of them with nothing.
  pub merge_tables-IsAnswer :
      (l0 l1 : List (Option StoredTable)) (fuel n : ℕ) (st : MergeState)
      → merge_tables stat fails rounds fuel n (files_of l0) (files_of l1) ≡ ok st
      → (key : Bytes) → IsAnswer key (sources_of l0 l1) (find_entry key (chunks st.new_tables))
  unfolding find_entry
  merge_tables-IsAnswer l0 l1 fuel n st h key =
      let d = merge_tables-IsMerged l0 l1 fuel n st h in
      rw d.all (
        merge_loop-IsAnswer stat fails rounds fuel d.start d.end (sources_of l0 l1) key
          d.opens.merge
          (record {
            absent = rw (d.opens.new_tables, d.opens.chunk) refl;
            current = inl d.opens.first;
          })
          d.loops)

  -- If a merge of table files succeeds, the keys of the entries of its new tables rise strictly,
  -- within each table and from one table to the next.
  pub merge_tables-Rising :
      (l0 l1 : List (Option StoredTable)) (fuel n : ℕ) (st : MergeState)
      → merge_tables stat fails rounds fuel n (files_of l0) (files_of l1) ≡ ok st
      → Rising (chunks st.new_tables)
  merge_tables-Rising l0 l1 fuel n st h =
      let d = merge_tables-IsMerged l0 l1 fuel n st h in
      let nothing : output d.start ≡ [] = rw (d.opens.new_tables, d.opens.chunk) refl in
      subst Rising (sym d.all) (
        merge_loop-Rising stat fails rounds fuel d.start d.end (sources_of l0 l1) d.opens.merge
          (record { rising = subst Rising (sym nothing) tt; place = inl (d.opens.first, nothing) })
          d.loops)
