-- ===== src/Compaction/Publish/Numbers.antt =====
-- The new tables of a merge: their numbers, their files, and their key ranges.
use mathlib.Core.Path.{subst}
use k_lsm_engine.Prelude.{
  ℕ, zero, suc, ◌+◌, ◌≤◌, ◌<◌, ◌≡◌, ◌≢◌, ◌⊎◌, inl, inr, refl, Bool, false, List, [], ◌∷◌, ◌++◌, All,
  arith, Bool-cases, Bytes, ok, err, io_error, bind-inv, ok-injective,
}
use k_lsm_engine.Entry.{SstableEntry}
use k_lsm_engine.Table.{write_block_based_table}
use k_lsm_engine.Store.Disk.{StatOutcome, there, missing, unreadable}
use k_lsm_engine.Compaction.Merge.{NewTable, MergeState, free_number, write_chunk, flush_table}

-- The keys of the first entry and of the last.
pub record IsEnds (min max : Bytes) (chunk : List SstableEntry) : Type 0 where
  pub first : SstableEntry
  pub behind : List SstableEntry
  pub starts : chunk ≡ first ∷ behind
  pub min_key : first.k ≡ min
  pub before : List SstableEntry
  pub last : SstableEntry
  pub ends : chunk ≡ before ++ last ∷ []
  pub max_key : last.k ≡ max

abbrev pub AreDistinctFrom : ℕ → List NewTable → Type 0
AreDistinctFrom n ts = All (λ (t : NewTable). n ≢ t.number) ts

abbrev pub AreDistinct : List NewTable → Type 0
AreDistinct [] = Unit {0}
AreDistinct (t ∷ ts) = AreDistinctFrom t.number ts × AreDistinct ts

module _ (stat : ℕ → StatOutcome) (fails : ℕ → Bool) (rounds : ℕ) where
  -- A table that was written under a number that no file had.
  pub record IsNew (next : ℕ) (t : NewTable) : Type 0 where
    pub below : t.number < next
    pub free : stat t.number ≡ missing
    pub writes : fails t.number ≡ false
    pub file : write_block_based_table t.chunk ≡ ok t.file
    pub ends : IsEnds t.key_range.min t.key_range.max t.chunk

  pub record IsNumbered (st : MergeState) : Type 0 where
    pub tables : All (IsNew st.next_l1_index) st.new_tables
    pub distinct : AreDistinct st.new_tables
    pub chunk : (st.chunk ≡ []) ⊎ IsEnds st.chunk_min_key st.chunk_max_key st.chunk

  pub free_number-missing :
      (k n m : ℕ) → free_number stat fails k n ≡ ok m → (n ≤ m) × (stat m ≡ missing)
  unfolding free_number
  free_number-missing zero n m h = cc
  free_number-missing (suc k) n m h =
      stat_case k n m (stat n) refl h (λ n'. free_number-missing k n' m)
    where
      stat_case :
          (k n m : ℕ) (o : StatOutcome)
          → stat n ≡ o
          → (elim o [
            | missing ↦ ok n
            | there ↦ free_number stat fails k (n + 1)
            | unreadable ↦ err io_error
          ])
            ≡ ok m
          → ((n' : ℕ) → free_number stat fails k n' ≡ ok m → (n' ≤ m) × (stat m ≡ missing))
          → (n ≤ m) × (stat m ≡ missing)
      stat_case k n m missing e h later =
          let same = ok-injective n m h in (omega (arith, same), rw (← same) e)
      stat_case k n m there e h later = let r = later (n + 1) h in (omega (arith, r.0), r.1)
      stat_case k n m unreadable e h later = cc

  write_chunk-inv :
      (n : ℕ) (chunk : List SstableEntry) (file : Bytes)
      → write_chunk stat fails n chunk ≡ ok file
      → (fails n ≡ false) × (write_block_based_table chunk ≡ ok file)
  unfolding write_chunk
  write_chunk-inv n chunk file h = elim (Bool-cases (fails n)) [
    | inl failing ↦ let h' = rw failing at h in cc
    | inr working ↦ (working, rw working at h)
  ]

  AllNew-weaken : (n m : ℕ) (ts : List NewTable) → n ≤ m → All (IsNew n) ts → All (IsNew m) ts
  AllNew-weaken n m [] le h = tt
  AllNew-weaken n m (t ∷ ts) le h = (
    record {
      below = omega (arith, h.0.below, le);
      free = h.0.free;
      writes = h.0.writes;
      file = h.0.file;
      ends = h.0.ends;
    },
    AllNew-weaken n m ts le h.1,
  )

  AllNew-append :
      (n : ℕ) (ts : List NewTable) (u : NewTable)
      → All (IsNew n) ts
      → IsNew n u
      → All (IsNew n) (ts ++ u ∷ [])
  AllNew-append n [] u h k = (k, tt)
  AllNew-append n (t ∷ ts) u h k = (h.0, AllNew-append n ts u h.1 k)

  distinct_from-append :
      (n : ℕ) (ts : List NewTable) (u : NewTable)
      → AreDistinctFrom n ts
      → n ≢ u.number
      → AreDistinctFrom n (ts ++ u ∷ [])
  distinct_from-append n [] u h k = (k, tt)
  distinct_from-append n (t ∷ ts) u h k = (h.0, distinct_from-append n ts u h.1 k)

  AreDistinct-append :
      (n : ℕ) (ts : List NewTable) (u : NewTable)
      → AreDistinct ts
      → All (IsNew n) ts
      → n ≤ u.number
      → AreDistinct (ts ++ u ∷ [])
  AreDistinct-append n [] u d h le = (tt, tt)
  AreDistinct-append n (t ∷ ts) u d h le = (
    distinct_from-append t.number ts u d.0 (λ e. omega (arith, h.0.below, le, e)),
    AreDistinct-append n ts u d.1 h.1 le,
  )

  pub flush_table-IsNumbered :
      (st st' : MergeState)
      → IsNumbered st
      → IsEnds st.chunk_min_key st.chunk_max_key st.chunk
      → flush_table stat fails rounds st ≡ ok st'
      → IsNumbered st'
  unfolding flush_table
  flush_table-IsNumbered st st' i ends h =
      let (n, numbered, h₁) = bind-inv (free_number stat fails rounds st.next_l1_index) _ h in
      let (file, written, h₂) = bind-inv (write_chunk stat fails n st.chunk) _ h₁ in
      let (above, free) = free_number-missing rounds st.next_l1_index n numbered in
      let (works, file_of) = write_chunk-inv n st.chunk file written in
      let new : NewTable = record {
        number = n;
        key_range = record { min = st.chunk_min_key; max = st.chunk_max_key };
        chunk = st.chunk;
        file = file;
      } in
      subst IsNumbered (ok-injective _ _ h₂) (record {
        tables =
            AllNew-append (n + 1) st.new_tables new
              (AllNew-weaken st.next_l1_index (n + 1) st.new_tables (omega (arith, above)) i.tables)
              (record {
                below = omega arith;
                free = free;
                writes = works;
                file = file_of;
                ends = ends;
              });
        distinct = AreDistinct-append st.next_l1_index st.new_tables new i.distinct i.tables above;
        chunk = inl refl;
      })
