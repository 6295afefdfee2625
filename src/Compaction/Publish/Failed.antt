-- ===== src/Compaction/Publish/Failed.antt =====
-- What a merge that fails leaves: the files of all tables that `os.Stat` finds.
use k_lsm_engine.Prelude.{
  ℕ, zero, suc, ◌≡◌, refl, sym, ◌∙◌, inl, inr, Bool, true, false, Option, none, some, List, [], ◌∷◌,
  All, Bytes, ◌==◌, ◌&&◌, if◌then◌else◌, Bool-cases, str_eq, str_eq_iff, arith, Result, ok, err,
  panicked,
}
use k_lsm_engine.Store.{table_name}
use k_lsm_engine.Store.Disk.{StatOutcome, there, missing}
use k_lsm_engine.Store.Publish.{Disk, write_sorted_sstable_file}
use k_lsm_engine.Store.Publish.Safe.{write_sorted_sstable_file-IsWrite}
use k_lsm_engine.Compaction.Merge.{
  NewTable, MergeState, free_number, heap_pop, take_item, advance_item, merge_loop,
}
use k_lsm_engine.Compaction.{SstableHeapItem}
use k_lsm_engine.Compaction.Publish.{
  CompactionOutcomes, stat_of_number, write_is_faulty, names_of, write_new_tables, remove_tables,
  merge_halt, failed_write, failed_after, in_last_flush, failed_merge,
}
use k_lsm_engine.Compaction.Publish.Names.{IsOther}
use k_lsm_engine.Compaction.Publish.Numbers.{IsNew, IsNumbered, free_number-missing}
use k_lsm_engine.Compaction.Publish.Rounds.{
  take_item-IsNumbered, advance_item-IsNumbered, popped-IsNumbered,
}
use k_lsm_engine.Compaction.Publish.Files.{IsSame, write_new_tables-IsSame, remove_tables-IsSame}

pub IsSame-trans :
    (n : ℕ) (t : Bytes) (d d' d'' : Disk) → IsSame n t d d' → IsSame n t d' d'' → IsSame n t d d''
IsSame-trans n t d d' d'' a b = (b.0 ∙ a.0, b.1 ∙ a.1)

module _ (sum32 : Bytes → ℕ) (o : CompactionOutcomes) where
  -- the calls for the numbers
  abbrev stat : ℕ → StatOutcome
  stat = stat_of_number sum32 o

  abbrev fails : ℕ → Bool
  fails = write_is_faulty sum32 o

  -- A table that is there is none of a number that no file has.
  pub apart_of_missing :
      (n : ℕ) (t : Bytes) (m : ℕ)
      → o.stat n t ≡ there
      → o.stat 1 (table_name m) ≡ missing
      → (n == 1 && str_eq t (table_name m)) ≡ false
  apart_of_missing n t m seen free = elim (Bool-cases (n == 1)) [
    | inr other ↦ rw other refl
    | inl one ↦ elim (Bool-cases (str_eq t (table_name m))) [
      | inr ne ↦ rw (one, ne) refl
      | inl same ↦
          let at : n ≡ 1 = ground (arith, one) in
          let name = (str_eq_iff t (table_name m)).0 same in
          let clash : there ≡ missing = sym seen ∙ rw (at, name) free in cc
    ]
  ]

  module _ (n : ℕ) (t : Bytes) (seen : o.stat n t ≡ there) where
    pub IsOther-new :
        (rounds next : ℕ) (ts : List NewTable)
        → All (IsNew stat fails rounds next) ts
        → IsOther n t 1 (names_of ts)
    IsOther-new rounds next [] h = tt
    IsOther-new rounds next (u ∷ ts) h =
        (apart_of_missing n t u.number seen h.0.free, IsOther-new rounds next ts h.1)

    failed_write-IsSame :
        (rounds : ℕ) (d : Disk) (s : MergeState) → IsSame n t d (failed_write sum32 o rounds d s)
    unfolding failed_write
    failed_write-IsSame rounds d s = by_number (free_number stat fails rounds s.next_l1_index) refl
      where
        by_number :
            (r : Result ℕ)
            → free_number stat fails rounds s.next_l1_index ≡ r
            → IsSame n t d (elim r [
              | ok m ↦ (write_sorted_sstable_file sum32 (o.faults m) d 1 (table_name m) s.chunk).0
              | err e ↦ d
              | panicked ↦ d
            ])
        by_number (ok m) e =
            let free = free_number-missing stat fails rounds rounds s.next_l1_index m e in
            (write_sorted_sstable_file-IsWrite sum32 (o.faults m) d 1 (table_name m) s.chunk).apart
              n t (apart_of_missing n t m seen free.1)
        by_number (err why) e = (refl, refl)
        by_number panicked e = (refl, refl)

    failed_after-IsSame :
        (rounds : ℕ) (d : Disk) (s : MergeState) (flush_fails : Bool)
        → IsNumbered stat fails rounds s
        → IsSame n t d (failed_after sum32 o rounds d s flush_fails)
    unfolding failed_after
    failed_after-IsSame rounds d s flush_fails i =
        let other = IsOther-new rounds s.next_l1_index s.new_tables i.tables in
        let d₁ = write_new_tables sum32 o d s.new_tables in
        let d₂ = if flush_fails then failed_write sum32 o rounds d₁ s else d₁ in
        let last : IsSame n t d₁ d₂ = elim (Bool-cases flush_fails) [
          | inl failing ↦ rw failing (failed_write-IsSame rounds d₁ s)
          | inr done ↦ rw done (refl, refl)
        ] in
        IsSame-trans n t d d₂ (remove_tables o.removes d₂ 1 (names_of s.new_tables))
          (IsSame-trans n t d d₁ d₂ (write_new_tables-IsSame sum32 o d n t s.new_tables other) last)
          (remove_tables-IsSame o.removes d₂ 1 n t (names_of s.new_tables) other)

  abbrev IsNumberedAt : ℕ → MergeState × Bool → Type 0
  IsNumberedAt rounds halt = IsNumbered stat fails rounds halt.0

  -- a round of the loop, given the rounds that are left
  module _ (rounds fuel : ℕ) (s : MergeState) (i : IsNumbered stat fails rounds s)
      (later : (s' : MergeState)
        → IsNumbered stat fails rounds s'
        → IsNumbered stat fails rounds (merge_halt sum32 o rounds fuel s').0) where
    advanced :
        (s₁ : MergeState) (item : SstableHeapItem) (r : Result MergeState)
        → advance_item stat fails s₁ item ≡ r
        → IsNumbered stat fails rounds s₁
        → IsNumberedAt rounds (elim r [
          | ok s₂ ↦ merge_halt sum32 o rounds fuel s₂
          | err e ↦ (s₁, false)
          | panicked ↦ (s₁, false)
        ])
    advanced s₁ item (ok s₂) e j =
        later s₂ (advance_item-IsNumbered stat fails rounds s₁ s₂ item j e)
    advanced s₁ item (err why) e j = j
    advanced s₁ item panicked e j = j

    taken :
        (s₀ : MergeState) (item : SstableHeapItem) (r : Result MergeState)
        → take_item stat fails rounds s₀ item ≡ r
        → IsNumbered stat fails rounds s₀
        → IsNumberedAt rounds (elim r [
          | ok s₁ ↦ elim (advance_item stat fails s₁ item) [
            | ok s₂ ↦ merge_halt sum32 o rounds fuel s₂
            | err e ↦ (s₁, false)
            | panicked ↦ (s₁, false)
          ]
          | err e ↦ (s, true)
          | panicked ↦ (s, true)
        ])
    taken s₀ item (ok s₁) e j =
        advanced s₁ item (advance_item stat fails s₁ item) refl
          (take_item-IsNumbered stat fails rounds s₀ s₁ item j e)
    taken s₀ item (err why) e j = i
    taken s₀ item panicked e j = i

    round :
        (popped : Option (SstableHeapItem × List SstableHeapItem))
        → IsNumberedAt rounds (elim popped [
          | none ↦ (s, false)
          | some (item, rest) ↦ elim (take_item stat fails rounds (record s { heap = rest }) item) [
            | ok s₁ ↦ elim (advance_item stat fails s₁ item) [
              | ok s₂ ↦ merge_halt sum32 o rounds fuel s₂
              | err e ↦ (s₁, false)
              | panicked ↦ (s₁, false)
            ]
            | err e ↦ (s, true)
            | panicked ↦ (s, true)
          ]
        ])
    round none = i
    round (some (item, rest)) =
        taken (record s { heap = rest }) item
          (take_item stat fails rounds (record s { heap = rest }) item) refl
          (popped-IsNumbered stat fails rounds s rest i)

  merge_halt-IsNumbered :
      (rounds fuel : ℕ) (s : MergeState)
      → IsNumbered stat fails rounds s
      → IsNumbered stat fails rounds (merge_halt sum32 o rounds fuel s).0
  unfolding merge_halt
  merge_halt-IsNumbered rounds zero s i = i
  merge_halt-IsNumbered rounds (suc fuel) s i =
      round rounds fuel s i (merge_halt-IsNumbered rounds fuel) (heap_pop s.heap)

  -- A merge that fails keeps the file and the sidecar of every table that is there.
  pub failed_merge-IsSame :
      (n : ℕ) (t : Bytes) (rounds fuel : ℕ) (d : Disk) (opened : Result MergeState)
      → o.stat n t ≡ there
      → ((s : MergeState) → opened ≡ ok s → IsNumbered stat fails rounds s)
      → IsSame n t d (failed_merge sum32 o rounds fuel d opened)
  unfolding failed_merge
  failed_merge-IsSame n t rounds fuel d (ok s) seen i =
      let halt = merge_halt sum32 o rounds fuel s in
      failed_after-IsSame n t seen rounds d halt.0
        (in_last_flush sum32 o (merge_loop stat fails rounds fuel s) halt.1)
        (merge_halt-IsNumbered rounds fuel s (i s refl))
  failed_merge-IsSame n t rounds fuel d (err e) seen i = (refl, refl)
  failed_merge-IsSame n t rounds fuel d panicked seen i = (refl, refl)
