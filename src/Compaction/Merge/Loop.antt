-- ===== src/Compaction/Merge/Loop.antt =====
-- The rounds of the merge loop: an open key is taken from the newest of its entries, and stays.
use mathlib.Core.Path.{subst}
use mathlib.Core.Option.{some-injective}
use k_lsm_engine.Prelude.{
  ℕ, zero, suc, ◌≡◌, ◌⊎◌, inl, inr, refl, sym, ap, ◌∙◌, Bool, true, false, Option, none, some, List,
  [], ◌∷◌, All, Bool-cases, Bytes, str_eq, str_eq_iff, ok, err, out_of_fuel, bind-inv, ok-injective,
}
use k_lsm_engine.Entry.{StorageEntry}
use k_lsm_engine.Table.Order.{find_entry}
use k_lsm_engine.Store.Disk.{StatOutcome}
use k_lsm_engine.Compaction.{SstableHeapItem}
use k_lsm_engine.Compaction.Merge.{MergeState, heap_pop, take_item, advance_item, merge_loop}
use k_lsm_engine.Compaction.Merge.Least.{
  Source, items, least_of, others_of, take_least-items, All-least_of, least_of-IsNotLess,
}
use k_lsm_engine.Compaction.Merge.Newest.{
  IsSource, IsMerge, output, IsAnswer, nowhere, newest, entry_of_item, find_entry-append_some,
  find_entry-append_none,
}
use k_lsm_engine.Compaction.Merge.Steps.{IsTaken, take_item-IsTaken}
use k_lsm_engine.Compaction.Merge.Advance.{
  behind, least_of-AreAlone, advance_item-IsAdvanced, advance_item-output,
}
use k_lsm_engine.Compaction.Merge.Answers.{
  Among-least_of, IsAnswer-least_of, IsAnswer-behind, All-IsOlder,
}

-- Nothing was taken for the key.
pub record IsOpen (key : Bytes) (st : MergeState) : Type 0 where
  pub absent : find_entry key (output st) ≡ none
  pub current : (st.first ≡ true) ⊎ (str_eq st.current_key key ≡ false)

find_entry-item :
    (key : Bytes) (item : SstableHeapItem)
    → str_eq item.key key ≡ true
    → find_entry key (entry_of_item item ∷ []) ≡ some item.entry
unfolding find_entry
find_entry-item key item same = rw same refl

find_entry-item_other :
    (key : Bytes) (item : SstableHeapItem)
    → str_eq item.key key ≡ false
    → find_entry key (entry_of_item item ∷ []) ≡ none
unfolding find_entry
find_entry-item_other key item ne = rw ne refl

-- An open key is not the one that was taken last, so that its entry is taken.
taken_newest :
    (key : Bytes) (st st' : MergeState) (item : SstableHeapItem)
    → IsTaken st item st'
    → IsOpen key st
    → str_eq item.key key ≡ true
    → find_entry key (output st') ≡ some item.entry
taken_newest key st st' item t free same = elim t.taken [
  | inl old ↦ elim free.current [
    | inl first ↦ let h = old.0 in cc
    | inr other ↦
        let e : item.key ≡ st.current_key = (str_eq_iff item.key st.current_key).0 old.1 in
        let h : str_eq st.current_key key ≡ true = rw (← e) same in cc
  ]
  | inr new ↦
      ap (find_entry key) new.0
      ∙ find_entry-append_none key (output st) (entry_of_item item ∷ []) free.absent
      ∙ find_entry-item key item same
]

-- Taking an item of another key leaves the key open.
taken_other :
    (key : Bytes) (st st' : MergeState) (item : SstableHeapItem)
    → IsTaken st item st'
    → IsOpen key st
    → str_eq item.key key ≡ false
    → IsOpen key st'
taken_other key st st' item t free ne = elim t.taken [
  | inl old ↦ subst (IsOpen key) (sym old.2) free
  | inr new ↦ record {
    absent =
        ap (find_entry key) new.0
        ∙ find_entry-append_none key (output st) (entry_of_item item ∷ []) free.absent
        ∙ find_entry-item_other key item ne;
    current = inr (rw new.1 ne);
  }
]

-- What was taken stays.
taken_kept :
    (key : Bytes) (st st' : MergeState) (item : SstableHeapItem) (e : StorageEntry)
    → IsTaken st item st'
    → find_entry key (output st) ≡ some e
    → find_entry key (output st') ≡ some e
taken_kept key st st' item e t h = elim t.taken [
  | inl old ↦ rw old.2 h
  | inr new ↦
      ap (find_entry key) new.0
      ∙ find_entry-append_some key (output st) (entry_of_item item ∷ []) e h
]

module _ (stat : ℕ → StatOutcome) (fails : ℕ → Bool) (rounds : ℕ) where
  -- A round that succeeds.
  pub record IsStep (st : MergeState) : Type 0 where
    pub item : SstableHeapItem
    pub rest : List SstableHeapItem
    pub popped : heap_pop st.heap ≡ some (item, rest)
    pub taken : MergeState
    pub takes : IsTaken (record st { heap = rest }) item taken
    pub next : MergeState
    pub goes : advance_item stat fails taken item ≡ ok next

  -- A round that succeeds, and the rounds behind it.
  pub record IsRound (fuel : ℕ) (st st' : MergeState) : Type 0 where
    pub step : IsStep st
    pub later : merge_loop stat fails rounds fuel step.next ≡ ok st'

  -- Without fuel the loop succeeds only at its end.
  pub merge_loop-zero :
      (st st' : MergeState) → merge_loop stat fails rounds zero st ≡ ok st' → st ≡ st'
  unfolding merge_loop
  merge_loop-zero st st' h = by_heap st.heap h
    where
      by_heap :
          (heap : List SstableHeapItem)
          → (elim heap [ [] ↦ ok st | item ∷ rest ↦ err out_of_fuel ]) ≡ ok st'
          → st ≡ st'
      by_heap [] h = ok-injective _ _ h
      by_heap (item ∷ rest) h = cc

  pub merge_loop-IsRound :
      (fuel : ℕ) (st st' : MergeState) (o : Option (SstableHeapItem × List SstableHeapItem))
      → heap_pop st.heap ≡ o
      → merge_loop stat fails rounds (suc fuel) st ≡ ok st'
      → ((o ≡ none) × (st ≡ st')) ⊎ IsRound fuel st st'
  unfolding merge_loop
  merge_loop-IsRound fuel st st' none popped h =
      inl (refl, ok-injective _ _ (rw (merge_loop, popped) at h))
  merge_loop-IsRound fuel st st' (some (item, rest)) popped h =
      let (s₁, takes, h₁) =
        bind-inv (take_item stat fails rounds (record st { heap = rest }) item) _
          (rw (merge_loop, popped) at h) in
      let (s₂, goes, h₂) = bind-inv (advance_item stat fails s₁ item) _ h₁ in
      inr (record {
        step = record {
          item = item;
          rest = rest;
          popped = popped;
          taken = s₁;
          takes = take_item-IsTaken stat fails rounds (record st { heap = rest }) s₁ item takes;
          next = s₂;
          goes = goes;
        };
        later = h₂;
      })

  merge_loop-kept :
      (fuel : ℕ) (st st' : MergeState) (key : Bytes) (e : StorageEntry)
      → merge_loop stat fails rounds fuel st ≡ ok st'
      → find_entry key (output st) ≡ some e
      → find_entry key (output st') ≡ some e
  unfolding merge_loop
  merge_loop-kept zero st st' key e h there = rw (← merge_loop-zero st st' h) there
  merge_loop-kept (suc fuel) st st' key e h there =
      elim (merge_loop-IsRound fuel st st' (heap_pop st.heap) refl h) [
        | inl end ↦ rw (← end.1) there
        | inr r ↦
            let out =
              (advance_item-output stat fails r.step.taken r.step.next r.step.item r.step.goes).0 in
            merge_loop-kept fuel r.step.next st' key e r.later (
              ap (find_entry key) out
              ∙ taken_kept key (record st { heap = r.step.rest }) r.step.taken r.step.item e
                  r.step.takes there)
      ]

  pub heap_pop-items :
      (m : Source) (xs : List Source)
      → heap_pop (items (m ∷ xs)) ≡ some ((least_of m xs).item, items (others_of m xs))
  unfolding heap_pop
  heap_pop-items m xs = ap some (take_least-items m xs)

  -- A round takes the least item, and goes on with what is left.
  pub round-IsMerge :
      (fuel : ℕ) (st st' : MergeState) (m : Source) (xs : List Source)
      → IsMerge st (m ∷ xs)
      → (r : IsStep st)
      → (r.item ≡ (least_of m xs).item)
        × IsMerge r.next (behind (least_of m xs).item (least_of m xs).rest (others_of m xs))
  round-IsMerge fuel st st' m xs merge r =
      let both = some-injective _ _ (sym r.popped ∙ ap heap_pop merge.heap ∙ heap_pop-items m xs) in
      let item : r.item ≡ (least_of m xs).item = ap (λ p. p.0) both in
      let rest : r.rest ≡ items (others_of m xs) = ap (λ p. p.1) both in
      let (source, sources) =
        All-least_of (IsSource r.taken.readers) m xs (
          subst (λ readers. All (IsSource readers) (m ∷ xs)) (sym r.takes.readers) merge.sources) in
      let (alone, others) = least_of-AreAlone m xs merge.alone in
      let a =
        advance_item-IsAdvanced stat fails r.taken (least_of m xs) (others_of m xs)
          (r.takes.heap ∙ rest) source sources alone others in
      let to : a.to ≡ r.next =
        ok-injective _ _ (sym a.runs ∙ sym (ap (advance_item stat fails r.taken) item) ∙ r.goes) in
      (
        item,
        subst (λ s. IsMerge s (behind (least_of m xs).item (least_of m xs).rest (others_of m xs)))
            to a.merge,
      )

  -- The round takes an entry for the key.
  round-newest :
      (fuel : ℕ) (st st' : MergeState) (m : Source) (xs : List Source) (key : Bytes)
      → IsMerge st (m ∷ xs)
      → IsOpen key st
      → (r : IsRound fuel st st') → str_eq r.step.item.key key ≡ true
      → IsAnswer key (m ∷ xs) (find_entry key (output st'))
  round-newest fuel st st' m xs key merge free r same =
      let l = least_of m xs in
      let item = (round-IsMerge fuel st st' m xs merge r.step).0 in
      let same_least : str_eq l.item.key key ≡ true = rw (← item) same in
      let taken =
        taken_newest key (record st { heap = r.step.rest }) r.step.taken r.step.item r.step.takes
          (record { absent = free.absent; current = free.current }) same in
      let out =
        (advance_item-output stat fails r.step.taken r.step.next r.step.item r.step.goes).0 in
      newest l.item.entry
        (merge_loop-kept fuel r.step.next st' key l.item.entry r.later
          (ap (find_entry key) out ∙ taken ∙ ap (λ (i : SstableHeapItem). some i.entry) item))
        (record {
          source = l;
          among = Among-least_of l m xs (inl refl);
          entry = rw same_least refl;
          newest =
              All-IsOlder key st.readers l.item (m ∷ xs) same_least (least_of-IsNotLess m xs)
                merge.sources;
        })

  round-IsOpen :
      (fuel : ℕ) (st st' : MergeState) (key : Bytes)
      → IsOpen key st
      → (r : IsStep st) → str_eq r.item.key key ≡ false
      → IsOpen key r.next
  round-IsOpen fuel st st' key free r ne =
      let (out, first, current) = advance_item-output stat fails r.taken r.next r.item r.goes in
      let t =
        taken_other key (record st { heap = r.rest }) r.taken r.item r.takes
          (record { absent = free.absent; current = free.current }) ne in
      record {
        absent = ap (find_entry key) out ∙ t.absent;
        current = rw (first, current) t.current;
      }

  pub merge_loop-IsAnswer :
      (fuel : ℕ) (st st' : MergeState) (ss : List Source) (key : Bytes)
      → IsMerge st ss
      → IsOpen key st
      → merge_loop stat fails rounds fuel st ≡ ok st'
      → IsAnswer key ss (find_entry key (output st'))
  unfolding merge_loop heap_pop
  merge_loop-IsAnswer zero st st' [] key merge free h =
      nowhere (rw (← merge_loop-zero st st' h) free.absent) tt
  merge_loop-IsAnswer zero st st' (m ∷ xs) key merge free h = let never = rw merge.heap at h in cc
  merge_loop-IsAnswer (suc fuel) st st' [] key merge free h =
      nowhere (rw (← ok-injective _ _ (rw merge.heap at h)) free.absent) tt
  merge_loop-IsAnswer (suc fuel) st st' (m ∷ xs) key merge free h =
      elim (merge_loop-IsRound fuel st st' (heap_pop st.heap) refl h) [
        | inl end ↦ let popped = rw merge.heap at end.0 in cc
        | inr r ↦ elim (Bool-cases (str_eq r.step.item.key key)) [
          | inl same ↦ round-newest fuel st st' m xs key merge free r same
          | inr ne ↦
              let l = least_of m xs in
              let (item, next) = round-IsMerge fuel st st' m xs merge r.step in
              IsAnswer-least_of key m xs (find_entry key (output st')) (
                IsAnswer-behind key l.item l.rest (others_of m xs) (find_entry key (output st'))
                  (rw (← item) ne)
                  (merge_loop-IsAnswer fuel r.step.next st' (behind l.item l.rest (others_of m xs))
                    key next (round-IsOpen fuel st st' key free r.step ne) r.later))
        ]
      ]
