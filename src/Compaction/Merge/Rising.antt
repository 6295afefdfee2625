-- ===== src/Compaction/Merge/Rising.antt =====
-- The order of the keys that a merge takes.
use mathlib.Core.Path.{subst}
use k_lsm_engine.Prelude.{
  ℕ, zero, suc, ◌≡◌, ◌⊎◌, inl, inr, refl, sym, ap, ◌∙◌, Bool, true, false, List, [], ◌∷◌, ◌++◌, All,
  Bool-cases, Bytes, str_eq, str_lt, str_eq_iff, str_lt_total, str_lt_trans, str_lt_irrefl,
  str_lt_asymm, ok, ok-injective,
}
use k_lsm_engine.Entry.{SstableEntry}
use k_lsm_engine.Store.Disk.{StatOutcome}
use k_lsm_engine.Compaction.{SstableHeapItem, less}
use k_lsm_engine.Compaction.Merge.{MergeState, heap_pop, merge_loop}
use k_lsm_engine.Compaction.Merge.Least.{
  Source, least_of, others_of, All-least_of, IsNotLess, least_of-IsNotLess,
}
use k_lsm_engine.Compaction.Merge.Newest.{IsSource, IsMerge, RisesFrom, output, entry_of_item}
use k_lsm_engine.Compaction.Merge.Steps.{IsTaken}
use k_lsm_engine.Compaction.Merge.Advance.{behind, advance_item-output}
use k_lsm_engine.Compaction.Merge.Loop.{
  IsStep, merge_loop-zero, merge_loop-IsRound, merge_loop-zero, round-IsMerge,
}

-- The keys rise strictly.
abbrev pub Rising : List SstableEntry → Type 0
Rising [] = Unit
Rising (e ∷ es) = RisesFrom e.k es

abbrev pub AtMost : Bytes → List SstableEntry → Type 0
AtMost key es = All (λ (e : SstableEntry). str_lt key e.k ≡ false) es

abbrev pub AtLeast : Bytes → List Source → Type 0
AtLeast key ss = All (λ (s : Source). str_lt s.item.key key ≡ false) ss

-- Nothing was taken, or everything lies below the key that was taken last, and the item not.
abbrev IsNext : MergeState → SstableHeapItem → Type 0
IsNext st item =
    ((st.first ≡ true) × (output st ≡ []))
    ⊎ ((st.first ≡ false)
        × AtMost st.current_key (output st)
        × (str_lt item.key st.current_key ≡ false))

lt_of_le_lt : (a b c : Bytes) → str_lt b a ≡ false → str_lt b c ≡ true → str_lt a c ≡ true
lt_of_le_lt a b c le lt = elim (Bool-cases (str_lt a b)) [
  | inl below ↦ str_lt_trans a b c below lt
  | inr ge ↦ let e : a ≡ b = str_lt_total a b ge le in rw e lt
]

lt_of_le_ne : (a b : Bytes) → str_lt a b ≡ false → str_eq a b ≡ false → str_lt b a ≡ true
lt_of_le_ne a b le ne = elim (Bool-cases (str_lt b a)) [
  | inl lt ↦ lt
  | inr ge ↦ let h = (str_eq_iff a b).1 (str_lt_total a b le ge) in cc
]

RisesFrom-append :
    (from current : Bytes) (es : List SstableEntry) (x : SstableEntry)
    → RisesFrom from es
    → str_lt from x.k ≡ true
    → AtMost current es
    → str_lt current x.k ≡ true
    → RisesFrom from (es ++ x ∷ [])
RisesFrom-append from current [] x r lt below above = (lt, tt)
RisesFrom-append from current (e ∷ es) x r lt below above = (
  r.0,
  RisesFrom-append e.k current es x r.1 (lt_of_le_lt e.k current x.k below.0 above) below.1 above,
)

Rising-append :
    (current : Bytes) (es : List SstableEntry) (x : SstableEntry)
    → Rising es
    → AtMost current es
    → str_lt current x.k ≡ true
    → Rising (es ++ x ∷ [])
Rising-append current [] x r below above = tt
Rising-append current (e ∷ es) x r below above =
    RisesFrom-append e.k current es x r (lt_of_le_lt e.k current x.k below.0 above) below.1 above

AtMost-append :
    (current : Bytes) (es : List SstableEntry) (x : SstableEntry)
    → AtMost current es
    → str_lt current x.k ≡ true
    → AtMost x.k (es ++ x ∷ [])
AtMost-append current [] x below above = (str_lt_irrefl x.k, tt)
AtMost-append current (e ∷ es) x below above = (
  str_lt_asymm e.k x.k (lt_of_le_lt e.k current x.k below.0 above),
  AtMost-append current es x below.1 above,
)

record IsGrown (st : MergeState) (item : SstableHeapItem) : Type 0 where
  rising : Rising (output st)
  below : AtMost item.key (output st)
  current : st.current_key ≡ item.key
  first : st.first ≡ false

taken-IsGrown :
    (st st' : MergeState) (item : SstableHeapItem)
    → IsTaken st item st'
    → Rising (output st)
    → IsNext st item
    → IsGrown st' item
taken-IsGrown st st' item t rising next = elim t.taken [
  | inl old ↦ elim next [
    | inl start ↦
        let h = old.0 in let h' = start.0 in absurd (let f : true ≡ false = sym h' ∙ h in cc)
    | inr (later, below, _) ↦
        let e : item.key ≡ st.current_key = (str_eq_iff item.key st.current_key).0 old.1 in
        subst (λ (s : MergeState). IsGrown s item) (sym old.2)
          (record {
            rising = rising;
            below = subst (λ (k : Bytes). AtMost k (output st)) (sym e) below;
            current = sym e;
            first = later;
          })
  ]
  | inr (grows, current, first, other) ↦ elim next [
    | inl start ↦
        let all : output st' ≡ entry_of_item item ∷ [] =
          grows ∙ ap (λ (es : List SstableEntry). es ++ entry_of_item item ∷ []) start.1 in
        record {
          rising = subst Rising (sym all) tt;
          below = subst (AtMost item.key) (sym all) (str_lt_irrefl item.key, tt);
          current = current;
          first = first;
        }
    | inr (later, below, floor) ↦
        let ne : str_eq item.key st.current_key ≡ false = elim other [
          | inl f ↦ absurd (let g : true ≡ false = sym f ∙ later in cc)
          | inr ne ↦ ne
        ] in
        let above : str_lt st.current_key item.key ≡ true =
          lt_of_le_ne item.key st.current_key floor ne in
        record {
          rising =
              subst Rising (sym grows)
                (Rising-append st.current_key (output st) (entry_of_item item) rising below above);
          below =
              subst (AtMost item.key) (sym grows)
                (AtMost-append st.current_key (output st) (entry_of_item item) below above);
          current = current;
          first = first;
        }
  ]
]

not_below : (s : Source) (l : SstableHeapItem) → IsNotLess l s → str_lt s.item.key l.key ≡ false
unfolding less
not_below s l h = elim (Bool-cases (str_eq s.item.key l.key)) [
  | inl same ↦
      let e : s.item.key ≡ l.key = (str_eq_iff s.item.key l.key).0 same in
      rw e (str_lt_irrefl l.key)
  | inr ne ↦ rw ne at h
]

not_below-AtLeast :
    (l : SstableHeapItem) (ss : List Source) → All (IsNotLess l) ss → AtLeast l.key ss
not_below-AtLeast l [] h = tt
not_below-AtLeast l (s ∷ ss) h = (not_below s l h.0, not_below-AtLeast l ss h.1)

AtLeast-behind :
    (item : SstableHeapItem) (es : List SstableEntry) (ss : List Source)
    → RisesFrom item.key es
    → AtLeast item.key ss
    → AtLeast item.key (behind item es ss)
AtLeast-behind item [] ss r h = h
AtLeast-behind item (e ∷ es) ss r h = (str_lt_asymm item.key e.k r.0, h)

-- What was taken rises, and nothing that is left lies below it.
pub record IsSorted (st : MergeState) (ss : List Source) : Type 0 where
  pub rising : Rising (output st)
  pub place :
      ((st.first ≡ true) × (output st ≡ []))
      ⊎ ((st.first ≡ false) × AtMost st.current_key (output st) × AtLeast st.current_key ss)

IsSorted-IsNext :
    (st : MergeState) (m : Source) (xs : List Source)
    → IsSorted st (m ∷ xs)
    → IsNext st (least_of m xs).item
IsSorted-IsNext st m xs s = elim s.place [
  | inl start ↦ inl start
  | inr (later, below, floor) ↦ inr (
    later,
    below,
    (All-least_of (λ (x : Source). str_lt x.item.key st.current_key ≡ false) m xs floor).0,
  )
]

module _ (stat : ℕ → StatOutcome) (fails : ℕ → Bool) (rounds : ℕ) where
  pub round-IsSorted :
      (fuel : ℕ) (st st' : MergeState) (m : Source) (xs : List Source)
      → IsMerge st (m ∷ xs)
      → IsSorted st (m ∷ xs)
      → (r : IsStep stat fails rounds st)
      → IsSorted r.next (behind (least_of m xs).item (least_of m xs).rest (others_of m xs))
  round-IsSorted fuel st st' m xs merge s r =
      let l = least_of m xs in
      let item = (round-IsMerge stat fails rounds fuel st st' m xs merge r).0 in
      let start : IsNext (record st { heap = r.rest }) r.item =
        subst (IsNext (record st { heap = r.rest })) (sym item) (IsSorted-IsNext st m xs s) in
      let g = taken-IsGrown (record st { heap = r.rest }) r.taken r.item r.takes s.rising start in
      let (out, first, current) = advance_item-output stat fails r.taken r.next r.item r.goes in
      let key : r.next.current_key ≡ r.item.key = current ∙ g.current in
      let key_least : r.next.current_key ≡ l.item.key =
        key ∙ ap (λ (i : SstableHeapItem). i.key) item in
      let floor : AtLeast l.item.key (m ∷ xs) =
        not_below-AtLeast l.item (m ∷ xs) (least_of-IsNotLess m xs) in
      let floors = All-least_of (λ (x : Source). str_lt x.item.key l.item.key ≡ false) m xs floor in
      let source = (All-least_of (IsSource st.readers) m xs merge.sources).0 in
      let below : AtMost r.item.key (output r.next) = subst (AtMost r.item.key) (sym out) g.below in
      record {
        rising = subst Rising (sym out) g.rising;
        place = inr (
          first ∙ g.first,
          subst (λ (k : Bytes). AtMost k (output r.next)) (sym key) below,
          subst (λ (k : Bytes). AtLeast k (behind l.item l.rest (others_of m xs))) (sym key_least)
              (AtLeast-behind l.item l.rest (others_of m xs) source.rises floors.1),
        );
      }

  pub merge_loop-Rising :
      (fuel : ℕ) (st st' : MergeState) (ss : List Source)
      → IsMerge st ss
      → IsSorted st ss
      → merge_loop stat fails rounds fuel st ≡ ok st'
      → Rising (output st')
  unfolding merge_loop heap_pop
  merge_loop-Rising zero st st' ss merge s h =
      subst (λ (x : MergeState). Rising (output x)) (merge_loop-zero stat fails rounds st st' h)
        s.rising
  merge_loop-Rising (suc fuel) st st' [] merge s h =
      subst (λ (x : MergeState). Rising (output x)) (ok-injective _ _ (rw merge.heap at h)) s.rising
  merge_loop-Rising (suc fuel) st st' (m ∷ xs) merge s h =
      elim (merge_loop-IsRound stat fails rounds fuel st st' (heap_pop st.heap) refl h) [
        | inl end ↦ let popped = rw merge.heap at end.0 in cc
        | inr r ↦
            merge_loop-Rising fuel r.step.next st'
              (behind (least_of m xs).item (least_of m xs).rest (others_of m xs))
              (round-IsMerge stat fails rounds fuel st st' m xs merge r.step).1
              (round-IsSorted fuel st st' m xs merge s r.step) r.later
      ]
