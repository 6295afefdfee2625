-- ===== src/Compaction/Publish/Ranges.antt =====
-- The key ranges of the new tables of a merge.
use mathlib.Core.Path.{subst}
use k_lsm_engine.Prelude.{
  ℕ, ◌≡◌, refl, sym, inl, inr, true, false, Option, none, some, List, [], ◌∷◌, ◌++◌, All, arith,
  Bool-cases, Bytes, str_eq, str_eq_iff, str_eq_refl, str_lt, str_lt_irrefl, str_lt_asymm,
  str_lt_trans,
}
use k_lsm_engine.Entry.{SstableEntry}
use k_lsm_engine.Table.{not_above}
use k_lsm_engine.Table.Block.{IsTable}
use k_lsm_engine.Store.{SstableKeyRange, lookup, table_name, l1_table_may_contain}
use k_lsm_engine.Compaction.Merge.{NewTable}
use k_lsm_engine.Compaction.Merge.Newest.{RisesFrom}
use k_lsm_engine.Compaction.Merge.Rising.{Rising}
use k_lsm_engine.Compaction.Publish.{ranges_of_new}
use k_lsm_engine.Compaction.Publish.Numbers.{IsEnds, AreDistinct, AreDistinctFrom}
use k_lsm_engine.Compaction.Publish.Names.{table_name-injective}

IsTable-RisesFrom :
    (before : Bytes) (es : List SstableEntry) → IsTable (some before) es → RisesFrom before es
unfolding not_above
IsTable-RisesFrom before [] t = tt
IsTable-RisesFrom before (e ∷ es) t = (ground (arith, t.0), IsTable-RisesFrom e.k es t.2)

IsTable-Rising : (es : List SstableEntry) → IsTable none es → Rising es
IsTable-Rising [] t = tt
IsTable-Rising (e ∷ es) t = IsTable-RisesFrom e.k es t.2

abbrev AreFrom : Bytes → List SstableEntry → Type 0
AreFrom min es = All (λ (e : SstableEntry). str_lt e.k min ≡ false) es

abbrev AreUpTo : Bytes → List SstableEntry → Type 0
AreUpTo max es = All (λ (e : SstableEntry). str_lt max e.k ≡ false) es

RisesFrom-AreFrom :
    (min from : Bytes) (es : List SstableEntry)
    → str_lt from min ≡ false
    → RisesFrom from es
    → AreFrom min es
RisesFrom-AreFrom min from [] le r = tt
RisesFrom-AreFrom min from (e ∷ es) le r =
    let above : str_lt e.k min ≡ false = elim (Bool-cases (str_lt e.k min)) [
      | inl below ↦ let h = str_lt_trans from e.k min r.0 below in cc
      | inr up ↦ up
    ] in
    (above, RisesFrom-AreFrom min e.k es above r.1)

RisesFrom-AreUpTo :
    (from : Bytes) (xs : List SstableEntry) (last : SstableEntry)
    → RisesFrom from (xs ++ last ∷ [])
    → (str_lt from last.k ≡ true) × AreUpTo last.k (xs ++ last ∷ [])
RisesFrom-AreUpTo from [] last r = (r.0, (str_lt_irrefl last.k, tt))
RisesFrom-AreUpTo from (x ∷ xs) last r =
    let rest = RisesFrom-AreUpTo x.k xs last r.1 in
    (str_lt_trans from x.k last.k r.0 rest.0, (str_lt_asymm x.k last.k rest.0, rest.1))

Rising-AreUpTo :
    (xs : List SstableEntry) (last : SstableEntry)
    → Rising (xs ++ last ∷ [])
    → AreUpTo last.k (xs ++ last ∷ [])
Rising-AreUpTo [] last r = (str_lt_irrefl last.k, tt)
Rising-AreUpTo (x ∷ xs) last r =
    let rest = RisesFrom-AreUpTo x.k xs last r in (str_lt_asymm x.k last.k rest.0, rest.1)

abbrev pub AreWithin : Option SstableKeyRange → List SstableEntry → Type 0
AreWithin range es = All (λ (e : SstableEntry). l1_table_may_contain e.k range ≡ true) es

AreWithin-of :
    (range : SstableKeyRange) (es : List SstableEntry)
    → AreFrom range.min es
    → AreUpTo range.max es
    → AreWithin (some range) es
unfolding l1_table_may_contain
AreWithin-of range [] low high = tt
AreWithin-of range (e ∷ es) low high = (rw (low.0, high.0) refl, AreWithin-of range es low.1 high.1)

-- The entries of a table lie between its first key and its last one.
pub IsEnds-AreWithin :
    (range : SstableKeyRange) (chunk : List SstableEntry)
    → IsTable none chunk
    → IsEnds range.min range.max chunk
    → AreWithin (some range) chunk
IsEnds-AreWithin range chunk t ends =
    let rising = IsTable-Rising chunk t in
    let above : AreFrom ends.first.k (ends.first ∷ ends.behind) = (
      str_lt_irrefl ends.first.k,
      RisesFrom-AreFrom ends.first.k ends.first.k ends.behind (str_lt_irrefl ends.first.k)
          (subst Rising ends.starts rising),
    ) in
    let low =
      subst (λ min. AreFrom min chunk) ends.min_key
        (subst (AreFrom ends.first.k) (sym ends.starts) above) in
    let up = Rising-AreUpTo ends.before ends.last (subst Rising ends.ends rising) in
    let high =
      subst (λ max. AreUpTo max chunk) ends.max_key
        (subst (AreUpTo ends.last.k) (sym ends.ends) up) in
    AreWithin-of range chunk low high

abbrev pub AreListed : List (Bytes × SstableKeyRange) → List NewTable → Type 0
AreListed ranges ts =
    All (λ (t : NewTable). lookup (table_name t.number) ranges ≡ some t.key_range) ts

AreListed-later :
    (n : ℕ) (range : SstableKeyRange) (ranges : List (Bytes × SstableKeyRange)) (ts : List NewTable)
    → AreDistinctFrom n ts
    → AreListed ranges ts
    → AreListed ((table_name n, range) ∷ ranges) ts
unfolding lookup
AreListed-later n range ranges [] d h = tt
AreListed-later n range ranges (t ∷ ts) d h =
    let ne : str_eq (table_name n) (table_name t.number) ≡ false =
      elim (Bool-cases (str_eq (table_name n) (table_name t.number))) [
        | inl same ↦ absurd (
            d.0 (
              table_name-injective n t.number
                ((str_eq_iff (table_name n) (table_name t.number)).0 same)))
        | inr apart ↦ apart
      ] in
    (rw ne h.0, AreListed-later n range ranges ts d.1 h.1)

-- The range of each new table is found under its name.
pub ranges_of_new-AreListed :
    (ts : List NewTable) → AreDistinct ts → AreListed (ranges_of_new ts) ts
unfolding lookup
ranges_of_new-AreListed [] d = tt
ranges_of_new-AreListed (t ∷ ts) d = (
  rw (str_eq_refl (table_name t.number)) refl,
  AreListed-later t.number t.key_range (ranges_of_new ts) ts d.0 (ranges_of_new-AreListed ts d.1),
)
