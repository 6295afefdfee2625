-- ===== src/Compaction/Order.antt =====
-- The order of the heap on the items of several tables.
use mathlib.Core.Path.{ap}
use mathlib.Core.Bool.{true≢false}
use k_lsm_engine.Prelude.{
  ◌≡◌, ◌⊎◌, sym, ◌∙◌, ◌<◌, inl, inr, true, false, Bool-cases, arith, str_eq, str_lt, str_lt_irrefl,
  str_lt_trans, str_lt_total, str_eq_refl, str_eq_iff,
}
use k_lsm_engine.Compaction.{SstableHeapItem, less}

-- the order without the Boolean tests: by key, then the lower level, then the later table
keys_differ : (a b : SstableHeapItem) → str_eq a.key b.key ≡ false → less a b ≡ str_lt a.key b.key
unfolding less
keys_differ a b h = rw h

same_keys :
    (a b : SstableHeapItem)
    → a.key ≡ b.key
    → less a b ≡ true
    → (a.level < b.level) ⊎ ((a.level ≡ b.level) × (b.table_index < a.table_index))
unfolding less
same_keys a b same h = ground (arith, (str_eq_iff a.key b.key).1 same)

less_cases :
    (a b : SstableHeapItem)
    → less a b ≡ true
    → (str_lt a.key b.key ≡ true)
      ⊎ ((a.key ≡ b.key)
          × ((a.level < b.level) ⊎ ((a.level ≡ b.level) × (b.table_index < a.table_index))))
less_cases a b h = elim (Bool-cases (str_eq a.key b.key)) [
  | inl same ↦
      inr ((str_eq_iff a.key b.key).0 same, same_keys a b ((str_eq_iff a.key b.key).0 same) h)
  | inr ne ↦ inl (sym (keys_differ a b ne) ∙ h)
]

lt_less : (a b : SstableHeapItem) → str_lt a.key b.key ≡ true → less a b ≡ true
lt_less a b h = elim (Bool-cases (str_eq a.key b.key)) [
  | inl same ↦ absurd (
      true≢false
        (sym h ∙ ap (str_lt a.key) (sym ((str_eq_iff a.key b.key).0 same)) ∙ str_lt_irrefl a.key))
  | inr ne ↦ keys_differ a b ne ∙ h
]

older_less :
    (a b : SstableHeapItem)
    → a.key ≡ b.key
    → (a.level < b.level) ⊎ ((a.level ≡ b.level) × (b.table_index < a.table_index))
    → less a b ≡ true
unfolding less
older_less a b same h = ground (arith, (str_eq_iff a.key b.key).1 same)

pub less_trans : (a b c : SstableHeapItem) → less a b ≡ true → less b c ≡ true → less a c ≡ true
less_trans a b c h₁ h₂ = elim (less_cases a b h₁) [
  | inl lt ↦ elim (less_cases b c h₂) [
    | inl lt' ↦ lt_less a c (str_lt_trans a.key b.key c.key lt lt')
    | inr later ↦ lt_less a c (ap (str_lt a.key) (sym later.0) ∙ lt)
  ]
  | inr later ↦ elim (less_cases b c h₂) [
    | inl lt' ↦ lt_less a c (ap (λ k. str_lt k c.key) later.0 ∙ lt')
    | inr later' ↦ older_less a c (later.0 ∙ later'.0) (ranks later.1 later'.1)
  ]
]
  where
    ranks :
        (a.level < b.level) ⊎ ((a.level ≡ b.level) × (b.table_index < a.table_index))
        → (b.level < c.level) ⊎ ((b.level ≡ c.level) × (c.table_index < b.table_index))
        → (a.level < c.level) ⊎ ((a.level ≡ c.level) × (c.table_index < a.table_index))
    ranks x y = ground arith

pub less_irrefl : (a : SstableHeapItem) → less a a ≡ false
unfolding less
less_irrefl a = ground (arith, str_eq_refl a.key)

pub less_total :
    (a b : SstableHeapItem)
    → less a b ≡ false
    → less b a ≡ false
    → (a.key ≡ b.key) × (a.level ≡ b.level) × (a.table_index ≡ b.table_index)
less_total a b h₁ h₂ =
    let same = str_lt_total a.key b.key (not_lt a b h₁) (not_lt b a h₂) in
    (same, (ranks same).0, (ranks same).1)
  where
    not_lt : (x y : SstableHeapItem) → less x y ≡ false → str_lt x.key y.key ≡ false
    not_lt x y h = elim (Bool-cases (str_lt x.key y.key)) [
      | inl lt ↦ absurd (true≢false (sym (lt_less x y lt) ∙ h))
      | inr no_lt ↦ no_lt
    ]

    not_older :
        (x y : SstableHeapItem)
        → x.key ≡ y.key
        → less x y ≡ false
        → (x.level < y.level) ⊎ ((x.level ≡ y.level) × (y.table_index < x.table_index))
        → ⊥
    not_older x y same h older = true≢false (sym (older_less x y same older) ∙ h)

    ranks : a.key ≡ b.key → (a.level ≡ b.level) × (a.table_index ≡ b.table_index)
    ranks same = ground (arith, not_older a b same h₁, not_older b a (sym same) h₂)

pub record IsStrictOrder : Type 0 where
  pub irrefl : (a : SstableHeapItem) → less a a ≡ false
  pub trans : (a b c : SstableHeapItem) → less a b ≡ true → less b c ≡ true → less a c ≡ true
  pub total :
      (a b : SstableHeapItem)
      → less a b ≡ false
      → less b a ≡ false
      → (a.key ≡ b.key) × (a.level ≡ b.level) × (a.table_index ≡ b.table_index)

-- The order of the heap is a strict order, and items that neither comes before the other have one
-- key, level and table: the merge has one order.
pub less-IsStrictOrder : IsStrictOrder
less-IsStrictOrder = record { irrefl = less_irrefl; trans = less_trans; total = less_total }
