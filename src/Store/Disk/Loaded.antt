-- ===== src/Store/Disk/Loaded.antt =====
-- The filters in memory are those of the sidecars.
use k_lsm_engine.Prelude.{
  ℕ, Bool, false, ◌≡◌, refl, ap, ◌∙◌, inl, inr, Option, none, some, List, [], ◌∷◌, ◌||◌,
  if◌then◌else◌, Bool-cases, Bytes, str_eq, str_eq_iff,
}
use k_lsm_engine.Bloom.{BloomFilter}
use k_lsm_engine.Store.{lookup}
use k_lsm_engine.Store.Disk.{set_filter, sidecar_filter, load_tables}

unfoldable pub is_among : Bytes → List Bytes → Bool
is_among key [] = false
is_among key (table ∷ rest) = str_eq table key || is_among key rest

unfoldable pub first_of : Option BloomFilter → Option BloomFilter → Option BloomFilter
first_of none below = below
first_of (some filter) below = some filter

pub lookup-set_filter :
    (filters : List (Bytes × BloomFilter)) (table key : Bytes) (o : Option BloomFilter)
    → lookup key (set_filter filters table o)
      ≡ (if str_eq table key then first_of o (lookup key filters) else lookup key filters)
unfolding lookup set_filter first_of
lookup-set_filter filters table key none = elim (Bool-cases (str_eq table key)) [
  | inl same ↦ rw same
  | inr ne ↦ rw ne
]
lookup-set_filter filters table key (some filter) = refl

first_of_idem : (a b : Option BloomFilter) → first_of a (first_of a b) ≡ first_of a b
unfolding first_of
first_of_idem none b = refl
first_of_idem (some x) b = refl

first_of-none : (a : Option BloomFilter) → first_of a none ≡ a
unfolding first_of
first_of-none none = refl
first_of-none (some x) = refl

module _ (sidecars : ℕ → Bytes → Option Bytes) (level : ℕ) (key : Bytes) where
  lookup-load_tables_over :
      (filters : List (Bytes × BloomFilter)) (tables : List Bytes)
      → lookup key (load_tables sidecars level filters tables) ≡ (
          if is_among key tables
          then first_of (sidecar_filter sidecars level key) (lookup key filters)
          else lookup key filters)
  unfolding load_tables is_among
  lookup-load_tables_over filters [] = refl
  lookup-load_tables_over filters (table ∷ rest) =
      let own = sidecar_filter sidecars level table in
      let later = lookup-load_tables_over (set_filter filters table own) rest in
      let set = lookup-set_filter filters table key own in
      elim (Bool-cases (str_eq table key)) [
        | inl same ↦ elim (Bool-cases (is_among key rest)) [
          | inl again ↦
              rw (later, again, set, same, (str_eq_iff table key).0 same)
                (first_of_idem (sidecar_filter sidecars level key) (lookup key filters))
          | inr last ↦ rw (later, last, set, same, (str_eq_iff table key).0 same)
        ]
        | inr ne ↦ rw (later, set, ne)
      ]

  -- After the filters of a level are loaded, the filter of each of its tables is the one of its
  -- sidecar, none if that does not read, and no other table has a filter.
  pub lookup-load_tables :
      (tables : List Bytes)
      → lookup key (load_tables sidecars level [] tables)
        ≡ (if is_among key tables then sidecar_filter sidecars level key else none)
  unfolding lookup
  lookup-load_tables tables =
      lookup-load_tables_over [] tables
      ∙ ap (λ o. if is_among key tables then o else none)
          (first_of-none (sidecar_filter sidecars level key))
