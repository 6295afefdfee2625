-- ===== src/Table/Find.antt =====
-- The search in one block finds the entry with the key, and a lookup in a sorted table needs only
-- the window of the table in which the key can lie.
use k_lsm_engine.Prelude.{
  ℕ, zero, suc, ◌+◌, ◌≤◌, ◌<◌, ◌≡◌, refl, sym, ◌⊎◌, inl, inr, Bool, true, false, none, some, List,
  [], ◌∷◌, length, get_elem?, window, arith, Bool-cases, Bytes, str_eq, str_lt, str_le, str_eq_iff,
  str_lt_asymm, ltb, str_lt_irrefl, str_le_lt_trans,
}
use k_lsm_engine.Std.Search.{sort_search, IsMonotone, IsFirst, sort_search-IsFirst}
use k_lsm_engine.Entry.{SstableEntry, storage_entry}
use k_lsm_engine.Table.{key_of, key_at, get_in_block}
use k_lsm_engine.Table.Order.{Rises, find_entry}

pub get_elem?-some :
    (es : List SstableEntry) (i : ℕ)
    → i < length es
    → (e : SstableEntry) × (get_elem? es i ≡ some e) × (key_at es i ≡ e.k)
unfolding key_of
get_elem?-some [] i h = absurd (omega arith)
get_elem?-some (e ∷ es) zero h = (e, refl, refl)
get_elem?-some (e ∷ es) (suc i) h = get_elem?-some es i (omega arith)

get_elem?-none : (es : List SstableEntry) (i : ℕ) → length es ≤ i → get_elem? es i ≡ none
get_elem?-none [] i h = refl
get_elem?-none (e ∷ es) zero h = absurd (omega arith)
get_elem?-none (e ∷ es) (suc i) h = get_elem?-none es i (omega arith)

pub find_entry-none :
    (key : Bytes) (es : List SstableEntry)
    → ((i : ℕ) → i < length es → str_eq (key_at es i) key ≡ false)
    → find_entry key es ≡ none
unfolding find_entry key_of
find_entry-none key [] h = refl
find_entry-none key (e ∷ es) h =
    rw (h 0 (omega arith)) (find_entry-none key es (λ i lt. h (suc i) (omega arith)))

-- The first entry with the key is the answer.
find_entry-at :
    (key : Bytes) (es : List SstableEntry) (i : ℕ) {e : SstableEntry}
    → get_elem? es i ≡ some e
    → str_eq e.k key ≡ true
    → ((j : ℕ) → j < i → str_eq (key_at es j) key ≡ false)
    → find_entry key es ≡ some (storage_entry e)
unfolding find_entry key_of
find_entry-at key [] i at same h = cc
find_entry-at key (x ∷ es) zero at same h = ground arith
find_entry-at key (x ∷ es) (suc i) at same h =
    rw (h 0 (omega arith)) (find_entry-at key es i at same (λ j lt. h (suc j) (omega arith)))

-- Outside the window no entry has the key.
pub find_entry-window :
    (key : Bytes) (es : List SstableEntry) (at n : ℕ)
    → ((i : ℕ) → i < length es → (i < at) ⊎ (at + n ≤ i) → str_eq (key_at es i) key ≡ false)
    → find_entry key es ≡ find_entry key (window es at n)
unfolding find_entry key_of
find_entry-window key [] zero zero h = refl
find_entry-window key [] zero (suc n) h = refl
find_entry-window key [] (suc at) zero h = refl
find_entry-window key [] (suc at) (suc n) h = refl
find_entry-window key (e ∷ es) zero zero h =
    find_entry-none key (e ∷ es) (λ i lt. h i lt (inr (omega arith)))
find_entry-window key (e ∷ es) zero (suc n) h =
    rw (find_entry-window key es zero n (λ i lt out. h (suc i) (omega arith) (omega arith)))
find_entry-window key (e ∷ es) (suc at) n h =
    rw (h 0 (omega arith) (inl (omega arith)))
      (find_entry-window key es at n (λ i lt out. h (suc i) (omega arith) (omega arith)))

pub str_ne_of_lt : (a b : Bytes) → str_lt a b ≡ true → str_eq a b ≡ false
str_ne_of_lt a b h = ground (arith, str_eq_iff a b, str_lt_irrefl a)

pub str_ne_of_gt : (a b : Bytes) → str_lt b a ≡ true → str_eq a b ≡ false
str_ne_of_gt a b h = ground (arith, str_eq_iff a b, str_lt_irrefl a)

-- The test of the search in a block, at an index
abbrev reaches : Bytes → List SstableEntry → ℕ → Bool
reaches key es i = str_le key (key_at es i)

reaches-IsMonotone :
    (key : Bytes) (es : List SstableEntry) → Rises es → IsMonotone (length es) (reaches key es)
reaches-IsMonotone key es r a b le lt h = ground (
  arith,
  r.lt a b,
  str_le_lt_trans key (key_at es a) (key_at es b),
  str_lt_asymm key (key_at es b),
)

module _ (key : Bytes) (es : List SstableEntry) (r : Rises es) (id : ℕ)
    (f : IsFirst (length es) (reaches key es) id) where
  below_ne : (i : ℕ) → i < id → str_eq (key_at es i) key ≡ false
  below_ne i lt = ground (arith, f.below i, str_ne_of_lt (key_at es i) key)

  -- If the entry at `id` has another key, no entry has the key.
  missing_ne :
      id < length es
      → str_eq (key_at es id) key ≡ false
      → (i : ℕ) → i < length es
      → str_eq (key_at es i) key ≡ false
  missing_ne inside ne i lt = ground (
    arith,
    below_ne i,
    f.at inside,
    r.lt id i,
    str_le_lt_trans key (key_at es id) (key_at es i),
    str_ne_of_gt (key_at es i) key,
  )

-- The binary search in a block answers as a lookup through the whole block does.
pub get_in_block_lem :
    (key : Bytes) (es : List SstableEntry) → Rises es → get_in_block key es ≡ find_entry key es
unfolding get_in_block
get_in_block_lem key es r =
    let id = sort_search (length es) (reaches key es) in
    let f = sort_search-IsFirst (length es) (reaches key es) (reaches-IsMonotone key es r) in
    elim (Bool-cases (ltb id (length es))) [
      | inr out ↦
          rw (get_elem?-none es id (ground arith))
            (sym (find_entry-none key es (λ i lt. below_ne key es r id f i (ground arith))))
      | inl inside ↦
          let (e, at, same_key) = get_elem?-some es id (ground arith) in
          elim (Bool-cases (str_eq e.k key)) [
            | inl same ↦
                rw (at, same) (sym (find_entry-at key es id at same (below_ne key es r id f)))
            | inr ne ↦
                rw (at, ne)
                  (sym (
                    find_entry-none key es
                      (missing_ne key es r id f (ground arith) (rw same_key ne))))
          ]
    ]
