-- ===== src/Compaction/Readers.antt =====
-- A reader of a table yields the entries of the table, one with each `advance`.
use native.Mathlib.Nat.{zero-add, suc-add}
use k_lsm_engine.Prelude.{
  ℕ, zero, suc, ◌+◌, ◌-◌, ◌*◌, ◌≤◌, ◌<◌, ◌≡◌, ◌⊎◌, inl, inr, refl, sym, ap, ◌∙◌, true, false, none,
  some, List, [], ◌∷◌, map, length, drop-all, length-take, get_elem?, drop, take, window, arith,
  ltb, Bool-cases, Bytes, ok,
}
use k_lsm_engine.Entry.{SstableEntry}
use k_lsm_engine.Table.{BlockBasedTable, block_count}
use k_lsm_engine.Table.Block.{stored}
use k_lsm_engine.Table.Order.{length-map}
use k_lsm_engine.Table.Open.{Holds}
use k_lsm_engine.SkipList.Link.{get_elem?_below}
use k_lsm_engine.Compaction.{
  SstableReader, new_sstable_reader, advance, advance_loop, load, yield_entry,
}

-- Each call of `advance` succeeds: it goes on to the next of the entries, and after the last one
-- there is no next entry.
abbrev pub Yields : SstableReader → List SstableEntry → Type 0
Yields r [] = (r' : SstableReader) × (advance r ≡ ok r') × (r'.has_next ≡ false)
Yields r (e ∷ es) =
    (r' : SstableReader) × (advance r ≡ ok r')
    × (r'.has_next ≡ true)
    × (r'.entry ≡ some e)
    × Yields r' es

get_elem?-take {ℓ} :
    {A : Type ℓ} (xs : List A) (n k : ℕ) → k < n → get_elem? (take n xs) k ≡ get_elem? xs k
get_elem?-take xs zero k h = absurd (omega arith)
get_elem?-take [] (suc n) k h = refl
get_elem?-take (x ∷ xs) (suc n) zero h = refl
get_elem?-take (x ∷ xs) (suc n) (suc k) h = get_elem?-take xs n k (omega arith)

get_elem?-drop {ℓ} :
    {A : Type ℓ} (xs : List A) (off k : ℕ) → get_elem? (drop off xs) k ≡ get_elem? xs (off + k)
get_elem?-drop xs zero k = rw zero-add
get_elem?-drop [] (suc off) k = refl
get_elem?-drop (x ∷ xs) (suc off) k = rw suc-add (get_elem?-drop xs off k)

drop-get_elem? {ℓ} :
    {A : Type ℓ} (xs : List A) (i : ℕ) (x : A)
    → get_elem? xs i ≡ some x
    → drop i xs ≡ x ∷ drop (suc i) xs
drop-get_elem? [] i x h = cc
drop-get_elem? (y ∷ xs) zero x h = cc
drop-get_elem? (y ∷ xs) (suc i) x h = drop-get_elem? xs i x h

get_elem?-beyond {ℓ} : {A : Type ℓ} (xs : List A) (i : ℕ) → length xs ≤ i → get_elem? xs i ≡ none
get_elem?-beyond [] i h = refl
get_elem?-beyond (x ∷ xs) zero h = absurd (omega arith)
get_elem?-beyond (x ∷ xs) (suc i) h = get_elem?-beyond xs i (omega arith)

module _ (es : List SstableEntry) (file : Bytes) (t : BlockBasedTable)
    (holds : Holds es file t) where
  -- The reader stands at the entry k of the block b, which it has read unless k is 0.
  record IsAt (r : SstableReader) (b k : ℕ) : Type 0 where
    table : r.table ≡ t
    block : r.block ≡ b
    loaded :
        ((r.entries ≡ none) × (k ≡ 0))
        ⊎ ((r.entries ≡ some (window (map stored es) (b * 31) 31))
            × (r.entry_at ≡ k)
            × (b < block_count es))

  IsAt-entries :
      (r : SstableReader) (b k : ℕ)
      → IsAt r b k
      → b < block_count es
      → (r' : SstableReader) × (load r r.entries ≡ ok (window (map stored es) (b * 31) 31, r'))
        × (r'.entry_at ≡ k)
        × (r'.table ≡ t)
        × (r'.block ≡ b)
        × (r'.entries ≡ some (window (map stored es) (b * 31) 31))
  unfolding load
  IsAt-entries r b k a lt = elim a.loaded [
    | inl fresh ↦ (
      record r { entries = some (window (map stored es) (b * 31) 31); entry_at = 0 },
      rw (fresh.0, a.table, a.block, holds.block b lt),
      sym fresh.1,
      a.table,
      a.block,
      refl,
    )
    | inr kept ↦ (r, rw kept.0, kept.1, a.table, a.block, kept.0)
  ]

  -- The end: no block is left.
  advance_loop_end :
      (r : SstableReader)
      → (r' : SstableReader) × (advance_loop 0 r ≡ ok r') × (r'.has_next ≡ false)
  unfolding advance_loop
  advance_loop_end r = (record r { has_next = false }, refl, refl)

  -- An entry of the block is left.
  advance_loop_entry :
      (left : ℕ) (r : SstableReader) (b k : ℕ) (x : SstableEntry)
      → IsAt r b k
      → b < block_count es
      → get_elem? (window (map stored es) (b * 31) 31) k ≡ some x
      → (r' : SstableReader) × (advance_loop (suc left) r ≡ ok r')
        × (r'.has_next ≡ true)
        × (r'.entry ≡ some x)
        × IsAt r' b (k + 1)
  unfolding advance_loop yield_entry
  advance_loop_entry left r b k x a lt here =
      let (r₁, loads, at, table, block, entries) = IsAt-entries r b k a lt in
      let here' : get_elem? (window (map stored es) (b * 31) 31) r₁.entry_at ≡ some x =
        rw at here in
      (
        record r₁ { entry = some x; entry_at = r₁.entry_at + 1; has_next = true },
        rw (loads, here'),
        refl,
        refl,
        record { table = table; block = block; loaded = inr (entries, rw at, lt) },
      )

  -- The block has no entry left.
  advance_loop_next :
      (left : ℕ) (r : SstableReader) (b k : ℕ)
      → IsAt r b k
      → b < block_count es
      → get_elem? (window (map stored es) (b * 31) 31) k ≡ none
      → (r' : SstableReader) × (advance_loop (suc left) r ≡ advance_loop left r')
        × IsAt r' (b + 1) 0
  unfolding advance_loop yield_entry
  advance_loop_next left r b k a lt gone =
      let (r₁, loads, at, table, block, entries) = IsAt-entries r b k a lt in
      (
        record r₁ { block = r₁.block + 1; entries = none },
        rw (loads, at, gone),
        record { table = table; block = rw block; loaded = inl (refl, refl) },
      )

  window_at :
      (b k : ℕ)
      → k < 31
      → get_elem? (window (map stored es) (b * 31) 31) k ≡ get_elem? (map stored es) (b * 31 + k)
  window_at b k h =
      get_elem?-take (drop (b * 31) (map stored es)) 31 k h
      ∙ get_elem?-drop (map stored es) (b * 31) k

  window_beyond : (b : ℕ) → get_elem? (window (map stored es) (b * 31) 31) 31 ≡ none
  window_beyond b =
      get_elem?-beyond (window (map stored es) (b * 31) 31) 31
        (omega (arith, length-take 31 (drop (b * 31) (map stored es))))

  rounds :
      (r : SstableReader) (b k left : ℕ)
      → IsAt r b k
      → block_count es ≡ b + left
      → advance r ≡ advance_loop left r
  unfolding advance
  rounds r b k left a e =
      let count : length r.table.index - r.block ≡ left =
        rw (a.table, a.block, holds.blocks) (omega arith) in
      rw count

  -- Behind the last entry there is none, also where the block is full.
  advance_end :
      (r : SstableReader) (b k : ℕ)
      → IsAt r b k
      → k ≤ 31
      → b ≤ block_count es
      → b * 31 + k ≡ length (map stored es)
      → (r' : SstableReader) × (advance r ≡ ok r') × (r'.has_next ≡ false)
  advance_end r b k a small le e = elim (Bool-cases (ltb b (block_count es))) [
    | inr past ↦
        let (r', ends, stop) = advance_loop_end r in
        (r', rounds r b k 0 a (ground arith) ∙ ends, stop)
    | inl within ↦
        let gone : get_elem? (window (map stored es) (b * 31) 31) k ≡ none =
          elim (Bool-cases (ltb k 31)) [
            | inl inside ↦
                window_at b k (ground arith)
                ∙ get_elem?-beyond (map stored es) (b * 31 + k) (omega arith)
            | inr full ↦ let e' : k ≡ 31 = ground arith in rw e' (window_beyond b)
          ] in
        let (r₁, goes, _) = advance_loop_next 0 r b k a (ground arith) gone in
        let (r', ends, stop) = advance_loop_end r₁ in
        (r', rounds r b k 1 a (ground (arith, length-map stored es)) ∙ goes ∙ ends, stop)
  ]

  -- What `advance` comes to.
  record IsAdvanced (r : SstableReader) (i : ℕ) (x : SstableEntry) : Type 0 where
    to : SstableReader
    runs : advance r ≡ ok to
    has_next : to.has_next ≡ true
    entry : to.entry ≡ some x
    b : ℕ
    k : ℕ
    at : IsAt to b k
    small : k ≤ 31
    within : b < block_count es
    next : b * 31 + k ≡ suc i

  advance_entry :
      (r : SstableReader) (b k : ℕ) (x : SstableEntry)
      → IsAt r b k
      → k ≤ 31
      → b ≤ block_count es
      → b * 31 + k < length (map stored es)
      → get_elem? (map stored es) (b * 31 + k) ≡ some x
      → IsAdvanced r (b * 31 + k) x
  advance_entry r b k x a small le lt here = elim (Bool-cases (ltb k 31)) [
    | inl inside ↦
        let within : b < block_count es = ground (arith, length-map stored es) in
        let left = block_count es - b - 1 in
        let (r', goes, has_next, entry, at) =
          advance_loop_entry left r b k x a within (window_at b k (ground arith) ∙ here) in
        record {
          to = r';
          runs = rounds r b k (suc left) a (omega arith) ∙ goes;
          has_next = has_next;
          entry = entry;
          b = b;
          k = k + 1;
          at = at;
          small = ground arith;
          within = within;
          next = omega arith;
        }
    | inr full ↦
        let e : k ≡ 31 = ground arith in
        let within : suc b < block_count es = omega (arith, length-map stored es) in
        let left = block_count es - b - 2 in
        let (r₁, on, at₁) =
          advance_loop_next (suc left) r b k a (omega arith) (rw e (window_beyond b)) in
        let same : (b + 1) * 31 + 0 ≡ b * 31 + k = omega arith in
        let (r', goes, has_next, entry, at) =
          advance_loop_entry left r₁ (b + 1) 0 x at₁ (omega arith)
            (window_at (b + 1) 0 (omega arith) ∙ (rw same here)) in
        record {
          to = r';
          runs = rounds r b k (suc (suc left)) a (omega arith) ∙ on ∙ goes;
          has_next = has_next;
          entry = entry;
          b = b + 1;
          k = 0 + 1;
          at = at;
          small = omega arith;
          within = omega arith;
          next = omega arith;
        }
  ]

  advance-Yields :
      (n i : ℕ) (r : SstableReader) (b k : ℕ)
      → IsAt r b k
      → k ≤ 31
      → b ≤ block_count es
      → b * 31 + k ≡ i
      → i + n ≡ length (map stored es)
      → Yields r (drop i (map stored es))
  advance-Yields zero i r b k a small le at e =
      rw (drop-all i (map stored es) (omega arith)) (advance_end r b k a small le (omega arith))
  advance-Yields (suc n) i r b k a small le at e =
      let (x, here) = get_elem?_below (map stored es) i (omega arith) in
      let s = advance_entry r b k x a small le (omega arith) (rw at here) in
      rw (drop-get_elem? (map stored es) i x here) (
        s.to,
        s.runs,
        s.has_next,
        s.entry,
        advance-Yields n (suc i) s.to s.b s.k s.at s.small (omega (arith, s.within))
            (s.next ∙ ap suc at) (omega arith),
      )

-- The reader of a file that holds entries yields them all, in their order and as they are stored,
-- and then has no next entry; it fails at none of them.
pub new_sstable_reader-Yields :
    (es : List SstableEntry) (file : Bytes) (t : BlockBasedTable)
    → Holds es file t
    → (r : SstableReader) × (new_sstable_reader file ≡ ok r) × Yields r (map stored es)
unfolding new_sstable_reader
new_sstable_reader-Yields es file t h =
    let r : SstableReader = record {
      table = t;
      block = 0;
      entries = none;
      entry_at = 0;
      entry = none;
      has_next = false;
    } in
    (
      r,
      rw h.opens,
      advance-Yields es file t h (length (map stored es)) 0 r 0 0
          (record { table = refl; block = refl; loaded = inl (refl, refl) }) (omega arith)
          (omega arith) (omega arith) (omega arith),
    )
