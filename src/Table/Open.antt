-- ===== src/Table/Open.antt =====
-- A table that was written opens, and answers every key as a lookup through its entries does.
use mathlib.Core.Path.{subst}
use native.Mathlib.Decide.{ℕ_discrete}
use native.Mathlib.Nat.{zero-add}
use k_lsm_engine.Prelude.{
  ℕ, zero, suc, ◌+◌, ◌-◌, ◌*◌, ◌%◌, ◌≤◌, ◌<◌, ◌≡◌, refl, sym, ap, ◌∙◌, inl, inr, Bool, true, false,
  none, List, [], ◌++◌, map, length, get_or, take, drop, replicate, window, arith, Bytes, str_eq,
  str_lt, ok, length-append, length-replicate, length-drop, window-append_below, take-all,
  drop-drop, lt→ltb, copy_full, length-window, drop-append_above, le→ltb, ==_iff, get_or_of_take,
  str_lt_trans, str_lt_le_trans,
}
use k_lsm_engine.Std.Search.{IsMonotone, IsFirst, sort_search-IsFirst}
use k_lsm_engine.Entry.{SstableEntry}
use k_lsm_engine.Table.{
  not_above, key_at, BlockBasedTable, read_at, block_count, sstable_max_entries,
  write_block_based_table, open_block_based_table, read_block, get_from, get,
}
use k_lsm_engine.Table.Block.{IsTable, stored}
use k_lsm_engine.Table.Order.{
  Rises, IsTable-Rises, IsTable-take, IsTable-drop, find_entry, key_at-map-stored, map-window,
  length-map, Rises-map-stored,
}
use k_lsm_engine.Table.Find.{
  get_in_block_lem, find_entry-window, find_entry-none, str_ne_of_lt, str_ne_of_gt,
}
use k_lsm_engine.Table.Pages.{Pages}
use k_lsm_engine.Table.Index.{
  start_index, count_of_start, first_keys, length-first_keys, get_or-first_keys,
  read_index-first_keys, write_block_based_table-Pages,
}

module _ (es : List SstableEntry) (t : IsTable none es) (count : ℕ) (low : count ≤ 63)
    (within : (b : ℕ) → b < count → b * 31 < length es) (file index : Bytes)
    (p : Pages es count file index (start_index count)) where
  abbrev whole : Bytes
  whole = index ++ drop 4096 file

  abbrev table : BlockBasedTable
  table = record { file = whole; index = first_keys es 0 count }

  length-whole : length whole ≡ (count + 1) * 4096
  length-whole = omega (
    arith,
    length-append index (drop 4096 file),
    p.index_free.0,
    length-drop 4096 file,
    p.file_size,
  )

  read_index_block : read_at whole 0 4096 ≡ index
  unfolding read_at
  read_index_block =
      copy_full (replicate 4096 0) (take 4096 whole) (
        omega (
          arith,
          length-replicate {A = ℕ} 4096 0,
          length-window whole 0 4096 (omega (arith, length-whole)),
        ))
      ∙ window-append_below index (drop 4096 file) 0 4096 (omega (arith, p.index_free.0))
      ∙ take-all 4096 index (omega (arith, p.index_free.0))

  read_page :
      (b : ℕ) → b < count → read_at whole ((b + 1) * 4096) 4096 ≡ window file ((b + 1) * 4096) 4096
  unfolding read_at
  read_page b h =
      let at = (b + 1) * 4096 in
      copy_full (replicate 4096 0) (window whole at 4096) (
        omega (
          arith,
          length-replicate {A = ℕ} 4096 0,
          length-window whole at 4096 (omega (arith, length-whole)),
        ))
      ∙ ap (take 4096) (
          drop-append_above index (drop 4096 file) at (omega (arith, p.index_free.0))
          ∙ drop-drop (at - length index) 4096 file
          ∙ ap (λ (n : ℕ). drop n file) {x = 4096 + (at - length index)} {y = at}
              (omega (arith, p.index_free.0)))

  index_count : get_or index 0 0 ≡ count
  index_count =
      get_or_of_take 64 0 index (start_index count) 0 p.head (omega arith)
      ∙ count_of_start count low

  open-whole : open_block_based_table whole ≡ ok table
  unfolding open_block_based_table not_above
  open-whole = rw (
    read_index_block,
    index_count,
    length-whole,
    le→ltb 4096 ((count + 1) * 4096) (omega arith),
    (==_iff ((count + 1) * 4096 % 4096) 0).1 (omega arith),
    le→ltb count 63 low,
    (==_iff ((count + 1) * 4096) ((count + 1) * 4096)).1 refl,
    read_index-first_keys es t index count within p.keys 0 count none (zero-add count) (λ _. refl),
  )

  read_block-whole :
      (b : ℕ) → b < count → read_block table b ≡ ok (map stored (window es (b * 31) 31))
  unfolding read_block
  read_block-whole b h =
      rw (length-first_keys es 0 count, lt→ltb b count h, read_page b h) (p.pages b h)

  abbrev kept : List SstableEntry
  kept = map stored es

  kept-Rises : Rises kept
  kept-Rises = Rises-map-stored es (IsTable-Rises none es t)

  -- The test of the search in the index
  abbrev starts_above : Bytes → ℕ → Bool
  starts_above key b = str_lt key (get_or (first_keys es 0 count) b [])

  starts_above-key :
      (key : Bytes) (b : ℕ) → b < count → starts_above key b ≡ str_lt key (key_at kept (b * 31))
  starts_above-key key b h = ap (str_lt key) (
      get_or-first_keys es 0 count b h
      ∙ ap (λ (k : ℕ). key_at es (k * 31)) (zero-add b)
      ∙ sym (key_at-map-stored es (b * 31)))

  starts_above-IsMonotone : (key : Bytes) → IsMonotone count (starts_above key)
  starts_above-IsMonotone key a b le lt h = elim (ℕ_discrete a b) [
    | yes e ↦ subst (λ (k : ℕ). starts_above key k ≡ true) e h
    | no ne ↦
        starts_above-key key b lt
        ∙ str_lt_trans key (key_at kept (a * 31)) (key_at kept (b * 31))
            (sym (starts_above-key key a (omega arith)) ∙ h)
            (kept-Rises.lt (a * 31) (b * 31) (omega arith)
              (omega (arith, length-map stored es, within b lt)))
  ]

  module _ (covers : length es ≤ count * 31) (key : Bytes) where
    -- A block that begins above the key has no such key, nor have the blocks after it.
    above_ne :
        (b i : ℕ)
        → b < count
        → starts_above key b ≡ true
        → b * 31 ≤ i
        → i < length kept
        → str_eq (key_at kept i) key ≡ false
    above_ne b i lt h le inside =
        let above = sym (starts_above-key key b lt) ∙ h in
        str_ne_of_gt (key_at kept i) key (elim (ℕ_discrete (b * 31) i) [
          | yes e ↦ subst (λ (k : ℕ). str_lt key (key_at kept k) ≡ true) e above
          | no ne ↦
              str_lt_trans key (key_at kept (b * 31)) (key_at kept i) above
                (kept-Rises.lt (b * 31) i (omega arith) inside)
        ])

    -- What lies below the first key of a block that does not begin above the key
    below_ne :
        (b i : ℕ)
        → b < count
        → starts_above key b ≡ false
        → i < b * 31
        → str_eq (key_at kept i) key ≡ false
    below_ne b i lt h low_i = str_ne_of_lt (key_at kept i) key (
        str_lt_le_trans (key_at kept i) (key_at kept (b * 31)) key
          (kept-Rises.lt i (b * 31) low_i (omega (arith, length-map stored es, within b lt)))
          (sym (starts_above-key key b lt) ∙ h))

    get_from-find :
        (r : ℕ)
        → IsFirst count (starts_above key) r
        → get_from table key r ≡ ok (find_entry key kept)
    unfolding get_from
    get_from-find zero f = ap ok (
        sym (
          find_entry-none key kept (λ i inside.
            let some_block : 0 < count = omega (arith, length-map stored es) in
            above_ne 0 i some_block (f.at some_block) (omega arith) inside)))
    get_from-find (suc b) f =
        let window_Rises : Rises (map stored (window es (b * 31) 31)) =
          Rises-map-stored _
            (IsTable-Rises none _ (IsTable-take none 31 _ (IsTable-drop none (b * 31) es t))) in
        rw (read_block-whole b f.le) (
          ap ok (
            get_in_block_lem key _ window_Rises
            ∙ ap (find_entry key) (map-window stored es (b * 31) 31)
            ∙ sym (
                find_entry-window key kept (b * 31) 31 (λ i inside. elim [
                  | inl low_i ↦ below_ne b i f.le (f.below b (omega arith)) low_i
                  | inr high_i ↦
                      let next : suc b < count = omega (arith, length-map stored es) in
                      above_ne (suc b) i next (f.at next) (omega arith) inside
                ]))))

    get-whole : get table key ≡ ok (find_entry key kept)
    unfolding get
    get-whole =
        rw (length-first_keys es 0 count)
          (get_from-find _ (sort_search-IsFirst count _ (starts_above-IsMonotone key)))

-- A file that holds the entries `es`: it opens, its blocks are `es` by 31, and it answers each key
-- as a lookup through `es` does.
pub record Holds (es : List SstableEntry) (file : Bytes) (t : BlockBasedTable) : Type 0 where
  pub opens : open_block_based_table file ≡ ok t
  pub blocks : length t.index ≡ block_count es
  pub block :
      (b : ℕ) → b < block_count es → read_block t b ≡ ok (window (map stored es) (b * 31) 31)
  pub answers : (key : Bytes) → get t key ≡ ok (find_entry key (map stored es))

-- Entries with strictly rising keys that fit their fields, 1953 of them at most, are written, and
-- the file opens and holds exactly them: each block reads back, and a lookup of any key, present or
-- not, answers with the entry that was written (a delete without its value).
pub write_block_based_table-Holds :
    (es : List SstableEntry)
    → IsTable none es
    → length es ≤ sstable_max_entries
    → (file : Bytes) × (t : BlockBasedTable) × (write_block_based_table es ≡ ok file)
      × Holds es file t
write_block_based_table-Holds es t room =
    let count = block_count es in
    let (file, index, written, p) = write_block_based_table-Pages es t room in
    let low : count ≤ 63 = omega arith in
    let within : (b : ℕ) → b < count → b * 31 < length es = λ b h. omega arith in
    (
      whole es t count low within file index p,
      table es t count low within file index p,
      written,
      record {
        opens = open-whole es t count low within file index p;
        blocks = length-first_keys es 0 count;
        block = λ b h.
            read_block-whole es t count low within file index p b h
            ∙ ap ok (map-window stored es (b * 31) 31);
        answers = get-whole es t count low within file index p (omega arith);
      },
    )
