-- ===== src/Table/Pages.antt =====
-- The loop of `writeBlockBasedTable`: one page and one key of the index for each block.
use native.Mathlib.Nat.{zero-add, add-zero}
use native.Mathlib.Decide.{ℕ_discrete}
use mathlib.Core.Path.{subst, subst⁻¹}
use k_lsm_engine.Prelude.{
  append-nil, ℕ, zero, suc, ◌+◌, ◌-◌, ◌*◌, ◌≤◌, ◌<◌, min, ◌≡◌, refl, sym, ap, ◌∙◌, none, List, ◌++◌,
  map, length, take, drop, replicate, window, copy_at, arith, Bytes, ok, length-append,
  length-replicate, length-drop, take-all, drop-all, take-copy_at, window-append_below,
  drop-append_above, take-min, length-take, window-copy_at_below,
}
use k_lsm_engine.Entry.{SstableEntry}
use k_lsm_engine.Table.{key_at, read_padded_string, decode_data_block, write_at, write_blocks}
use k_lsm_engine.Table.Padded.{IsStorable, write_padded_string-ok, field-read_back}
use k_lsm_engine.Table.Block.{IsTable, stored, IsFree, IsFree-after, decode-encode_data_block}
use k_lsm_engine.Table.Find.{get_elem?-some}
use k_lsm_engine.Table.Order.{IsTable-drop, IsTable-take, IsTable-entry}

-- A write at or past the end of the file fills the gap with zeros.
write_at-end :
    (file : Bytes) (off : ℕ) (bytes : Bytes)
    → length file ≤ off
    → write_at file off bytes ≡ (file ++ replicate (off - length file) 0) ++ bytes
unfolding write_at
write_at-end file off bytes h =
    let padded = file ++ replicate (off - length file) 0 in
    rw (
      take-all off padded (
          omega (
            arith,
            length-append file (replicate (off - length file) 0),
            length-replicate {A = ℕ} (off - length file) 0,
          )),
      drop-all (off + length bytes) file (omega arith),
      append-nil,
    )

pub write_at-start :
    (file bytes : Bytes) → write_at file 0 bytes ≡ bytes ++ drop (length bytes) file
unfolding write_at
write_at-start file bytes = rw zero-add

pub record Pages (es : List SstableEntry) (id : ℕ) (file index index₀ : Bytes) : Type 0 where
  pub file_size : length file - 4096 ≡ id * 4096
  pub pages :
      (b : ℕ)
      → b < id
      → decode_data_block (window file ((b + 1) * 4096) 4096)
        ≡ ok (map stored (window es (b * 31) 31))
  pub index_free : IsFree (64 + id * 64) index
  pub keys :
      (b : ℕ) → b < id → read_padded_string (window index (64 + b * 64) 64) ≡ key_at es (b * 31)
  pub head : take 64 index ≡ take 64 index₀

IsStorable-weaken : (m n : ℕ) (s : Bytes) → m ≤ n → IsStorable m s → IsStorable n s
IsStorable-weaken m n s le h = record { filled = h.filled; fits = omega arith; no_nul = h.no_nul }

-- The end that the source computes, `min(start+31, len(entries))`, cuts the same block.
pub window_to_end :
    (es : List SstableEntry) (start n : ℕ)
    → start ≤ length es
    → window es start (min (start + n) (length es) - start) ≡ window es start n
window_to_end es start n h =
    let rest = drop start es in
    let e : min (start + n) (length es) - start ≡ min n (length rest) =
      omega (arith, length-drop start es) in
    ap (λ (k : ℕ). take k rest) e ∙ take-min n rest

module _ (es : List SstableEntry) (id : ℕ) (file index index₀ : Bytes)
    (p : Pages es id file index index₀) (page : Bytes) (key : Bytes) (size : length page ≡ 4096)
    (decodes : decode_data_block page ≡ ok (map stored (window es (id * 31) 31)))
    (storable : IsStorable 64 key) (at_key : key_at es (id * 31) ≡ key) (low : id < 63) where
  abbrev off : ℕ
  off = (id + 1) * 4096

  abbrev padded : Bytes
  padded = file ++ replicate (off - length file) 0

  abbrev at : ℕ
  at = 64 + id * 64

  padded_size : length padded ≡ off
  padded_size = omega (
    arith,
    p.file_size,
    length-append file (replicate (off - length file) 0),
    length-replicate {A = ℕ} (off - length file) 0,
  )

  file_after : write_at file off page ≡ padded ++ page
  file_after = write_at-end file off page (omega (arith, p.file_size))

  page_kept :
      (b : ℕ)
      → b < id
      → window (padded ++ page) ((b + 1) * 4096) 4096 ≡ window file ((b + 1) * 4096) 4096
  page_kept b lt =
      window-append_below padded page ((b + 1) * 4096) 4096 (omega (arith, padded_size))
      ∙ window-append_below file _ ((b + 1) * 4096) 4096 (omega (arith, p.file_size))

  page_added : window (padded ++ page) off 4096 ≡ page
  page_added =
      ap (take 4096) (
        drop-append_above padded page off (omega (arith, padded_size))
        ∙ ap (λ (n : ℕ). drop n page) {x = off - length padded} {y = 0}
            (omega (arith, padded_size)))
      ∙ take-all 4096 page (omega (arith, size))

  pages_after :
      (b : ℕ)
      → b < id + 1
      → decode_data_block (window (padded ++ page) ((b + 1) * 4096) 4096)
        ≡ ok (map stored (window es (b * 31) 31))
  pages_after b lt = elim (ℕ_discrete b id) [
    | yes e ↦
        subst⁻¹
          (λ (k : ℕ).
            decode_data_block (window (padded ++ page) ((k + 1) * 4096) 4096)
            ≡ ok (map stored (window es (k * 31) 31)))
          e (ap decode_data_block page_added ∙ decodes)
    | no ne ↦ ap decode_data_block (page_kept b (omega arith)) ∙ p.pages b (omega arith)
  ]

  key_added : read_padded_string (window (copy_at index at key) at 64) ≡ key
  key_added = (field-read_back index at (4096 - at) 64 p.index_free.1 (omega arith) key storable).0

  keys_after :
      (b : ℕ)
      → b < id + 1
      → read_padded_string (window (copy_at index at key) (64 + b * 64) 64) ≡ key_at es (b * 31)
  keys_after b lt = elim (ℕ_discrete b id) [
    | yes e ↦
        subst⁻¹
          (λ (k : ℕ).
            read_padded_string (window (copy_at index at key) (64 + k * 64) 64)
            ≡ key_at es (k * 31))
          e (key_added ∙ sym at_key)
    | no ne ↦
        ap read_padded_string (window-copy_at_below index at (64 + b * 64) 64 key (omega arith))
        ∙ p.keys b (omega arith)
  ]

  IsFree-next : IsFree (64 + (id + 1) * 64) (copy_at index at key)
  IsFree-next =
      subst (λ (k : ℕ). IsFree k (copy_at index at key)) {x = at + 64} {y = 64 + (id + 1) * 64}
        (omega arith) (IsFree-after index key at p.index_free storable.fits)

  Pages-step : Pages es (id + 1) (write_at file off page) (copy_at index at key) index₀
  Pages-step = rw file_after (record {
    file_size = omega (arith, p.file_size, length-append padded page, padded_size, size);
    pages = pages_after;
    index_free = IsFree-next;
    keys = keys_after;
    head = take-copy_at index at 64 key (omega arith) ∙ p.head;
  })

-- With at most 63 blocks of a table to write, the loop writes them all.
pub write_blocks-Pages :
    (left id : ℕ) (es : List SstableEntry) (file index index₀ : Bytes)
    → IsTable none es
    → id + left ≤ 63
    → ((b : ℕ) → b < id + left → b * 31 < length es)
    → Pages es id file index index₀
    → (file' : Bytes) × (index' : Bytes) × (write_blocks left id es file index ≡ ok (file', index'))
      × Pages es (id + left) file' index' index₀
unfolding write_blocks
write_blocks-Pages zero id es file index index₀ t room more p = (file, index, refl, rw add-zero p)
write_blocks-Pages (suc left) id es file index index₀ t room more p =
    let inside : id * 31 < length es = more id (omega arith) in
    let (first, found, at_key) = get_elem?-some es (id * 31) inside in
    let entry = IsTable-entry none es (id * 31) t found in
    let (page, encodes, size, decodes) =
      decode-encode_data_block (window es (id * 31) 31)
        (omega (arith, length-take 31 (drop (id * 31) es)))
        (IsTable-take none 31 (drop (id * 31) es) (IsTable-drop none (id * 31) es t)) in
    let (file', index', written, p') =
      write_blocks-Pages left (id + 1) es (write_at file ((id + 1) * 4096) page)
        (copy_at index (64 + id * 64) first.k) index₀ t (omega arith) (λ b h. more b (omega arith))
        (Pages-step es id file index index₀ p page first.k size decodes entry.key at_key
          (omega arith)) in
    (
      file',
      index',
      rw
          (
            found,
            write_padded_string-ok index (64 + id * 64) (4096 - (64 + id * 64)) first.k
                (IsStorable-weaken 64 _ first.k (omega arith) entry.key),
            window_to_end es (id * 31) 31 (omega arith),
            encodes,
          )
          written,
      subst (λ (k : ℕ). Pages es k file' index' index₀) {x = id + 1 + left} {y = id + suc left}
          (omega arith) p',
    )
