-- ===== src/Table/Index.antt =====
-- What the index block holds after the pages of a table are written.
use mathlib.Core.Path.{subst}
use native.Mathlib.Nat.{zero-add}
use k_lsm_engine.Prelude.{
  ℕ, zero, suc, ◌+◌, ◌*◌, ◌%◌, ◌≤◌, ◌<◌, ◌≡◌, refl, ap, ◌∙◌, true, false, Option, none, some, List,
  [], ◌∷◌, ◌++◌, length, get_or, drop, replicate, window, copy_at, arith, Bytes, str_lt, ok,
  length-replicate, le→ltb, get_or-copy_at, length-copy_at, drop-copy_at, drop-replicate,
}
use k_lsm_engine.Entry.{SstableEntry}
use k_lsm_engine.Table.{
  is_empty, not_above, empty_block, key_at, read_padded_string, read_index, block_count,
  strictly_sorted, write_block_based_table,
}
use k_lsm_engine.Table.Block.{IsTable, IsFree}
use k_lsm_engine.Table.Order.{IsTable-lt, IsTable-entry}
use k_lsm_engine.Table.Find.{get_elem?-some}
use k_lsm_engine.Table.Pages.{Pages, write_blocks-Pages, write_at-start}

pub strictly_sorted-IsTable :
    (before : Option Bytes) (es : List SstableEntry)
    → IsTable before es
    → strictly_sorted before es ≡ true
unfolding strictly_sorted
strictly_sorted-IsTable before [] h = refl
strictly_sorted-IsTable before (e ∷ es) h = rw h.0 (strictly_sorted-IsTable (some e.k) es h.2)

-- The index block before the loop: the count, and zeros.
pub start_index : ℕ → Bytes
start_index n = copy_at empty_block 0 (n % 256 ∷ [])

pub start_index-IsFree : (n : ℕ) → IsFree 64 (start_index n)
unfolding start_index empty_block
start_index-IsFree n = (
  length-copy_at (replicate 4096 0) 0 (n % 256 ∷ []) ∙ length-replicate {A = ℕ} 4096 0,
  drop-copy_at (replicate 4096 0) 0 64 (n % 256 ∷ []) (omega arith)
      ∙ drop-replicate {A = ℕ} 64 4096 0,
)

pub count_of_start : (n : ℕ) → n ≤ 63 → get_or (start_index n) 0 0 ≡ n
unfolding start_index empty_block
count_of_start n h =
    get_or-copy_at (replicate 4096 0) 0 (n % 256) [] 0 (rw length-replicate (omega arith))
    ∙ omega arith

-- The first keys of the blocks, from the block i on.
abbrev pub first_keys : List SstableEntry → ℕ → ℕ → List Bytes
first_keys es i zero = []
first_keys es i (suc left) = key_at es (i * 31) ∷ first_keys es (i + 1) left

pub length-first_keys : (es : List SstableEntry) (i left : ℕ) → length (first_keys es i left) ≡ left
length-first_keys es i zero = refl
length-first_keys es i (suc left) = ap suc (length-first_keys es (i + 1) left)

pub get_or-first_keys :
    (es : List SstableEntry) (i left b : ℕ)
    → b < left
    → get_or (first_keys es i left) b [] ≡ key_at es ((i + b) * 31)
get_or-first_keys es i zero b h = absurd (omega arith)
get_or-first_keys es i (suc left) zero h = ap (λ (k : ℕ). key_at es (k * 31)) (omega arith)
get_or-first_keys es i (suc left) (suc b) h =
    get_or-first_keys es (i + 1) left b (omega arith)
    ∙ ap (λ (k : ℕ). key_at es (k * 31)) {x = i + 1 + b} {y = i + suc b} (omega arith)

pub not_above_of_lt : (a b : Bytes) → str_lt a b ≡ true → not_above (some a) b ≡ false
unfolding not_above
not_above_of_lt a b h = rw h

module _ (es : List SstableEntry) (t : IsTable none es) (index : Bytes) (count : ℕ)
    (within : (b : ℕ) → b < count → b * 31 < length es)
    (keys : (b : ℕ)
      → b < count
      → read_padded_string (window index (64 + b * 64) 64) ≡ key_at es (b * 31)) where
  pub first_filled : (b : ℕ) → b < count → is_empty (key_at es (b * 31)) ≡ false
  first_filled b h =
      let (e, at, same) = get_elem?-some es (b * 31) (within b h) in
      ap (is_empty {A = ℕ}) same ∙ (IsTable-entry none es (b * 31) t at).key.filled

  pub read_index-first_keys :
      (i left : ℕ) (before : Option Bytes)
      → i + left ≡ count
      → (0 < left → not_above before (key_at es (i * 31)) ≡ false)
      → read_index index i left before ≡ ok (first_keys es i left)
  unfolding read_index
  read_index-first_keys i zero before e h = refl
  read_index-first_keys i (suc left) before e h =
      let rises : 0 < left
          → not_above (some (key_at es (i * 31))) (key_at es ((i + 1) * 31)) ≡ false =
        λ more. not_above_of_lt _ _ (
          IsTable-lt none es (i * 31) ((i + 1) * 31) t (omega arith)
            (within (i + 1) (omega arith))) in
      rw (
        keys i (omega arith),
        first_filled i (omega arith),
        h (omega arith),
        read_index-first_keys (i + 1) left (some (key_at es (i * 31))) (omega arith) rises,
      )

pub start_Pages : (es : List SstableEntry) (n : ℕ) → Pages es 0 [] (start_index n) (start_index n)
start_Pages es n = record {
  file_size = omega arith;
  pages = λ b h. absurd (omega arith);
  index_free = start_index-IsFree n;
  keys = λ b h. absurd (omega arith);
  head = refl;
}

-- The file is the index block and the pages.
pub write_block_based_table-Pages :
    (es : List SstableEntry)
    → IsTable none es
    → length es ≤ 1953
    → (file : Bytes) × (index : Bytes) × (write_block_based_table es ≡ ok (index ++ drop 4096 file))
      × Pages es (block_count es) file index (start_index (block_count es))
unfolding write_block_based_table start_index
write_block_based_table-Pages es t room =
    let count = block_count es in
    let (file, index, loop, p) =
      write_blocks-Pages count 0 es [] (start_index count) (start_index count) t (omega arith)
        (λ b h. omega arith) (start_Pages es count) in
    (
      file,
      index,
      rw (
        le→ltb (length es) 1953 room,
        strictly_sorted-IsTable none es t,
        loop,
        write_at-start file index,
        p.index_free.0,
      ),
      subst (λ (k : ℕ). Pages es k file index (start_index count)) (zero-add count) p,
    )
