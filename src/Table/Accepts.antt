-- ===== src/Table/Accepts.antt =====
-- What the writer refuses: only a table that could not be read back.
use mathlib.Core.Path.{subst}
use mathlib.Core.Bool.{false≢true}
use k_lsm_engine.Prelude.{
  ℕ, zero, suc, ◌+◌, ◌*◌, ◌≤◌, ◌<◌, ◌≡◌, sym, ap, ◌∙◌, ◌↔◌, true, not, Option, none, some, List, [],
  ◌∷◌, ◌++◌, length, get_elem?, drop, window, All, checked, arith, ltb, ltb→le, Bytes, ok, guard,
  bind-inv, guard-eq-ok, take-append-drop, drop-drop, drop-all, Bool-cases, inl, inr, not-eq-false,
}
use k_lsm_engine.Entry.{EntryType, entry_type_put, entry_type_delete, other, SstableEntry}
use k_lsm_engine.Table.{
  not_above, write_padded_string, encode_value, encode_entries, encode_data_block, strictly_sorted,
  write_at, write_blocks, block_count, sstable_max_entries, write_block_based_table,
}
use k_lsm_engine.Table.Padded.{write_padded_string-inv}
use k_lsm_engine.Table.Block.{IsStorableValue, IsStorableEntry, IsTable}
use k_lsm_engine.Table.Pages.{window_to_end}
use k_lsm_engine.Table.Open.{write_block_based_table-Holds}

encode_value-inv :
    (block : Bytes) (off : ℕ) (type : EntryType) (v : Bytes) {b : Bytes}
    → encode_value block off type v ≡ ok b
    → IsStorableValue type v
unfolding encode_value
encode_value-inv block off entry_type_put v h = (write_padded_string-inv block off 64 v h).0
encode_value-inv block off entry_type_delete v h = tt
encode_value-inv block off (other t) v h = cc

encode_entries-inv :
    (block : Bytes) (i : ℕ) (before : Option Bytes) (es : List SstableEntry) {b : Bytes}
    → encode_entries block i before es ≡ ok b
    → All IsStorableEntry es
unfolding encode_entries
encode_entries-inv block i before [] h = tt
encode_entries-inv block i before (e ∷ es) h =
    let (_, _, h₁) = bind-inv (guard (not_above before e.k) _) _ h in
    let (keyed, k, h₂) = bind-inv (write_padded_string block _ _ e.k) _ h₁ in
    let (valued, v, h₃) = bind-inv (encode_value keyed _ e.type e.v) _ h₂ in
    (
      record {
        key = (write_padded_string-inv block _ 64 e.k k).0;
        value = encode_value-inv keyed _ e.type e.v v;
      },
      encode_entries-inv valued (i + 1) (some e.k) es h₃,
    )

encode_data_block-inv :
    (es : List SstableEntry) {b : Bytes} → encode_data_block es ≡ ok b → All IsStorableEntry es
unfolding encode_data_block
encode_data_block-inv es h =
    let (_, _, h₁) = bind-inv (guard (ltb 31 (length es)) _) _ h in
    let (block, encodes, _) = bind-inv (encode_entries _ 0 none es) _ h₁ in
    encode_entries-inv _ 0 none es encodes

All-append {ℓ κ} :
    {A : Type ℓ} (P : A → Type κ) (xs ys : List A) → All P xs → All P ys → All P (xs ++ ys)
All-append P [] ys h k = k
All-append P (x ∷ xs) ys h k = (h.0, All-append P xs ys h.1 k)

-- From the block `id` on, every entry was written.
write_blocks-inv :
    (left id : ℕ) (es : List SstableEntry) (file index : Bytes) {r : Bytes × Bytes}
    → length es ≤ (id + left) * 31
    → ((b : ℕ) → b < id + left → b * 31 < length es)
    → write_blocks left id es file index ≡ ok r
    → All IsStorableEntry (drop (id * 31) es)
unfolding write_blocks
write_blocks-inv zero id es file index covers within h = rw (drop-all (id * 31) es (omega arith)) tt
write_blocks-inv (suc left) id es file index covers within h =
    let (first, _, h₁) = bind-inv (checked (get_elem? es (id * 31))) _ h in
    let (index', _, h₂) = bind-inv (write_padded_string index _ _ first.k) _ h₁ in
    let (page, encodes, h₃) = bind-inv (encode_data_block _) _ h₂ in
    let inside : id * 31 < length es = within id (omega arith) in
    let here =
      subst (All IsStorableEntry) (window_to_end es (id * 31) 31 (omega arith))
        (encode_data_block-inv _ encodes) in
    let rest =
      write_blocks-inv left (id + 1) es (write_at file ((id + 1) * 4096) page) index' (omega arith)
        (λ b lt. within b (omega arith)) h₃ in
    let after : drop ((id + 1) * 31) es ≡ drop 31 (drop (id * 31) es) =
      ap (λ (n : ℕ). drop n es) {x = (id + 1) * 31} {y = id * 31 + 31} (omega arith)
      ∙ sym (drop-drop 31 (id * 31) es) in
    subst (All IsStorableEntry) (take-append-drop 31 (drop (id * 31) es)) (
      All-append IsStorableEntry (window es (id * 31) 31) _ here
        (subst (All IsStorableEntry) after rest))

IsTable-of_parts :
    (before : Option Bytes) (es : List SstableEntry)
    → strictly_sorted before es ≡ true
    → All IsStorableEntry es
    → IsTable before es
unfolding strictly_sorted
IsTable-of_parts before [] h k = tt
IsTable-of_parts before (e ∷ es) h k = elim (Bool-cases (not_above before e.k)) [
  | inl bad ↦ absurd (false≢true (rw bad at h))
  | inr good ↦ (good, k.0, IsTable-of_parts (some e.k) es (rw good at h) k.1)
]

write_block_based_table-inv :
    (es : List SstableEntry) {file : Bytes}
    → write_block_based_table es ≡ ok file
    → IsTable none es × (length es ≤ sstable_max_entries)
unfolding write_block_based_table
write_block_based_table-inv es h =
    let (_, small, h₁) = bind-inv (guard (ltb 1953 (length es)) _) _ h in
    let (_, sorted, h₂) = bind-inv (guard (not (strictly_sorted none es)) _) _ h₁ in
    let (r, loop, _) = bind-inv (write_blocks (block_count es) 0 es [] _) _ h₂ in
    let room = ltb→le (length es) 1953 (guard-eq-ok _ _ small) in
    let sorted' : strictly_sorted none es ≡ true = not-eq-false _ (guard-eq-ok _ _ sorted) in
    (
      IsTable-of_parts none es sorted'
          (write_blocks-inv (block_count es) 0 es [] _ (omega arith) (λ b lt. omega arith) loop),
      room,
    )

-- A table is written exactly when its keys rise strictly, every key and every value of a put has 1
-- to 64 bytes without a NUL, no entry has another type than PUT and DELETE, and there are at most
-- 1953 entries.
pub write_block_based_table_iff :
    (es : List SstableEntry)
    → ((file : Bytes) × (write_block_based_table es ≡ ok file))
      ↔ (IsTable none es × (length es ≤ sstable_max_entries))
write_block_based_table_iff es = (
  λ (file, h). write_block_based_table-inv es h,
  λ (t, room).
      let (file, _, written, _) = write_block_based_table-Holds es t room in (file, written),
)
