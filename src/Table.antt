-- ===== src/Table.antt =====
-- internal/storage/block_based_table.go: the page-aligned table file. A file is the list of its
-- bytes. This module has the definitions; the modules below it prove what they promise.
pub mod Padded
pub mod Block
pub mod Order
pub mod Pages
pub mod Find
pub mod Index
pub mod Open
pub mod Accepts
mod Tests
use k_lsm_engine.Prelude.{
  ℕ, zero, suc, ◌+◌, ◌-◌, ◌*◌, ◌/◌, ◌%◌, min, Bool, true, false, ◌||◌, not, Option, none, some,
  List, [], ◌∷◌, ◌++◌, length, get_elem?, get_or, take, drop, replicate, window, copy, copy_at, ltb,
  ◌==◌, if◌then◌else◌, Bytes, str_eq, str_lt, str_le, Result, ok, err, checked, ◌>>=◌, ◌>>◌, guard,
  too_many_entries, not_sorted, empty_field, field_too_long, nul_byte, invalid_entry_type,
  not_page_aligned, invalid_block_count, invalid_index, block_out_of_range, crc_mismatch,
  invalid_entry_count, unsorted_entries,
}
use k_lsm_engine.Std.Search.{sort_search}
use k_lsm_engine.Std.Crc64.{checksum}
use k_lsm_engine.Std.LittleEndian.{put_le, get_le}
use k_lsm_engine.Entry.{
  EntryType, entry_type_put, entry_type_delete, other, StorageEntry, SstableEntry, storage_entry,
}

abbrev pub sstable_block_size : ℕ
sstable_block_size = 4096

abbrev pub sstable_index_capacity : ℕ
sstable_index_capacity = 63

abbrev pub sstable_data_block_entries : ℕ
sstable_data_block_entries = 31

abbrev pub sstable_key_value_size : ℕ
sstable_key_value_size = 64

abbrev pub sstable_data_header_size : ℕ
sstable_data_header_size = 128

abbrev pub sstable_max_entries : ℕ
sstable_max_entries = sstable_index_capacity * sstable_data_block_entries

-- `make([]byte, sstableBlockSize)`
pub empty_block : Bytes
empty_block = replicate sstable_block_size 0

-- A table that is open: its file, and the first key of each data block.
pub record BlockBasedTable : Type 0 where
  pub file : Bytes
  pub index : List Bytes

unfoldable pub is_empty {ℓ} : {A : Type ℓ} → List A → Bool
is_empty [] = true
is_empty (x ∷ xs) = false

-- `bytes.IndexByte(value, 0) >= 0`
unfoldable pub has_nul : Bytes → Bool
has_nul [] = false
has_nul (b ∷ bs) = b == 0 || has_nul bs

-- The slice `dst` is the n bytes of `block` from `off` on.
unfoldable pub write_padded_string : Bytes → ℕ → ℕ → Bytes → Result Bytes
unfolding is_empty has_nul
write_padded_string block off n value = do
  guard (is_empty value) empty_field
  guard (ltb n (length value)) field_too_long
  guard (has_nul value) nul_byte
  ok (copy_at block off value)

-- `bytes.TrimRight(src, "\x00")`
trim_cons : ℕ → Bytes → Bytes
trim_cons zero [] = []
trim_cons b bs = b ∷ bs

unfoldable pub read_padded_string : Bytes → Bytes
unfolding trim_cons
read_padded_string [] = []
read_padded_string (b ∷ bs) = trim_cons b (read_padded_string bs)

unfoldable pub all_zero : Bytes → Bool
all_zero [] = true
all_zero (b ∷ bs) = if b == 0 then all_zero bs else false

-- `i > 0 && entries[i-1].K >= key`, with the key before as an option
unfoldable pub not_above : Option Bytes → Bytes → Bool
not_above none key = false
not_above (some before) key = str_le key before

-- where the entry i of a data block begins
abbrev pub entry_offset : ℕ → ℕ
entry_offset i = sstable_data_header_size + i * 2 * sstable_key_value_size

pub encode_value : Bytes → ℕ → EntryType → Bytes → Result Bytes
encode_value block off entry_type_put v = write_padded_string block off sstable_key_value_size v
encode_value block off entry_type_delete v = ok block
encode_value block off (other t) v = err invalid_entry_type

-- the loop of `encodeDataBlock`, from the entry i on
pub encode_entries : Bytes → ℕ → Option Bytes → List SstableEntry → Result Bytes
encode_entries block i before [] = ok block
encode_entries block i before (entry ∷ rest) = do
  guard (not_above before entry.k) not_sorted
  keyed ← write_padded_string block (entry_offset i) sstable_key_value_size entry.k
  valued ← encode_value keyed (entry_offset i + sstable_key_value_size) entry.type entry.v
  encode_entries valued (i + 1) (some entry.k) rest

-- The checksum of `block[8:]` goes into the first eight bytes.
pub seal_block : Bytes → Bytes
seal_block block = copy_at block 0 (put_le 8 (checksum (drop 8 block)))

unfoldable pub encode_data_block : List SstableEntry → Result Bytes
unfolding encode_entries encode_value seal_block
encode_data_block entries = do
  guard (ltb sstable_data_block_entries (length entries)) too_many_entries
  block ← encode_entries (copy_at empty_block 8 (length entries % 256 ∷ [])) 0 none entries
  ok (seal_block block)

-- the check of `writeBlockBasedTable` that the keys rise
pub strictly_sorted : Option Bytes → List SstableEntry → Bool
strictly_sorted before [] = true
strictly_sorted before (entry ∷ rest) =
    if not_above before entry.k then false else strictly_sorted (some entry.k) rest

-- `f.WriteAt(bytes, off)`: a gap is filled with zeros
unfoldable pub write_at : Bytes → ℕ → Bytes → Bytes
write_at file off bytes =
    take off (file ++ replicate (off - length file) 0) ++ (bytes ++ drop (off + length bytes) file)

-- `ReadAt` into a fresh slice of n bytes; what lies past the end of the file stays zero
pub read_at : Bytes → ℕ → ℕ → Bytes
read_at file off n = copy (replicate n 0) (window file off n)

-- The loop over the blocks that are left. It returns the file and the index block.
pub write_blocks : ℕ → ℕ → List SstableEntry → Bytes → Bytes → Result (Bytes × Bytes)
write_blocks zero block_id entries file index_block = ok (file, index_block)
write_blocks (suc left) block_id entries file index_block =
    let start = block_id * sstable_data_block_entries in
    let end = min (start + sstable_data_block_entries) (length entries) in
    let at = 64 + block_id * sstable_key_value_size in
    do
      first ← checked (get_elem? entries start)
      index_block' ← write_padded_string index_block at (sstable_block_size - at) first.k
      data_block ← encode_data_block (window entries start (end - start))
      let file' = write_at file ((block_id + 1) * sstable_block_size) data_block
      write_blocks left (block_id + 1) entries file' index_block'

abbrev pub block_count : List SstableEntry → ℕ
block_count entries = (length entries + sstable_data_block_entries - 1) / sstable_data_block_entries

-- The file that `writeBlockBasedTable` writes into an empty one.
unfoldable pub write_block_based_table : List SstableEntry → Result Bytes
unfolding strictly_sorted write_blocks encode_data_block write_at write_padded_string
write_block_based_table entries = do
  guard (ltb sstable_max_entries (length entries)) too_many_entries
  guard (not (strictly_sorted none entries)) not_sorted
  let count = block_count entries
  let index_block = copy_at empty_block 0 (count % 256 ∷ [])
  (file, index_block') ← write_blocks count 0 entries [] index_block
  ok (write_at file 0 index_block')

-- the loop over the keys of the index that are left
pub read_index : Bytes → ℕ → ℕ → Option Bytes → Result (List Bytes)
read_index index_block i zero before = ok []
read_index index_block i (suc left) before =
    let at = 64 + i * sstable_key_value_size in
    let key = read_padded_string (window index_block at sstable_key_value_size) in
    do
      guard (is_empty key || not_above before key) invalid_index
      rest ← read_index index_block (i + 1) left (some key)
      ok (key ∷ rest)

unfoldable pub open_block_based_table : Bytes → Result BlockBasedTable
unfolding read_at read_index read_padded_string is_empty
open_block_based_table file = do
  let size = length file
  guard (ltb size sstable_block_size || not (size % sstable_block_size == 0)) not_page_aligned
  let index_block = read_at file 0 sstable_block_size
  let count = get_or index_block 0 0
  guard (ltb sstable_index_capacity count || not ((count + 1) * sstable_block_size == size))
      invalid_block_count
  index ← read_index index_block 0 count none
  ok (record { file = file; index = index })

pub decode_entry : Bytes → Bytes → SstableEntry
decode_entry key value_bytes =
    if all_zero value_bytes
    then record { k = key; v = []; type = entry_type_delete }
    else record { k = key; v = read_padded_string value_bytes; type = entry_type_put }

-- the loop of `readBlock`, over the entries that are left
pub decode_entries : Bytes → ℕ → ℕ → Option Bytes → Result (List SstableEntry)
decode_entries block j zero before = ok []
decode_entries block j (suc left) before =
    let offset = entry_offset j in
    let key = read_padded_string (window block offset sstable_key_value_size) in
    let value_bytes = window block (offset + sstable_key_value_size) sstable_key_value_size in
    do
      guard (is_empty key || not_above before key) unsorted_entries
      rest ← decode_entries block (j + 1) left (some key)
      ok (decode_entry key value_bytes ∷ rest)

-- what `readBlock` does with the page that it has read
unfoldable pub decode_data_block : Bytes → Result (List SstableEntry)
unfolding decode_entries decode_entry read_padded_string all_zero is_empty
decode_data_block block = do
  guard (not (get_le (take 8 block) == checksum (drop 8 block))) crc_mismatch
  let count = get_or block 8 0
  guard (ltb sstable_data_block_entries count) invalid_entry_count
  decode_entries block 0 count none

unfoldable pub read_block : BlockBasedTable → ℕ → Result (List SstableEntry)
unfolding decode_data_block read_at
read_block t i = do
  guard (not (ltb i (length t.index))) block_out_of_range
  decode_data_block (read_at t.file ((i + 1) * sstable_block_size) sstable_block_size)

pub key_of : Option SstableEntry → Bytes
key_of none = []
key_of (some e) = e.k

-- what `get` makes of the entry that the search in a block found
match_entry : Bytes → Option SstableEntry → Option StorageEntry
match_entry key none = none
match_entry key (some entry) = if str_eq entry.k key then some (storage_entry entry) else none

-- The key of the entry i, for the searches and for statements about the order of the keys.
abbrev pub key_at : List SstableEntry → ℕ → Bytes
key_at entries i = key_of (get_elem? entries i)

-- the search in one block
pub get_in_block : Bytes → List SstableEntry → Option StorageEntry
unfolding match_entry
get_in_block key entries =
    match_entry key
      (get_elem? entries (sort_search (length entries) (λ i. str_le key (key_at entries i))))

get_from : BlockBasedTable → Bytes → ℕ → Result (Option StorageEntry)
get_from t key zero = ok none
get_from t key (suc block_id) = do entries ← read_block t block_id; ok (get_in_block key entries)

-- `none` is the result with `found` false.
unfoldable pub get : BlockBasedTable → Bytes → Result (Option StorageEntry)
unfolding get_from get_in_block key_of read_block
get t key = get_from t key (sort_search (length t.index) (λ i. str_lt key (get_or t.index i [])))
