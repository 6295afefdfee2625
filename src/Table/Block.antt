-- ===== src/Table/Block.antt =====
-- Data blocks: what `encodeDataBlock` accepts, and that `readBlock` decodes it.
use mathlib.Core.Path.{subst, subst⁻¹}
use k_lsm_engine.Prelude.{
  ℕ, zero, suc, ◌+◌, ◌-◌, ◌%◌, ◌≤◌, ◌<◌, ◌≡◌, refl, sym, ap, ◌∙◌, false, Option, none, some, List,
  [], ◌∷◌, map, length, take, drop, replicate, window, copy_at, get_or, length-copy_at,
  length-replicate, drop-copy_at, drop-drop, drop-replicate, take-copy_at, window_of_take,
  take_of_take, drop_add, get_or_of_take, get_or_of_drop, get_or-copy_at, take-copy, copy_full,
  length-take, ==_iff, le→ltb, arith, Bytes, ok,
}
use k_lsm_engine.Std.Crc64.{checksum, checksum-lt}
use k_lsm_engine.Std.LittleEndian.{put_le, length-put_le, get_le-put_le}
use k_lsm_engine.Entry.{EntryType, entry_type_put, entry_type_delete, other, SstableEntry}
use k_lsm_engine.Table.{
  not_above, empty_block, entry_offset, read_padded_string, encode_value, encode_entries,
  encode_data_block, seal_block, decode_entry, decode_entries, decode_data_block,
}
use k_lsm_engine.Table.Padded.{
  IsStorable, write_padded_string-ok, window-zeros, field-read_back, all_zero-replicate,
}

-- What a table can hold for a key: a put with a value, or a delete.
abbrev pub IsStorableValue : EntryType → Bytes → Type 0
IsStorableValue entry_type_put v = IsStorable 64 v
IsStorableValue entry_type_delete v = Unit
IsStorableValue (other t) v = ⊥

pub record IsStorableEntry (e : SstableEntry) : Type 0 where
  pub key : IsStorable 64 e.k
  pub value : IsStorableValue e.type e.v

-- The keys rise strictly, and each entry is storable.
abbrev pub IsTable : Option Bytes → List SstableEntry → Type 0
IsTable before [] = Unit {0}
IsTable before (e ∷ es) = (not_above before e.k ≡ false) × IsStorableEntry e × IsTable (some e.k) es

-- The value of a delete is not stored.
unfoldable pub stored_value : EntryType → Bytes → Bytes
stored_value entry_type_delete v = []
stored_value t v = v

unfoldable pub stored : SstableEntry → SstableEntry
unfolding stored_value
stored e = record e { v = stored_value e.type e.v }

-- From the entry i on, the block is zero.
abbrev pub IsFree : ℕ → Bytes → Type 0
IsFree off block = (length block ≡ 4096) × (drop off block ≡ replicate (4096 - off) 0)

pub IsFree-after :
    (block s : Bytes) (off : ℕ)
    → IsFree off block
    → length s ≤ 64
    → IsFree (off + 64) (copy_at block off s)
IsFree-after block s off (size, zeros) h = (
  length-copy_at block off s ∙ size,
  drop-copy_at block off (off + 64) s (omega arith)
      ∙ sym (drop-drop 64 off block)
      ∙ ap (drop 64) zeros
      ∙ drop-replicate 64 (4096 - off) 0
      ∙ ap (λ (k : ℕ). replicate k 0) (omega arith),
)

IsFree-skip : (block : Bytes) (off : ℕ) → IsFree off block → IsFree (off + 64) block
IsFree-skip block off (size, zeros) = (
  size,
  sym (drop-drop 64 off block)
      ∙ ap (drop 64) zeros
      ∙ drop-replicate 64 (4096 - off) 0
      ∙ ap (λ (k : ℕ). replicate k 0) (omega arith),
)

-- The value field is written at `off`, reads back, and nothing below it changes.
record ValueWritten (key block : Bytes) (off : ℕ) (type : EntryType) (v b : Bytes) : Type 0 where
  written : encode_value block off type v ≡ ok b
  free : IsFree (off + 64) b
  kept : take off b ≡ take off block
  back :
      decode_entry key (window b off 64) ≡ record { k = key; v = stored_value type v; type = type }

encode_value-written :
    (key block : Bytes) (off : ℕ) (type : EntryType) (v : Bytes)
    → IsFree off block
    → off + 64 ≤ 4096
    → IsStorableValue type v
    → (b : Bytes) × ValueWritten key block off type v b
unfolding encode_value decode_entry stored_value
encode_value-written key block off entry_type_put v f room h =
    let (text, set) = field-read_back block off (4096 - off) 64 f.1 (omega arith) v h in
    (
      copy_at block off v,
      record {
        written = write_padded_string-ok block off 64 v h;
        free = IsFree-after block v off f h.fits;
        kept = take-copy_at block off off v (omega arith);
        back = rw (set, text);
      },
    )
encode_value-written key block off entry_type_delete v f room h = (
  block,
  record {
    written = refl;
    free = IsFree-skip block off f;
    kept = refl;
    back = rw (window-zeros block off (4096 - off) 64 f.1 (omega arith), all_zero-replicate 64);
  },
)
encode_value-written key block off (other t) v f room h = elim h [ ]

-- What the loop of `encodeDataBlock` makes of a block that is free from the entry i on.
record Encoded (block : Bytes) (i : ℕ) (before : Option Bytes) (es : List SstableEntry) (b : Bytes)
    : Type 0 where
  encoded : encode_entries block i before es ≡ ok b
  size : length b ≡ 4096
  kept : take (entry_offset i) b ≡ take (entry_offset i) block
  decoded : decode_entries b i (length es) before ≡ ok (map stored es)

next_offset : (i : ℕ) → entry_offset i + 64 + 64 ≡ entry_offset (i + 1)
next_offset i = omega arith

module _ (block valued b : Bytes) (i : ℕ) (before : Option Bytes) (e : SstableEntry)
    (es : List SstableEntry) (f : IsFree (entry_offset i) block)
    (rises : not_above before e.k ≡ false) (entry : IsStorableEntry e)
    (w : ValueWritten e.k
      (copy_at block (entry_offset i) e.k)
      (entry_offset i + 64)
      e.type
      e.v
      valued)
    (ih : Encoded valued (i + 1) (some e.k) es b) (room : i < 31) where
  abbrev off : ℕ
  off = entry_offset i

  kept_below : take (off + 64 + 64) b ≡ take (off + 64 + 64) valued
  kept_below = subst⁻¹ (λ (n : ℕ). take n b ≡ take n valued) (next_offset i) ih.kept

  key_back : read_padded_string (window b off 64) ≡ e.k
  key_back =
      ap read_padded_string (
        window_of_take (off + 64 + 64) off 64 b valued kept_below (omega arith)
        ∙ window_of_take (off + 64) off 64 valued (copy_at block off e.k) w.kept (omega arith))
      ∙ (field-read_back block off (4096 - off) 64 f.1 (omega arith) e.k entry.key).0

  value_back : decode_entry e.k (window b (off + 64) 64) ≡ stored e
  unfolding stored
  value_back =
      ap (decode_entry e.k)
        (window_of_take (off + 64 + 64) (off + 64) 64 b valued kept_below (omega arith))
      ∙ w.back

  encode_entries-step : Encoded block i before (e ∷ es) b
  unfolding encode_entries decode_entries
  encode_entries-step = record {
    encoded = rw (rises, write_padded_string-ok block off 64 e.k entry.key, w.written) ih.encoded;
    size = ih.size;
    kept =
        take_of_take (off + 64 + 64) off b valued kept_below (omega arith)
        ∙ take_of_take (off + 64) off valued (copy_at block off e.k) w.kept (omega arith)
        ∙ take-copy_at block off off e.k (omega arith);
    decoded = rw (key_back, value_back, entry.key.filled, rises, ih.decoded);
  }

encode_entries-Encoded :
    (block : Bytes) (i : ℕ) (before : Option Bytes) (es : List SstableEntry)
    → IsFree (entry_offset i) block
    → i + length es ≤ 31
    → IsTable before es
    → (b : Bytes) × Encoded block i before es b
unfolding encode_entries decode_entries
encode_entries-Encoded block i before [] f room h =
    (block, record { encoded = refl; size = f.0; kept = refl; decoded = refl })
encode_entries-Encoded block i before (e ∷ es) f room (rises, entry, rest) =
    let off = entry_offset i in
    let (valued, w) =
      encode_value-written e.k (copy_at block off e.k) (off + 64) e.type e.v
        (IsFree-after block e.k off f entry.key.fits) (omega arith) entry.value in
    let (b, ih) =
      encode_entries-Encoded valued (i + 1) (some e.k) es
        (subst (λ n. IsFree n valued) (next_offset i) w.free) (omega arith) rest in
    (b, encode_entries-step block valued b i before e es f rises entry w ih (omega arith))

-- The decoder reads the entries in the part of the block that the checksum covers.
decode_entries_of_drop :
    (a b : Bytes) (j left : ℕ) (before : Option Bytes)
    → drop 8 a ≡ drop 8 b
    → decode_entries a j left before ≡ decode_entries b j left before
unfolding decode_entries
decode_entries_of_drop a b j zero before h = refl
decode_entries_of_drop a b j (suc left) before h =
    let same : (n : ℕ) → 8 ≤ n → window a n 64 ≡ window b n 64 =
      λ n le. ap (take 64) (drop_add 8 n a b h le) in
    rw (
      same (entry_offset j) (omega arith),
      same (entry_offset j + 64) (omega arith),
      decode_entries_of_drop a b (j + 1) left
          (some (read_padded_string (window b (entry_offset j) 64))) h,
    )

take-seal : (b : Bytes) → length b ≡ 4096 → take 8 (seal_block b) ≡ put_le 8 (checksum (drop 8 b))
unfolding seal_block
take-seal b h =
    let sum = put_le 8 (checksum (drop 8 b)) in
    take-copy 8 b sum
    ∙ copy_full (take 8 b) sum
        (omega (arith, length-take 8 b, length-put_le 8 (checksum (drop 8 b))))

drop-seal : (b : Bytes) → drop 8 (seal_block b) ≡ drop 8 b
unfolding seal_block
drop-seal b = drop-copy_at b 0 8 _ (omega (arith, length-put_le 8 (checksum (drop 8 b))))

length-seal : (b : Bytes) → length (seal_block b) ≡ length b
unfolding seal_block
length-seal b = length-copy_at b 0 _

-- the block before the loop: the count, and zeros
start_block : ℕ → Bytes
start_block n = copy_at empty_block 8 (n % 256 ∷ [])

start_block-IsFree : (n : ℕ) → IsFree 128 (start_block n)
unfolding start_block empty_block
start_block-IsFree n = (
  length-copy_at (replicate 4096 0) 8 (n % 256 ∷ []) ∙ length-replicate {A = ℕ} 4096 0,
  drop-copy_at (replicate 4096 0) 8 128 (n % 256 ∷ []) (omega arith) ∙ drop-replicate 128 4096 0,
)

count_of_start : (n : ℕ) → n ≤ 31 → get_or (start_block n) 8 0 ≡ n
unfolding start_block empty_block
count_of_start n h =
    get_or-copy_at (replicate 4096 0) 8 (n % 256) [] 0 (rw length-replicate (omega arith))
    ∙ omega arith

seal_block-decodes :
    (es : List SstableEntry) (b : Bytes)
    → length es ≤ 31
    → Encoded (start_block (length es)) 0 none es b
    → decode_data_block (seal_block b) ≡ ok (map stored es)
unfolding decode_data_block
seal_block-decodes es b room e =
    let sum = checksum (drop 8 b) in
    let count : get_or (seal_block b) 8 0 ≡ length es =
      get_or_of_drop 8 (seal_block b) b 0 (drop-seal b)
      ∙ get_or_of_take 128 8 b (start_block (length es)) 0 e.kept (omega arith)
      ∙ count_of_start (length es) room in
    rw (
      take-seal b e.size,
      drop-seal b,
      get_le-put_le 8 sum (checksum-lt (drop 8 b)),
      (==_iff sum sum).1 refl,
      count,
      le→ltb (length es) 31 room,
      decode_entries_of_drop (seal_block b) b 0 (length es) none (drop-seal b),
      e.decoded,
    )

-- A block of at most 31 storable entries with rising keys encodes to one page, and the page
-- decodes to the entries, a delete without its value.
pub decode-encode_data_block :
    (es : List SstableEntry)
    → length es ≤ 31
    → IsTable none es
    → (b : Bytes) × (encode_data_block es ≡ ok b)
      × (length b ≡ 4096)
      × (decode_data_block b ≡ ok (map stored es))
unfolding encode_data_block start_block
decode-encode_data_block es room h =
    let (b, e) =
      encode_entries-Encoded (start_block (length es)) 0 none es (start_block-IsFree (length es))
        (omega arith) h in
    (
      seal_block b,
      rw (le→ltb (length es) 31 room, e.encoded),
      length-seal b ∙ e.size,
      seal_block-decodes es b room e,
    )
