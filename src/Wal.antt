-- ===== src/Wal.antt =====
-- internal/storage/wal.go: the log is a file of lines, each the JSON text of an entry. The contents
-- are none while the file does not exist. `json.Unmarshal` of a line is given.
pub mod Lines
pub mod Replay
pub mod Interface
pub mod Sample
mod Tests
use k_lsm_engine.Prelude.{
  ℕ, zero, suc, Bool, true, false, not, Option, none, some, List, [], ◌∷◌, ◌++◌, length, take, ltb,
  ◌==◌, if◌then◌else◌, Bytes, str_eq, Error, Result, ok, err, panicked, ◌>>=◌, ◌>>◌, guard,
  crc_mismatch, io_error, line_too_long,
}
use k_lsm_engine.Std.Crc32.{checksum_ieee, hex8}
use k_lsm_engine.Std.Json.{encode_string}
use k_lsm_engine.Std.Scanner.{split_lines, drop_cr, max_line}
use k_lsm_engine.Entry.{EntryType, entry_type_put, entry_type_delete, other}
use k_lsm_engine.Engine.Parts.{WalPayload}

pub record WalEntry : Type 0 where
  pub crc : Bytes
  pub key : Bytes
  pub type : EntryType
  pub value : Bytes

-- "PUT" and "DELETE"
type_text : EntryType → Bytes
type_text entry_type_put = 80 ∷ 85 ∷ 84 ∷ []
type_text entry_type_delete = 68 ∷ 69 ∷ 76 ∷ 69 ∷ 84 ∷ 69 ∷ []
type_text (other t) = t

-- the names of the members, from the comma or brace before them to the colon
abbrev pub key_name : Bytes
key_name = 34 ∷ 107 ∷ 101 ∷ 121 ∷ 34 ∷ 58 ∷ []

abbrev pub type_name : Bytes
type_name = 44 ∷ 34 ∷ 116 ∷ 121 ∷ 112 ∷ 101 ∷ 34 ∷ 58 ∷ []

abbrev pub value_name : Bytes
value_name = 44 ∷ 34 ∷ 118 ∷ 97 ∷ 108 ∷ 117 ∷ 101 ∷ 34 ∷ 58 ∷ []

abbrev pub crc_name : Bytes
crc_name = 123 ∷ 34 ∷ 99 ∷ 114 ∷ 99 ∷ 34 ∷ 58 ∷ []

member : Bytes → Bytes → Bytes → Bytes
member name text rest = name ++ (encode_string text ++ rest)

-- the members that both objects have, and the end of the object
members : Bytes → EntryType → Bytes → Bytes
unfolding type_text member
members key type value =
    member key_name key (member type_name (type_text type) (member value_name value (125 ∷ [])))

-- `json.Marshal` of the payload, which has no error
pub marshal_payload : WalPayload → Bytes
unfolding members
marshal_payload p = 123 ∷ members p.key p.type p.value

-- `json.Marshal` of the entry
pub marshal_entry : WalEntry → Bytes
unfolding members member
marshal_entry e = member crc_name e.crc (44 ∷ members e.key e.type e.value)

pub calculate_crc : WalPayload → Bytes
calculate_crc p = hex8 (checksum_ieee (marshal_payload p))

pub new_wal_entry : Bytes → Bytes → EntryType → WalEntry
new_wal_entry key value type = record {
  crc = calculate_crc (record { key = key; type = type; value = value });
  key = key;
  type = type;
  value = value;
}

-- Where `append` fails: the write may have written a part of the line.
pub data AppendFault : Type 0 where
  none_fails open_fails sync_fails close_fails dir_sync_fails : AppendFault
  write_fails : ℕ → AppendFault

-- the contents after a write to the end of the file
written : Option Bytes → Bytes → Option Bytes
written none s = some s
written (some contents) s = some (contents ++ s)

-- `json.NewEncoder(f).Encode(e)`
pub line_of : WalEntry → Bytes
line_of e = marshal_entry e ++ 10 ∷ []

pub append : AppendFault → Option Bytes → WalEntry → Option Bytes × Result (Unit {0})
unfolding written
append none_fails file e = (written file (line_of e), ok tt)
append open_fails file e = (file, err io_error)
append (write_fails n) file e = (written file (take n (line_of e)), err io_error)
append sync_fails file e = (written file (line_of e), err io_error)
append close_fails file e = (written file (line_of e), err io_error)
append dir_sync_fails file e = (written file (line_of e), err io_error)

pub data TruncateFault : Type 0 where
  all_succeed not_exist_on_open open_error sync_error close_error : TruncateFault

pub truncate : TruncateFault → Option Bytes → Option Bytes × Result (Unit {0})
truncate all_succeed file = (some [], ok tt)
truncate not_exist_on_open file = (file, ok tt)
truncate open_error file = (file, err io_error)
truncate sync_error file = (some [], err io_error)
truncate close_error file = (some [], err io_error)

module _ (unmarshal : Bytes → Result WalEntry) where
  payload_of : WalEntry → WalPayload
  payload_of e = record { key = e.key; type = e.type; value = e.value }

  -- the body of the loop of `getAll`
  pub read_line : Bytes → Result WalPayload
  unfolding payload_of
  read_line line = do
    e ← unmarshal line
    guard (not (str_eq (calculate_crc (payload_of e)) e.crc)) crc_mismatch
    ok (payload_of e)

  -- what the loop does with a line: it ends with an error, or goes on with one entry more
  pub next_entry :
      List WalPayload
      → Result WalPayload
      → (List WalPayload → List WalPayload × Option Error)
      → List WalPayload × Option Error
  next_entry entries (ok p) rest = rest (entries ++ p ∷ [])
  next_entry entries (err e) rest = (entries, some e)
  -- not reached, since nothing in `read_line` panics
  next_entry entries panicked rest = (entries, none)

  -- The result also has the entries before an error.
  pub get_all_loop : List WalPayload → List Bytes → List WalPayload × Option Error
  unfolding next_entry
  get_all_loop entries [] = (entries, none)
  get_all_loop entries (line ∷ lines) =
      let rest = next_entry entries (read_line (drop_cr line)) (λ es. get_all_loop es lines) in
      if ltb max_line (length line) then (entries, some line_too_long) else rest

  -- The open creates the file, and may fail.
  pub get_all : Bool → Option Bytes → List WalPayload × Option Error
  get_all false file = ([], some io_error)
  get_all true none = ([], none)
  get_all true (some contents) = get_all_loop [] (split_lines contents)
