-- ===== src/Wal/Tests.antt =====
-- Runs of the log, and the theorems at a log of one entry.
use k_lsm_engine.Prelude.{
  ◌≡◌, refl, true, false, none, some, List, [], ◌∷◌, ◌++◌, arith, Bytes, str_eq, ok, err,
  invalid_entry_type,
}
use k_lsm_engine.Std.Crc32.{checksum_ieee, hex8}
use k_lsm_engine.Std.Json.{encode_string}
use k_lsm_engine.Engine.Parts.{WalPayload}
use k_lsm_engine.Entry.{entry_type_put}
use k_lsm_engine.Std.Scanner.{drop_cr}
use k_lsm_engine.Wal.{
  calculate_crc, marshal_payload, marshal_entry, read_line, none_fails, write_fails, append,
  get_all,
}
use k_lsm_engine.Wal.Sample.{first, unmarshal, first-IsReadable}
use k_lsm_engine.Wal.Replay.{entry_of, log_of, get_all-append, get_all-append_fault, get_all_stops}

-- {"key":"a","type":"PUT","value":"1"}
marshal_first :
    marshal_payload first
    ≡ 123 ∷ 34 ∷ 107 ∷ 101 ∷ 121 ∷ 34 ∷ 58 ∷ 34 ∷ 97 ∷ 34 ∷ 44 ∷ 34 ∷ 116 ∷ 121 ∷ 112 ∷ 101 ∷ 34
      ∷ 58 ∷ 34 ∷ 80 ∷ 85 ∷ 84 ∷ 34 ∷ 44 ∷ 34 ∷ 118 ∷ 97 ∷ 108 ∷ 117 ∷ 101 ∷ 34 ∷ 58 ∷ 34 ∷ 49 ∷ 34
      ∷ 125 ∷ []
unfolding marshal_payload encode_string
marshal_first = refl

-- A quote, a newline and the character < are escaped; U+00E9 is not.
encode_escapes :
    encode_string (34 ∷ 10 ∷ 60 ∷ 0xC3 ∷ 0xA9 ∷ [])
    ≡ 34 ∷ 92 ∷ 34 ∷ 92 ∷ 110 ∷ 92 ∷ 117 ∷ 48 ∷ 48 ∷ 51 ∷ 99 ∷ 0xC3 ∷ 0xA9 ∷ 34 ∷ []
unfolding encode_string
encode_escapes = refl

-- A key that is no valid UTF-8, and the key with U+FFFD that is read back in its place: the log is
-- given the checksum of the one and tests that of the other.
abbrev invalid_key : WalPayload
invalid_key = record { key = 255 ∷ []; type = entry_type_put; value = 49 ∷ [] }

abbrev replaced_key : WalPayload
replaced_key = record { key = 0xEF ∷ 0xBF ∷ 0xBD ∷ []; type = entry_type_put; value = 49 ∷ [] }

checksums_differ : str_eq (calculate_crc invalid_key) (calculate_crc replaced_key) ≡ false
unfolding calculate_crc marshal_payload encode_string checksum_ieee hex8 str_eq
checksums_differ = refl

get_all-append_example :
    (get_all unmarshal true (some (log_of (first ∷ []))) ≡ (first ∷ [], none))
    × ((append none_fails (some (log_of (first ∷ []))) (entry_of first)).1 ≡ ok tt)
    × (get_all unmarshal true (append none_fails (some (log_of (first ∷ []))) (entry_of first)).0
        ≡ (first ∷ first ∷ [], none))
get_all-append_example =
    get_all-append unmarshal (first ∷ []) first (first-IsReadable, tt) first-IsReadable

get_all-append_fault_example :
    (more : List WalPayload) × ((get_all unmarshal true
        (append (write_fails 5) (some (log_of (first ∷ []))) (entry_of invalid_key)).0).0
      ≡ first ∷ more)
get_all-append_fault_example =
    get_all-append_fault unmarshal (first ∷ []) (write_fails 5) (entry_of invalid_key)
      (first-IsReadable, tt)

-- the first bytes of a line, and behind them a whole line
abbrev torn : Bytes
torn = 123 ∷ 34 ∷ []

torn_refused : read_line unmarshal (drop_cr torn) ≡ err invalid_entry_type
unfolding read_line drop_cr str_eq marshal_entry encode_string
torn_refused = refl

get_all_stops_example :
    get_all unmarshal true (some (log_of (first ∷ []) ++ (torn ++ 10 ∷ log_of (first ∷ []))))
    ≡ (first ∷ [], some invalid_entry_type)
get_all_stops_example =
    get_all_stops unmarshal (first ∷ []) torn (log_of (first ∷ [])) invalid_entry_type
      (first-IsReadable, tt) (omega arith) (omega arith) torn_refused
