-- ===== src/Wal/Sample.antt =====
-- A log that is read back, by a decoder that knows one line.
use k_lsm_engine.Prelude.{
  ◌≡◌, refl, true, some, [], ◌∷◌, arith, length, if◌then◌else◌, Bytes, str_eq, str_eq_refl, Result,
  ok, err, invalid_entry_type,
}
use k_lsm_engine.Std.Crc32.{checksum_ieee, hex8}
use k_lsm_engine.Std.Json.{encode_string}
use k_lsm_engine.Engine.Parts
use k_lsm_engine.Engine.Parts.{WalPayload}
use k_lsm_engine.Entry.{entry_type_put}
use k_lsm_engine.Store.Publish.Ends.{is_ok}
use k_lsm_engine.Wal.{
  WalEntry, AppendFault, TruncateFault, new_wal_entry, calculate_crc, marshal_payload,
  marshal_entry, append,
}
use k_lsm_engine.Wal.Replay.{entry_of, IsReadable}
use k_lsm_engine.Wal.Interface.{LogFile, file_append, file_log}

-- "a" is put to "1".
abbrev pub first : WalPayload
first = record { key = 97 ∷ []; type = entry_type_put; value = 49 ∷ [] }

-- a decoder that knows the line of the entry
abbrev pub unmarshal : Bytes → Result WalEntry
unmarshal line =
    if str_eq line (marshal_entry (entry_of first))
    then ok (entry_of first)
    else err invalid_entry_type

length_first : length (marshal_entry (entry_of first)) ≡ 53
unfolding marshal_entry encode_string new_wal_entry calculate_crc hex8 marshal_payload checksum_ieee
length_first = refl

pub first-IsReadable : IsReadable unmarshal first
first-IsReadable = record {
  short = omega (arith, length_first);
  reads = rw (str_eq_refl (marshal_entry (entry_of first)));
}

-- Appends succeed, and a truncation fails when the file is synced.
abbrev pub log : Parts.Wal LogFile
log = file_log unmarshal (λ n. AppendFault.none_fails) (λ n. TruncateFault.sync_error)

abbrev pub empty_log : LogFile
empty_log = record { file = some []; time = 0 }

pub empty_log-IsCleanLog : log.IsClean empty_log
empty_log-IsCleanLog = record { payloads = []; lines = refl; readable = tt }

pub log_takes : (w : LogFile) (p : WalPayload) → (log.append w p).1 ≡ true
unfolding file_append append is_ok
log_takes w p = refl
