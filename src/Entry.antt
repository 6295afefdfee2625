-- ===== src/Entry.antt =====
-- internal/storage/entry.go, and ssTableEntry of internal/storage/sstable.go.
use k_lsm_engine.Prelude.{Bytes}

-- entryType is a string. `other` stands for any text but "PUT" and "DELETE".
pub data EntryType : Type 0 where
  entry_type_put entry_type_delete : EntryType
  other : Bytes → EntryType

pub record StorageEntry : Type 0 where
  pub type : EntryType
  pub value : Bytes

pub record SstableEntry : Type 0 where
  pub k : Bytes
  pub v : Bytes
  pub type : EntryType

-- `storageEntry{Type: e.Type, Value: e.V}`
abbrev pub storage_entry : SstableEntry → StorageEntry
storage_entry e = record { type = e.type; value = e.v }
