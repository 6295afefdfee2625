-- ===== src/Engine/Parts.antt =====
-- The interfaces of the parts of the engine: the operations that it calls, and what they promise.
-- A state is followed by whether the call succeeded.
use k_lsm_engine.Prelude.{
  ℕ, Bool, true, false, ◌≡◌, Option, none, some, List, [], ◌∷◌, ◌++◌, map, if◌then◌else◌, Bytes,
  str_eq,
}
use k_lsm_engine.Entry.{EntryType, entry_type_put, entry_type_delete, StorageEntry, SstableEntry}
use k_lsm_engine.Table.Block.{stored}
use k_lsm_engine.Table.Order.{find_entry}

-- `walPayload` of wal.go
pub record WalPayload : Type 0 where
  pub key : Bytes
  pub type : EntryType
  pub value : Bytes

-- the entry, if there is one, else the entry below
abbrev pub over : Option StorageEntry → Option StorageEntry → Option StorageEntry
over (some entry) below = some entry
over none below = below

-- memtable.go: `put` and `delete` also return the number of keys.
pub record MemTable (M : Type 0) : Type 0 where
  pub new_mem_table : M
  pub get : M → Bytes → Option StorageEntry
  pub put : M → Bytes → Bytes → M × ℕ
  pub delete : M → Bytes → M × ℕ
  pub entries : M → List SstableEntry
  pub clear : M → M
  pub get-new : (key : Bytes) → get new_mem_table key ≡ none
  pub get-put :
      (m : M) (key value at : Bytes)
      → get (put m key value).0 at ≡ (
          if str_eq key at
          then some (record { type = entry_type_put; value = value })
          else get m at)
  pub get-delete :
      (m : M) (key at : Bytes)
      → get (delete m key).0 at ≡ (
          if str_eq key at
          then some (record { type = entry_type_delete; value = [] })
          else get m at)
  pub get-clear : (m : M) (key : Bytes) → get (clear m) key ≡ none
  -- The snapshot holds what `get` finds, and its deletes carry no value.
  pub find-entries : (m : M) (key : Bytes) → find_entry key (map stored (entries m)) ≡ get m key

-- The table store of sstable.go and compaction.go. What it promises, it promises of the states that
-- are valid, and a call leaves a valid one. A restart opens the store again, unless this fails.
pub record SstableStore (S : Type 0) : Type 1 where
  pub get_key : S → Bytes → Option StorageEntry
  pub save_level0_sstable_entries : S → List SstableEntry → S × Bool
  pub level0_count : S → ℕ
  pub compact_sstables : S → S × Bool
  pub new_sstable_store : S → Option S
  pub IsValid : S → Type 0
  pub IsValid-save :
      (s : S) (es : List SstableEntry) → IsValid s → IsValid (save_level0_sstable_entries s es).0
  pub IsValid-compact : (s : S) → IsValid s → IsValid (compact_sstables s).0
  -- A saved table hides what lies below it.
  pub get_key-save :
      (s : S) (es : List SstableEntry) (key : Bytes)
      → IsValid s
      → (save_level0_sstable_entries s es).1 ≡ true
      → get_key (save_level0_sstable_entries s es).0 key
        ≡ over (find_entry key (map stored es)) (get_key s key)
  pub get_key-save_failed :
      (s : S) (es : List SstableEntry) (key : Bytes)
      → IsValid s
      → (save_level0_sstable_entries s es).1 ≡ false
      → get_key (save_level0_sstable_entries s es).0 key ≡ get_key s key
  -- A compaction, whether it succeeds or not, changes no answer.
  pub get_key-compact :
      (s : S) (key : Bytes) → IsValid s → get_key (compact_sstables s).0 key ≡ get_key s key

-- The log of wal.go: `get_all` is what is read back, up to the first error. A log is clean if all of
-- it is read back, and a payload is readable if its line is.
pub record Wal (W : Type 0) : Type 1 where
  pub new_wal_entry : Bytes → Bytes → EntryType → Option WalPayload
  pub append : W → WalPayload → W × Bool
  pub truncate : W → W × Bool
  pub get_all : W → List WalPayload
  pub IsClean : W → Type 0
  pub IsReadable : WalPayload → Type 0
  pub get_all-append :
      (w : W) (p : WalPayload)
      → IsClean w
      → IsReadable p
      → (append w p).1 ≡ true
      → get_all (append w p).0 ≡ get_all w ++ p ∷ []
