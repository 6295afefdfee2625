-- ===== src/Engine/View.antt =====
-- What a client sees: a map from keys to values, that only a logged Put or Delete changes.
use k_lsm_engine.Prelude.{
  ℕ, Bool, false, ◌≡◌, refl, ap, ◌∙◌, inl, inr, Option, none, some, [], ◌==◌, Bool-cases,
  if◌then◌else◌, Bytes, str_eq,
}
use k_lsm_engine.Entry.{StorageEntry, entry_type_put, entry_type_delete}
use k_lsm_engine.Engine.Parts.{MemTable, SstableStore, Wal, WalPayload, over}
use k_lsm_engine.Engine.{
  Engine, answer, get, maybe_compact_if_needed, truncate_and_clear, flush_mem_table_if_needed,
  put_logged, put, delete_logged, delete,
}

pub answer-over : (a b c : Option StorageEntry) → answer a (over b c) ≡ answer (over a b) c
unfolding answer
answer-over (some a) b c = refl
answer-over none (some b) c = refl
answer-over none none c = refl

pub over_self : (a : Option StorageEntry) → over a a ≡ a
over_self (some a) = refl
over_self none = refl

module _ {M S W : Type 0} (mem : MemTable M) (store : SstableStore S) (log : Wal W) where
  abbrev pub view : Engine M S W → Bytes → Option Bytes
  view e key = get mem store log e key

  get-maybe_compact :
      (e : Engine M S W) (key : Bytes)
      → store.IsValid e.sstable_store
      → view (maybe_compact_if_needed mem store log e) key ≡ view e key
  unfolding maybe_compact_if_needed get
  get-maybe_compact e key valid = elim (Bool-cases (store.level0_count e.sstable_store == 5)) [
    | inl yes' ↦ rw (yes', store.get_key-compact e.sstable_store key valid)
    | inr no' ↦ rw no'
  ]

  -- After a save, whatever becomes of the log, the view is that of the memtable over the store
  -- before the save.
  get-truncate_and_clear :
      (e : Engine M S W) (s : S) (key : Bytes)
      → store.IsValid e.sstable_store
      → store.get_key e.sstable_store key ≡ over (mem.get e.mem_table key) (store.get_key s key)
      → view (truncate_and_clear mem store log e) key
        ≡ answer (mem.get e.mem_table key) (store.get_key s key)
  unfolding truncate_and_clear get
  get-truncate_and_clear e s key valid h =
      let found = mem.get e.mem_table key in
      let below = store.get_key s key in
      elim (Bool-cases (log.truncate e.wal).1) [
        | inl done ↦ rw done (
            get-maybe_compact
              (record e { wal = (log.truncate e.wal).0; mem_table = mem.clear e.mem_table }) key
              valid
            ∙ rw (mem.get-clear e.mem_table key, h) (answer-over none found below))
        | inr failed ↦
            rw (failed, h)
              (answer-over found found below ∙ ap (λ a. answer a below) (over_self found))
      ]

  -- A flush, on every path through it, with a compaction or without, changes no answer of an engine
  -- whose store is valid.
  pub get-flush :
      (e : Engine M S W) (count : ℕ) (key : Bytes)
      → store.IsValid e.sstable_store
      → get mem store log (flush_mem_table_if_needed mem store log e count) key
        ≡ get mem store log e key
  unfolding flush_mem_table_if_needed get answer
  get-flush e count key valid =
      let es = mem.entries e.mem_table in
      elim (Bool-cases (count == 1953)) [
        | inr other_count ↦ rw other_count
        | inl full ↦ elim (Bool-cases (store.save_level0_sstable_entries e.sstable_store es).1) [
          | inl saved ↦
              rw (full, saved)
                (get-truncate_and_clear
                  (record e {
                    sstable_store = (store.save_level0_sstable_entries e.sstable_store es).0;
                  })
                  e.sstable_store key (store.IsValid-save e.sstable_store es valid)
                  (store.get_key-save e.sstable_store es key valid saved
                    ∙ ap (λ a. over a (store.get_key e.sstable_store key))
                        (mem.find-entries e.mem_table key)))
          | inr failed ↦
              rw (full, failed)
                (unfold get in rw (store.get_key-save_failed e.sstable_store es key valid failed))
        ]
      ]

  -- whether the entry was made and the log took it
  abbrev pub accepted : W → Option WalPayload → Bool
  accepted w none = false
  accepted w (some p) = (log.append w p).1

  -- the map after a write of `written` at `key`
  abbrev pub updated : Engine M S W → Bytes → Option Bytes → Bytes → Option Bytes
  updated e key written at = if str_eq key at then written else view e at

  module _ (e : Engine M S W) (w : W) (key value at : Bytes) where
    pub view-mem_put :
        view (record e { wal = w; mem_table = (mem.put e.mem_table key value).0 }) at
        ≡ updated e key (some value) at
    unfolding get answer
    view-mem_put = elim (Bool-cases (str_eq key at)) [
      | inl same ↦ rw (mem.get-put e.mem_table key value at, same)
      | inr ne ↦ rw (mem.get-put e.mem_table key value at, ne)
    ]

    pub view-mem_delete :
        view (record e { wal = w; mem_table = (mem.delete e.mem_table key).0 }) at
        ≡ updated e key none at
    unfolding get answer
    view-mem_delete = elim (Bool-cases (str_eq key at)) [
      | inl same ↦ rw (mem.get-delete e.mem_table key at, same)
      | inr ne ↦ rw (mem.get-delete e.mem_table key at, ne)
    ]

  module _ (e : Engine M S W) (valid : store.IsValid e.sstable_store) (key value at : Bytes) where
    get-put_logged :
        (o : Option WalPayload)
        → view (put_logged mem store log e key value o) at
          ≡ (if accepted e.wal o then updated e key (some value) at else view e at)
    unfolding put_logged
    get-put_logged none = refl
    get-put_logged (some p) =
        let w = (log.append e.wal p).0 in
        let (m, count) = mem.put e.mem_table key value in
        elim (Bool-cases (log.append e.wal p).1) [
          | inl appended ↦ rw appended (
              get-flush (record e { wal = w; mem_table = m }) count at valid
              ∙ view-mem_put e w key value at)
          | inr failed ↦ rw failed (unfold get in refl)
        ]

    get-delete_logged :
        (o : Option WalPayload)
        → view (delete_logged mem store log e key o) at
          ≡ (if accepted e.wal o then updated e key none at else view e at)
    unfolding delete_logged
    get-delete_logged none = refl
    get-delete_logged (some p) =
        let w = (log.append e.wal p).0 in
        let (m, count) = mem.delete e.mem_table key in
        elim (Bool-cases (log.append e.wal p).1) [
          | inl appended ↦ rw appended (
              get-flush (record e { wal = w; mem_table = m }) count at valid
              ∙ view-mem_delete e w key value at)
          | inr failed ↦ rw failed (unfold get in refl)
        ]

    -- After a Put to an engine whose store is valid, whatever flush or compaction it sets off and
    -- however these end, a Get of the key returns the value if the log took the entry; a Get of
    -- another key, and every Get if the log did not take the entry, returns what it did before.
    pub get-put : get mem store log (put mem store log e key value) at ≡ (
        if accepted e.wal (log.new_wal_entry key value entry_type_put)
        then (if str_eq key at then some value else get mem store log e at)
        else get mem store log e at)
    unfolding put
    get-put = get-put_logged (log.new_wal_entry key value entry_type_put)

    -- After a Delete that the log took, if the store is valid, a Get of the key finds nothing; a
    -- Get of another key, and every Get if the log did not take the entry, returns what it did
    -- before.
    pub get-delete : get mem store log (delete mem store log e key) at ≡ (
        if accepted e.wal (log.new_wal_entry key [] entry_type_delete)
        then (if str_eq key at then none else get mem store log e at)
        else get mem store log e at)
    unfolding delete
    get-delete = get-delete_logged (log.new_wal_entry key [] entry_type_delete)

  -- The store stays valid.
  IsValid-maybe_compact :
      (e : Engine M S W)
      → store.IsValid e.sstable_store
      → store.IsValid (maybe_compact_if_needed mem store log e).sstable_store
  unfolding maybe_compact_if_needed
  IsValid-maybe_compact e valid = elim (Bool-cases (store.level0_count e.sstable_store == 5)) [
    | inl full ↦ rw full (store.IsValid-compact e.sstable_store valid)
    | inr few ↦ rw few valid
  ]

  IsValid-truncate_and_clear :
      (e : Engine M S W)
      → store.IsValid e.sstable_store
      → store.IsValid (truncate_and_clear mem store log e).sstable_store
  unfolding truncate_and_clear
  IsValid-truncate_and_clear e valid = elim (Bool-cases (log.truncate e.wal).1) [
    | inl done ↦ rw done (
        IsValid-maybe_compact
          (record e { wal = (log.truncate e.wal).0; mem_table = mem.clear e.mem_table }) valid)
    | inr failed ↦ rw failed valid
  ]

  IsValid-flush :
      (e : Engine M S W) (count : ℕ)
      → store.IsValid e.sstable_store
      → store.IsValid (flush_mem_table_if_needed mem store log e count).sstable_store
  unfolding flush_mem_table_if_needed
  IsValid-flush e count valid =
      let es = mem.entries e.mem_table in
      let s = (store.save_level0_sstable_entries e.sstable_store es).0 in
      let valid' = store.IsValid-save e.sstable_store es valid in
      elim (Bool-cases (count == 1953)) [
        | inr other_count ↦ rw other_count valid
        | inl full ↦ elim (Bool-cases (store.save_level0_sstable_entries e.sstable_store es).1) [
          | inl saved ↦
              rw (full, saved) (IsValid-truncate_and_clear (record e { sstable_store = s }) valid')
          | inr failed ↦ rw (full, failed) valid'
        ]
      ]

  module _ (e : Engine M S W) (valid : store.IsValid e.sstable_store) (key value : Bytes) where
    pub IsValid-put : store.IsValid (put mem store log e key value).sstable_store
    unfolding put put_logged
    IsValid-put = logged (log.new_wal_entry key value entry_type_put)
      where
        logged :
            (o : Option WalPayload)
            → store.IsValid (put_logged mem store log e key value o).sstable_store
        logged none = valid
        logged (some p) =
            let (m, count) = mem.put e.mem_table key value in
            elim (Bool-cases (log.append e.wal p).1) [
              | inl appended ↦ rw appended (
                  IsValid-flush (record e { wal = (log.append e.wal p).0; mem_table = m }) count
                    valid)
              | inr failed ↦ rw failed valid
            ]

    pub IsValid-delete : store.IsValid (delete mem store log e key).sstable_store
    unfolding delete delete_logged
    IsValid-delete = logged (log.new_wal_entry key [] entry_type_delete)
      where
        logged :
            (o : Option WalPayload)
            → store.IsValid (delete_logged mem store log e key o).sstable_store
        logged none = valid
        logged (some p) =
            let (m, count) = mem.delete e.mem_table key in
            elim (Bool-cases (log.append e.wal p).1) [
              | inl appended ↦ rw appended (
                  IsValid-flush (record e { wal = (log.append e.wal p).0; mem_table = m }) count
                    valid)
              | inr failed ↦ rw failed valid
            ]
