-- ===== src/Server/Clients.antt =====
-- What a client of the server sees after its own requests.
use k_lsm_engine.Prelude.{
  ◌≡◌, inl, inr, Option, some, [], if◌then◌else◌, Bool-cases, Bytes, str_eq, str_eq_refl,
}
use k_lsm_engine.Entry.{entry_type_put, entry_type_delete}
use k_lsm_engine.Engine.{Engine}
use k_lsm_engine.Engine.Parts.{MemTable, SstableStore, Wal}
use k_lsm_engine.Engine.View.{accepted, get-put, get-delete}
use k_lsm_engine.Server.{
  answer_with, trim_slash, method_get, method_put, method_delete, found_response, put_response,
  handle,
}

module _ {M S W : Type 0} (mem : MemTable M) (store : SstableStore S) (log : Wal W)
    (e : Engine M S W) (valid : store.IsValid e.sstable_store) (path : Bytes) where
  -- If the store is valid, a GET after a PUT of a body that was read is answered with status 200
  -- and the body, if the log took the entry, and otherwise as it was before the PUT.
  pub get-put_response :
      (body : Bytes) (sent : Option Bytes)
      → (handle mem store log
          (handle mem store log e method_put path (some body)).0
          method_get
          path
          sent).1
        ≡ (if accepted mem store log e.wal (log.new_wal_entry (trim_slash path) body entry_type_put)
            then answer_with 200 body
            else (handle mem store log e method_get path sent).1)
  unfolding handle put_response found_response str_eq
  get-put_response body sent =
      elim (Bool-cases
        (accepted mem store log e.wal (log.new_wal_entry (trim_slash path) body entry_type_put))) [
          | inl took ↦ rw (
            get-put mem store log e valid (trim_slash path) body (trim_slash path),
            took,
            str_eq_refl (trim_slash path),
          )
          | inr not_took ↦
              rw (get-put mem store log e valid (trim_slash path) body (trim_slash path), not_took)
        ]

  -- If the store is valid, a GET after a DELETE is answered with status 404, if the log took the
  -- entry, and otherwise as it was before the DELETE.
  pub get-delete_response :
      (sent : Option Bytes)
      → (handle mem store log
          (handle mem store log e method_delete path sent).0
          method_get
          path
          sent).1
        ≡ (if accepted mem store log e.wal
              (log.new_wal_entry (trim_slash path) [] entry_type_delete)
            then answer_with 404 []
            else (handle mem store log e method_get path sent).1)
  unfolding handle put_response found_response str_eq
  get-delete_response sent =
      elim (Bool-cases
        (accepted mem store log e.wal (log.new_wal_entry (trim_slash path) [] entry_type_delete))) [
          | inl took ↦ rw (
            get-delete mem store log e valid (trim_slash path) [] (trim_slash path),
            took,
            str_eq_refl (trim_slash path),
          )
          | inr not_took ↦
              rw (get-delete mem store log e valid (trim_slash path) [] (trim_slash path), not_took)
        ]
