-- ===== src/Server/Tests.antt =====
-- The theorems on the server at an engine of the program's own parts.
use k_lsm_engine.Prelude.{◌≡◌, some, none, [], ◌∷◌, if◌then◌else◌, Bytes}
use k_lsm_engine.Entry.{entry_type_put, entry_type_delete}
use k_lsm_engine.Engine.View.{accepted}
use k_lsm_engine.Wal.Sample.{log}
use k_lsm_engine.Engine.Sample.{table, store, start, empty_store-IsDiskStore}
use k_lsm_engine.Server.{answer_with, trim_slash, method_get, method_put, method_delete, handle}
use k_lsm_engine.Server.Clients.{get-put_response, get-delete_response}

-- "/a"
abbrev path : Bytes
path = 47 ∷ 97 ∷ []

get-put_response_example :
    (handle table store log
      (handle table store log start method_put path (some (49 ∷ []))).0
      method_get
      path
      none).1
    ≡ (if accepted table store log start.wal
          (log.new_wal_entry (trim_slash path) (49 ∷ []) entry_type_put)
        then answer_with 200 (49 ∷ [])
        else (handle table store log start method_get path none).1)
get-put_response_example =
    get-put_response table store log start empty_store-IsDiskStore path (49 ∷ []) none

get-delete_response_example :
    (handle table store log
      (handle table store log start method_delete path none).0
      method_get
      path
      none).1
    ≡ (if accepted table store log start.wal
          (log.new_wal_entry (trim_slash path) [] entry_type_delete)
        then answer_with 404 []
        else (handle table store log start method_get path none).1)
get-delete_response_example =
    get-delete_response table store log start empty_store-IsDiskStore path none
