-- ===== src/Server.antt =====
-- cmd/server/main.go: the handler of "/" over the engine. The path and the method are the bytes of
-- the request, and the body is none where reading it fails. The timer is left out.
pub mod Clients
mod Tests
use k_lsm_engine.Prelude.{ℕ, Option, none, some, List, [], ◌∷◌, ◌==◌, if◌then◌else◌, Bytes, str_eq}
use k_lsm_engine.Engine
use k_lsm_engine.Engine.{Engine}
use k_lsm_engine.Engine.Parts.{MemTable, SstableStore, Wal}

pub record Response : Type 0 where
  pub status : ℕ
  pub allow : Bytes
  pub body : Bytes

unfoldable pub answer_with : ℕ → Bytes → Response
answer_with status body = record { status = status; allow = []; body = body }

-- `strings.TrimPrefix(path, "/")`
unfoldable pub trim_slash : Bytes → Bytes
trim_slash [] = []
trim_slash (c ∷ path) = if c == 47 then path else c ∷ path

-- "GET", "PUT" and "DELETE"
abbrev pub method_get : Bytes
method_get = 71 ∷ 69 ∷ 84 ∷ []

abbrev pub method_put : Bytes
method_put = 80 ∷ 85 ∷ 84 ∷ []

abbrev pub method_delete : Bytes
method_delete = 68 ∷ 69 ∷ 76 ∷ 69 ∷ 84 ∷ 69 ∷ []

-- the text of the error, with the line end that `http.Error` adds
abbrev failed_to_read_body : Bytes
failed_to_read_body =
    102 ∷ 97 ∷ 105 ∷ 108 ∷ 101 ∷ 100 ∷ 32 ∷ 116 ∷ 111 ∷ 32 ∷ 114 ∷ 101 ∷ 97 ∷ 100 ∷ 32 ∷ 98 ∷ 111
    ∷ 100 ∷ 121 ∷ 10 ∷ []

-- "GET, PUT, DELETE"
abbrev allowed_methods : Bytes
allowed_methods = 71 ∷ 69 ∷ 84 ∷ 44 ∷ 32 ∷ 80 ∷ 85 ∷ 84 ∷ 44 ∷ 32 ∷ 68 ∷ 69 ∷ 76 ∷ 69 ∷ 84 ∷ 69 ∷ []

unfoldable pub found_response : Option Bytes → Response
found_response none = answer_with 404 []
found_response (some val) = answer_with 200 val

module _ {M S W : Type 0} (mem : MemTable M) (store : SstableStore S) (log : Wal W) where
  unfoldable pub put_response : Engine M S W → Bytes → Option Bytes → Engine M S W × Response
  put_response e key none = (e, answer_with 400 failed_to_read_body)
  put_response e key (some body) = (Engine.put mem store log e key body, answer_with 200 body)

  unfoldable pub handle : Engine M S W → Bytes → Bytes → Option Bytes → Engine M S W × Response
  unfolding put_response
  handle e method path body =
      let key = trim_slash path in
      if str_eq method method_get
      then (e, found_response (Engine.get mem store log e key))
      else if str_eq method method_put
      then put_response e key body
      else if str_eq method method_delete
      then (Engine.delete mem store log e key, answer_with 200 [])
      else (e, record { status = 405; allow = allowed_methods; body = [] })
