-- ===== src/Client/EndToEnd.antt =====
-- The scripts of cmd/gen/main.go, run by cmd/client/main.go against cmd/server/main.go.
use k_lsm_engine.Prelude.{◌≡◌, Bool, true, some, length, ◌==◌, if◌then◌else◌, Bytes}
use k_lsm_engine.Entry.{EntryType}
use k_lsm_engine.Store.{lookup}
use k_lsm_engine.Engine.{Engine}
use k_lsm_engine.Engine.Parts.{MemTable, SstableStore, Wal}
use k_lsm_engine.Engine.View.{view, accepted}
use k_lsm_engine.Server.{handle}
use k_lsm_engine.Gen.Draws.{State}
use k_lsm_engine.Client.Requests.{response, failed, Remote}

module _ {M S W : Type 0} (mem : MemTable M) (store : SstableStore S) (log : Wal W)
    (accepts : Bytes → Bool) where
  -- The server behind the handler, at one engine. It answers every first attempt with a status
  -- below 500. A later one would have no body: with a payload to send, it fails.
  abbrev pub engine_remote : Remote (Engine M S W)
  engine_remote = record {
    accepts = accepts;
    send = λ e method path payload.
        let result = handle mem store log e method path (some payload) in
        (result.0, response result.1.status result.1.body);
    send_again = λ e method path payload.
        let result = handle mem store log e method path (some payload) in
        if length payload == 0
        then (result.0, response result.1.status result.1.body)
        else (e, failed);
  }

  -- what every GET of the engine shows, over a store that is valid
  abbrev pub ShowsMap : Engine M S W → State → Type 0
  ShowsMap e σ = store.IsValid e.sstable_store × ((k : Bytes) → view mem store log e k ≡ lookup k σ)

  -- Every entry is made, and the log takes it.
  abbrev pub TakesAll : Type 0
  TakesAll =
      (w : W) (key value : Bytes) (type : EntryType)
      → accepted mem store log w (log.new_wal_entry key value type) ≡ true
