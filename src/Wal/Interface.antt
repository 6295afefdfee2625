-- ===== src/Wal/Interface.antt =====
-- The log of wal.go is the log of the engine's interface. The calls of the operating system that
-- fail at each time are given, but a restart can open the file.
use mathlib.Core.Bool.{true≢false}
use k_lsm_engine.Prelude.{
  ℕ, ◌+◌, ◌≡◌, refl, sym, ap, ◌∙◌, Bool, true, Option, some, List, [], ◌∷◌, ◌++◌, All, Bytes,
  Result,
}
use k_lsm_engine.Engine.Parts.{WalPayload}
use k_lsm_engine.Engine.Parts
use k_lsm_engine.Store.Publish.Ends.{is_ok}
use k_lsm_engine.Wal.{WalEntry, AppendFault, TruncateFault, append, truncate, get_all}
use k_lsm_engine.Wal.Replay.{entry_of, log_of, IsReadable, get_all-append}

-- The file, and how often it was written.
pub record LogFile : Type 0 where
  pub file : Option Bytes
  pub time : ℕ

module _ (unmarshal : Bytes → Result WalEntry) (appends : ℕ → AppendFault)
    (truncates : ℕ → TruncateFault) where
  -- The file is there, and its lines are those of payloads that can be read back.
  pub record IsCleanLog (w : LogFile) : Type 0 where
    pub payloads : List WalPayload
    pub lines : w.file ≡ some (log_of payloads)
    pub readable : All (IsReadable unmarshal) payloads

  unfoldable pub file_append : LogFile → WalPayload → LogFile × Bool
  file_append w p =
      let (file', done) = append (appends w.time) w.file (entry_of p) in
      (record { file = file'; time = w.time + 1 }, is_ok done)

  pub file_truncate : LogFile → LogFile × Bool
  file_truncate w =
      let (file', done) = truncate (truncates w.time) w.file in
      (record { file = file'; time = w.time + 1 }, is_ok done)

  took-none_fails :
      (f : AppendFault) (file : Option Bytes) (e : WalEntry)
      → is_ok (append f file e).1 ≡ true
      → f ≡ AppendFault.none_fails
  unfolding append is_ok
  took-none_fails AppendFault.none_fails file e h = refl
  took-none_fails AppendFault.open_fails file e h = absurd (true≢false (sym h))
  took-none_fails (AppendFault.write_fails n) file e h = absurd (true≢false (sym h))
  took-none_fails AppendFault.sync_fails file e h = absurd (true≢false (sym h))
  took-none_fails AppendFault.close_fails file e h = absurd (true≢false (sym h))
  took-none_fails AppendFault.dir_sync_fails file e h = absurd (true≢false (sym h))

  pub get_all-file_append :
      (w : LogFile) (p : WalPayload)
      → IsCleanLog w
      → IsReadable unmarshal p
      → (file_append w p).1 ≡ true
      → (get_all unmarshal true (file_append w p).0.file).0
        ≡ (get_all unmarshal true w.file).0 ++ p ∷ []
  unfolding file_append
  get_all-file_append w p c r took =
      let f = took-none_fails (appends w.time) w.file (entry_of p) took in
      let (whole, taken, longer) = get_all-append unmarshal c.payloads p c.readable r in
      ap (λ x. (get_all unmarshal true (append x w.file (entry_of p)).0).0) f
      ∙ ap (λ x. (get_all unmarshal true (append AppendFault.none_fails x (entry_of p)).0).0)
          c.lines
      ∙ ap (λ x. x.0) longer
      ∙ sym
          (ap (λ x. (get_all unmarshal true x).0 ++ p ∷ []) c.lines ∙ ap (λ x. x.0 ++ p ∷ []) whole)

  abbrev pub file_log : Parts.Wal LogFile
  file_log = record {
    new_wal_entry = λ key value type. some (record { key = key; type = type; value = value });
    append = file_append;
    truncate = file_truncate;
    get_all = λ w. (get_all unmarshal true w.file).0;
    IsClean = IsCleanLog;
    IsReadable = IsReadable unmarshal;
    get_all-append = get_all-file_append;
  }
