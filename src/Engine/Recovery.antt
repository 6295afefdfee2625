-- ===== src/Engine/Recovery.antt =====
-- A restart: what the engine that `NewEngine` builds answers.
use k_lsm_engine.Prelude.{
  true, ◌≡◌, refl, sym, ap, ◌∙◌, inl, inr, Option, none, some, List, [], ◌∷◌, ◌++◌, Bool-cases,
  if◌then◌else◌, Bytes, str_eq,
}
use mathlib.Core.Option.{some-injective}
use k_lsm_engine.Entry.{EntryType, StorageEntry, entry_type_put, entry_type_delete, other}
use k_lsm_engine.Engine.Parts.{MemTable, SstableStore, Wal, WalPayload}
use k_lsm_engine.Engine.{Engine, answer, reveal, get, replay_entry, replay, load_wal, new_engine}

-- the entry of the newest payload for the key, else the one before
logged_entry : Bytes → Bytes → Bytes → Option StorageEntry → EntryType → Option StorageEntry
logged_entry at key value before (other t) = before
logged_entry at key value before entry_type_put =
    if str_eq key at then some (record { type = entry_type_put; value = value }) else before
logged_entry at key value before entry_type_delete =
    if str_eq key at then some (record { type = entry_type_delete; value = [] }) else before

logged : Bytes → Option StorageEntry → List WalPayload → Option StorageEntry
unfolding logged_entry
logged at before [] = before
logged at before (p ∷ ps) = logged at (logged_entry at p.key p.value before p.type) ps

logged-append :
    (at : Bytes) (before : Option StorageEntry) (ps : List WalPayload) (p : WalPayload)
    → logged at before (ps ++ p ∷ []) ≡ logged_entry at p.key p.value (logged at before ps) p.type
unfolding logged
logged-append at before [] p = refl
logged-append at before (q ∷ ps) p =
    logged-append at (logged_entry at q.key q.value before q.type) ps p

-- what a logged entry leaves of an answer
abbrev pub logged_value : EntryType → Bytes → Option Bytes → Option Bytes
logged_value entry_type_put value before = some value
logged_value entry_type_delete value before = none
logged_value (other t) value before = before

shown :
    (at key value : Bytes) (found below : Option StorageEntry) (type : EntryType)
    → answer (logged_entry at key value found type) below
      ≡ (if str_eq key at then logged_value type value (answer found below) else answer found below)
unfolding logged_entry answer reveal
shown at key value found below entry_type_put = elim (Bool-cases (str_eq key at)) [
  | inl same ↦ rw same refl
  | inr ne ↦ rw ne refl
]
shown at key value found below entry_type_delete = elim (Bool-cases (str_eq key at)) [
  | inl same ↦ rw same refl
  | inr ne ↦ rw ne refl
]
shown at key value found below (other t) = elim (Bool-cases (str_eq key at)) [
  | inl same ↦ rw same refl
  | inr ne ↦ rw ne refl
]

module _ {M S W : Type 0} (mem : MemTable M) (store : SstableStore S) (log : Wal W) where
  get-replay_entry :
      (m : M) (type : EntryType) (key value at : Bytes)
      → mem.get (replay_entry mem store log m type key value) at
        ≡ logged_entry at key value (mem.get m at) type
  unfolding replay_entry logged_entry
  get-replay_entry m entry_type_put key value at = mem.get-put m key value at
  get-replay_entry m entry_type_delete key value at = mem.get-delete m key at
  get-replay_entry m (other t) key value at = refl

  get-replay :
      (m : M) (ps : List WalPayload) (at : Bytes)
      → mem.get (replay mem store log m ps) at ≡ logged at (mem.get m at) ps
  unfolding replay logged
  get-replay m [] at = refl
  get-replay m (p ∷ ps) at =
      get-replay (replay_entry mem store log m p.type p.key p.value) ps at
      ∙ ap (λ o. logged at o ps) (get-replay_entry m p.type p.key p.value at)

  -- what an engine over the log and the store answers
  abbrev restarted : List WalPayload → S → Bytes → Option Bytes
  restarted ps s at = answer (logged at none ps) (store.get_key s at)

  get-load_wal :
      (w : W) (s : S) (at : Bytes)
      → get mem store log (load_wal mem store log w s) at ≡ restarted (log.get_all w) s at
  unfolding get load_wal
  get-load_wal w s at =
      ap (λ o. answer o (store.get_key s at))
        (get-replay mem.new_mem_table (log.get_all w) at
          ∙ ap (λ o. logged at o (log.get_all w)) (mem.get-new at))

  opened :
      (w : W) (s : S) (o : Option S) (e : Engine M S W)
      → (elim o [ none ↦ none | some s' ↦ some (load_wal mem store log w s') ]) ≡ some e
      → (s' : S) × (o ≡ some s') × (load_wal mem store log w s' ≡ e)
  opened w s none e h = cc
  opened w s (some s') e h = (s', refl, some-injective _ _ h)

  -- The engine over a store that can be opened.
  pub new_engine-opens :
      (w : W) (s s' : S)
      → store.new_sstable_store s ≡ some s'
      → new_engine mem store log w s ≡ some (load_wal mem store log w s')
  unfolding new_engine
  new_engine-opens w s s' h =
      ap (λ (o : Option S). elim o [ none ↦ none | some x ↦ some (load_wal mem store log w x) ]) h

  module _ (w : W) (s : S) (p : WalPayload) (e e' : Engine M S W) (clean : log.IsClean w)
      (readable : log.IsReadable p) (took : (log.append w p).1 ≡ true)
      (before : new_engine mem store log w s ≡ some e)
      (after : new_engine mem store log (log.append w p).0 s ≡ some e') where
    restart-append :
        (at : Bytes)
        → (s' : S) × (get mem store log e at ≡ restarted (log.get_all w) s' at)
          × (get mem store log e' at
              ≡ answer
                  (logged_entry at p.key p.value (logged at none (log.get_all w)) p.type)
                  (store.get_key s' at))
    unfolding new_engine
    restart-append at =
        let (s₁, opens, is) = opened w s (store.new_sstable_store s) e before in
        let (s₂, opens', is') = opened (log.append w p).0 s (store.new_sstable_store s) e' after in
        let same = some-injective s₂ s₁ (sym opens' ∙ opens) in
        (
          s₁,
          ap (λ x. get mem store log x at) (sym is) ∙ get-load_wal w s₁ at,
          ap (λ x. get mem store log x at) (sym is')
              ∙ get-load_wal (log.append w p).0 s₂ at
              ∙ ap (λ x. restarted (log.get_all (log.append w p).0) x at) same
              ∙ ap (λ ps. restarted ps s₁ at) (log.get_all-append w p clean readable took)
              ∙ ap (λ o. answer o (store.get_key s₁ at)) (logged-append at none (log.get_all w) p),
        )

    -- If the program stops after a clean log took a readable payload, and before it writes anything
    -- else, then of two restarts that open the store, one without the payload and one with it, the
    -- second answers the key of a PUT with its value and that of a DELETE with nothing, and every
    -- other key as the first one.
    pub new_engine-append :
        (at : Bytes)
        → get mem store log e' at ≡ (
            if str_eq p.key at
            then logged_value p.type p.value (get mem store log e at)
            else get mem store log e at)
    new_engine-append at =
        let (s', first, second) = restart-append at in
        second
        ∙ shown at p.key p.value (logged at none (log.get_all w)) (store.get_key s' at) p.type
        ∙ ap (λ o. if str_eq p.key at then logged_value p.type p.value o else o) (sym first)
