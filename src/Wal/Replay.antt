-- ===== src/Wal/Replay.antt =====
-- What is read back from the log after appends that succeed, fail, or write a part of a line.
use k_lsm_engine.Prelude.{
  ◌≤◌, ◌≡◌, refl, sym, ap, ◌∙◌, true, Option, none, some, List, [], ◌∷◌, ◌++◌, append-nil,
  append_assoc, length, take, All, ltb, le→ltb, inl, inr, Bool-cases, Bytes, str_eq_refl, Error,
  Result, ok, err, panicked,
}
use k_lsm_engine.Std.Json.{HasNoNewline}
use k_lsm_engine.Engine.Parts.{WalPayload}
use k_lsm_engine.Wal.{
  WalEntry, new_wal_entry, calculate_crc, marshal_entry, line_of, AppendFault, none_fails,
  open_fails, sync_fails, close_fails, dir_sync_fails, write_fails, append, written, read_line,
  next_entry, get_all_loop, get_all,
}
use k_lsm_engine.Std.Scanner.{split_lines, drop_cr, max_line, split_lines-line}
use k_lsm_engine.Wal.Lines.{marshal_entry-HasNoNewline, drop_cr-marshal_entry}

-- the entry that is logged for a payload
abbrev pub entry_of : WalPayload → WalEntry
entry_of p = new_wal_entry p.key p.value p.type

-- the file after these entries were appended
abbrev pub log_of : List WalPayload → Bytes
log_of [] = []
log_of (p ∷ ps) = line_of (entry_of p) ++ log_of ps

log_of-append :
    (ps : List WalPayload) (p : WalPayload)
    → log_of (ps ++ p ∷ []) ≡ log_of ps ++ line_of (entry_of p)
log_of-append [] p = append-nil (line_of (entry_of p))
log_of-append (q ∷ ps) p =
    ap (λ (s : Bytes). line_of (entry_of q) ++ s) (log_of-append ps p)
    ∙ sym (append_assoc (line_of (entry_of q)) (log_of ps) (line_of (entry_of p)))

module _ (unmarshal : Bytes → Result WalEntry) where
  -- The line of the payload's entry is short enough, and `json.Unmarshal` takes it back: so it does
  -- for the line that the encoder wrote of strings of valid UTF-8.
  pub record IsReadable (p : WalPayload) : Type 0 where
    pub short : length (marshal_entry (entry_of p)) ≤ max_line
    pub reads : unmarshal (marshal_entry (entry_of p)) ≡ ok (entry_of p)

  read_line-marshal_entry :
      (p : WalPayload) → IsReadable p → read_line unmarshal (marshal_entry (entry_of p)) ≡ ok p
  unfolding read_line new_wal_entry
  read_line-marshal_entry p r = rw (r.reads, str_eq_refl (calculate_crc p))

  line_first :
      (entries : List WalPayload) (p : WalPayload) (rest : Bytes)
      → IsReadable p
      → get_all_loop unmarshal entries (split_lines (line_of (entry_of p) ++ rest))
        ≡ get_all_loop unmarshal (entries ++ p ∷ []) (split_lines rest)
  unfolding line_of get_all_loop
  line_first entries p rest r =
      let text = marshal_entry (entry_of p) in
      rw (
        append_assoc text (10 ∷ []) rest,
        split_lines-line text rest (marshal_entry-HasNoNewline (entry_of p)),
        le→ltb (length text) max_line r.short,
        drop_cr-marshal_entry (entry_of p),
        read_line-marshal_entry p r,
      )

  -- The entries of the log are read first, whatever comes behind them.
  get_all_loop-log_of :
      (entries ps : List WalPayload) (rest : Bytes)
      → All IsReadable ps
      → get_all_loop unmarshal entries (split_lines (log_of ps ++ rest))
        ≡ get_all_loop unmarshal (entries ++ ps) (split_lines rest)
  get_all_loop-log_of entries [] rest r = rw append-nil
  get_all_loop-log_of entries (p ∷ ps) rest r =
      rw (append_assoc (line_of (entry_of p)) (log_of ps) rest) (
        line_first entries p (log_of ps ++ rest) r.0
        ∙ get_all_loop-log_of (entries ++ p ∷ []) ps rest r.1
        ∙ ap (λ (es : List WalPayload). get_all_loop unmarshal es (split_lines rest))
            (append_assoc entries (p ∷ []) ps))

  All-snoc :
      (ps : List WalPayload) (p : WalPayload)
      → All IsReadable ps
      → IsReadable p
      → All IsReadable (ps ++ p ∷ [])
  All-snoc [] p rs r = (r, tt)
  All-snoc (q ∷ ps) p rs r = (rs.0, All-snoc ps p rs.1 r)

  get_all-log_of :
      (ps : List WalPayload)
      → All IsReadable ps
      → get_all unmarshal true (some (log_of ps)) ≡ (ps, none)
  unfolding get_all get_all_loop split_lines
  get_all-log_of ps rs =
      ap (λ (s : Bytes). get_all_loop unmarshal [] (split_lines s)) (sym (append-nil (log_of ps)))
      ∙ get_all_loop-log_of [] ps [] rs

  -- A log of readable entries is read back whole, and after an append that succeeds the new entry
  -- is read behind them, with no error.
  pub get_all-append :
      (ps : List WalPayload) (p : WalPayload)
      → All IsReadable ps
      → IsReadable p
      → (get_all unmarshal true (some (log_of ps)) ≡ (ps, none))
        × ((append none_fails (some (log_of ps)) (entry_of p)).1 ≡ ok tt)
        × (get_all unmarshal true (append none_fails (some (log_of ps)) (entry_of p)).0
            ≡ (ps ++ p ∷ [], none))
  unfolding append
  get_all-append ps p rs r = (
    get_all-log_of ps rs,
    refl,
    ap (λ (s : Bytes). get_all unmarshal true (some s)) (sym (log_of-append ps p))
        ∙ get_all-log_of (ps ++ p ∷ []) (All-snoc ps p rs r),
  )

  -- the entries that the loop has are kept
  get_all_loop-grows :
      (entries : List WalPayload) (lines : List Bytes)
      → (more : List WalPayload) × ((get_all_loop unmarshal entries lines).0 ≡ entries ++ more)
  unfolding get_all_loop next_entry
  get_all_loop-grows entries [] = ([], sym (append-nil entries))
  get_all_loop-grows entries (line ∷ lines) = elim (Bool-cases (ltb max_line (length line))) [
    | inl long ↦ ([], rw long (sym (append-nil entries)))
    | inr short ↦ rw short (
        step (read_line unmarshal (drop_cr line))
          (λ p. get_all_loop-grows (entries ++ p ∷ []) lines))
  ]
    where
      step :
          (r : Result WalPayload)
          → ((p : WalPayload)
              → (more : List WalPayload) × ((get_all_loop unmarshal (entries ++ p ∷ []) lines).0
                  ≡ (entries ++ p ∷ []) ++ more))
          → (more : List WalPayload) × ((next_entry unmarshal entries r
                (λ es. get_all_loop unmarshal es lines)).0
              ≡ entries ++ more)
      step (ok p) h = (p ∷ (h p).0, (h p).1 ∙ append_assoc entries (p ∷ []) (h p).0)
      step (err e) h = ([], sym (append-nil entries))
      step panicked h = ([], sym (append-nil entries))

  -- what a failed append has written behind the log
  behind :
      (fault : AppendFault) (file : Bytes) (e : WalEntry)
      → (rest : Bytes) × ((append fault (some file) e).0 ≡ some (file ++ rest))
  unfolding append written
  behind none_fails file e = (line_of e, refl)
  behind open_fails file e = ([], ap some (sym (append-nil file)))
  behind (write_fails n) file e = (take n (line_of e), refl)
  behind sync_fails file e = (line_of e, refl)
  behind close_fails file e = (line_of e, refl)
  behind dir_sync_fails file e = (line_of e, refl)

  -- Wherever an append of any entry fails, and however much of the line it has written, the entries
  -- that were in the log are still read back first.
  pub get_all-append_fault :
      (ps : List WalPayload) (fault : AppendFault) (e : WalEntry)
      → All IsReadable ps
      → (more : List WalPayload) × ((get_all unmarshal true (append fault (some (log_of ps)) e).0).0
          ≡ ps ++ more)
  unfolding get_all
  get_all-append_fault ps fault e rs =
      let (rest, after) = behind fault (log_of ps) e in
      let (more, grown) = get_all_loop-grows ps (split_lines rest) in
      (
        more,
        rw after (
            ap (λ (r : List WalPayload × Option Error). r.0) (get_all_loop-log_of [] ps rest rs)
            ∙ grown),
      )

  -- A line that is refused ends the reading: no entry behind it is read, also none that an append
  -- which succeeded has written.
  pub get_all_stops :
      (ps : List WalPayload) (line rest : Bytes) (e : Error)
      → All IsReadable ps
      → HasNoNewline line
      → length line ≤ max_line
      → read_line unmarshal (drop_cr line) ≡ err e
      → get_all unmarshal true (some (log_of ps ++ (line ++ 10 ∷ rest))) ≡ (ps, some e)
  unfolding get_all get_all_loop next_entry
  get_all_stops ps line rest e rs one short refused =
      get_all_loop-log_of [] ps (line ++ 10 ∷ rest) rs
      ∙ rw (split_lines-line line rest one, le→ltb (length line) max_line short, refused)
