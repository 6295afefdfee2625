-- ===== src/Store/Manifest/RoundTrip.antt =====
-- The manifest that is written is read back.
use k_lsm_engine.Prelude.{
  ℕ, zero, suc, ◌^◌, ◌≤◌, ◌<◌, ◌≡◌, ◌≢◌, refl, sym, ap, ◌∙◌, Bool, true, false, none, some, List,
  [], ◌∷◌, ◌++◌, map, length, All, arith, leb, ◌==◌, append_assoc, append-nil, if◌then◌else◌, Bytes,
  str_eq, Result, ok, ◌>>=◌,
}
use k_lsm_engine.Std.Json.{HasNoNewline, HasNoNewline-append}
use k_lsm_engine.Std.Trim.{trim_space}
use k_lsm_engine.Std.Strconv.{
  decimal, digits_value-decimal, is_digit, IsDigits, decimal-IsDigits, decimal-ne-nil,
}
use k_lsm_engine.Std.Scanner.{split_lines, drop_cr, max_line}
use k_lsm_engine.Store.{SstableLevel, lookup, max_levels}
use k_lsm_engine.Store.Disk.{keep_range, prune_ranges}
use k_lsm_engine.Store.Manifest.{
  level_digits, some_digits, level_header, ManifestState, close_level, empty_level, open_level,
  add_table, read_header, read_trimmed, read_manifest_line, manifest_loop, get_all_sstables,
  manifest_line, table_lines, header_line, manifest_text,
}
use k_lsm_engine.Std.Line.{IsLine}
use k_lsm_engine.Store.Manifest.Parts.{manifest_loop-line, IsName}
use k_lsm_engine.Store.Manifest.Tables.{
  HasRange, range_written, manifest_line-IsLine, read_trimmed-manifest_line,
}

level_digits-digits : (ds : Bytes) → IsDigits ds → level_digits (ds ++ b']' ∷ []) ≡ some ds
unfolding level_digits str_eq
level_digits-digits [] h = refl
level_digits-digits (d ∷ ds) h =
    let digit : is_digit d ≡ true = ground arith in rw (digit, level_digits-digits ds h.1) refl

some_digits_of : (ds : Bytes) → ds ≢ [] → some_digits (some ds) ≡ some ds
unfolding some_digits
some_digits_of [] h = absurd (h refl)
some_digits_of (d ∷ ds) h = refl

digits-HasNoNewline : (ds : Bytes) → IsDigits ds → HasNoNewline ds
digits-HasNoNewline [] h = tt
digits-HasNoNewline (d ∷ ds) h = (omega arith, digits-HasNoNewline ds h.1)

level_header-line :
    (n : ℕ) → level_header (b'[' ∷ b'L' ∷ (decimal n ++ b']' ∷ [])) ≡ some (decimal n)
unfolding level_header
level_header-line n =
    ap some_digits (level_digits-digits (decimal n) (decimal-IsDigits n))
    ∙ some_digits_of (decimal n) (decimal-ne-nil n)

module _ (is_print : ℕ → Bool) where
  header-IsLine : (n : ℕ) → IsLine (header_line is_print n)
  unfolding header_line
  header-IsLine n = record {
    first = b'[';
    behind = b'L' ∷ (decimal n ++ b']' ∷ []);
    before = b'[' ∷ b'L' ∷ decimal n;
    last = b']';
    starts = refl;
    ends = refl;
    first_plain = record { above = omega arith; below = omega arith };
    last_plain = record { above = omega arith; below = omega arith };
    one_line = (
      omega arith,
      (
        omega arith,
        HasNoNewline-append (decimal n) (b']' ∷ [])
            (digits-HasNoNewline (decimal n) (decimal-IsDigits n)) (omega arith),
      ),
    );
  }

  header_short : (n : ℕ) → n < max_levels → length (header_line is_print n) ≤ max_line
  unfolding header_line decimal
  header_short zero h = omega arith
  header_short (suc zero) h = omega arith
  header_short (suc (suc n)) h = absurd (omega arith)

  manifest_loop-header :
      (s : ManifestState) (n : ℕ) (rest : Bytes)
      → n < max_levels
      → manifest_loop s (split_lines (header_line is_print n ++ (10 ∷ rest)))
        ≡ manifest_loop (open_level s n) (split_lines rest)
  unfolding read_trimmed read_header header_line
  manifest_loop-header s n rest h =
      let range : leb (2 ^ 63) n ≡ false = ground arith in
      manifest_loop-line s (header_line is_print n) rest (header-IsLine n) (header_short n h)
      ∙ rw (read_trimmed, level_header-line n, read_header, digits_value-decimal n, range) refl

  manifest_loop-blank :
      (s : ManifestState) (rest : Bytes)
      → manifest_loop s (split_lines (10 ∷ rest)) ≡ manifest_loop s (split_lines rest)
  unfolding manifest_loop split_lines drop_cr trim_space read_trimmed read_manifest_line
  manifest_loop-blank s rest = refl

  -- What is said of the tables of a level that is written.
  pub record AreWritable (l : SstableLevel) (ts : List Bytes) : Type 0 where
    pub names : All IsName ts
    pub ranges : All (HasRange is_print l) ts
    pub short : All (λ t. length (manifest_line is_print l t) ≤ max_line) ts

  -- the tables are added, with their ranges if the level keeps them
  abbrev add_tables : Bool → SstableLevel → SstableLevel → List Bytes → SstableLevel
  add_tables ranged l into [] = into
  add_tables ranged l into (t ∷ ts) =
      add_tables ranged l (add_table into (t, if ranged then lookup t l.key_ranges else none)) ts

  manifest_loop-tables :
      (ls : List SstableLevel) (into l : SstableLevel) (ts : List Bytes) (rest : Bytes)
      → AreWritable l ts
      → into.level ≡ l.level
      → manifest_loop
          (record { levels = ls; current = some into })
          (split_lines (table_lines is_print l ts ++ rest))
        ≡ manifest_loop
            (record { levels = ls; current = some (add_tables (l.level == 1) l into ts) })
            (split_lines rest)
  unfolding table_lines add_table
  manifest_loop-tables ls into l [] rest w same = refl
  manifest_loop-tables ls into l (t ∷ ts) rest w same =
      let line = manifest_line is_print l t in
      let more = table_lines is_print l ts in
      let s : ManifestState = record { levels = ls; current = some into } in
      ap (λ (x : Bytes). manifest_loop s (split_lines x)) (append_assoc line (10 ∷ more) rest)
      ∙ manifest_loop-line s line (more ++ rest)
          (manifest_line-IsLine is_print l t w.names.0 w.ranges.0) w.short.0
      ∙ ap (λ (r : Result ManifestState). r >>= λ s'. manifest_loop s' (split_lines (more ++ rest)))
          (read_trimmed-manifest_line is_print ls into l t w.names.0 w.ranges.0 same)
      ∙ manifest_loop-tables ls (add_table into (t, range_written is_print l t)) l ts rest
          (record { names = w.names.1; ranges = w.ranges.1; short = w.short.1 }) same

  -- A level as it is read back: without bloom filters, and with the ranges of its tables on level 1.
  abbrev pub stored_level : SstableLevel → SstableLevel
  stored_level l = record {
    tables = l.tables;
    bloom_filters = [];
    key_ranges = if l.level == 1 then prune_ranges l.key_ranges [] l.tables else [];
    level = l.level;
  }

  add_tables-eq :
      (ranged : Bool) (l into : SstableLevel) (ts : List Bytes)
      → add_tables ranged l into ts ≡ record into {
        tables = into.tables ++ ts;
        key_ranges =
            if ranged then prune_ranges l.key_ranges into.key_ranges ts else into.key_ranges;
      }
  unfolding add_table prune_ranges keep_range
  add_tables-eq true l into [] =
      ap (λ (ts : List Bytes). record into { tables = ts }) (sym (append-nil into.tables))
  add_tables-eq false l into [] =
      ap (λ (ts : List Bytes). record into { tables = ts }) (sym (append-nil into.tables))
  add_tables-eq true l into (t ∷ ts) =
      add_tables-eq true l (add_table into (t, lookup t l.key_ranges)) ts
      ∙ ap
          (λ (us : List Bytes). record into {
            tables = us;
            key_ranges =
                prune_ranges l.key_ranges (keep_range into.key_ranges t (lookup t l.key_ranges)) ts;
          })
          (append_assoc into.tables (t ∷ []) ts)
  add_tables-eq false l into (t ∷ ts) =
      add_tables-eq false l (add_table into (t, none)) ts
      ∙ ap (λ (us : List Bytes). record into { tables = us }) (append_assoc into.tables (t ∷ []) ts)

  pub record IsWritable (l : SstableLevel) : Type 0 where
    pub number : l.level < max_levels
    pub tables : AreWritable l l.tables

  -- The lines of a level are read as the level.
  manifest_loop-level :
      (s : ManifestState) (l : SstableLevel) (rest : Bytes)
      → IsWritable l
      → manifest_loop s (
          split_lines (
            header_line is_print l.level
            ++ (10 ∷ (table_lines is_print l l.tables ++ (10 ∷ rest)))))
        ≡ manifest_loop
            (record { levels = close_level s; current = some (stored_level l) })
            (split_lines rest)
  unfolding open_level
  manifest_loop-level s l rest w =
      manifest_loop-header s l.level (table_lines is_print l l.tables ++ (10 ∷ rest)) w.number
      ∙ manifest_loop-tables (close_level s) (empty_level l.level) l l.tables (10 ∷ rest) w.tables
          refl
      ∙ manifest_loop-blank
          (record {
            levels = close_level s;
            current = some (add_tables (l.level == 1) l (empty_level l.level) l.tables);
          })
          rest
      ∙ ap
          (λ (x : SstableLevel).
            manifest_loop (record { levels = close_level s; current = some x }) (split_lines rest))
          (add_tables-eq (l.level == 1) l (empty_level l.level) l.tables)

  manifest_loop-text :
      (s : ManifestState) (ls : List SstableLevel)
      → All IsWritable ls
      → manifest_loop s (split_lines (manifest_text is_print ls))
        ≡ ok (close_level s ++ map stored_level ls)
  unfolding manifest_text manifest_loop split_lines
  manifest_loop-text s [] w = ap ok (sym (append-nil (close_level s)))
  manifest_loop-text s (l ∷ ls) w =
      manifest_loop-level s l (manifest_text is_print ls) w.0
      ∙ manifest_loop-text (record { levels = close_level s; current = some (stored_level l) }) ls
          w.1
      ∙ ap ok (append_assoc (close_level s) (stored_level l ∷ []) (map stored_level ls))

  pub get_all_sstables-manifest_text :
      (ls : List SstableLevel)
      → All IsWritable ls
      → get_all_sstables true (some (manifest_text is_print ls)) ≡ ok (map stored_level ls)
  unfolding get_all_sstables close_level
  get_all_sstables-manifest_text ls w =
      manifest_loop-text (record { levels = []; current = none }) ls w
