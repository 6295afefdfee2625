-- ===== src/Store/Manifest/Tables.antt =====
-- The line of a table in the manifest, written and read.
use k_lsm_engine.Prelude.{
  ℕ, ◌≡◌, inl, inr, refl, sym, ap, ◌∙◌, Bool, true, Option, none, some, List, [], ◌∷◌, ◌++◌, length,
  arith, ◌==◌, append-nil, if◌then◌else◌, Bool-cases, Option-cases, Bytes, Result, ok, ◌>>=◌,
}
use k_lsm_engine.Std.Json.{HasNoNewline, HasNoNewline-append}
use k_lsm_engine.Std.Quote.{quote, quote_body}
use k_lsm_engine.Std.Quote.RoundTrip.{quote-IsGraphic, unquote-quote}
use k_lsm_engine.Std.Line.{IsLine, IsEnded, IsEnded-cons, IsEnded-append, plain-HasNoNewline}
use k_lsm_engine.Store.{SstableLevel, SstableKeyRange, lookup}
use k_lsm_engine.Store.Manifest.{
  level_header, split_tabs, parse_ranged, parse_manifest_table, add_table, read_trimmed,
  read_table_line, ranged_line, manifest_line,
}
use k_lsm_engine.Store.Manifest.Parts.{
  IsName, plain-HasNoTab, graphic-HasNoNewline, graphic-HasNoTab, name-IsLine, contains_tab-append,
  split_tabs-last, split_tabs-part, IsRange, name_header, parse_unranged, parse_untabbed,
  read_trimmed_line,
}

module _ (is_print : ℕ → Bool) where
  quote-IsEnded : (s : Bytes) → IsEnded (quote is_print s)
  unfolding quote
  quote-IsEnded s = IsEnded-cons 34 (quote_body is_print (length s) s ++ 34 ∷ []) (record {
    before = quote_body is_print (length s) s;
    last = 34;
    ends = refl;
    plain = record { above = omega arith; below = omega arith };
  })

  ranged-IsLine :
      (name : Bytes) (r : SstableKeyRange)
      → IsName name
      → IsRange r
      → IsLine (ranged_line is_print name (some r))
  unfolding ranged_line
  ranged-IsLine [] r h k = absurd h
  ranged-IsLine (b ∷ s) r h k =
      let min = quote is_print r.min in
      let max = quote is_print r.max in
      let behind = s ++ (9 ∷ (min ++ (9 ∷ max))) in
      let e : IsEnded ((b ∷ s) ++ (9 ∷ (min ++ (9 ∷ max)))) =
        IsEnded-append (b ∷ s) (9 ∷ (min ++ (9 ∷ max))) (
          IsEnded-cons 9 (min ++ (9 ∷ max))
            (IsEnded-append min (9 ∷ max) (IsEnded-cons 9 max (quote-IsEnded r.max)))) in
      let texts : HasNoNewline (9 ∷ (min ++ (9 ∷ max))) = (
        omega arith,
        HasNoNewline-append min (9 ∷ max)
            (graphic-HasNoNewline min (quote-IsGraphic is_print r.min k.min_bytes))
            (omega arith, graphic-HasNoNewline max (quote-IsGraphic is_print r.max k.max_bytes)),
      ) in
      record {
        first = b;
        behind = behind;
        before = e.before;
        last = e.last;
        starts = refl;
        ends = e.ends;
        first_plain = h.1;
        last_plain = e.plain;
        one_line = (
          omega (arith, h.1.above),
          HasNoNewline-append s (9 ∷ (min ++ (9 ∷ max))) (plain-HasNoNewline s h.2) texts,
        );
      }

  -- A line with a range is read back.
  parse_ranged-line :
      (n : ℕ) (name : Bytes) (r : SstableKeyRange)
      → IsName name
      → IsRange r
      → (n == 1) ≡ true
      → parse_manifest_table (ranged_line is_print name (some r)) n ≡ ok (name, some r)
  unfolding ranged_line parse_manifest_table parse_ranged
  parse_ranged-line n [] r h k one = absurd h
  parse_ranged-line n (b ∷ s) r h k one =
      let min = quote is_print r.min in
      let max = quote is_print r.max in
      let min_tabs = graphic-HasNoTab min (quote-IsGraphic is_print r.min k.min_bytes) in
      let max_tabs = graphic-HasNoTab max (quote-IsGraphic is_print r.max k.max_bytes) in
      let split : split_tabs ((b ∷ s) ++ (9 ∷ (min ++ (9 ∷ max)))) ≡ (b ∷ s) ∷ min ∷ max ∷ [] =
        split_tabs-part (b ∷ s) (min ++ (9 ∷ max)) (plain-HasNoTab (b ∷ s) (h.1, h.2))
        ∙ ap (◌∷◌ (b ∷ s))
            (split_tabs-part min max min_tabs ∙ ap (◌∷◌ min) (split_tabs-last max max_tabs)) in
      let tab = contains_tab-append (b ∷ s) (min ++ (9 ∷ max)) in
      rw
        (
          one,
          tab,
          split,
          unquote-quote is_print r.min k.min_bytes,
          unquote-quote is_print r.max k.max_bytes,
          k.ordered,
        )
        refl

  -- What is said of the range of a table, if it has one.
  abbrev pub HasRange : SstableLevel → Bytes → Type 0
  HasRange l name = (r : SstableKeyRange) → lookup name l.key_ranges ≡ some r → IsRange r

  -- the range that is written
  abbrev pub range_written : SstableLevel → Bytes → Option SstableKeyRange
  range_written l name = if l.level == 1 then lookup name l.key_ranges else none

  pub manifest_line-IsLine :
      (l : SstableLevel) (name : Bytes)
      → IsName name
      → HasRange l name
      → IsLine (manifest_line is_print l name)
  unfolding manifest_line ranged_line
  manifest_line-IsLine l name h k = elim (Bool-cases (l.level == 1)) [
    | inr other ↦ rw other (name-IsLine name h)
    | inl one ↦ elim (Option-cases (lookup name l.key_ranges)) [
      | inl none_there ↦ rw (one, none_there) (name-IsLine name h)
      | inr (r, there) ↦ rw (one, there) (ranged-IsLine name r h (k r there))
    ]
  ]

  parse_written :
      (n : ℕ) (name : Bytes) (o : Option SstableKeyRange)
      → IsName name
      → ((r : SstableKeyRange) → o ≡ some r → IsRange r)
      → (n == 1) ≡ true
      → parse_manifest_table (ranged_line is_print name o) n ≡ ok (name, o)
  unfolding ranged_line
  parse_written n [] none h k one = absurd h
  parse_written n (b ∷ s) none h k one =
      parse_untabbed n (b ∷ s) (plain-HasNoTab (b ∷ s) (h.1, h.2))
  parse_written n name (some r) h k one = parse_ranged-line n name r h (k r refl) one

  parse-manifest_line :
      (l : SstableLevel) (name : Bytes)
      → IsName name
      → HasRange l name
      → parse_manifest_table (manifest_line is_print l name) l.level
        ≡ ok (name, range_written l name)
  unfolding manifest_line
  parse-manifest_line l name h k = elim (Bool-cases (l.level == 1)) [
    | inl one ↦ rw one (parse_written l.level name (lookup name l.key_ranges) h k one)
    | inr other ↦ rw other (parse_unranged l.level name other)
  ]

  manifest_line-header :
      (l : SstableLevel) (name : Bytes)
      → IsName name
      → level_header (manifest_line is_print l name) ≡ none
  unfolding manifest_line ranged_line
  manifest_line-header l name h =
      let plain = ap level_header (sym (append-nil name)) ∙ name_header name [] h in
      elim (Bool-cases (l.level == 1)) [
        | inr other ↦ rw other plain
        | inl one ↦ elim (Option-cases (lookup name l.key_ranges)) [
          | inl none_there ↦ rw (one, none_there) plain
          | inr (r, there) ↦
              rw (one, there)
                (name_header name (9 ∷ (quote is_print r.min ++ (9 ∷ quote is_print r.max))) h)
        ]
      ]

  -- The line adds its table to the level that is read.
  pub read_trimmed-manifest_line :
      (ls : List SstableLevel) (into l : SstableLevel) (name : Bytes)
      → IsName name
      → HasRange l name
      → into.level ≡ l.level
      → read_trimmed (record { levels = ls; current = some into }) (manifest_line is_print l name)
        ≡ ok (record { levels = ls; current = some (add_table into (name, range_written l name)) })
  unfolding read_table_line
  read_trimmed-manifest_line ls into l name h k same =
      let line = manifest_line-IsLine l name h k in
      read_trimmed_line (record { levels = ls; current = some into })
        (manifest_line is_print l name) line.first line.behind line.starts
        (manifest_line-header l name h)
      ∙ ap
          (λ (n : ℕ). parse_manifest_table (manifest_line is_print l name) n >>= λ entry.
            ok (record { levels = ls; current = some (add_table into entry) }))
          same
      ∙ ap
          (λ (r : Result (Bytes × Option SstableKeyRange)).
            r >>= λ entry. ok (record { levels = ls; current = some (add_table into entry) }))
          (parse-manifest_line l name h k)
