-- ===== src/Store/Manifest/Parts.antt =====
-- Names, tabs and rounds of the loop in the reading of a manifest.
use k_lsm_engine.Prelude.{
  ℕ, ◌≤◌, ◌≡◌, ◌≢◌, inl, inr, refl, true, false, none, [], ◌∷◌, ◌++◌, length, All, arith, ◌==◌,
  ==-eq-false, le→ltb, Bool-cases, Bytes, str_lt, ok, ◌>>=◌,
}
use k_lsm_engine.Std.Json.{HasNoNewline}
use k_lsm_engine.Std.Quote.Escapes.{AreBytes, IsGraphic}
use k_lsm_engine.Std.Trim.{IsPlain}
use k_lsm_engine.Std.Scanner.{split_lines, max_line, split_lines-line}
use k_lsm_engine.Std.Line.{IsLine, trim_space-line, drop_cr-line, plain-IsEnded, plain-HasNoNewline}
use k_lsm_engine.Store.{SstableKeyRange}
use k_lsm_engine.Store.Manifest.{
  level_header, split_tabs, contains_tab, parse_manifest_table, ManifestState, read_trimmed,
  read_table_line, read_manifest_line, manifest_loop,
}

-- A round of the loop.
pub manifest_loop-line :
    (s : ManifestState) (line rest : Bytes)
    → IsLine line
    → length line ≤ max_line
    → manifest_loop s (split_lines (line ++ (10 ∷ rest)))
      ≡ (read_trimmed s line >>= λ s'. manifest_loop s' (split_lines rest))
unfolding manifest_loop read_manifest_line
manifest_loop-line s line rest h short =
    rw
      (
        split_lines-line line rest h.one_line,
        manifest_loop,
        le→ltb (length line) max_line short,
        drop_cr-line line h,
        trim_space-line line h,
      )
      refl

-- the name of a table, such as sst-1.db
abbrev pub IsName : Bytes → Type 0
IsName [] = ⊥
IsName (b ∷ s) = (b ≢ b'[') × IsPlain b × All IsPlain s

abbrev pub HasNoTab : Bytes → Type 0
HasNoTab s = All (λ b. b ≢ 9) s

pub plain-HasNoTab : (s : Bytes) → All IsPlain s → HasNoTab s
plain-HasNoTab [] h = tt
plain-HasNoTab (b ∷ s) h = ((omega (arith, h.0.above)), plain-HasNoTab s h.1)

pub graphic-HasNoNewline : (s : Bytes) → IsGraphic s → HasNoNewline s
graphic-HasNoNewline [] h = tt
graphic-HasNoNewline (b ∷ s) h = ((omega arith), graphic-HasNoNewline s h.1)

pub graphic-HasNoTab : (s : Bytes) → IsGraphic s → HasNoTab s
graphic-HasNoTab [] h = tt
graphic-HasNoTab (b ∷ s) h = ((omega arith), graphic-HasNoTab s h.1)

pub name-IsLine : (name : Bytes) → IsName name → IsLine name
name-IsLine [] h = absurd h
name-IsLine (b ∷ s) h =
    let e = plain-IsEnded b s h.1 h.2 in
    record {
      first = b;
      behind = s;
      before = e.before;
      last = e.last;
      starts = refl;
      ends = e.ends;
      first_plain = h.1;
      last_plain = e.plain;
      one_line = ((omega (arith, h.1.above)), plain-HasNoNewline s h.2);
    }

pub contains_tab-no : (s : Bytes) → HasNoTab s → contains_tab s ≡ false
unfolding contains_tab
contains_tab-no [] h = refl
contains_tab-no (b ∷ s) h = rw (==-eq-false b 9 h.0) (contains_tab-no s h.1)

pub contains_tab-append : (s rest : Bytes) → contains_tab (s ++ (9 ∷ rest)) ≡ true
unfolding contains_tab
contains_tab-append [] rest = refl
contains_tab-append (b ∷ s) rest = ground (arith, contains_tab-append s rest)

pub split_tabs-last : (s : Bytes) → HasNoTab s → split_tabs s ≡ s ∷ []
unfolding split_tabs
split_tabs-last [] h = refl
split_tabs-last (b ∷ s) h = rw (==-eq-false b 9 h.0, split_tabs-last s h.1) refl

pub split_tabs-part :
    (s rest : Bytes) → HasNoTab s → split_tabs (s ++ (9 ∷ rest)) ≡ s ∷ split_tabs rest
unfolding split_tabs
split_tabs-part [] rest h = refl
split_tabs-part (b ∷ s) rest h = rw (==-eq-false b 9 h.0, split_tabs-part s rest h.1) refl

pub record IsRange (r : SstableKeyRange) : Type 0 where
  pub min_bytes : AreBytes r.min
  pub max_bytes : AreBytes r.max
  pub ordered : str_lt r.max r.min ≡ false

pub name_header : (name rest : Bytes) → IsName name → level_header (name ++ rest) ≡ none
unfolding level_header
name_header [] rest h = absurd h
name_header (b ∷ []) [] h = refl
name_header (b ∷ []) (c ∷ rest) h = rw (==-eq-false b 91 h.0) refl
name_header (b ∷ c ∷ s) rest h = rw (==-eq-false b 91 h.0) refl

pub parse_unranged :
    (n : ℕ) (name : Bytes) → (n == 1) ≡ false → parse_manifest_table name n ≡ ok (name, none)
unfolding parse_manifest_table
parse_unranged n name other = rw other refl

pub parse_untabbed :
    (n : ℕ) (name : Bytes) → HasNoTab name → parse_manifest_table name n ≡ ok (name, none)
unfolding parse_manifest_table
parse_untabbed n name h = elim (Bool-cases (n == 1)) [
  | inl one ↦ rw (one, contains_tab-no name h) refl
  | inr other ↦ rw other refl
]

-- A line that is no header belongs to a table.
pub read_trimmed_line :
    (s : ManifestState) (line : Bytes) (b : ℕ) (behind : Bytes)
    → line ≡ b ∷ behind
    → level_header line ≡ none
    → read_trimmed s line ≡ read_table_line s s.current line
unfolding read_trimmed
read_trimmed_line s [] b behind e h = cc
read_trimmed_line s (c ∷ line) b behind e h = rw (read_trimmed, h) refl
