-- ===== src/Compaction/Merge/Opened.antt =====
-- The readers that `addTables` opens, and the sources that they are.
use mathlib.Core.Path.{subst}
use k_lsm_engine.Prelude.{
  ℕ, ◌+◌, ◌<◌, ◌≡◌, refl, sym, ap, ◌∙◌, true, Option, none, some, List, [], ◌∷◌, ◌++◌, All, arith,
  length, length-append, map, if◌then◌else◌, Bytes, ok, bind-inv, ok-injective, ◌>>=◌,
}
use k_lsm_engine.Entry.{SstableEntry}
use k_lsm_engine.Table.{BlockBasedTable, not_above}
use k_lsm_engine.Table.Block.{IsTable, stored}
use k_lsm_engine.Table.Open.{Holds}
use k_lsm_engine.SkipList.Insert.{get_elem?-append_left, get_elem?-append_last}
use k_lsm_engine.Compaction.{SstableReader, advance}
use k_lsm_engine.Compaction.Readers.{Yields, new_sstable_reader-Yields}
use k_lsm_engine.Compaction.Merge.{
  MergeState, item_of, entry_of, push_reader, add_table, add_tables,
}
use k_lsm_engine.Compaction.Merge.Least.{Source}
use k_lsm_engine.Compaction.Merge.Newest.{IsSource, IsMerge, IsAlone, RisesFrom}

-- A table file, and the entries it holds.
pub record StoredTable : Type 0 where
  pub entries : List SstableEntry
  pub file : Bytes
  pub table : BlockBasedTable
  pub holds : Holds entries file table
  pub valid : IsTable none entries

-- None where the file is missing.
abbrev pub files_of : List (Option StoredTable) → List (Option Bytes)
files_of [] = []
files_of (none ∷ ts) = none ∷ files_of ts
files_of (some t ∷ ts) = some t.file ∷ files_of ts

-- The sources that a table adds, with the number of readers.
abbrev pub open_table : ℕ → ℕ × List Source → List SstableEntry → ℕ × List Source
open_table level (n, ss) [] = (n, ss)
open_table level (n, ss) (e ∷ es) = (n + 1, record { item = item_of e n level; rest = es } ∷ ss)

abbrev pub open_tables : ℕ → ℕ × List Source → List (Option StoredTable) → ℕ × List Source
open_tables level opened [] = opened
open_tables level opened (none ∷ ts) = open_tables level opened ts
open_tables level opened (some t ∷ ts) =
    open_tables level (open_table level opened (map stored t.entries)) ts

stored_rises :
    (key : Bytes) (es : List SstableEntry) → IsTable (some key) es → RisesFrom key (map stored es)
unfolding stored not_above
stored_rises key [] h = tt
stored_rises key (e ∷ es) h = (ground (arith, h.0), stored_rises e.k es h.2)

pub nil_of : (es : List SstableEntry) → length es ≡ 0 → es ≡ []
nil_of [] h = refl
nil_of (e ∷ es) h = absurd (omega arith)

-- Before the loop nothing was taken, and the readers are the sources.
pub record IsOpened (st : MergeState) (opened : ℕ × List Source) : Type 0 where
  pub merge : IsMerge st opened.1
  pub count : length st.readers ≡ opened.0
  pub below : All (λ (s : Source). s.item.table_index < opened.0) opened.1
  pub first : st.first ≡ true
  pub chunk : st.chunk ≡ []
  pub new_tables : st.new_tables ≡ []

IsAlone-below :
    (n : ℕ) (s : Source) (ss : List Source)
    → s.item.table_index ≡ n
    → All (λ (s : Source). s.item.table_index < n) ss
    → IsAlone s ss
IsAlone-below n s [] e h = tt
IsAlone-below n s (x ∷ ss) e h = (λ same. omega (arith, h.0), IsAlone-below n s ss e h.1)

below-suc :
    (n : ℕ) (ss : List Source)
    → All (λ (s : Source). s.item.table_index < n) ss
    → All (λ (s : Source). s.item.table_index < n + 1) ss
below-suc n [] h = tt
below-suc n (x ∷ ss) h = (omega (arith, h.0), below-suc n ss h.1)

IsSource-append :
    (readers : List SstableReader) (r : SstableReader) (ss : List Source)
    → All (IsSource readers) ss
    → All (IsSource (readers ++ r ∷ [])) ss
IsSource-append readers r [] h = tt
IsSource-append readers r (s ∷ ss) h = (
  record {
    reader = h.0.reader;
    there = get_elem?-append_left readers (r ∷ []) s.item.table_index h.0.there;
    yields = h.0.yields;
    rises = h.0.rises;
  },
  IsSource-append readers r ss h.1,
)

push_reader_next :
    (st : MergeState) (level : ℕ) (r : SstableReader) (e : SstableEntry)
    → r.has_next ≡ true
    → r.entry ≡ some e
    → record st {
      readers = st.readers ++ r ∷ [];
      heap = item_of e (length st.readers) level ∷ st.heap;
    }
      ≡ push_reader st level r
unfolding push_reader
push_reader_next st level r e next entry =
    ap
      (λ (o : Option SstableEntry). record st {
        readers = st.readers ++ r ∷ [];
        heap = item_of (entry_of o) (length st.readers) level ∷ st.heap;
      })
      (sym entry)
    ∙ ap
        (λ b.
          if b
          then record st {
            readers = st.readers ++ r ∷ [];
            heap = item_of (entry_of r.entry) (length st.readers) level ∷ st.heap;
          }
          else st)
        (sym next)

push_reader-IsOpened :
    (st : MergeState) (opened : ℕ × List Source) (level : ℕ) (r : SstableReader) (e : SstableEntry)
    (es : List SstableEntry)
    → IsOpened st opened
    → r.has_next ≡ true
    → r.entry ≡ some e
    → Yields r es
    → RisesFrom e.k es
    → IsOpened (push_reader st level r) (open_table level opened (e ∷ es))
push_reader-IsOpened st opened level r e es o next entry yields rises =
    subst (λ (s : MergeState). IsOpened s (open_table level opened (e ∷ es)))
      (push_reader_next st level r e next entry)
      (record {
        merge = record {
          heap = rw (o.count, o.merge.heap) refl;
          sources = (
            record {
              reader = r;
              there = rw (← o.count) (get_elem?-append_last st.readers r);
              yields = yields;
              rises = rises;
            },
            IsSource-append st.readers r opened.1 o.merge.sources,
          );
          alone = (
            IsAlone-below opened.0 (record { item = item_of e opened.0 level; rest = es }) opened.1
                refl o.below,
            o.merge.alone,
          );
        };
        count = omega (arith, length-append st.readers (r ∷ []), o.count);
        below = (omega arith, below-suc opened.0 opened.1 o.below);
        first = o.first;
        chunk = o.chunk;
        new_tables = o.new_tables;
      })

advance-IsOpened :
    (st st' : MergeState) (opened : ℕ × List Source) (level : ℕ) (r : SstableReader)
    (es : List SstableEntry)
    → IsOpened st opened
    → IsTable none es
    → Yields r (map stored es)
    → (advance r >>= λ r'. ok (push_reader st level r')) ≡ ok st'
    → IsOpened st' (open_table level opened (map stored es))
unfolding push_reader stored
advance-IsOpened st st' opened level r [] o valid (r', runs, stop) h =
    subst (λ (s : MergeState). IsOpened s opened) (ok-injective _ _ (rw (runs, stop) at h)) o
advance-IsOpened st st' opened level r (e ∷ es) o valid (r', runs, next, entry, yields) h =
    subst (λ (s : MergeState). IsOpened s (open_table level opened (map stored (e ∷ es))))
      (ok-injective _ _ (rw runs at h))
      (push_reader-IsOpened st opened level r' (stored e) (map stored es) o next entry yields
        (stored_rises e.k es valid.2))

add_table-IsOpened :
    (st st' : MergeState) (opened : ℕ × List Source) (level : ℕ) (t : StoredTable)
    → IsOpened st opened
    → add_table st level (some t.file) ≡ ok st'
    → IsOpened st' (open_table level opened (map stored t.entries))
unfolding add_table
add_table-IsOpened st st' opened level t o h =
    let (r, opens, yields) = new_sstable_reader-Yields t.entries t.file t.table t.holds in
    advance-IsOpened st st' opened level r t.entries o t.valid yields (rw opens at h)

pub add_tables-IsOpened :
    (st st' : MergeState) (opened : ℕ × List Source) (level : ℕ) (ts : List (Option StoredTable))
    → IsOpened st opened
    → add_tables level st (files_of ts) ≡ ok st'
    → IsOpened st' (open_tables level opened ts)
unfolding add_tables add_table
add_tables-IsOpened st st' opened level [] o h =
    subst (λ (s : MergeState). IsOpened s opened) (ok-injective _ _ h) o
add_tables-IsOpened st st' opened level (none ∷ ts) o h =
    add_tables-IsOpened st st' opened level ts o h
add_tables-IsOpened st st' opened level (some t ∷ ts) o h =
    let (s₁, adds, h₁) = bind-inv (add_table st level (some t.file)) _ h in
    add_tables-IsOpened s₁ st' (open_table level opened (map stored t.entries)) level ts
      (add_table-IsOpened st s₁ opened level t o adds) h₁
