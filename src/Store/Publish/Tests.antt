-- ===== src/Store/Publish/Tests.antt =====
-- The theorems on the manifest and on saving, at a store with a table on each level.
use mathlib.Core.Path.{subst}
use mathlib.Core.Option.{some-injective}
use k_lsm_engine.Prelude.{
  ℕ, ◌^◌, ◌≤◌, ◌<◌, ◌≡◌, ◌≢◌, refl, sym, Bool, true, none, some, List, [], ◌∷◌, map, All, arith,
  Bytes, str_lt, str_eq, ok,
}
use k_lsm_engine.Entry.{SstableEntry, entry_type_put}
use k_lsm_engine.Table.{is_empty, has_nul, not_above}
use k_lsm_engine.Table.Block.{IsTable}
use k_lsm_engine.Std.Strconv.{decimal, digits_value}
use k_lsm_engine.Std.Quote.{quote}
use k_lsm_engine.Std.Trim.{IsPlain}
use k_lsm_engine.Store.{
  SstableLevel, SstableKeyRange, lookup, get_level_sstables, get_sstable_index,
  get_next_sstable_index, get_new_sstable_name, find_level,
}
use k_lsm_engine.Store.Names.{get_new_sstable_name-fresh}
use k_lsm_engine.Store.Manifest.{get_all_sstables, sort_levels, manifest_text, manifest_line}
use k_lsm_engine.Store.Manifest.Parts.{IsName, IsRange}
use k_lsm_engine.Store.Manifest.RoundTrip.{IsWritable, stored_level, get_all_sstables-manifest_text}
use k_lsm_engine.Store.Publish.{
  Disk, ManifestFault, rename_fails, table_fails, with_table, Outcomes, save_level0_sstable_entries,
}
use k_lsm_engine.Store.Publish.Saved.{IsSaved, save_level0_sstable_entries-IsSaved}
use k_lsm_engine.Store.Publish.Safe.{IsSafe, save_level0_sstable_entries-IsSafe}

-- "sst-1.db"
abbrev name : Bytes
name = b's' ∷ b's' ∷ b't' ∷ b'-' ∷ b'1' ∷ b'.' ∷ b'd' ∷ b'b' ∷ []

plain : (b : ℕ) → 33 ≤ b → b ≤ 126 → IsPlain b
plain b h k = record { above = h; below = k }

name-IsName : IsName name
name-IsName = (
  omega arith,
  plain b's' (omega arith) (omega arith),
  (
    plain b's' (omega arith) (omega arith),
    (
      plain b't' (omega arith) (omega arith),
      (
        plain b'-' (omega arith) (omega arith),
        (
          plain b'1' (omega arith) (omega arith),
          (
            plain b'.' (omega arith) (omega arith),
            (plain b'd' (omega arith) (omega arith), (plain b'b' (omega arith) (omega arith), tt)),
          ),
        ),
      ),
    ),
  ),
)

-- from "a\n" to "b"
abbrev range : SstableKeyRange
range = record { min = b'a' ∷ 10 ∷ []; max = b'b' ∷ [] }

abbrev level0 : SstableLevel
level0 = record { tables = name ∷ []; bloom_filters = []; key_ranges = []; level = 0 }

abbrev level1 : SstableLevel
level1 = record {
  tables = name ∷ [];
  bloom_filters = [];
  key_ranges = (name, range) ∷ [];
  level = 1;
}

abbrev all_print : ℕ → Bool
all_print r = true

range-IsRange : IsRange range
unfolding str_lt
range-IsRange = record { min_bytes = omega arith; max_bytes = omega arith; ordered = refl }

level0-IsWritable : IsWritable all_print level0
unfolding manifest_line lookup
level0-IsWritable = record {
  number = omega arith;
  tables = record { names = (name-IsName, tt); ranges = ((λ r h. cc), tt); short = omega arith };
}

level1-IsWritable : IsWritable all_print level1
unfolding manifest_line lookup str_eq quote
level1-IsWritable = record {
  number = omega arith;
  tables = record {
    names = (name-IsName, tt);
    ranges = ((λ r h. subst IsRange (some-injective _ _ h) range-IsRange), tt);
    short = omega arith;
  };
}

get_all_sstables-manifest_text_example :
    get_all_sstables true (some (manifest_text all_print (level0 ∷ level1 ∷ [])))
    ≡ ok (map (stored_level all_print) (level0 ∷ level1 ∷ []))
get_all_sstables-manifest_text_example =
    get_all_sstables-manifest_text all_print (level0 ∷ level1 ∷ [])
      (level0-IsWritable, (level1-IsWritable, tt))

next_is_small : get_next_sstable_index (get_level_sstables (level0 ∷ level1 ∷ []) 0) < 2 ^ 63
unfolding get_next_sstable_index get_level_sstables get_sstable_index str_eq digits_value
next_is_small = omega arith

get_new_sstable_name-fresh_example :
    (get_sstable_index (get_new_sstable_name (level0 ∷ level1 ∷ []) 0)
      ≡ get_next_sstable_index (get_level_sstables (level0 ∷ level1 ∷ []) 0))
    × All
        (λ t. t ≢ get_new_sstable_name (level0 ∷ level1 ∷ []) 0)
        (get_level_sstables (level0 ∷ level1 ∷ []) 0)
get_new_sstable_name-fresh_example =
    get_new_sstable_name-fresh (level0 ∷ level1 ∷ []) 0 next_is_small

-- A store with no table yet.
abbrev empty_disk : Disk
empty_disk = record { tables = λ n other. none; sidecars = λ n other. none; manifest = none }

abbrev sum_bytes : Bytes → ℕ
sum_bytes [] = 0
sum_bytes (b ∷ bs) = b

-- "a" has the value "1".
abbrev sample : List SstableEntry
sample = record { k = b'a' ∷ []; v = b'1' ∷ []; type = entry_type_put } ∷ []

sample-IsTable : IsTable none sample
unfolding not_above is_empty has_nul str_lt
sample-IsTable = (
  refl,
  record {
    key = record { filled = refl; fits = omega arith; no_nul = refl };
    value = record { filled = refl; fits = omega arith; no_nul = refl };
  },
  tt,
)

with_name : sort_levels (with_table [] 0 (get_new_sstable_name [] 0)) ≡ level0 ∷ []
unfolding sort_levels with_table get_new_sstable_name find_level decimal
with_name = refl

no_manifest : get_all_sstables true none ≡ ok []
unfolding get_all_sstables
no_manifest = refl

save_level0_sstable_entries-IsSaved_example : IsSaved sum_bytes all_print empty_disk [] [] sample
save_level0_sstable_entries-IsSaved_example =
    save_level0_sstable_entries-IsSaved sum_bytes all_print empty_disk [] [] sample sample-IsTable
      (omega arith) no_manifest
      (subst (λ (ls : List SstableLevel). All (IsWritable all_print) ls) (sym with_name)
        (level0-IsWritable, tt))

-- The rename of the file fails, and then the removal.
abbrev faults : Outcomes
faults = record {
  table = rename_fails;
  manifest_opens = true;
  manifest = ManifestFault.before_rename;
  remove = table_fails;
}

save_level0_sstable_entries-IsSafe_example :
    IsSafe sum_bytes all_print faults empty_disk []
      (save_level0_sstable_entries sum_bytes all_print faults empty_disk [] sample)
save_level0_sstable_entries-IsSafe_example =
    save_level0_sstable_entries-IsSafe sum_bytes all_print faults empty_disk [] sample
