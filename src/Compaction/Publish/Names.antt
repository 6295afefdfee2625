-- ===== src/Compaction/Publish/Names.antt =====
-- Tables with different numbers have different names.
use k_lsm_engine.Prelude.{
  ℕ, ◌-◌, ◌≡◌, ◌≢◌, sym, ap, ◌∙◌, false, ◌&&◌, Option, some, List, [], ◌∷◌, ◌++◌, length, take,
  drop, arith, ◌==◌, Bool-cases, inl, inr, Bytes, str_eq, str_eq_iff, length-append, take-append,
  All,
}
use k_lsm_engine.Std.Strconv.{decimal, digits_value, digits_value-decimal}
use k_lsm_engine.Store.{table_name, ss_table_ext}
use k_lsm_engine.Compaction.Merge.{NewTable}
use k_lsm_engine.Compaction.Publish.{names_of}
use k_lsm_engine.Compaction.Publish.Numbers.{AreDistinctFrom}

number_in : Bytes → Option ℕ
number_in name = digits_value 0 (take (length (drop 4 name) - 3) (drop 4 name))

number_in-table_name : (n : ℕ) → number_in (table_name n) ≡ some n
unfolding number_in table_name
number_in-table_name n =
    let digits : length (decimal n ++ ss_table_ext) - 3 ≡ length (decimal n) =
      omega (arith, length-append (decimal n) ss_table_ext) in
    rw (digits, take-append (decimal n) ss_table_ext) (digits_value-decimal n)

some-injective : (a b : ℕ) → some a ≡ some b → a ≡ b
some-injective a b h = cc

pub table_name-injective : (n m : ℕ) → table_name n ≡ table_name m → n ≡ m
table_name-injective n m h =
    some-injective n m (sym (number_in-table_name n) ∙ ap number_in h ∙ number_in-table_name m)

-- the file of a name on a level is none of the tables
abbrev pub IsOther : ℕ → Bytes → ℕ → List Bytes → Type 0
IsOther n name level tables = All (λ t. (n == level && str_eq name t) ≡ false) tables

pub other_of_ne :
    (n : ℕ) (name : Bytes) (level : ℕ) (t : Bytes)
    → name ≢ t
    → (n == level && str_eq name t) ≡ false
other_of_ne n name level t h = elim (Bool-cases (str_eq name t)) [
  | inl same ↦ absurd (h ((str_eq_iff name t).0 same))
  | inr ne ↦ rw ne (ground arith)
]

pub IsOther-names_of :
    (n : ℕ) (m : ℕ) (ts : List NewTable)
    → AreDistinctFrom m ts
    → IsOther n (table_name m) 1 (names_of ts)
IsOther-names_of n m [] h = tt
IsOther-names_of n m (t ∷ ts) h = (
  other_of_ne n (table_name m) 1 (table_name t.number)
      (λ e. h.0 (table_name-injective m t.number e)),
  IsOther-names_of n m ts h.1,
)
