-- ===== src/Client/Script.antt =====
-- How cmd/client/main.go reads a script into steps.
use k_lsm_engine.Prelude.{
  ℕ, suc, Bool, true, false, Option, none, some, List, [], ◌∷◌, length, ltb, ◌==◌, if◌then◌else◌,
  Bytes, str_eq, Result, ok, err, panicked, Error, empty_line, need_method_and_path, unknown_method,
}
use k_lsm_engine.Std.Fields.{fields, join, to_upper}
use k_lsm_engine.Std.Scanner.{split_lines, drop_cr, max_line}
use k_lsm_engine.Std.Trim.{trim_space}
use k_lsm_engine.Server.{method_get, method_put, method_delete}
use k_lsm_engine.Gen.Script.{not_found}

abbrev pub barrier : Bytes
barrier = b'B' ∷ b'A' ∷ b'R' ∷ b'R' ∷ b'I' ∷ b'E' ∷ b'R' ∷ []

pub record Step : Type 0 where
  pub kind : Bytes
  pub path : Bytes
  pub payload : Bytes
  pub expected : List Bytes
  pub expect_not_found : Bool
  pub line_no : ℕ
  pub raw : Bytes

-- the zero value but for the kind and the path
abbrev pub step_of : Bytes → Bytes → Step
step_of kind path = record {
  kind = kind;
  path = path;
  payload = [];
  expected = [];
  expect_not_found = false;
  line_no = 0;
  raw = [];
}

-- "k" becomes "/k"
unfoldable pub normalize : Bytes → Bytes
normalize [] = b'/' ∷ []
normalize (c ∷ path) = if c == b'/' then c ∷ path else b'/' ∷ c ∷ path

module _ (upper_rune : ℕ → ℕ) where
  unfoldable pub get_step : Bytes → List Bytes → Step
  get_step path [] = step_of method_get path
  get_step path (word ∷ words) =
      if str_eq (to_upper upper_rune word) not_found
      then record (step_of method_get path) { expect_not_found = true }
      else record (step_of method_get path) { expected = word ∷ words }

  -- the switch on the command
  unfoldable pub parse_command : Bytes → Bytes → List Bytes → Result Step
  unfolding get_step join
  parse_command cmd path words =
      if str_eq cmd method_put
      then ok (record (step_of method_put path) { payload = join (b' ' ∷ []) words })
      else if str_eq cmd method_get
      then ok (get_step path words)
      else if str_eq cmd method_delete
      then ok (step_of method_delete path)
      else err unknown_method

  unfoldable pub parse_path : Bytes → List Bytes → Result Step
  unfolding parse_command normalize
  parse_path cmd [] = err need_method_and_path
  parse_path cmd (path ∷ words) = parse_command cmd (normalize path) words

  unfoldable pub parse_parts : List Bytes → Result Step
  unfolding parse_path
  parse_parts [] = err empty_line
  parse_parts (first ∷ parts) =
      let cmd = to_upper upper_rune first in
      if str_eq cmd barrier then ok (step_of barrier []) else parse_path cmd parts

  unfoldable pub parse_line : Bytes → Result Step
  unfolding parse_parts
  parse_line line = parse_parts (fields line)

-- What is printed: the number and the text of the line, and what is wrong.
pub data Problem : Type 0 where
  parse_error : Error → Problem
  request_error : Problem
  bad_status : ℕ → Problem
  mismatch : Bytes → Problem
  expected_404 : ℕ → Problem
  expected_one_of : List Bytes → Bytes → Problem
  unsupported : Bytes → Problem

pub record Report : Type 0 where
  pub line_no : ℕ
  pub line : Bytes
  pub problem : Problem

abbrev pub report : Step → Problem → Report
report st problem = record { line_no = st.line_no; line = st.raw; problem = problem }

unfoldable pub is_comment : Bytes → Bool
is_comment [] = true
is_comment (c ∷ line) = c == b'#'

-- A line that is read is a step or a report.
unfoldable pub keep_line :
    ℕ → Bytes → Result Step → List Report × List Step → List Report × List Step
keep_line n line (ok st) (reports, steps) = (reports, record st { line_no = n; raw = line } ∷ steps)
keep_line n line (err e) (reports, steps) =
    (record { line_no = n; line = line; problem = parse_error e } ∷ reports, steps)
keep_line n line panicked (reports, steps) = (reports, steps)

module _ (upper_rune : ℕ → ℕ) where
  -- a line that is not too long
  unfoldable pub read_step : ℕ → Bytes → List Report × List Step → List Report × List Step
  unfolding is_comment keep_line
  read_step n line rest =
      let text = trim_space line in
      if is_comment text then rest else keep_line n text (parse_line upper_rune text) rest

  -- The reports so far are printed even if a line is too long; the steps are then dropped. The
  -- last component tells whether all lines were read.
  unfoldable pub read_lines : ℕ → List Bytes → (List Report × List Step) × Bool
  unfolding read_step
  read_lines n [] = (([], []), true)
  read_lines n (line ∷ lines) =
      let rest = read_lines (suc n) lines in
      if ltb max_line (length line)
      then (([], []), false)
      else (read_step (suc n) (drop_cr line) rest.0, rest.1)

  -- The steps are none where `readSteps` returns an error.
  unfoldable pub read_steps : Bytes → List Report × Option (List Step)
  unfolding read_lines
  read_steps text =
      let (lines, whole) = read_lines 0 (split_lines text) in
      (lines.0, if whole then some lines.1 else none)
