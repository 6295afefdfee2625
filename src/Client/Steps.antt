-- ===== src/Client/Steps.antt =====
-- The steps that the client reads from the lines of the generator.
use mathlib.Core.Path.{subst}
use k_lsm_engine.Prelude.{
  ℕ, suc, ◌≤◌, ◌≡◌, ◌≢◌, refl, ap, ◌∙◌, true, [], ◌∷◌, ◌++◌, length, All, arith, append_assoc,
  length-append, le→ltb, Bytes, ok,
}
use k_lsm_engine.Std.Json.{HasNoNewline-append}
use k_lsm_engine.Std.Line.{
  IsEnded, IsEnded-append, plain-IsEnded, plain-HasNoNewline, trim_space-line, drop_cr-line,
}
use k_lsm_engine.Std.Trim.{IsPlain}
use k_lsm_engine.Std.Scanner.{split_lines, max_line, split_lines-line}
use k_lsm_engine.Server.{method_get, method_put, method_delete}
use k_lsm_engine.Gen.Draws.{State}
use k_lsm_engine.Gen.Valid.{IsKey, IsValue}
use k_lsm_engine.Gen.Script.{not_found, format_get, format_not_found, format_put, format_delete}
use k_lsm_engine.Gen.Ops.{Op, put, found, missing, delete, op_text, IsLegal}
use k_lsm_engine.Client.Script.{parse_line, Step, step_of, keep_line, read_step, read_lines}
use k_lsm_engine.Client.Lines.{
  IsCommand, letters-AllPlain, digits-AllPlain, command-AllPlain, parse_put, parse_get,
  parse_not_found, parse_delete, IsStepLine, command-IsStepLine,
}

unfoldable pub op_step : Op → Step
op_step (put k v) = record (step_of method_put (b'/' ∷ k)) { payload = v }
op_step (found k v) = record (step_of method_get (b'/' ∷ k)) { expected = v ∷ [] }
op_step (missing k) = record (step_of method_get (b'/' ∷ k)) { expect_not_found = true }
op_step (delete k) = step_of method_delete (b'/' ∷ k)

words-IsEnded : (w : Bytes) → w ≢ [] → All IsPlain w → IsEnded w
words-IsEnded [] n h = absurd (n refl)
words-IsEnded (b ∷ w) n h = plain-IsEnded b w h.0 h.1

-- a word of some length
record IsWord (w : Bytes) : Type 0 where
  some_byte : w ≢ []
  plain : All IsPlain w
  short : length w ≤ 2000

module _ (upper_rune : ℕ → ℕ) where
  -- a line of a command, a key, and a value or NOT_FOUND
  three-IsStepLine :
      (first : ℕ) (cmd k v : Bytes) (st : Step)
      → IsCommand (first ∷ cmd)
      → length cmd ≤ 100
      → IsKey k
      → IsWord v
      → parse_line upper_rune ((first ∷ cmd) ++ 32 ∷ (k ++ 32 ∷ v)) ≡ ok st
      → IsStepLine upper_rune ((first ∷ cmd) ++ 32 ∷ (k ++ 32 ∷ (v ++ 10 ∷ []))) st
  three-IsStepLine first cmd k v st hc short hk hv parsed =
      subst (λ s. IsStepLine upper_rune ((first ∷ cmd) ++ 32 ∷ s) st)
        (append_assoc k (32 ∷ v) (10 ∷ []))
        (command-IsStepLine upper_rune first cmd (k ++ 32 ∷ v) st hc
          (IsEnded-append k (32 ∷ v)
            (IsEnded-append (32 ∷ []) v (words-IsEnded v hv.some_byte hv.plain)))
          (HasNoNewline-append k (32 ∷ v) (plain-HasNoNewline k (letters-AllPlain k hk.letters))
            (omega arith, plain-HasNoNewline v hv.plain))
          (omega (arith, length-append k (32 ∷ v), hk.sized, hv.short)) parsed)

  value-IsWord : (v : Bytes) → IsValue v → IsWord v
  value-IsWord v h = record {
    some_byte = h.some_digit;
    plain = digits-AllPlain v h.digits;
    short = h.short;
  }

  pub op_text-IsStepLine :
      (σ : State) (op : Op) → IsLegal σ op → IsStepLine upper_rune (op_text op) (op_step op)
  unfolding op_text op_step IsLegal format_put format_get format_not_found format_delete
  op_text-IsStepLine σ (put k v) h =
      three-IsStepLine b'P' (b'U' ∷ b'T' ∷ []) k v (op_step (put k v)) (omega arith) (omega arith)
        h.0 (value-IsWord v h.1) (parse_put upper_rune k v h.0 h.1)
  op_text-IsStepLine σ (found k v) h =
      three-IsStepLine b'G' (b'E' ∷ b'T' ∷ []) k v (op_step (found k v)) (omega arith) (omega arith)
        h.0 (value-IsWord v h.1) (parse_get upper_rune k v h.0 h.1)
  op_text-IsStepLine σ (missing k) h =
      let word : IsCommand not_found = omega arith in
      three-IsStepLine b'G' (b'E' ∷ b'T' ∷ []) k not_found (op_step (missing k)) (omega arith)
        (omega arith) h.0
        (record {
          some_byte = λ e. cc;
          plain = command-AllPlain not_found word;
          short = omega arith;
        })
        (parse_not_found upper_rune k h.0)
  op_text-IsStepLine σ (delete k) h =
      let plain = letters-AllPlain k h.letters in
      command-IsStepLine upper_rune b'D' (b'E' ∷ b'L' ∷ b'E' ∷ b'T' ∷ b'E' ∷ []) k
        (op_step (delete k)) (omega arith) (words-IsEnded k h.some_letter plain)
        (plain-HasNoNewline k plain) (omega (arith, h.sized)) (parse_delete upper_rune k h)

  -- A line that is a step is read as the step, with its number and its text.
  pub read_lines-line :
      (n : ℕ) (text rest : Bytes) (st : Step) (h : IsStepLine upper_rune text st)
      → read_lines upper_rune n (split_lines (text ++ rest)) ≡ (
        (
          (read_lines upper_rune (suc n) (split_lines rest)).0.0,
          record st { line_no = suc n; raw = h.line }
              ∷ (read_lines upper_rune (suc n) (split_lines rest)).0.1,
        ),
        (read_lines upper_rune (suc n) (split_lines rest)).1,
      )
  unfolding read_lines read_step keep_line
  read_lines-line n text rest st h =
      ap (λ (t : Bytes). read_lines upper_rune n (split_lines t))
        (ap (λ (t : Bytes). t ++ rest) h.written ∙ append_assoc h.line (10 ∷ []) rest)
      ∙ rw
          (
            split_lines-line h.line rest h.is_line.one_line,
            read_lines,
            le→ltb (length h.line) max_line h.short,
            drop_cr-line h.line h.is_line,
            read_step,
            trim_space-line h.line h.is_line,
            h.step,
            h.parsed,
          )
          refl
