-- ===== src/Client/Lines.antt =====
-- The lines that the generator writes, as the client reads them.
use k_lsm_engine.Prelude.{
  ℕ, ◌+◌, ◌≤◌, ◌<◌, ◌≡◌, ◌≢◌, refl, sym, ap, ◌∙◌, true, false, [], ◌∷◌, ◌++◌, length, All, arith,
  ==-eq-false, Bytes, str_eq, ok, append_assoc, length-append,
}
use k_lsm_engine.Std.Json.{HasNoNewline, HasNoNewline-append}
use k_lsm_engine.Std.Line.{IsLine, IsEnded, IsEnded-append, plain-HasNoNewline}
use k_lsm_engine.Std.Trim.{IsPlain}
use k_lsm_engine.Std.Fields.{fields, fields-word, fields-last, join, to_upper-kept}
use k_lsm_engine.Std.Scanner.{max_line}
use k_lsm_engine.Std.Strconv.{IsDigits}
use k_lsm_engine.Server.{method_get, method_put, method_delete}
use k_lsm_engine.Gen.Valid.{IsKey, IsValue}
use k_lsm_engine.Gen.Script.{not_found}
use k_lsm_engine.Client.Script.{
  Step, step_of, normalize, parse_line, parse_parts, parse_path, parse_command, get_step,
  is_comment,
}

pub letters-AllPlain : (k : Bytes) → All (λ b. (97 ≤ b) × (b ≤ 122)) k → All IsPlain k
letters-AllPlain [] h = tt
letters-AllPlain (b ∷ k) h =
    (record { above = omega arith; below = omega arith }, letters-AllPlain k h.1)

pub digits-AllPlain : (v : Bytes) → IsDigits v → All IsPlain v
digits-AllPlain [] h = tt
digits-AllPlain (b ∷ v) h =
    (record { above = omega arith; below = omega arith }, digits-AllPlain v h.1)

digits-AllLow : (v : Bytes) → IsDigits v → All (λ b. b < 97) v
digits-AllLow [] h = tt
digits-AllLow (b ∷ v) h = (omega arith, digits-AllLow v h.1)

-- A line of three words, and one of two.
fields-three :
    (a b c : Bytes)
    → a ≢ []
    → b ≢ []
    → c ≢ []
    → All IsPlain a
    → All IsPlain b
    → All IsPlain c
    → fields (a ++ 32 ∷ (b ++ 32 ∷ c)) ≡ a ∷ b ∷ c ∷ []
fields-three [] b c na nb nc ha hb hc = absurd (na refl)
fields-three a [] c na nb nc ha hb hc = absurd (nb refl)
fields-three a b [] na nb nc ha hb hc = absurd (nc refl)
fields-three (x ∷ a) (y ∷ b) (z ∷ c) na nb nc ha hb hc =
    fields-word x a ((y ∷ b) ++ 32 ∷ (z ∷ c)) ha
    ∙ ap (◌∷◌ (x ∷ a)) (fields-word y b (z ∷ c) hb ∙ ap (◌∷◌ (y ∷ b)) (fields-last z c hc))

fields-two :
    (a b : Bytes)
    → a ≢ []
    → b ≢ []
    → All IsPlain a
    → All IsPlain b
    → fields (a ++ 32 ∷ b) ≡ a ∷ b ∷ []
fields-two [] b na nb ha hb = absurd (na refl)
fields-two a [] na nb ha hb = absurd (nb refl)
fields-two (x ∷ a) (y ∷ b) na nb ha hb =
    fields-word x a (y ∷ b) ha ∙ ap (◌∷◌ (x ∷ a)) (fields-last y b hb)

normalize-key : (k : Bytes) → IsKey k → normalize k ≡ b'/' ∷ k
unfolding normalize
normalize-key [] h = absurd (h.some_letter refl)
normalize-key (b ∷ k) h =
    let ne : b ≢ b'/' = omega (arith, h.letters.0.0) in rw (==-eq-false b b'/' ne) refl

-- the text of a command
abbrev pub IsCommand : Bytes → Type 0
IsCommand s = All (λ b. (65 ≤ b) × (b < 97)) s

pub command-AllPlain : (s : Bytes) → IsCommand s → All IsPlain s
command-AllPlain [] h = tt
command-AllPlain (b ∷ s) h =
    (record { above = omega arith; below = omega arith }, command-AllPlain s h.1)

command-AllLow : (s : Bytes) → IsCommand s → All (λ b. b < 97) s
command-AllLow [] h = tt
command-AllLow (b ∷ s) h = (h.0.1, command-AllLow s h.1)

module _ (upper_rune : ℕ → ℕ) where
  parse_three :
      (cmd k v : Bytes)
      → cmd ≢ []
      → IsCommand cmd
      → IsKey k
      → v ≢ []
      → All IsPlain v
      → parse_line upper_rune (cmd ++ 32 ∷ (k ++ 32 ∷ v))
        ≡ parse_parts upper_rune (cmd ∷ k ∷ v ∷ [])
  unfolding parse_line
  parse_three cmd k v nc hc hk nv hv = ap (parse_parts upper_rune) (
      fields-three cmd k v nc hk.some_letter nv (command-AllPlain cmd hc)
        (letters-AllPlain k hk.letters) hv)

  pub parse_put :
      (k v : Bytes)
      → IsKey k
      → IsValue v
      → parse_line upper_rune (method_put ++ 32 ∷ (k ++ 32 ∷ v))
        ≡ ok (record (step_of method_put (b'/' ∷ k)) { payload = v })
  unfolding parse_parts parse_path parse_command str_eq join
  parse_put k v hk hv =
      let command : IsCommand method_put = omega arith in
      parse_three method_put k v (λ e. cc) command hk hv.some_digit (digits-AllPlain v hv.digits)
      ∙ rw
          (
            to_upper-kept upper_rune method_put (command-AllLow method_put command),
            normalize-key k hk,
          )
          refl

  value-ne_not_found : (v : Bytes) → IsDigits v → str_eq v not_found ≡ false
  unfolding str_eq
  value-ne_not_found [] h = refl
  value-ne_not_found (b ∷ v) h = rw (==-eq-false b b'N' (omega arith)) refl

  pub parse_get :
      (k v : Bytes)
      → IsKey k
      → IsValue v
      → parse_line upper_rune (method_get ++ 32 ∷ (k ++ 32 ∷ v))
        ≡ ok (record (step_of method_get (b'/' ∷ k)) { expected = v ∷ [] })
  unfolding parse_parts parse_path parse_command get_step str_eq
  parse_get k v hk hv =
      let command : IsCommand method_get = omega arith in
      parse_three method_get k v (λ e. cc) command hk hv.some_digit (digits-AllPlain v hv.digits)
      ∙ rw
          (
            to_upper-kept upper_rune method_get (command-AllLow method_get command),
            normalize-key k hk,
            to_upper-kept upper_rune v (digits-AllLow v hv.digits),
            value-ne_not_found v hv.digits,
          )
          refl

  pub parse_not_found :
      (k : Bytes)
      → IsKey k
      → parse_line upper_rune (method_get ++ 32 ∷ (k ++ 32 ∷ not_found))
        ≡ ok (record (step_of method_get (b'/' ∷ k)) { expect_not_found = true })
  unfolding parse_parts parse_path parse_command get_step str_eq
  parse_not_found k hk =
      let command : IsCommand method_get = omega arith in
      let word : IsCommand not_found = omega arith in
      parse_three method_get k not_found (λ e. cc) command hk (λ e. cc)
        (command-AllPlain not_found word)
      ∙ rw
          (
            to_upper-kept upper_rune method_get (command-AllLow method_get command),
            normalize-key k hk,
            to_upper-kept upper_rune not_found (command-AllLow not_found word),
          )
          refl

  pub parse_delete :
      (k : Bytes)
      → IsKey k
      → parse_line upper_rune (method_delete ++ 32 ∷ k) ≡ ok (step_of method_delete (b'/' ∷ k))
  unfolding parse_line parse_parts parse_path parse_command str_eq
  parse_delete k hk =
      let command : IsCommand method_delete = omega arith in
      ap (parse_parts upper_rune) (
        fields-two method_delete k (λ e. cc) hk.some_letter (command-AllPlain method_delete command)
          (letters-AllPlain k hk.letters))
      ∙ rw
          (
            to_upper-kept upper_rune method_delete (command-AllLow method_delete command),
            normalize-key k hk,
          )
          refl

  -- A text that is one line, which the client reads as a step.
  pub record IsStepLine (text : Bytes) (st : Step) : Type 0 where
    pub line : Bytes
    pub written : text ≡ line ++ 10 ∷ []
    pub is_line : IsLine line
    pub short : length line ≤ max_line
    pub step : is_comment line ≡ false
    pub parsed : parse_line upper_rune line ≡ ok st

  -- A line of a command and words.
  pub command-IsStepLine :
      (first : ℕ) (cmd words : Bytes) (st : Step)
      → IsCommand (first ∷ cmd)
      → IsEnded words
      → HasNoNewline words
      → length cmd + length words ≤ 5000
      → parse_line upper_rune ((first ∷ cmd) ++ 32 ∷ words) ≡ ok st
      → IsStepLine ((first ∷ cmd) ++ 32 ∷ (words ++ 10 ∷ [])) st
  unfolding is_comment
  command-IsStepLine first cmd words st command ended one_line short parsed =
      let e = IsEnded-append ((first ∷ cmd) ++ 32 ∷ []) words ended in
      let plain = command-AllPlain (first ∷ cmd) command in
      record {
        line = (first ∷ cmd) ++ 32 ∷ words;
        written = sym (append_assoc (first ∷ cmd) (32 ∷ words) (10 ∷ []));
        is_line = record {
          first = first;
          behind = cmd ++ 32 ∷ words;
          before = e.before;
          last = e.last;
          starts = refl;
          ends = sym (append_assoc (first ∷ cmd) (32 ∷ []) words) ∙ e.ends;
          first_plain = plain.0;
          last_plain = e.plain;
          one_line =
              HasNoNewline-append (first ∷ cmd) (32 ∷ words)
                (plain-HasNoNewline (first ∷ cmd) plain) (omega arith, one_line);
        };
        short = omega (arith, length-append cmd (32 ∷ words));
        step = ==-eq-false first b'#' (omega arith);
        parsed = parsed;
      }
