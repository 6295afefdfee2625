-- ===== src/Client/Passes.antt =====
-- The scripts of the generator against a server that keeps a map.
use mathlib.Core.Path.{subst}
use k_lsm_engine.Prelude.{
  ℕ, zero, suc, ◌≡◌, ◌⊎◌, inl, inr, refl, sym, ap, ◌∙◌, true, Option, none, some, List, [], ◌∷◌,
  ◌++◌, length, Bytes, str_eq, str_eq_refl,
}
use k_lsm_engine.Std.Scanner.{split_lines}
use k_lsm_engine.Store.{lookup}
use k_lsm_engine.Server.{method_get, method_put, method_delete}
use k_lsm_engine.Gen.Draws.{◌>>=◌, drawn, State, set_key, delete_key}
use k_lsm_engine.Gen.Valid.{IsKey, IsValue, IsState, OfResult, Ensures, Ensures-bind}
use k_lsm_engine.Gen.Script.{Round, round1, round2, run_loop, run, run1, run2}
use k_lsm_engine.Gen.Ops.{
  Op, put, found, missing, delete, IsLegal, apply, IsWritten, IsRound, round1-IsRound,
  round2-IsRound,
}
use k_lsm_engine.Client.Script.{Step, read_lines, read_steps}
use k_lsm_engine.Client.Requests.{
  response, Remote, retries, attempt, do_with_retry, check_put, check_get, check_found, is_expected,
  check_delete, reported, exchange, run_step, run_steps, run_read, run_script,
}
use k_lsm_engine.Client.Lines.{IsStepLine}
use k_lsm_engine.Client.Steps.{op_step, op_text-IsStepLine, read_lines-line}

-- The server shows a map, answers a GET by it, and changes it as a PUT and a DELETE say.
pub record IsKeyServer {W : Type 0} (remote : Remote W) (Shows : W → State → Type 0) : Type 0 where
  pub accepts : (k : Bytes) → IsKey k → remote.accepts (b'/' ∷ k) ≡ true
  pub gets :
      (w : W) (σ : State) (k : Bytes)
      → Shows w σ
      → IsKey k
      → Shows (remote.send w method_get (b'/' ∷ k) []).0 σ
  pub finds :
      (w : W) (σ : State) (k v : Bytes)
      → Shows w σ
      → IsKey k
      → lookup k σ ≡ some v
      → (remote.send w method_get (b'/' ∷ k) []).1 ≡ response 200 v
  pub misses :
      (w : W) (σ : State) (k : Bytes)
      → Shows w σ
      → IsKey k
      → lookup k σ ≡ none
      → (body : Bytes) × ((remote.send w method_get (b'/' ∷ k) []).1 ≡ response 404 body)
  pub puts :
      (w : W) (σ : State) (k v : Bytes)
      → Shows w σ
      → IsKey k
      → IsValue v
      → Shows (remote.send w method_put (b'/' ∷ k) v).0 (set_key k v σ)
        × ((remote.send w method_put (b'/' ∷ k) v).1 ≡ response 200 v)
  pub deletes :
      (w : W) (σ : State) (k : Bytes)
      → Shows w σ
      → IsKey k
      → Shows (remote.send w method_delete (b'/' ∷ k) []).0 (delete_key k σ)
        × (body : Bytes) × ((remote.send w method_delete (b'/' ∷ k) []).1 ≡ response 200 body)

module _ {W : Type 0} (remote : Remote W) (Shows : W → State → Type 0)
    (server : IsKeyServer remote Shows) where
  -- A step that reports nothing and leaves the server with a map.
  abbrev StepPasses : W → Step → State → Type 0
  StepPasses w st σ = Shows (run_step remote w st).0 σ × ((run_step remote w st).1 ≡ [])

  op-StepPasses :
      (w : W) (σ : State) (op : Op) (n : ℕ) (text : Bytes)
      → Shows w σ
      → IsLegal σ op
      → StepPasses w (record (op_step op) { line_no = n; raw = text }) (apply op σ)
  unfolding run_step exchange do_with_retry attempt retries check_put check_get check_found
      is_expected check_delete reported str_eq IsLegal apply op_step
  op-StepPasses w σ (put k v) n text h legal =
      let (shows, reply) = server.puts w σ k v h legal.0 legal.1 in
      rw (server.accepts k legal.0, reply, str_eq_refl v) (shows, refl)
  op-StepPasses w σ (found k v) n text h legal =
      rw (server.accepts k legal.0, server.finds w σ k v h legal.0 legal.2, str_eq_refl v)
        (server.gets w σ k h legal.0, refl)
  op-StepPasses w σ (missing k) n text h legal =
      let (body, reply) = server.misses w σ k h legal.0 legal.1 in
      rw (server.accepts k legal.0, reply) (server.gets w σ k h legal.0, refl)
  op-StepPasses w σ (delete k) n text h legal =
      let (shows, body, reply) = server.deletes w σ k h legal in
      rw (server.accepts k legal, reply) (shows, refl)

  module _ (upper_rune : ℕ → ℕ) where
    -- A text that is read whole, without a report, and whose steps report nothing.
    record IsClean (w : W) (n : ℕ) (text : Bytes) : Type 0 where
      no_report : (read_lines upper_rune n (split_lines text)).0.0 ≡ []
      whole : (read_lines upper_rune n (split_lines text)).1 ≡ true
      quiet : (run_steps remote w (read_lines upper_rune n (split_lines text)).0.1).1 ≡ []

    abbrev AllClean : State → Bytes → Type 0
    AllClean σ text = (w : W) (n : ℕ) → Shows w σ → IsClean w n text

    nil-AllClean : (σ : State) → AllClean σ []
    unfolding read_lines split_lines run_steps
    nil-AllClean σ w n h = record { no_report = refl; whole = refl; quiet = refl }

    line-AllClean :
        (σ σ' : State) (text rest : Bytes)
        → IsWritten σ text σ'
        → AllClean σ' rest
        → AllClean σ (text ++ rest)
    unfolding run_steps
    line-AllClean σ σ' text rest written later w n h =
        let line =
          subst (λ t. IsStepLine upper_rune t (op_step written.op)) (sym written.text_of)
            (op_text-IsStepLine upper_rune σ written.op written.legal) in
        let reads = read_lines-line upper_rune n text rest (op_step written.op) line in
        let (shows, quiet) = op-StepPasses w σ written.op (suc n) line.line h written.legal in
        let st = record (op_step written.op) { line_no = suc n; raw = line.line } in
        let clean =
          later (run_step remote w st).0 (suc n)
            (subst (Shows (run_step remote w st).0) (sym written.state_of) shows) in
        record {
          no_report = ap (λ r. r.0.0) reads ∙ clean.no_report;
          whole = ap (λ r. r.1) reads ∙ clean.whole;
          quiet = ap (λ r. (run_steps remote w r.0.1).1) reads ∙ rw quiet clean.quiet;
        }

    abbrev IsGood : Round → Type 0
    IsGood round = (σ : State) → IsState σ → Ensures (round σ) (IsRound σ)

    -- what the loop does after a round
    rest-AllClean :
        (round : Round) (fuel lines : ℕ) (σ : State) (written : Option (Bytes × State))
        → ((lines' : ℕ) (σ' : State)
            → IsState σ'
            → Ensures (run_loop round fuel lines' σ') (AllClean σ'))
        → IsState σ
        → IsRound σ written
        → Ensures
            (elim written [
              | none ↦ run_loop round fuel (suc lines) σ
              | some (text, σ') ↦ run_loop round fuel lines σ' >>= λ rest. drawn (text ++ rest)
            ])
            (AllClean σ)
    unfolding IsRound
    rest-AllClean round fuel lines σ none again h written = again (suc lines) σ h
    rest-AllClean round fuel lines σ (some (text, σ')) again h written =
        Ensures-bind (run_loop round fuel lines σ') (λ rest. drawn (text ++ rest)) (AllClean σ')
          (AllClean σ) (again lines σ' written.valid)
          (λ rest clean draws. line-AllClean σ σ' text rest written clean)

    run_loop-AllClean :
        (round : Round)
        → IsGood round
        → (fuel lines : ℕ) (σ : State) → IsState σ
        → Ensures (run_loop round fuel lines σ) (AllClean σ)
    unfolding run_loop
    run_loop-AllClean round good zero lines σ h = λ draws. tt
    run_loop-AllClean round good (suc fuel) zero σ h = λ draws. nil-AllClean σ
    run_loop-AllClean round good (suc fuel) (suc lines) σ h =
        Ensures-bind (round σ)
          (λ written. elim written [
            | none ↦ run_loop round fuel (suc lines) σ
            | some (text, σ') ↦ run_loop round fuel lines σ' >>= λ rest. drawn (text ++ rest)
          ])
          (IsRound σ) (AllClean σ) (good σ h)
          (λ written legal.
            rest-AllClean round fuel lines σ written (run_loop-AllClean round good fuel) h legal)

    -- A script of clean lines is run without a report.
    run_script-clean :
        (w : W) (text : Bytes) → IsClean w 0 text → (run_script remote upper_rune w text).1 ≡ []
    unfolding run_script run_read read_steps
    run_script-clean w text h = rw (h.no_report, h.whole) h.quiet

    run_good :
        (round : Round) (lines : ℕ) (draws left : List ℕ) (text : Bytes) (w : W)
        → IsGood round
        → Shows w []
        → run round lines draws ≡ some (text, left)
        → (run_script remote upper_rune w text).1 ≡ []
    unfolding run
    run_good round lines draws left text w good h e =
        let clean =
          subst (λ r. OfResult r (AllClean [])) e
            (run_loop-AllClean round good (suc (length draws)) lines [] tt draws) in
        run_script-clean w text (clean w 0 h)

    -- If the server starts with no key and keeps a map, the client reports nothing on a script that
    -- `run1` or `run2` writes, of any number of lines and for any draws.
    pub run_script-run :
        (lines : ℕ) (draws left : List ℕ) (text : Bytes) (w : W)
        → Shows w []
        → (run1 lines draws ≡ some (text, left)) ⊎ (run2 lines draws ≡ some (text, left))
        → (run_script remote upper_rune w text).1 ≡ []
    run_script-run lines draws left text w h (inl e) =
        run_good round1 lines draws left text w round1-IsRound h e
    run_script-run lines draws left text w h (inr e) =
        run_good round2 lines draws left text w round2-IsRound h e
