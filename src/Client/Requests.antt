-- ===== src/Client/Requests.antt =====
-- The requests of cmd/client/main.go and the checks of their replies.
use k_lsm_engine.Prelude.{
  ℕ, zero, suc, Bool, true, false, ◌&&◌, ◌||◌, not, Option, none, some, List, [], ◌∷◌, ◌++◌, length,
  ltb, leb, ◌==◌, if◌then◌else◌, Bytes, str_eq,
}
use k_lsm_engine.Server.{method_get, method_put, method_delete}
use k_lsm_engine.Client.Script.{
  barrier, Step, Problem, request_error, bad_status, mismatch, expected_404, expected_one_of,
  unsupported, Report, report, read_steps,
}

-- What comes back of one request: a failure, or a status and the body.
pub data Reply : Type 0 where
  failed : Reply
  response : ℕ → Bytes → Reply

-- The server as the client sees it, and whether `http.NewRequest` takes a path. A clone of a request
-- shares its body, so that an attempt after the first one, `send_again`, has none left to send.
pub record Remote (W : Type 0) : Type 0 where
  pub accepts : Bytes → Bool
  pub send : W → Bytes → Bytes → Bytes → W × Reply
  pub send_again : W → Bytes → Bytes → Bytes → W × Reply

-- a reply for which `doWithRetry` tries again
unfoldable pub retries : Reply → Bool
retries failed = true
retries (response status body) = leb 500 status && ltb status 600

abbrev max_retries : ℕ
max_retries = 4

-- The problem of a reply, if there is one.
unfoldable pub check_put : Step → Reply → Option Problem
check_put st failed = some request_error
check_put st (response status body) =
    if not (status == 200)
    then some (bad_status status)
    else if str_eq body st.payload
    then none
    else some (mismatch body)

unfoldable pub is_expected : List Bytes → Bytes → Bool
is_expected [] got = false
is_expected (exp ∷ expected) got = str_eq got exp || is_expected expected got

unfoldable pub check_found : Step → ℕ → Bytes → Option Problem
unfolding is_expected
check_found st status got =
    if not (status == 200)
    then some (bad_status status)
    else if length st.expected == 0 || is_expected st.expected got
    then none
    else some (expected_one_of st.expected got)

unfoldable pub check_get : Step → Reply → Option Problem
unfolding check_found
check_get st failed = some request_error
check_get st (response status body) =
    if st.expect_not_found
    then (if status == 404 then none else some (expected_404 status))
    else check_found st status body

unfoldable pub check_delete : Step → Reply → Option Problem
check_delete st failed = some request_error
check_delete st (response status body) = if status == 200 then none else some (bad_status status)

unfoldable pub reported : Step → Option Problem → List Report
reported st none = []
reported st (some problem) = report st problem ∷ []

module _ {W : Type 0} (remote : Remote W) where
  -- an attempt, and those that are left if it fails
  unfoldable pub attempt :
      (W → Bytes → Bytes → Bytes → W × Reply) → ℕ → W → Bytes → Bytes → Bytes → W × Reply
  unfolding retries
  attempt send zero w method path payload =
      let result = send w method path payload in
      (result.0, if retries result.1 then failed else result.1)
  attempt send (suc more) w method path payload =
      let result = send w method path payload in
      let again = attempt remote.send_again more result.0 method path payload in
      if retries result.1 then again else result

  unfoldable pub do_with_retry : W → Bytes → Bytes → Bytes → W × Reply
  unfolding attempt
  do_with_retry = attempt remote.send max_retries

  -- a request, unless it cannot be made, and the check of its reply
  unfoldable pub exchange : (Step → Reply → Option Problem) → W → Step → Bytes → W × List Report
  unfolding do_with_retry reported
  exchange check w st payload =
      let result = do_with_retry w st.kind st.path payload in
      if remote.accepts st.path
      then (result.0, reported st (check st result.1))
      else (w, report st request_error ∷ [])

  unfoldable pub run_step : W → Step → W × List Report
  unfolding exchange check_put check_get check_delete
  run_step w st =
      if str_eq st.kind barrier
      then (w, [])
      else if str_eq st.kind method_put
      then exchange check_put w st st.payload
      else if str_eq st.kind method_get
      then exchange check_get w st []
      else if str_eq st.kind method_delete
      then exchange check_delete w st []
      else (w, report st (unsupported st.kind) ∷ [])

  -- The semaphore has room for one request, so that each ends before the next one begins.
  unfoldable pub run_steps : W → List Step → W × List Report
  unfolding run_step
  run_steps w [] = (w, [])
  run_steps w (st ∷ steps) =
      let done = run_step w st in let rest = run_steps done.0 steps in (rest.0, done.1 ++ rest.1)

  -- All that is printed about the lines of a script; no step runs if the script was not read.
  unfoldable pub run_read : W → List Report × Option (List Step) → W × List Report
  unfolding run_steps
  run_read w (reports, none) = (w, reports)
  run_read w (reports, some steps) = let done = run_steps w steps in (done.0, reports ++ done.1)

  unfoldable pub run_script : (ℕ → ℕ) → W → Bytes → W × List Report
  unfolding run_read
  run_script upper_rune w text = run_read w (read_steps upper_rune text)
