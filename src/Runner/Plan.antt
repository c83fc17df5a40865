-- ===== src/Runner/Plan.antt =====
-- internal/runner/runner.go: `runPlan`, the loop over the rows of data and the planned requests.
-- The engine, the run's variables and the clock are a state of any type with the operations that the
-- loop calls; a row of the data file is read or is broken. Times and labels are left aside.
pub mod One
pub mod Accounted
pub mod Executed
mod Tests
use auk.Base.{
  ℕ, zero, suc, ◌+◌, Bool, true, false, not, ◌&&◌, List, [], ◌∷◌, ◌++◌, Option, none, some,
  if◌then◌else◌, ltb, ◌==◌,
}
use auk.Base.Text.{Bytes}
use auk.Core.Model.{KeyValue}
use auk.Assert.{AssertionResult, TestResult, is_empty}
use auk.Runner.{Reply, Reason, RequestResult, request_verdict, unchecked}

-- what the loop reads of a `PlannedRequest`
pub record Planned : Type 0 where
  pub id : Bytes
  pub post_response_script : Bytes

pub data Row : Type 0 where
  row : List KeyValue → Row
  broken : Bytes → Row

pub data RunError : Type 0 where
  interrupted bad_row : Bytes → RunError
  no_rows : RunError

-- what the loop reads of `Options`
pub record Options : Type 0 where
  pub bail : Bool
  pub delay : ℕ

-- `RunSummary` and the error beside it
pub record RunSummary : Type 0 where
  pub iterations : ℕ
  pub bailed : Bool
  pub results : List RequestResult
  pub failure : Option RunError

abbrev pub assertion_checks : List AssertionResult → List Bool
assertion_checks [] = []
assertion_checks (a ∷ results) = a.passed ∷ assertion_checks results

abbrev pub test_checks : List TestResult → List Bool
test_checks [] = []
test_checks (t ∷ results) = t.passed ∷ test_checks results

-- a request without a check of its own is one check
abbrev pub or_completed : Bool → List Bool → List Bool
or_completed passed [] = passed ∷ []
or_completed passed (c ∷ checks) = c ∷ checks

-- `checksOf`
unfoldable pub checks_of : Reply → Bool → List Bool
checks_of r passed = or_completed passed (
    assertion_checks r.assertion_results
    ++ test_checks r.test_results
    ++ (if is_empty r.script_error then [] else false ∷ []))

abbrev pub is_none : Option Bytes → Bool
is_none none = true
is_none (some _) = false

-- a script that has registered no test, beside a reply that has no check
abbrev pub asserts_nothing : Planned → Reply → Option Bytes → Bool
asserts_nothing p r run_error =
    is_none run_error
    && (is_empty r.error
        && (is_empty r.script_error && (not (is_empty p.post_response_script) && unchecked r)))

-- `runOne`, of what the execution has returned
unfoldable pub run_one : Planned → Reply → Option Bytes → RequestResult
unfolding request_verdict checks_of
run_one p r run_error =
    let passed = (request_verdict r run_error).0 && not (asserts_nothing p r run_error) in
    record { passed = passed; checks = checks_of r passed }

module _ (S : Type 0) where
  -- the calls of the loop: `exec`, `Reset`, `ctx.Err` and `sleep`
  pub record Calls : Type 0 where
    pub execute : Planned → S → (Reply × Option Bytes) × S
    pub reset : List KeyValue → S → S
    pub cancelled : S → Option Bytes
    pub sleep : ℕ → S → Option Bytes

  -- where the loop stands: it goes on, or has left
  pub data Flow : Type 0 where
    going : RunSummary → Bool → S → Flow
    left : RunSummary → S → Flow

abbrev pub start : RunSummary
start = record { iterations = 0; bailed = false; results = []; failure = none }

abbrev pub add_result : RequestResult → RunSummary → RunSummary
add_result r s = record s { results = s.results ++ r ∷ [] }

module _ {S : Type 0} where
  abbrev pub unless_error : Option Bytes → RunSummary → S → Flow S → Flow S
  unless_error none s w flow = flow
  unless_error (some e) s w flow = left (record s { failure = some (interrupted e) }) w

  abbrev pub unless_bail : Bool → RequestResult → RunSummary → S → Flow S
  unless_bail bail r s w =
      if not r.passed && bail
      then left (record (add_result r s) { bailed = true }) w
      else going (add_result r s) false w

  abbrev pub then_ : Flow S → (RunSummary → Bool → S → Flow S) → Flow S
  then_ (left s w) next = left s w
  then_ (going s first w) next = next s first w

  abbrev pub finally : Flow S → (RunSummary → Bool → S → RunSummary × S) → RunSummary × S
  finally (left s w) next = (s, w)
  finally (going s first w) next = next s first w

module _ {S : Type 0} (calls : Calls S) (opts : Options) where
  abbrev pub pause : Bool → S → Option Bytes
  pause first w = if not first && ltb 0 opts.delay then calls.sleep opts.delay w else none

  -- one round of the inner loop
  abbrev pub request_round : Planned → RunSummary → Bool → S → Flow S
  request_round p s first w =
      let got = calls.execute p w in
      unless_error (calls.cancelled w) s w (
        unless_error (pause first w) s w
          (unless_bail opts.bail (run_one p got.0.0 got.0.1) s got.1))

  unfoldable pub requests_loop : List Planned → RunSummary → Bool → S → Flow S
  unfolding run_one
  requests_loop [] s first w = going s first w
  requests_loop (p ∷ plan) s first w = then_ (request_round p s first w) (requests_loop plan)

  unfoldable pub rows_loop : List Planned → List Row → RunSummary → Bool → S → RunSummary × S
  unfolding requests_loop
  rows_loop plan [] s first w = (s, w)
  rows_loop plan (broken e ∷ rows) s first w = (record s { failure = some (bad_row e) }, w)
  rows_loop plan (row values ∷ rows) s first w =
      finally
        (requests_loop plan (record s { iterations = suc s.iterations }) first
          (calls.reset values w))
        (rows_loop plan rows)

  abbrev pub or_no_rows : Option RunError → RunSummary → RunSummary
  or_no_rows (some e) s = s
  or_no_rows none s = if s.iterations == 0 then record s { failure = some no_rows } else s

  -- `runPlan`
  unfoldable pub run_plan : List Planned → List Row → S → RunSummary × S
  unfolding rows_loop
  run_plan plan rows w =
      let out = rows_loop plan rows start true w in (or_no_rows out.0.failure out.0, out.1)
