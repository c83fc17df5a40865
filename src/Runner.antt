-- ===== src/Runner.antt =====
-- internal/runner/runner.go: the verdict on a request and the summary of a run.
-- Reasons keep their kind and not their text.
pub mod Summary
pub mod Verdict
pub mod Plan
mod Tests
use auk.Base.{
  ℕ, zero, suc, ◌+◌, ◌-◌, Bool, true, false, not, ◌&&◌, List, [], ◌∷◌, Option, none, some, leb,
  ◌==◌, if◌then◌else◌, length,
}
use auk.Base.Int.{ℤ, pos, negsuc}
use auk.Base.Text.{Bytes}
use auk.Assert.{AssertionResult, TestResult, is_empty, passed}

-- what `Verdict` reads of `ResponseData`
pub record Reply : Type 0 where
  pub status : ℤ
  pub error : Bytes
  pub script_error : Bytes
  pub assertion_results : List AssertionResult
  pub test_results : List TestResult

pub data Reason : Type 0 where
  run_failed response_failed script_failed : Bytes → Reason
  checks_failed : ℕ → ℕ → Reason
  http_status : ℤ → Reason

-- the number of failed assertions, and of failed tests
unfoldable pub failed_assertions : List AssertionResult → ℕ
failed_assertions [] = 0
failed_assertions (a ∷ results) =
    if a.passed then failed_assertions results else suc (failed_assertions results)

unfoldable pub failed_tests : List TestResult → ℕ
failed_tests [] = 0
failed_tests (t ∷ results) = if t.passed then failed_tests results else suc (failed_tests results)

abbrev pub is_error_status : ℤ → Bool
is_error_status (pos n) = leb 400 n
is_error_status (negsuc _) = false

abbrev pub unchecked : Reply → Bool
unchecked r = length r.assertion_results == 0 && length r.test_results == 0

-- the rule for a request that ran, with its verdict of `ResponseData.Passed`
abbrev pub judged : Reply → Bool → Bool × Option Reason
judged r false = (
  false,
  some (
      checks_failed (failed_assertions r.assertion_results + failed_tests r.test_results)
        (length r.assertion_results + length r.test_results)),
)
judged r true =
    if unchecked r && is_error_status r.status
    then (false, some (http_status r.status))
    else (true, none)

-- `Verdict`; the reason of a pass is the empty text, here `none`
unfoldable pub request_verdict : Reply → Option Bytes → Bool × Option Reason
unfolding failed_assertions failed_tests passed
request_verdict r (some run_error) = (false, some (run_failed run_error))
request_verdict r none =
    if not (is_empty r.error)
    then (false, some (response_failed r.error))
    else if not (is_empty r.script_error)
    then (false, some (script_failed r.script_error))
    else judged r (passed r.script_error r.assertion_results r.test_results)

-- a request's verdict and those of its checks
pub record RequestResult : Type 0 where
  pub passed : Bool
  pub checks : List Bool

unfoldable pub passed_count : List RequestResult → ℕ
passed_count [] = 0
passed_count (r ∷ results) = if r.passed then suc (passed_count results) else passed_count results

unfoldable pub failed_count : List RequestResult → ℕ
unfolding passed_count
failed_count results = length results - passed_count results

unfoldable pub checks : List RequestResult → ℕ
checks [] = 0
checks (r ∷ results) = length r.checks + checks results

abbrev pub count_true : List Bool → ℕ
count_true [] = 0
count_true (c ∷ cs) = if c then suc (count_true cs) else count_true cs

unfoldable pub checks_passed : List RequestResult → ℕ
checks_passed [] = 0
checks_passed (r ∷ results) = count_true r.checks + checks_passed results

unfoldable pub checks_failed_count : List RequestResult → ℕ
unfolding checks checks_passed
checks_failed_count results = checks results - checks_passed results

-- `RunSummary.Passed`
unfoldable pub run_passed : List RequestResult → Bool
unfolding failed_count
run_passed results = if length results == 0 then false else failed_count results == 0
