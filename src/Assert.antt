-- ===== src/Assert.antt =====
-- internal/assert/assert.go and the verdict of internal/core/model/assert.go.
-- Parameters: the printer of counts, `strings.EqualFold`, base64, the JSON path evaluator's own
-- parameters, `strconv.ParseFloat` with `<` on its numbers, and `regexp`. Errors keep their kind.
pub mod Verdict
mod Tests
use auk.Base.{◌≡◌, Bool, true, false, not, ◌&&◌, List, [], ◌∷◌, Option, none, some, if◌then◌else◌}
use auk.Base.Int.{ℤ}
use auk.Base.Result.{Result, ok, err}
use auk.Base.Text.{contains_text, Bytes, bytes_eq, has_prefix}
use auk.Base.Text.Space.{trim_space}
use auk.JsonPath.{Json, PathError, is_not_found, get}

-- `AssertionSource`
pub data Source : Type 0 where
  assert_status assert_body assert_header assert_response_time other_source : Source

-- `AssertionOperator`
pub data Operator : Type 0 where
  eq neq contains exists not_exists lt gt regexp other_operator : Operator

pub record Assertion : Type 0 where
  pub source : Source
  pub path : Bytes
  pub name : Bytes
  pub operator : Operator
  pub value : Bytes
  pub enabled : Bool

pub data AssertError : Type 0 where
  no_header_name bad_body unknown_source value_not_found actual_not_numeric : AssertError
  expected_not_numeric invalid_regexp unknown_operator : AssertError
  bad_path : PathError → AssertError

pub record AssertionResult : Type 0 where
  pub assertion : Assertion
  pub passed : Bool
  pub actual : Bytes
  pub error : Option AssertError

pub record TestResult : Type 0 where
  pub name : Bytes
  pub passed : Bool

-- what the assertions read of `ResponseData`
pub record Response : Type 0 where
  pub status : ℤ
  pub timing_ms : ℤ
  pub headers : List (Bytes × Bytes)
  pub body_base64 : Bytes

-- `actual`, `found` and `err` of `extract`
pub record Extracted : Type 0 where
  pub actual : Bytes
  pub found : Bool
  pub error : Option AssertError

abbrev pub there : Bytes → Extracted
there actual = record { actual = actual; found = true; error = none }

abbrev pub missing : Option AssertError → Extracted
missing e = record { actual = []; found = false; error = e }

abbrev pub is_empty : Bytes → Bool
is_empty [] = true
is_empty (_ ∷ _) = false

-- `errors.Is(err, jsonpath.ErrNotFound)`
abbrev pub is_absent : AssertError → Bool
is_absent (bad_path e) = is_not_found e
is_absent _ = false

abbrev pub at_path : Result PathError Bytes → Extracted
at_path (ok v) = there v
at_path (err e) = missing (some (bad_path e))

abbrev pub verdict : Assertion → Bytes → Result AssertError Bool → AssertionResult
verdict a actual (ok passed) = record {
  assertion = a;
  passed = passed;
  actual = actual;
  error = none;
}
verdict a actual (err e) = record { assertion = a; passed = false; actual = actual; error = some e }

-- the outcome of `exists`, and with `not` that of `notExists`
abbrev pub presence_of : (Bool → Bool) → Bool → Option AssertError → Result AssertError Bool
presence_of f found none = ok (f found)
presence_of f found (some e) = if is_absent e then ok (f found) else err e

abbrev pub presence : (Bool → Bool) → Extracted → Result AssertError Bool
presence f x = presence_of f x.found x.error

-- a disabled assertion has no result
abbrev pub kept : Bool → AssertionResult → List AssertionResult → List AssertionResult
kept false r results = results
kept true r results = r ∷ results

module _ (itoa : ℤ → Bytes) (equal_fold : Bytes → Bytes → Bool) (decode : Bytes → Option Bytes)
    (get_path : Bytes → Bytes → Result PathError Bytes) {F : Type 0}
    (parse_float : Bytes → Option F) (float_lt : F → F → Bool)
    (compile : Bytes → Option (Bytes → Bool)) where
  unfoldable pub find_header : Bytes → List (Bytes × Bytes) → Extracted
  find_header name [] = missing none
  find_header name ((key, value) ∷ headers) =
      let later = find_header name headers in if equal_fold key name then there value else later

  abbrev pub in_body : Bytes → Option Bytes → Extracted
  in_body path none = missing (some bad_body)
  in_body path (some text) = if is_empty path then there text else at_path (get_path text path)

  -- the source, with the header's name and the body's path
  abbrev pub extract_from : Source → Bytes → Bytes → Response → Extracted
  extract_from assert_status name path resp = there (itoa resp.status)
  extract_from assert_response_time name path resp = there (itoa resp.timing_ms)
  extract_from assert_header name path resp =
      if is_empty name then missing (some no_header_name) else find_header name resp.headers
  extract_from assert_body name path resp = in_body path (decode resp.body_base64)
  extract_from other_source name path resp = missing (some unknown_source)

  unfoldable pub extract : Assertion → Response → Extracted
  unfolding find_header
  extract a resp = extract_from a.source a.name a.path resp

  abbrev pub ordered : (F → F → Bool) → Option F → Option F → Result AssertError Bool
  ordered less none _ = err actual_not_numeric
  ordered less (some av) none = err expected_not_numeric
  ordered less (some av) (some ev) = ok (less av ev)

  abbrev pub matched : Bytes → Option (Bytes → Bool) → Result AssertError Bool
  matched actual none = err invalid_regexp
  matched actual (some test) = ok (test actual)

  -- `compare`
  unfoldable pub compare_values : Operator → Bytes → Bytes → Result AssertError Bool
  unfolding contains_text bytes_eq trim_space
  compare_values eq actual expected = ok (bytes_eq actual expected)
  compare_values neq actual expected = ok (not (bytes_eq actual expected))
  compare_values contains actual expected = ok (contains_text actual expected)
  compare_values lt actual expected =
      ordered float_lt (parse_float (trim_space actual)) (parse_float (trim_space expected))
  compare_values gt actual expected =
      ordered (λ av ev. float_lt ev av) (parse_float (trim_space actual))
        (parse_float (trim_space expected))
  compare_values regexp actual expected = matched actual (compile expected)
  compare_values _ actual expected = err unknown_operator

  abbrev pub comparison_of :
      Operator → Bytes → Bytes → Bool → Option AssertError → Result AssertError Bool
  comparison_of op expected actual found (some e) = err e
  comparison_of op expected actual true none = compare_values op actual expected
  comparison_of op expected actual false none = err value_not_found

  abbrev pub comparison : Operator → Bytes → Extracted → Result AssertError Bool
  comparison op expected x = comparison_of op expected x.actual x.found x.error

  abbrev pub outcome : Operator → Bytes → Extracted → Result AssertError Bool
  outcome exists expected x = presence (λ found. found) x
  outcome not_exists expected x = presence not x
  outcome op expected x = comparison op expected x

  -- `evaluateOne`
  unfoldable pub evaluate_one : Assertion → Response → AssertionResult
  unfolding extract compare_values
  evaluate_one a resp = let x = extract a resp in verdict a x.actual (outcome a.operator a.value x)

  -- `Evaluate`
  unfoldable pub evaluate : List Assertion → Response → List AssertionResult
  unfolding evaluate_one
  evaluate [] resp = []
  evaluate (a ∷ assertions) resp = kept a.enabled (evaluate_one a resp) (evaluate assertions resp)

-- `AllPassed`
unfoldable pub all_passed : List AssertionResult → Bool
all_passed [] = true
all_passed (r ∷ results) = if r.passed then all_passed results else false

unfoldable pub all_tests_passed : List TestResult → Bool
all_tests_passed [] = true
all_tests_passed (t ∷ results) = if t.passed then all_tests_passed results else false

-- `ResponseData.Passed`
unfoldable pub passed : Bytes → List AssertionResult → List TestResult → Bool
unfolding all_passed all_tests_passed
passed script_error results tests =
    if not (is_empty script_error)
    then false
    else if all_passed results
    then all_tests_passed tests
    else false
