-- ===== src/Runner/Plan/One.antt =====
-- What passes in a run: a request with its script.
use auk.Base.{
  ◌≡◌, ◌⊎◌, ◌↔◌, inl, inr, refl, Bool-cases, Bool, true, false, not, ◌&&◌, List, [], ◌∷◌, ◌++◌,
  Option, none, some, if◌then◌else◌, arith, All, All-append,
}
use auk.Base.Text.{Bytes}
use auk.Assert.{AssertionResult, TestResult, is_empty}
use auk.Runner.{Reply, request_verdict, unchecked}
use auk.Runner.Verdict.{
  IsCleared, IsChecked, IsPassing, request_verdict_iff, is_empty_iff, unchecked_iff,
  IsCleared-IsPassing,
}
use auk.Runner.Plan.{
  Planned, assertion_checks, test_checks, or_completed, checks_of, asserts_nothing, run_one,
}

assertion_checks-pass :
    (results : List AssertionResult)
    → All (λ a. a.passed ≡ true) results
    → All (λ c. c ≡ true) (assertion_checks results)
assertion_checks-pass [] h = tt
assertion_checks-pass (a ∷ results) (h, hs) = (h, assertion_checks-pass results hs)

test_checks-pass :
    (results : List TestResult)
    → All (λ t. t.passed ≡ true) results
    → All (λ c. c ≡ true) (test_checks results)
test_checks-pass [] h = tt
test_checks-pass (t ∷ results) (h, hs) = (h, test_checks-pass results hs)

or_completed-pass :
    (passed : Bool) (checks : List Bool)
    → passed ≡ true
    → All (λ c. c ≡ true) checks
    → All (λ c. c ≡ true) (or_completed passed checks)
or_completed-pass passed [] p h = (p, tt)
or_completed-pass passed (c ∷ checks) p h = h

and_left : (a b : Bool) → (a && b) ≡ true → a ≡ true
and_left a b h = ground arith

and_right : (a b : Bool) → (a && not b) ≡ true → b ≡ false
and_right a b h = ground arith

scriptless : (a b c : Bool) → a ≡ true → b ≡ true → (a && (b && c)) ≡ false → c ≡ false
scriptless a b c x y h = ground arith

both : (v a b c : Bool) → v ≡ true → c ≡ false → (v && not (a && (b && c))) ≡ true
both v a b c x y = ground arith

run_one-IsCleared :
    (p : Planned) (r : Reply) (run_error : Option Bytes)
    → ((run_one p r run_error).passed ≡ true) ↔ (
        (run_error ≡ none)
        × (IsCleared r × ((not (is_empty p.post_response_script) && unchecked r) ≡ false)))
unfolding run_one
run_one-IsCleared p r (some e) = (
  (λ h. cc ((request_verdict_iff r (some e)).0 (and_left (request_verdict r (some e)).0 true h)).0),
  (λ h. cc (h.0)),
)
run_one-IsCleared p r none =
    let (to, from) = request_verdict_iff r none in
    let script = not (is_empty p.post_response_script) && unchecked r in
    (
      (λ h.
          let verdict = and_left (request_verdict r none).0 (not (asserts_nothing p r none)) h in
          let passing = (to verdict).1 in
          (
            refl,
            (
              passing,
              scriptless (is_empty r.error) (is_empty r.script_error) script passing.0 passing.1
                  (and_right (request_verdict r none).0 (asserts_nothing p r none) h),
            ),
          )),
      (λ h.
          both (request_verdict r none).0 (is_empty r.error) (is_empty r.script_error) script
            (from (refl, h.1.0)) h.1.1),
    )

-- no script, or something that it has checked
abbrev pub AssertsSomething : Planned → Reply → Type 0
AssertsSomething p r = (p.post_response_script ≡ []) ⊎ IsChecked r

asserts_iff :
    (p : Planned) (r : Reply)
    → ((not (is_empty p.post_response_script) && unchecked r) ≡ false) ↔ AssertsSomething p r
asserts_iff p r =
    let (empty_to, empty_from) = is_empty_iff p.post_response_script in
    let (checked_to, checked_from) = unchecked_iff r in
    (
      (λ h. elim (Bool-cases (is_empty p.post_response_script)) [
        | inl blank ↦ inl (empty_to blank)
        | inr script ↦ inr (checked_to (rw script at h))
      ]),
      (λ h. elim h [
        | inl blank ↦ rw (empty_from blank) refl
        | inr checked ↦ rw (checked_from checked) (ground arith)
      ]),
    )

-- A request of a run passes exactly when it was sent without an error, its reply carries none, its
-- script ran, every assertion and every test passed, its status is below 400 where it has neither, and it
-- has either no script or at least one assertion or test.
pub run_one_iff :
    (p : Planned) (r : Reply) (run_error : Option Bytes)
    → ((run_one p r run_error).passed ≡ true)
      ↔ ((run_error ≡ none) × (IsPassing r × AssertsSomething p r))
run_one_iff p r run_error =
    let (to, from) = run_one-IsCleared p r run_error in
    let (passing_to, passing_from) = IsCleared-IsPassing r in
    let (asserts_to, asserts_from) = asserts_iff p r in
    (
      (λ h. let (sent, rest) = to h in (sent, (passing_to rest.0, asserts_to rest.1))),
      (λ h. from (h.0, (passing_from h.1.0, asserts_from h.1.1))),
    )

-- Where a request passes, so does each of its checks.
pub run_one-checks :
    (p : Planned) (r : Reply) (run_error : Option Bytes)
    → (run_one p r run_error).passed ≡ true
    → All (λ c. c ≡ true) (run_one p r run_error).checks
unfolding run_one checks_of
run_one-checks p r run_error h =
    let (_, (passing, _)) = (run_one-IsCleared p r run_error).0 h in
    or_completed-pass (run_one p r run_error).passed
      (assertion_checks r.assertion_results
        ++ test_checks r.test_results
        ++ (if is_empty r.script_error then [] else false ∷ []))
      h
      (rw passing.1 (
        All-append (λ c. c ≡ true)
          (assertion_checks r.assertion_results ++ test_checks r.test_results) []
          (All-append (λ c. c ≡ true) (assertion_checks r.assertion_results)
            (test_checks r.test_results) (assertion_checks-pass r.assertion_results passing.2)
            (test_checks-pass r.test_results passing.3))
          tt))
