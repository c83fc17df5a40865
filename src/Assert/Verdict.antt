-- ===== src/Assert/Verdict.antt =====
-- Verdicts: what passes, and that an error never does.
use auk.Base.{
  ◌≡◌, ◌⊎◌, ◌↔◌, inl, inr, refl, ap, Bool, true, false, not, List, [], ◌∷◌, Option, none, some,
  arith, Bool-cases, All,
}
use auk.Base.Int.{ℤ}
use auk.Base.Result.{Result, ok, err}
use auk.Base.Text.{Bytes}
use auk.JsonPath.{PathError}
use auk.Assert.{
  Operator, eq, neq, exists, not_exists, Assertion, AssertError, AssertionResult, TestResult,
  Response, is_absent, verdict, presence_of, comparison_of, kept, extract, compare_values,
  evaluate_one, evaluate, all_passed, all_tests_passed, passed, is_empty,
}

-- One of the two results passes exactly where the other does not, unless both have the same error.
abbrev pub IsOpposite : AssertionResult → AssertionResult → Type 0
IsOpposite r r' =
    (r.actual ≡ r'.actual)
    × (((r.error ≡ none) × (r'.error ≡ none) × (r'.passed ≡ not r.passed))
        ⊎ ((e : AssertError) × (r.error ≡ some e)
            × (r'.error ≡ some e)
            × (r.passed ≡ false)
            × (r'.passed ≡ false)))

abbrev Opposite : Result AssertError Bool → Result AssertError Bool → Type 0
Opposite (ok p) (ok q) = q ≡ not p
Opposite (err e) (err f) = e ≡ f
Opposite _ _ = ⊥

verdict-IsOpposite :
    (a a' : Assertion) (actual : Bytes) (p q : Result AssertError Bool)
    → Opposite p q
    → IsOpposite (verdict a actual p) (verdict a' actual q)
verdict-IsOpposite a a' actual (ok p) (ok q) h = (refl, inl (refl, refl, h))
verdict-IsOpposite a a' actual (err e) (err f) h = (refl, inr (f, ap some h, refl, refl, refl))
verdict-IsOpposite a a' actual (ok p) (err f) h = absurd h
verdict-IsOpposite a a' actual (err e) (ok q) h = absurd h

-- the assertion with another operator
abbrev pub with_operator : Operator → Assertion → Assertion
with_operator op a = record a { operator = op }

presence-Opposite :
    (found : Bool) (o : Option AssertError)
    → Opposite (presence_of (λ b. b) found o) (presence_of not found o)
presence-Opposite found none = refl
presence-Opposite found (some e) = elim (Bool-cases (is_absent e)) [
  | inl absent ↦ rw absent refl
  | inr other ↦ rw other refl
]

kept_iff :
    (b : Bool) (r : AssertionResult) (rs : List AssertionResult)
    → All (λ x. x.passed ≡ true) (kept b r rs)
      ↔ (((b ≡ true) → r.passed ≡ true) × All (λ x. x.passed ≡ true) rs)
kept_iff false r rs = ((λ h. ((λ e. cc e), h)), λ h. h.1)
kept_iff true r rs = ((λ h. ((λ _. h.0), h.1)), λ h. (h.0 refl, h.1))

verdict-passes_or_errs :
    (a : Assertion) (actual : Bytes) (p : Result AssertError Bool)
    → ((verdict a actual p).error ≡ none) ⊎ ((verdict a actual p).passed ≡ false)
verdict-passes_or_errs a actual (ok p) = inl refl
verdict-passes_or_errs a actual (err e) = inr refl

pub all_passed_iff :
    (rs : List AssertionResult) → (all_passed rs ≡ true) ↔ All (λ r. r.passed ≡ true) rs
unfolding all_passed
all_passed_iff [] = ((λ _. tt), λ _. refl)
all_passed_iff (r ∷ rs) = elim (Bool-cases r.passed) [
  | inl on ↦
      ((λ h. (on, (all_passed_iff rs).0 (rw on at h))), (λ h. rw on ((all_passed_iff rs).1 h.1)))
  | inr off ↦ ((λ h. cc (rw off at h)), (λ h. cc (h.0, off)))
]

pub all_tests_passed_iff :
    (ts : List TestResult) → (all_tests_passed ts ≡ true) ↔ All (λ t. t.passed ≡ true) ts
unfolding all_tests_passed
all_tests_passed_iff [] = ((λ _. tt), λ _. refl)
all_tests_passed_iff (t ∷ ts) = elim (Bool-cases t.passed) [
  | inl on ↦ (
    (λ h. (on, (all_tests_passed_iff ts).0 (rw on at h))),
    (λ h. rw on ((all_tests_passed_iff ts).1 h.1)),
  )
  | inr off ↦ ((λ h. cc (rw off at h)), (λ h. cc (h.0, off)))
]

pub passed_parts :
    (script_error : Bytes) (rs : List AssertionResult) (ts : List TestResult)
    → (passed script_error rs ts ≡ true)
      ↔ ((is_empty script_error ≡ true) × (all_passed rs ≡ true) × (all_tests_passed ts ≡ true))
unfolding passed
passed_parts script_error rs ts = ground arith

module _ (itoa : ℤ → Bytes) (equal_fold : Bytes → Bytes → Bool) (decode : Bytes → Option Bytes)
    (get_path : Bytes → Bytes → Result PathError Bytes) {F : Type 0}
    (parse_float : Bytes → Option F) (float_lt : F → F → Bool)
    (compile : Bytes → Option (Bytes → Bool)) where
  abbrev one : Assertion → Response → AssertionResult
  one = evaluate_one itoa equal_fold decode get_path parse_float float_lt compile

  abbrev run : List Assertion → Response → List AssertionResult
  run = evaluate itoa equal_fold decode get_path parse_float float_lt compile

  -- On every response, exists and notExists of one thing are opposite: one passes and the other does not, or
  -- neither can be told and both fail with the same error.
  pub exists-IsOpposite :
      (a : Assertion) (resp : Response)
      → IsOpposite (one (with_operator exists a) resp) (one (with_operator not_exists a) resp)
  unfolding evaluate_one extract
  exists-IsOpposite a resp =
      let x = extract itoa equal_fold decode get_path parse_float float_lt compile a resp in
      verdict-IsOpposite (with_operator exists a) (with_operator not_exists a) x.actual _ _
        (presence-Opposite x.found x.error)

  comparison-Opposite :
      (expected actual : Bytes) (found : Bool) (o : Option AssertError)
      → Opposite
          (comparison_of itoa equal_fold decode get_path parse_float float_lt compile eq expected
            actual found o)
          (comparison_of itoa equal_fold decode get_path parse_float float_lt compile neq expected
            actual found o)
  unfolding compare_values
  comparison-Opposite expected actual found (some e) = refl
  comparison-Opposite expected actual true none = refl
  comparison-Opposite expected actual false none = refl

  -- On every response, eq and neq of one thing and value are opposite: one passes and the other does not, or
  -- the value is not there and both fail with the same error.
  pub eq-IsOpposite :
      (a : Assertion) (resp : Response)
      → IsOpposite (one (with_operator eq a) resp) (one (with_operator neq a) resp)
  unfolding evaluate_one extract
  eq-IsOpposite a resp =
      let x = extract itoa equal_fold decode get_path parse_float float_lt compile a resp in
      verdict-IsOpposite (with_operator eq a) (with_operator neq a) x.actual _ _
        (comparison-Opposite a.value x.actual x.found x.error)

  -- An enabled assertion holds: it passes, and without an error.
  abbrev pub Holds : Response → Assertion → Type 0
  Holds resp a = (a.enabled ≡ true) → ((one a resp).passed ≡ true) × ((one a resp).error ≡ none)

  no_error :
      (a : Assertion) (resp : Response) → (one a resp).passed ≡ true → (one a resp).error ≡ none
  unfolding evaluate_one
  no_error a resp h = elim (verdict-passes_or_errs a _ _) [ inl e ↦ e | inr off ↦ cc (h, off) ]

  evaluate-Holds :
      (assertions : List Assertion) (resp : Response)
      → All (λ r. r.passed ≡ true) (run assertions resp) ↔ All (Holds resp) assertions
  unfolding evaluate
  evaluate-Holds [] resp = ((λ _. tt), λ _. tt)
  evaluate-Holds (a ∷ assertions) resp =
      let (to, from) = kept_iff a.enabled (one a resp) (run assertions resp) in
      let (to', from') = evaluate-Holds assertions resp in
      (
        (λ h. ((λ on. ((to h).0 on, no_error a resp ((to h).0 on))), to' (to h).1)),
        (λ h. from ((λ on. (h.0 on).0), from' h.1)),
      )

  -- The verdict on a response is a pass exactly when its script raised no error, every enabled
  -- assertion passes without an error, and every script test passes.
  pub passed_iff :
      (script_error : Bytes) (assertions : List Assertion) (resp : Response)
      (tests : List TestResult)
      → (passed script_error (run assertions resp) tests ≡ true) ↔ (
          (is_empty script_error ≡ true)
          × All (Holds resp) assertions
          × All (λ t. t.passed ≡ true) tests)
  passed_iff script_error assertions resp tests =
      let (to, from) = evaluate-Holds assertions resp in
      let (all_to, all_from) = all_passed_iff (run assertions resp) in
      let (tests_to, tests_from) = all_tests_passed_iff tests in
      let (parts, whole) = passed_parts script_error (run assertions resp) tests in
      (
        (λ h. ((parts h).0, to (all_to (parts h).1), tests_to (parts h).2)),
        (λ h. whole (h.0, all_from (from h.1), tests_from h.2)),
      )
