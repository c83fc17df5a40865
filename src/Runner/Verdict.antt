-- ===== src/Runner/Verdict.antt =====
-- The one rule for a request: what passes, and that a failure comes with a reason.
use auk.Base.{
  ◌≡◌, ◌≢◌, ◌⊎◌, ◌<◌, ◌↔◌, inl, inr, refl, Bool, true, false, Option, none, some, arith, Bool-cases,
  All, ◌&&◌, List, [], ◌∷◌, ◌==◌, length,
}
use auk.Base.Int.{ℤ, pos, negsuc}
use auk.Base.Text.{Bytes}
use auk.Assert.{is_empty, passed}
use auk.Assert.Verdict.{passed_parts, all_passed_iff, all_tests_passed_iff}
use auk.Runner.{Reply, request_verdict, judged, unchecked, is_error_status}

-- what the verdict tests
abbrev pub IsCleared : Reply → Type 0
IsCleared r =
    (is_empty r.error ≡ true)
    × (is_empty r.script_error ≡ true)
    × All (λ a. a.passed ≡ true) r.assertion_results
    × All (λ t. t.passed ≡ true) r.test_results
    × ((unchecked r && is_error_status r.status) ≡ false)

judged_iff :
    (r : Reply) (b : Bool)
    → ((judged r b).0 ≡ true) ↔ ((b ≡ true) × ((unchecked r && is_error_status r.status) ≡ false))
judged_iff r false = ((λ h. cc h), (λ h. cc (h.0)))
judged_iff r true = elim (Bool-cases (unchecked r && is_error_status r.status)) [
  | inl smoke ↦ ((λ h. cc (rw smoke at h)), (λ h. cc (h.1, smoke)))
  | inr fine ↦ ((λ h. (refl, fine)), (λ h. rw fine refl))
]

verdict_parts :
    (r : Reply)
    → ((request_verdict r none).0 ≡ true) ↔ (
        (is_empty r.error ≡ true)
        × (is_empty r.script_error ≡ true)
        × ((judged r (passed r.script_error r.assertion_results r.test_results)).0 ≡ true))
unfolding request_verdict
verdict_parts r = ground arith

-- A request passes exactly when it was sent without an error and its reply passes the tests.
pub request_verdict_iff :
    (r : Reply) (run_error : Option Bytes)
    → ((request_verdict r run_error).0 ≡ true) ↔ ((run_error ≡ none) × IsCleared r)
unfolding request_verdict
request_verdict_iff r (some e) = ((λ h. cc h), (λ h. cc (h.0)))
request_verdict_iff r none =
    let (to, from) = verdict_parts r in
    let (judged_to, judged_from) =
      judged_iff r (passed r.script_error r.assertion_results r.test_results) in
    let (parts, whole) = passed_parts r.script_error r.assertion_results r.test_results in
    let (all_to, all_from) = all_passed_iff r.assertion_results in
    let (tests_to, tests_from) = all_tests_passed_iff r.test_results in
    (
      (λ h.
          let (error, script, j) = to h in
          let (p, fine) = judged_to j in
          let (_, every, ts) = parts p in (refl, (error, script, all_to every, tests_to ts, fine))),
      (λ h.
          let (error, script, every, ts, fine) = h.1 in
          from (error, script, judged_from (whole (script, all_from every, tests_from ts), fine))),
    )

-- The reply has an assertion or a test.
abbrev pub IsChecked : Reply → Type 0
IsChecked r = (r.assertion_results ≢ []) ⊎ (r.test_results ≢ [])

abbrev pub IsBelow400 : ℤ → Type 0
IsBelow400 (pos n) = n < 400
IsBelow400 (negsuc _) = Unit

-- The reply carries no error, its script ran, every assertion and every test passed, and, where it has
-- neither, its status is below 400.
abbrev pub IsPassing : Reply → Type 0
IsPassing r =
    (r.error ≡ [])
    × (r.script_error ≡ [])
    × All (λ a. a.passed ≡ true) r.assertion_results
    × All (λ t. t.passed ≡ true) r.test_results
    × (IsChecked r ⊎ IsBelow400 r.status)

pub is_empty_iff : (s : Bytes) → (is_empty s ≡ true) ↔ (s ≡ [])
is_empty_iff [] = ((λ _. refl), (λ _. refl))
is_empty_iff (c ∷ s) = ((λ h. cc h), (λ h. cc h))

no_counts :
    {A B : Type 0} (xs : List A) (ys : List B)
    → ((length xs == 0 && length ys == 0) ≡ false) ↔ ((xs ≢ []) ⊎ (ys ≢ []))
no_counts [] [] = ((λ h. cc h), (λ h. elim h [ inl n ↦ absurd (n refl) | inr n ↦ absurd (n refl) ]))
no_counts (x ∷ xs) ys = ((λ _. inl (λ e. cc e)), (λ _. ground arith))
no_counts [] (y ∷ ys) = ((λ _. inr (λ e. cc e)), (λ _. ground arith))

pub unchecked_iff : (r : Reply) → (unchecked r ≡ false) ↔ IsChecked r
unchecked_iff r = no_counts r.assertion_results r.test_results

below_400_iff : (n : ℤ) → (is_error_status n ≡ false) ↔ IsBelow400 n
below_400_iff (pos n) = ((λ h. ground arith), (λ h. ground arith))
below_400_iff (negsuc n) = ((λ _. tt), (λ _. refl))

fine_iff :
    (r : Reply)
    → ((unchecked r && is_error_status r.status) ≡ false) ↔ (IsChecked r ⊎ IsBelow400 r.status)
fine_iff r =
    let (checked_to, checked_from) = unchecked_iff r in
    let (below_to, below_from) = below_400_iff r.status in
    (
      (λ h. elim (Bool-cases (unchecked r)) [
        | inl without ↦ inr (below_to (rw without at h))
        | inr checked ↦ inl (checked_to checked)
      ]),
      (λ h. elim h [
        | inl checked ↦ rw (checked_from checked) refl
        | inr below ↦ elim (Bool-cases (unchecked r)) [
          | inl without ↦ rw (without, below_from below) refl
          | inr checked ↦ rw checked refl
        ]
      ]),
    )

pub IsCleared-IsPassing : (r : Reply) → IsCleared r ↔ IsPassing r
IsCleared-IsPassing r = (
  (λ h.
      let (error, script, every, tests, fine) = h in
      (
        (is_empty_iff r.error).0 error,
        (is_empty_iff r.script_error).0 script,
        every,
        tests,
        (fine_iff r).0 fine,
      )),
  (λ h.
      let (error, script, every, tests, fine) = h in
      (
        (is_empty_iff r.error).1 error,
        (is_empty_iff r.script_error).1 script,
        every,
        tests,
        (fine_iff r).1 fine,
      )),
)
