-- ===== src/Runner/Summary.antt =====
-- The counts of a run agree with its verdict.
use auk.Base.{
  ℕ, ◌+◌, ◌≡◌, ◌≢◌, ◌↔◌, inl, inr, refl, Bool, true, List, [], ◌∷◌, arith, Bool-cases, All,
  if◌then◌else◌, length,
}
use auk.Runner.{
  RequestResult, passed_count, failed_count, checks, checks_passed, checks_failed_count, count_true,
  run_passed,
}

-- the failures, counted one by one
abbrev pub count_failures : List RequestResult → ℕ
count_failures [] = 0
count_failures (r ∷ results) =
    if r.passed then count_failures results else 1 + count_failures results

abbrev pub count_false : List Bool → ℕ
count_false [] = 0
count_false (c ∷ cs) = if c then count_false cs else 1 + count_false cs

abbrev pub count_failed_checks : List RequestResult → ℕ
count_failed_checks [] = 0
count_failed_checks (r ∷ results) = count_false r.checks + count_failed_checks results

count_both :
    (results : List RequestResult) → passed_count results + count_failures results ≡ length results
unfolding passed_count
count_both [] = refl
count_both (r ∷ results) = let rest = count_both results in ground arith

count_bools : (cs : List Bool) → count_true cs + count_false cs ≡ length cs
count_bools [] = refl
count_bools (c ∷ cs) = let rest = count_bools cs in ground arith

checks_both :
    (results : List RequestResult)
    → checks_passed results + count_failed_checks results ≡ checks results
unfolding checks checks_passed
checks_both [] = refl
checks_both (r ∷ results) =
    let rest = checks_both results in let here = count_bools r.checks in omega (arith, rest, here)

no_failures_iff :
    (results : List RequestResult)
    → (count_failures results ≡ 0) ↔ All (λ r. r.passed ≡ true) results
no_failures_iff [] = ((λ _. tt), λ _. refl)
no_failures_iff (r ∷ results) = elim (Bool-cases r.passed) [
  | inl on ↦ (
    (λ h. (on, (no_failures_iff results).0 (rw on at h))),
    (λ h. rw on ((no_failures_iff results).1 h.1)),
  )
  | inr off ↦ ((λ h. absurd (one_ne (rw off at h))), (λ h. cc (h.0, off)))
]
  where
    one_ne : 1 + count_failures results ≡ 0 → ⊥
    one_ne h = omega (arith, h)

-- The counts computed by subtraction are the numbers of failed requests and of failed checks.
pub failed_counts :
    (results : List RequestResult)
    → (failed_count results ≡ count_failures results)
      × (checks_failed_count results ≡ count_failed_checks results)
unfolding failed_count checks_failed_count
failed_counts results =
    let requests = count_both results in
    let all = checks_both results in (omega (arith, requests), omega (arith, all))

-- A run passes exactly when it has a result and every request of it passed; an empty run does not.
pub run_passed_iff :
    (results : List RequestResult)
    → (run_passed results ≡ true) ↔ ((results ≢ []) × All (λ r. r.passed ≡ true) results)
unfolding run_passed
run_passed_iff [] = ((λ h. cc h), (λ h. absurd (h.0 refl)))
run_passed_iff (r ∷ results) =
    let (to, from) = no_failures_iff (r ∷ results) in
    let count = (failed_counts (r ∷ results)).0 in
    (
      (λ h. ((λ e. cc e), to (omega (arith, count, passed_zero h)))),
      (λ h. zero_passed (omega (arith, count, from h.1))),
    )
  where
    passed_zero : run_passed (r ∷ results) ≡ true → failed_count (r ∷ results) ≡ 0
    passed_zero h = ground (arith, h)

    zero_passed : failed_count (r ∷ results) ≡ 0 → run_passed (r ∷ results) ≡ true
    zero_passed h = ground (arith, h)
