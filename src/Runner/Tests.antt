-- ===== src/Runner/Tests.antt =====
-- Verdicts at concrete replies.
use auk.Base.{◌≡◌, refl, true, false, List, [], ◌∷◌, Option, none, some}
use auk.Base.Int.{pos}
use auk.Base.Text.{Bytes}
use auk.Runner.{
  Reply, RequestResult, request_verdict, run_passed, failed_count, passed_count, http_status,
}

abbrev lost : Reply
lost = record {
  status = pos 404;
  error = [];
  script_error = [];
  assertion_results = [];
  test_results = [];
}

abbrev no_error : Option Bytes
no_error = none

smoke_fails : (request_verdict lost none).1 ≡ some (http_status (pos 404))
unfolding request_verdict
smoke_fails = refl

abbrev both : List RequestResult
both =
    record { passed = true; checks = true ∷ true ∷ [] }
    ∷ record { passed = false; checks = false ∷ true ∷ [] }
    ∷ []

-- One failed request fails the run.
both_fail : run_passed both ≡ false
unfolding run_passed failed_count passed_count
both_fail = refl
