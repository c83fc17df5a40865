-- ===== src/Runner/Plan/Tests.antt =====
-- A run over two rows, with the stop at the first failure.
use auk.Base.{◌≡◌, ◌↔◌, refl, Bool, true, false, List, [], ◌∷◌, Option, none}
use auk.Base.Int.{pos}
use auk.Base.Text.{Bytes, codes}
use auk.Assert.{passed}
use auk.Runner.{Reply, request_verdict}
use auk.Runner.Verdict.{IsPassing}
use auk.Runner.Plan.{
  Planned, row, Options, run_one, checks_of, Calls, requests_loop, rows_loop, run_plan,
}
use auk.Runner.Plan.One.{AssertsSomething, run_one_iff}
use auk.Runner.Plan.Accounted.{Accounts}
use auk.Runner.Plan.Executed.{recording, script, Executes, run_plan-Executes}

abbrev reply : Bool → Reply
reply true = record {
  status = pos 200;
  error = [];
  script_error = [];
  assertion_results = [];
  test_results = [];
}
reply false = record {
  status = pos 500;
  error = [];
  script_error = [];
  assertion_results = [];
  test_results = [];
}

abbrev request : Bytes → Planned
request id = record { id = id; post_response_script = [] }

-- the server answers the first request alone
abbrev calls : Calls Bool
calls = record {
  execute = λ p up. ((reply up, none), false);
  reset = λ values up. up;
  cancelled = λ up. none;
  sleep = λ d up. none;
}

abbrev bailing : Options
bailing = record { bail = true; delay = 0 }

abbrev two : List Planned
two = request (codes "a") ∷ request (codes "b") ∷ []

bails_at_second : (run_plan calls bailing two (row [] ∷ row [] ∷ []) true).0.bailed ≡ true
unfolding run_plan rows_loop requests_loop run_one request_verdict passed checks_of
bails_at_second = refl

run_plan-Executes_example :
    Accounts true two
      (row [] ∷ row [] ∷ [])
      (run_plan (recording calls) bailing two (row [] ∷ row [] ∷ []) (true, [])).0
    × Executes
        (script two (row [] ∷ row [] ∷ []))
        (run_plan (recording calls) bailing two (row [] ∷ row [] ∷ []) (true, [])).0
        (run_plan (recording calls) bailing two (row [] ∷ row [] ∷ []) (true, [])).1.1
run_plan-Executes_example = run_plan-Executes calls bailing two (row [] ∷ row [] ∷ []) true

abbrev no_error : Option Bytes
no_error = none

run_one_iff_example : ((run_one (request (codes "a")) (reply true) no_error).passed ≡ true) ↔ (
    (no_error ≡ none)
    × (IsPassing (reply true) × AssertsSomething (request (codes "a")) (reply true)))
run_one_iff_example = run_one_iff (request (codes "a")) (reply true) no_error
