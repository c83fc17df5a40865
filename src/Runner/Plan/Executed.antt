-- ===== src/Runner/Plan/Executed.antt =====
-- What a run has executed: the requests of the plan, in order, for one row after the other.
use auk.Base.{
  suc, ◌≡◌, ◌≢◌, ◌⊎◌, ◌∙◌, sym, ap, refl, inl, inr, Bool, true, false, not, ◌&&◌, List, [], ◌∷◌,
  ◌++◌, Option, none, some, ◌==◌, Bool-cases, append_assoc, append-nil,
}
use mathlib.Core.Path.{subst}
use auk.Base.Text.{Bytes}
use auk.Core.Model.{KeyValue}
use auk.Runner.{Reply, RequestResult}
use auk.Runner.Plan.{
  Planned, Row, row, broken, RunError, Options, RunSummary, run_one, Calls, Flow, going, left,
  start, unless_error, unless_bail, then_, finally, pause, request_round, requests_loop, rows_loop,
  or_no_rows, run_plan,
}
use auk.Runner.Plan.Accounted.{Accounts, run_plan-Accounts}

-- what the calls have done: a row's values taken up, a request executed with its outcome
pub data Done : Type 0 where
  took : List KeyValue → Done
  ran : Planned → Reply × Option Bytes → Done

-- The calls, with a record of those that change something beside their state.
abbrev pub recording : {S : Type 0} → Calls S → Calls (S × List Done)
recording calls = record {
  execute =
      λ p (w, done). let got = calls.execute p w in (got.0, (got.1, done ++ ran p got.0 ∷ []));
  reset = λ values (w, done). (calls.reset values w, done ++ took values ∷ []);
  cancelled = λ (w, done). calls.cancelled w;
  sleep = λ d (w, done). calls.sleep d w;
}

pub data Step : Type 0 where
  take_row : List KeyValue → Step
  run : Planned → Step

abbrev pub steps_of : List Done → List Step
steps_of [] = []
steps_of (took values ∷ done) = take_row values ∷ steps_of done
steps_of (ran p outcome ∷ done) = run p ∷ steps_of done

abbrev pub results_of : List Done → List RequestResult
results_of [] = []
results_of (took values ∷ done) = results_of done
results_of (ran p outcome ∷ done) = run_one p outcome.0 outcome.1 ∷ results_of done

abbrev pub runs : List Planned → List Step
runs [] = []
runs (p ∷ plan) = run p ∷ runs plan

-- The row is taken up, then every request of the plan is run; and so for the next row.
abbrev pub script : List Planned → List Row → List Step
script plan [] = []
script plan (row values ∷ rows) = take_row values ∷ (runs plan ++ script plan rows)
script plan (broken e ∷ rows) = []

steps_of-append : (a b : List Done) → steps_of (a ++ b) ≡ steps_of a ++ steps_of b
steps_of-append [] b = refl
steps_of-append (took values ∷ a) b =
    ap (λ (t : List Step). take_row values ∷ t) (steps_of-append a b)
steps_of-append (ran p outcome ∷ a) b = ap (λ (t : List Step). run p ∷ t) (steps_of-append a b)

results_of-append : (a b : List Done) → results_of (a ++ b) ≡ results_of a ++ results_of b
results_of-append [] b = refl
results_of-append (took values ∷ a) b = results_of-append a b
results_of-append (ran p outcome ∷ a) b =
    ap (λ (t : List RequestResult). run_one p outcome.0 outcome.1 ∷ t) (results_of-append a b)

-- The results are those of what was run; and that is the whole script, or, at an error or a stop, as
-- much of it as there was time for.
abbrev pub Executes : List Step → RunSummary → List Done → Type 0
Executes all s done =
    (results_of done ≡ s.results)
    × (rest : List Step) × (steps_of done ++ rest ≡ all)
    × ((s.bailed ≡ false) → (s.failure ≡ none) → rest ≡ [])

module _ {S : Type 0} (calls : Calls S) (opts : Options) where
  -- so far exactly these steps, or the loop has left within them
  abbrev Through : List Step → Flow (S × List Done) → Type 0
  Through all (going s first (w, done)) =
      (s.bailed ≡ false)
      × (s.failure ≡ none)
      × (results_of done ≡ s.results)
      × (steps_of done ≡ all)
  Through all (left s (w, done)) = Executes all s done × ((s.bailed ≡ true) ⊎ (s.failure ≢ none))

  -- Who has left within some steps has left within more.
  further :
      (all more : List Step) (s : RunSummary) (done : List Done)
      → Executes all s done × ((s.bailed ≡ true) ⊎ (s.failure ≢ none))
      → Executes (all ++ more) s done × ((s.bailed ≡ true) ⊎ (s.failure ≢ none))
  further all more s done ((results, rest, e, _), why) = (
    (
      results,
      rest ++ more,
      sym (append_assoc (steps_of done) rest more) ∙ ap (λ (t : List Step). t ++ more) e,
      gone why,
    ),
    why,
  )
    where
      gone :
          (s.bailed ≡ true) ⊎ (s.failure ≢ none)
          → s.bailed ≡ false
          → s.failure ≡ none
          → rest ++ more ≡ []
      gone (inl stopped) on well = cc (stopped, on)
      gone (inr failed) on well = absurd (failed well)

  unless_error-Through :
      (now next : List Step) (e : Option Bytes) (s : RunSummary) (first : Bool) (w : S)
      (done : List Done) (flow : Flow (S × List Done))
      → Through now (going s first (w, done))
      → Through (now ++ next) flow
      → Through (now ++ next) (unless_error e s (w, done) flow)
  unless_error-Through now next none s first w done flow h k = k
  unless_error-Through now next (some e) s first w done flow (b, f, results, steps) k = (
    (results, next, ap (λ (t : List Step). t ++ next) steps, λ on well. cc well),
    inr (λ well. cc well),
  )

  unless_bail-Through :
      (now : List Step) (p : Planned) (outcome : Reply × Option Bytes) (s : RunSummary)
      (first : Bool) (w w' : S) (done : List Done)
      → Through now (going s first (w, done))
      → Through
          (now ++ run p ∷ [])
          (unless_bail opts.bail (run_one p outcome.0 outcome.1) s (w', done ++ ran p outcome ∷ []))
  unless_bail-Through now p outcome s first w w' done (b, f, results, steps) =
      elim (Bool-cases (not (run_one p outcome.0 outcome.1).passed && opts.bail)) [
        | inl stops ↦
            rw stops ((more_results, [], append-nil _ ∙ more_steps, λ on well. cc on), inl refl)
        | inr on ↦ rw on (b, f, more_results, more_steps)
      ]
    where
      more_results :
          results_of (done ++ ran p outcome ∷ []) ≡ s.results ++ run_one p outcome.0 outcome.1 ∷ []
      more_results =
          results_of-append done (ran p outcome ∷ [])
          ∙ ap (λ (t : List RequestResult). t ++ run_one p outcome.0 outcome.1 ∷ []) results

      more_steps : steps_of (done ++ ran p outcome ∷ []) ≡ now ++ run p ∷ []
      more_steps =
          steps_of-append done (ran p outcome ∷ []) ∙ ap (λ (t : List Step). t ++ run p ∷ []) steps

  request_round-Through :
      (now : List Step) (p : Planned) (s : RunSummary) (first : Bool) (w : S) (done : List Done)
      → Through now (going s first (w, done))
      → Through (now ++ run p ∷ []) (request_round (recording calls) opts p s first (w, done))
  request_round-Through now p s first w done h =
      let got = calls.execute p w in
      let bails =
        unless_bail opts.bail (run_one p got.0.0 got.0.1) s (got.1, done ++ ran p got.0 ∷ []) in
      unless_error-Through now (run p ∷ []) (calls.cancelled w) s first w done
        (unless_error (pause (recording calls) opts first (w, done)) s (w, done) bails) h
        (unless_error-Through now (run p ∷ []) (pause (recording calls) opts first (w, done)) s
          first w done bails h (unless_bail-Through now p got.0 s first w got.1 done h))

  then-Through :
      (now more : List Step) (flow : Flow (S × List Done))
      (next : RunSummary → Bool → S × List Done → Flow (S × List Done))
      → Through now flow
      → ((s : RunSummary) (first : Bool) (w : S) (done : List Done)
          → Through now (going s first (w, done))
          → Through (now ++ more) (next s first (w, done)))
      → Through (now ++ more) (then_ flow next)
  then-Through now more (left s (w, done)) next h k = further now more s done h
  then-Through now more (going s first (w, done)) next h k = k s first w done h

  requests_loop-Through :
      (now : List Step) (plan : List Planned) (s : RunSummary) (first : Bool) (w : S)
      (done : List Done)
      → Through now (going s first (w, done))
      → Through (now ++ runs plan) (requests_loop (recording calls) opts plan s first (w, done))
  unfolding requests_loop
  requests_loop-Through now [] s first w done (b, f, results, steps) =
      (b, f, results, steps ∙ sym (append-nil now))
  requests_loop-Through now (p ∷ plan) s first w done h =
      subst
        (λ all. Through all (
          then_ (request_round (recording calls) opts p s first (w, done))
            (requests_loop (recording calls) opts plan)))
        (append_assoc now (run p ∷ []) (runs plan))
        (then-Through (now ++ run p ∷ []) (runs plan)
          (request_round (recording calls) opts p s first (w, done))
          (requests_loop (recording calls) opts plan) (request_round-Through now p s first w done h)
          (λ s' first' w' done' k.
            requests_loop-Through (now ++ run p ∷ []) plan s' first' w' done' k))

  finally-Executes :
      (now more : List Step) (flow : Flow (S × List Done))
      (next : RunSummary → Bool → S × List Done → RunSummary × (S × List Done))
      → Through now flow
      → ((s : RunSummary) (first : Bool) (w : S) (done : List Done)
          → Through now (going s first (w, done))
          → Executes (now ++ more) (next s first (w, done)).0 (next s first (w, done)).1.1)
      → Executes (now ++ more) (finally flow next).0 (finally flow next).1.1
  finally-Executes now more (left s (w, done)) next h k = (further now more s done h).0
  finally-Executes now more (going s first (w, done)) next h k = k s first w done h

  rows_loop-Executes :
      (now : List Step) (plan : List Planned) (rows : List Row) (s : RunSummary) (first : Bool)
      (w : S) (done : List Done)
      → Through now (going s first (w, done))
      → Executes
          (now ++ script plan rows)
          (rows_loop (recording calls) opts plan rows s first (w, done)).0
          (rows_loop (recording calls) opts plan rows s first (w, done)).1.1
  unfolding rows_loop
  rows_loop-Executes now plan [] s first w done (b, f, results, steps) =
      (results, [], ap (λ (t : List Step). t ++ []) steps, λ on well. refl)
  rows_loop-Executes now plan (broken e ∷ rows) s first w done (b, f, results, steps) =
      (results, [], ap (λ (t : List Step). t ++ []) steps, λ on well. refl)
  rows_loop-Executes now plan (row values ∷ rows) s first w done (b, f, results, steps) =
      let s' : RunSummary = record s { iterations = suc s.iterations } in
      let taken = now ++ take_row values ∷ [] in
      let done' = done ++ took values ∷ [] in
      let w' = calls.reset values w in
      subst
        (λ all.
          Executes all
            (finally (requests_loop (recording calls) opts plan s' first (w', done'))
              (rows_loop (recording calls) opts plan rows)).0
            (finally (requests_loop (recording calls) opts plan s' first (w', done'))
              (rows_loop (recording calls) opts plan rows)).1.1)
        (append_assoc taken (runs plan) (script plan rows)
          ∙ append_assoc now (take_row values ∷ []) (runs plan ++ script plan rows))
        (finally-Executes (taken ++ runs plan) (script plan rows)
          (requests_loop (recording calls) opts plan s' first (w', done'))
          (rows_loop (recording calls) opts plan rows)
          (requests_loop-Through taken plan s' first w' done' (
            b,
            f,
            results_of-append done (took values ∷ []) ∙ append-nil (results_of done) ∙ results,
            steps_of-append done (took values ∷ [])
                ∙ ap (λ (t : List Step). t ++ take_row values ∷ []) steps,
          ))
          (λ t first' v done'' k.
            rows_loop-Executes (taken ++ runs plan) plan rows t first' v done'' k))

  or_no_rows-Executes :
      (all : List Step) (s : RunSummary) (done : List Done)
      → Executes all s done
      → Executes all (or_no_rows (recording calls) opts s.failure s) done
  or_no_rows-Executes all s done h = go s.failure refl
    where
      go :
          (o : Option RunError)
          → s.failure ≡ o
          → Executes all (or_no_rows (recording calls) opts o s) done
      go (some e) is = h
      go none is = elim (Bool-cases (s.iterations == 0)) [
        | inl nothing ↦ rw nothing (h.0, h.1, h.2, λ on well. cc well)
        | inr some_rows ↦ rw some_rows h
      ]

-- A run of a plan over rows of data, with a record of what its calls do, ends in one of three ways. It
-- stopped at a failure, which only the option to bail makes it do: the last result has failed, and all
-- before it have passed. Or it returns an error. Or it took up every row in turn and ran for each every
-- request of the plan, in order and once. In the last two, with the option to bail, every result has
-- passed. Where it stopped or returns an error, what it did is a first part of the same. In each case the
-- results are those of the requests that were run, from what their executions returned, in order.
pub run_plan-Executes :
    {S : Type 0} (calls : Calls S) (opts : Options) (plan : List Planned) (rows : List Row) (w : S)
    → Accounts opts.bail plan rows (run_plan (recording calls) opts plan rows (w, [])).0
      × Executes
          (script plan rows)
          (run_plan (recording calls) opts plan rows (w, [])).0
          (run_plan (recording calls) opts plan rows (w, [])).1.1
unfolding run_plan
run_plan-Executes calls opts plan rows w = (
  run_plan-Accounts (recording calls) opts plan rows (w, []),
  or_no_rows-Executes calls opts (script plan rows)
      (rows_loop (recording calls) opts plan rows start true (w, [])).0
      (rows_loop (recording calls) opts plan rows start true (w, [])).1.1
      (rows_loop-Executes calls opts [] plan rows start true w [] (refl, refl, refl, refl)),
)
