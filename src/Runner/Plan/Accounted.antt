-- ===== src/Runner/Plan/Accounted.antt =====
-- A run has a result for every request and every row, or says why not.
use auk.Base.{
  ℕ, suc, ◌+◌, ◌*◌, ◌≡◌, ◌⊎◌, ap, refl, inl, inr, Bool, true, false, not, ◌&&◌, List, [], ◌∷◌, ◌++◌,
  Option, none, some, ◌==◌, length, length-append, arith, Bool-cases, All, All-append,
}
use mathlib.Core.Path.{subst}
use auk.Base.Text.{Bytes}
use auk.Runner.{RequestResult}
use auk.Runner.Plan.{
  Planned, Row, row, broken, RunError, interrupted, bad_row, Options, RunSummary, run_one, Calls,
  Flow, going, left, start, unless_error, unless_bail, then_, finally, pause, request_round,
  requests_loop, rows_loop, or_no_rows, run_plan,
}

abbrev pub AllPassed : List RequestResult → Type 0
AllPassed results = All (λ r. r.passed ≡ true) results

-- with the stop at the first failure, all so far have passed
abbrev pub PassedSoFar : Bool → List RequestResult → Type 0
PassedSoFar true results = AllPassed results
PassedSoFar false results = Unit

-- all but the last have passed
abbrev pub StopsAtFailure : List RequestResult → Type 0
StopsAtFailure results =
    (before : List RequestResult) × ((r : RequestResult) × ((results ≡ before ++ r ∷ [])
        × (AllPassed before × (r.passed ≡ false))))

-- how a run has gone: it stopped at a failure, it was cut off by an error, or it has a result for
-- every request of the plan and every row
abbrev pub AccountsOf :
    Bool → List Planned → List Row → ℕ → List RequestResult → Bool → Option RunError → Type 0
AccountsOf bail plan rows i results true failure = (bail ≡ true) × StopsAtFailure results
AccountsOf bail plan rows i results false (some e) = PassedSoFar bail results
AccountsOf bail plan rows i results false none =
    (i ≡ length rows) × ((length results ≡ length rows * length plan) × PassedSoFar bail results)

abbrev pub Accounts : Bool → List Planned → List Row → RunSummary → Type 0
Accounts bail plan rows s = AccountsOf bail plan rows s.iterations s.results s.bailed s.failure

-- the loop goes on: so many iterations and results, and no stop
abbrev pub Running : Bool → ℕ → ℕ → RunSummary → Type 0
Running bail i n s =
    (s.bailed ≡ false)
    × ((s.failure ≡ none)
        × ((s.iterations ≡ i) × ((length s.results ≡ n) × PassedSoFar bail s.results)))

-- the loop has left: at a failure, or with an error
abbrev pub Left : Bool → RunSummary → Type 0
Left bail s =
    ((s.bailed ≡ true) × ((bail ≡ true) × StopsAtFailure s.results))
    ⊎ ((s.bailed ≡ false) × (((e : RunError) × (s.failure ≡ some e)) × PassedSoFar bail s.results))

so_far :
    (bail : Bool) (results : List RequestResult)
    → bail ≡ true
    → PassedSoFar bail results
    → AllPassed results
so_far true results e h = h
so_far false results e h = cc e

add-PassedSoFar :
    (bail : Bool) (results : List RequestResult) (r : RequestResult)
    → (not r.passed && bail) ≡ false
    → PassedSoFar bail results
    → PassedSoFar bail (results ++ r ∷ [])
add-PassedSoFar false results r e h = tt
add-PassedSoFar true results r e h =
    All-append (λ x. x.passed ≡ true) results (r ∷ []) h (passed r.passed e, tt)
  where
    passed : (b : Bool) → (not b && true) ≡ false → b ≡ true
    passed true e = refl
    passed false e = cc e

module _ {S : Type 0} (calls : Calls S) (opts : Options) where
  abbrev pub FlowOk : ℕ → ℕ → Flow S → Type 0
  FlowOk i n (going s first w) = Running opts.bail i n s
  FlowOk i n (left s w) = Left opts.bail s

  unless_error-FlowOk :
      (i n m : ℕ) (e : Option Bytes) (s : RunSummary) (w : S) (flow : Flow S)
      → Running opts.bail i n s
      → FlowOk i m flow
      → FlowOk i m (unless_error e s w flow)
  unless_error-FlowOk i n m none s w flow h k = k
  unless_error-FlowOk i n m (some e) s w flow h k = inr (h.0, ((interrupted e, refl), h.1.1.1.1))

  unless_bail-FlowOk :
      (i n : ℕ) (r : RequestResult) (s : RunSummary) (w : S)
      → Running opts.bail i n s
      → FlowOk i (suc n) (unless_bail opts.bail r s w)
  unless_bail-FlowOk i n r s w (b, (f, (it, (len, past)))) =
      elim (Bool-cases (not r.passed && opts.bail)) [
        | inl stops ↦ rw stops (
            inl (
              refl,
              (
                bails r.passed opts.bail stops,
                (
                  s.results,
                  (
                    r,
                    (
                      refl,
                      (
                        so_far opts.bail s.results (bails r.passed opts.bail stops) past,
                        fails r.passed opts.bail stops,
                      ),
                    ),
                  ),
                ),
              ),
            ))
        | inr on ↦ rw on (
          b,
          (
            f,
            (
              it,
              (
                longer (length-append s.results (r ∷ [])),
                add-PassedSoFar opts.bail s.results r on past,
              ),
            ),
          ),
        )
      ]
    where
      bails : (p q : Bool) → (not p && q) ≡ true → q ≡ true
      bails p q h = ground arith

      fails : (p q : Bool) → (not p && q) ≡ true → p ≡ false
      fails p q h = ground arith

      longer :
          length (s.results ++ r ∷ []) ≡ length s.results + 1 → length (s.results ++ r ∷ []) ≡ suc n
      longer e = omega (arith, e, len)

  request_round-FlowOk :
      (i n : ℕ) (p : Planned) (s : RunSummary) (first : Bool) (w : S)
      → Running opts.bail i n s
      → FlowOk i (suc n) (request_round calls opts p s first w)
  request_round-FlowOk i n p s first w h =
      let got = calls.execute p w in
      let ran = unless_bail-FlowOk i n (run_one p got.0.0 got.0.1) s got.1 h in
      unless_error-FlowOk i n (suc n) (calls.cancelled w) s w
        (unless_error (pause calls opts first w) s w
          (unless_bail opts.bail (run_one p got.0.0 got.0.1) s got.1))
        h
        (unless_error-FlowOk i n (suc n) (pause calls opts first w) s w
          (unless_bail opts.bail (run_one p got.0.0 got.0.1) s got.1) h ran)

  then-FlowOk :
      (i n m : ℕ) (flow : Flow S) (next : RunSummary → Bool → S → Flow S)
      → FlowOk i n flow
      → ((s : RunSummary) (first : Bool) (w : S)
          → Running opts.bail i n s
          → FlowOk i m (next s first w))
      → FlowOk i m (then_ flow next)
  then-FlowOk i n m (left s w) next k rest = k
  then-FlowOk i n m (going s first w) next k rest = rest s first w k

  requests_loop-FlowOk :
      (i n : ℕ) (plan : List Planned) (s : RunSummary) (first : Bool) (w : S)
      → Running opts.bail i n s
      → FlowOk i (n + length plan) (requests_loop calls opts plan s first w)
  unfolding requests_loop
  requests_loop-FlowOk i n [] s first w (b, (f, (it, (len, past)))) =
      (b, (f, (it, (omega (arith, len), past))))
  requests_loop-FlowOk i n (p ∷ plan) s first w h =
      then-FlowOk i (suc n) (n + suc (length plan)) (request_round calls opts p s first w)
        (requests_loop calls opts plan) (request_round-FlowOk i n p s first w h)
        (λ s' first' w' k.
          recount (requests_loop calls opts plan s' first' w')
            (requests_loop-FlowOk i (suc n) plan s' first' w' k))
    where
      count : suc n + length plan ≡ n + suc (length plan)
      count = omega arith

      recount :
          (flow : Flow S)
          → FlowOk i (suc n + length plan) flow
          → FlowOk i (n + suc (length plan)) flow
      recount flow k = subst (λ m. FlowOk i m flow) count k

  -- the end of the rows, or an earlier one
  abbrev pub Ended : ℕ → ℕ → RunSummary → Type 0
  Ended i n s = Left opts.bail s ⊎ Running opts.bail i n s

  finally-Ended :
      (i j n m : ℕ) (flow : Flow S) (next : RunSummary → Bool → S → RunSummary × S)
      → FlowOk i n flow
      → ((s : RunSummary) (first : Bool) (w : S)
          → Running opts.bail i n s
          → Ended j m (next s first w).0)
      → Ended j m (finally flow next).0
  finally-Ended i j n m (left s w) next k rest = inl k
  finally-Ended i j n m (going s first w) next k rest = rest s first w k

  rows_loop-Ended :
      (i n : ℕ) (plan : List Planned) (rows : List Row) (s : RunSummary) (first : Bool) (w : S)
      → Running opts.bail i n s
      → Ended
          (i + length rows)
          (n + length rows * length plan)
          (rows_loop calls opts plan rows s first w).0
  unfolding rows_loop
  rows_loop-Ended i n plan [] s first w (b, (f, (it, (len, past)))) =
      inr (b, (f, (omega (arith, it), (omega (arith, len), past))))
  rows_loop-Ended i n plan (broken e ∷ rows) s first w (b, (f, (it, (len, past)))) =
      inl (inr (b, ((bad_row e, refl), past)))
  rows_loop-Ended i n plan (row values ∷ rows) s first w (b, (f, (it, (len, past)))) =
      let s' : RunSummary = record s { iterations = suc s.iterations } in
      finally-Ended (suc i) (i + suc (length rows)) (n + length plan)
        (n + suc (length rows) * length plan)
        (requests_loop calls opts plan s' first (calls.reset values w))
        (rows_loop calls opts plan rows)
        (requests_loop-FlowOk (suc i) n plan s' first (calls.reset values w)
          (b, (f, (ap (λ (m : ℕ). suc m) it, (len, past)))))
        (λ t first' v k.
          recount (rows_loop calls opts plan rows t first' v).0
            (rows_loop-Ended (suc i) (n + length plan) plan rows t first' v k))
    where
      rows_count : suc i + length rows ≡ i + suc (length rows)
      rows_count = omega arith

      results_count :
          n + length plan + length rows * length plan ≡ n + suc (length rows) * length plan
      results_count = omega arith

      recount :
          (t : RunSummary)
          → Ended (suc i + length rows) (n + length plan + length rows * length plan) t
          → Ended (i + suc (length rows)) (n + suc (length rows) * length plan) t
      recount t k =
          subst (λ m. Ended (i + suc (length rows)) m t) results_count
            (subst (λ j. Ended j (n + length plan + length rows * length plan) t) rows_count k)

  or_no_rows-Accounts :
      (plan : List Planned) (rows : List Row) (s : RunSummary)
      → Ended (length rows) (length rows * length plan) s
      → Accounts opts.bail plan rows (or_no_rows calls opts s.failure s)
  or_no_rows-Accounts plan rows s (inr (b, (f, (it, (len, past))))) =
      elim (Bool-cases (s.iterations == 0)) [
        | inl nothing ↦ rw (f, nothing, b) past
        | inr some_rows ↦ rw (f, some_rows, b) (it, (len, past))
      ]
  or_no_rows-Accounts plan rows s (inl (inr (b, ((e, f), past)))) = rw (f, b) past
  or_no_rows-Accounts plan rows s (inl (inl (b, stops))) = go s.failure
    where
      go : (o : Option RunError) → Accounts opts.bail plan rows (or_no_rows calls opts o s)
      go (some e) = rw b stops
      go none = elim (Bool-cases (s.iterations == 0)) [
        | inl nothing ↦ rw (nothing, b) stops
        | inr rest ↦ rw (rest, b) stops
      ]

zero_add : (n : ℕ) → 0 + n ≡ n
zero_add n = omega arith

-- A run of a plan over rows of data ends in one of three ways. It stopped at a failure, which only the
-- option to bail makes it do: the last result has failed, and all before it have passed. Or it
-- returns an error. Or it has as many results as the plan has requests, for each row. In the last two, with
-- the option to bail, every result has passed.
pub run_plan-Accounts :
    {S : Type 0} (calls : Calls S) (opts : Options) (plan : List Planned) (rows : List Row) (w : S)
    → Accounts opts.bail plan rows (run_plan calls opts plan rows w).0
unfolding run_plan
run_plan-Accounts calls opts plan rows w =
    or_no_rows-Accounts calls opts plan rows (rows_loop calls opts plan rows start true w).0 (
      recount (rows_loop calls opts plan rows start true w).0 (
        rows_loop-Ended calls opts 0 0 plan rows start true w
          (refl, (refl, (refl, (refl, nothing opts.bail))))))
  where
    recount :
        (s : RunSummary)
        → Ended calls opts (0 + length rows) (0 + length rows * length plan) s
        → Ended calls opts (length rows) (length rows * length plan) s
    recount s k =
        subst (λ i. Ended calls opts i (length rows * length plan) s) (zero_add (length rows))
          (subst (λ n. Ended calls opts (0 + length rows) n s)
            (zero_add (length rows * length plan)) k)

    nothing : (bail : Bool) → PassedSoFar bail []
    nothing true = tt
    nothing false = tt
