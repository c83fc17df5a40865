-- ===== src/Core/Engine/Run/Send.antt =====
-- `RunRequest` and `runPostResponseScript`.
use auk.Base.{ℕ, List, [], ◌∷◌, ◌++◌, Option, none, some, if◌then◌else◌}
use auk.Base.Text.{Bytes, codes, bytes_eq, is_blank}
use auk.Base.Result.{Result, ok, err}
use auk.Core.Model.{Environment}
use auk.Core.Vars.{Vars}
use auk.Core.Chaining.{ChainState, ChainError, with_chain_request}
use auk.Core.Engine.Secrets.{variable_map, secret_names}
use auk.Core.Engine.Request.{ResolvedRequest}
use auk.Assert.{Assertion, AssertionResult, TestResult}
use auk.Core.Engine.Run.{
  Request, Response, HistoryEntry, executed, captured, saved, recorded, EngineError,
  bad_environment, chain_refused, no_protocol, execution, persist_response, World, Output, Act,
  Services, ◌>>=◌, emit,
}
use auk.Core.Engine.Run.Resolve.{environment_for, write_variables, resolve_and_authorize}

-- `Registry.Remove`
abbrev pub without_session : Bytes → List Bytes → List Bytes
without_session id [] = []
without_session id (s ∷ sessions) =
    let rest = without_session id sessions in if bytes_eq s id then rest else s ∷ rest

-- `Registry.Put`
abbrev pub with_session : Bytes → List Bytes → List Bytes
with_session id sessions = id ∷ without_session id sessions

abbrev pub tests_or : List TestResult → List TestResult → List TestResult
tests_or [] old = old
tests_or (t ∷ tests) old = t ∷ tests

abbrev pub logs_or : List Bytes → List Bytes → List Bytes
logs_or [] old = old
logs_or (l ∷ logs) old = l ∷ logs

abbrev pub failure_or : Option Bytes → Bytes → Bytes
failure_or none old = old
failure_or (some e) old = e

-- what a post-response script's output makes of the response
unfoldable pub with_output : Output (List TestResult) → Response → Response
with_output out resp = record resp {
  test_results = tests_or out.result resp.test_results;
  script_logs = logs_or out.logs resp.script_logs;
  script_error = failure_or out.failure resp.script_error;
}

-- a walk up the folders that has ended for the request ends again
abbrev pub script_broken : EngineError → Response → Response
script_broken (bad_environment e) resp = record resp {
  script_error = codes "load environment: " ++ e;
}
script_broken _ resp = resp

module _ {A : Type 0} (svc : Services A) (fuel : ℕ) where
  abbrev pub post_output :
      Request A
      → Bytes
      → (Bytes → Response → Vars → List Bytes → Output (List TestResult))
      → Response
      → Result EngineError (Option Environment) × World A
      → Response × World A
  post_output req id run resp (err e, w) = (script_broken e resp, w)
  post_output req id run resp (ok env, w) =
      let out = run req.post_response_script resp (variable_map env) (secret_names env) in
      (with_output out resp, write_variables svc fuel req id env out.writes out.unsets w)

  abbrev pub post_scripted :
      Request A
      → Bytes
      → Response
      → Option (Bytes → Response → Vars → List Bytes → Output (List TestResult))
      → World A
      → Response × World A
  post_scripted req id resp none w = (resp, w)
  post_scripted req id resp (some run) w =
      let rest = post_output req id run resp (environment_for svc fuel req id w) in
      if is_blank req.post_response_script then (resp, w) else rest

  -- `runPostResponseScript`
  unfoldable pub run_post_response_script :
      Request A → Bytes → Response → World A → Response × World A
  unfolding with_output
  run_post_response_script req id resp w = post_scripted req id resp svc.post_scripter w

  abbrev pub asserted :
      List Assertion
      → Option (List Assertion → Response → List AssertionResult)
      → Response
      → Response
  asserted [] evaluate resp = resp
  asserted (a ∷ assertions) none resp = resp
  asserted (a ∷ assertions) (some evaluate) resp = record resp {
    assertion_results = evaluate (a ∷ assertions) resp;
  }

  abbrev pub capture : Bytes → Response → World A → World A
  capture workspace resp w =
      if svc.captures_cookies then emit (captured workspace resp.headers) w else w

  abbrev pub entry_of : Request A → ResolvedRequest A → Response → HistoryEntry
  entry_of req r resp = record {
    id = resp.request_id;
    request_id = req.id;
    request_name = req.name;
    method = r.method;
    url = r.url;
    status = resp.status;
    timing_ms = resp.timing_ms;
    timestamp = resp.timestamp;
  }

  -- `AppendHistory`, whose error is dropped
  abbrev pub append : HistoryEntry → World A → World A
  append entry w = if svc.append_history entry then emit (recorded entry) w else w

  -- `SaveResponse` and `AppendHistory`
  abbrev pub store :
      Request A → ResolvedRequest A → Response × World A → Result EngineError Response × World A
  store req r (resp, w) =
      if svc.save_response resp
      then (ok resp, append (entry_of req r resp) (emit (saved resp) w))
      else (err (persist_response resp), w)

  -- what follows the execution
  abbrev pub received :
      Request A
      → Bytes
      → ResolvedRequest A
      → Response × Option Bytes
      → World A
      → Result EngineError Response × World A
  received req id r (resp, some e) w = (err (execution e resp), w)
  received req id r (resp, none) w = store req r (
      run_post_response_script req id (asserted req.assertions svc.asserter resp)
        (capture req.workspace_id resp w))

  abbrev pub close :
      Bytes → Result EngineError Response × World A → Result EngineError Response × World A
  close session (out, w) = (out, record w { sessions = without_session session w.sessions })

  abbrev pub open_session : Bytes → World A → World A
  open_session session w = record w { sessions = with_session session w.sessions }

  abbrev pub execute :
      Bytes
      → Bytes
      → Request A
      → ResolvedRequest A
      → Option (Request A → ResolvedRequest A → Response × Option Bytes)
      → Act A Response
  execute session id req r none w = (err no_protocol, w)
  execute session id req r (some protocol) w =
      close session (
        received req id r (protocol req r)
          (emit (executed req.protocol r) (open_session session w)))

  abbrev pub enter : Result ChainError ChainState → Act A ChainState
  enter (ok state) w = (ok state, w)
  enter (err e) w = (err (chain_refused e), w)

  -- `RunRequest`
  unfoldable pub run_request : Option ChainState → Bytes → Bytes → Bytes → Bytes → Act A Response
  unfolding with_chain_request resolve_and_authorize run_post_response_script
  run_request prev session request_id id origin =
      enter (with_chain_request prev request_id) >>= λ state.
      resolve_and_authorize svc fuel state request_id id origin >>= λ got.
      execute session id got.0 got.1 (svc.protocol got.0.protocol)
