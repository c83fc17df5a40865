-- ===== src/Core/Engine/Run/Chokepoint.antt =====
-- Nothing is executed that the policy has not just allowed, and what a run returns is on record.
use auk.Base.{
  ℕ, ◌≡◌, ◌∙◌, ap, sym, true, false, Bool, ◌∷◌, refl, inl, inr, List, Option, none, some,
  Bool-cases,
}
use mathlib.Core.Path.{subst}
use auk.Base.Text.{Bytes, is_blank}
use auk.Base.Result.{Result, ok, err}
use auk.Core.Model.{KeyValue, ProtocolKind, Environment}
use auk.Core.Engine.Layers.{load_environment}
use auk.Core.Vars.{Vars}
use auk.Core.Chaining.{ChainState, ChainError, with_chain_request}
use auk.Core.Engine.Request.{ResolvedRequest}
use auk.Assert.{TestResult}
use auk.Core.Engine.Run.{
  Request, Response, Event, executed, captured, saved, EngineError, World, Output, Services, ◌>>=◌,
  emit,
}
use auk.Core.Engine.Run.Resolve.{
  merge_layers, folder_vars_of, environment_for, resolve_and_authorize,
}
use auk.Core.Engine.Run.Send.{
  post_output, post_scripted, run_post_response_script, asserted, capture, entry_of, append, store,
  received, close, execute, enter, run_request, open_session,
}
use auk.Core.Engine.Run.Asked.{
  AskedFor, EachAsked, Tells, SentLast, OnRecord, Ends, Keeps, after-Ends, TemplaterAsks,
}
use auk.Core.Engine.Run.Authorized.{Allowed, resolve_and_authorize-Keeps}

module _ {A : Type 0} (svc : Services A) (fuel : ℕ) (templater : TemplaterAsks svc) where
  close-Ends :
      (request_id session : Bytes) (o : Result EngineError Response × World A)
      → Ends (OnRecord svc request_id) o
      → Ends (OnRecord svc request_id) (close svc fuel session o)
  close-Ends request_id session (ok resp, w) h = h
  close-Ends request_id session (err e, w) h = h

  entry_of-Tells :
      (req : Request A) (r : ResolvedRequest A) (resp : Response)
      → Tells req r resp (entry_of svc fuel req r resp)
  entry_of-Tells req r resp = record {
    response_id = refl;
    request_id = refl;
    request_name = refl;
    method = refl;
    url = refl;
    status = refl;
    timing_ms = refl;
    timestamp = refl;
  }

  -- what is returned when the response is saved, and whether the history takes the entry
  on_record :
      (request_id : Bytes) (req : Request A) (r : ResolvedRequest A) (resp : Response) (w : World A)
      (takes : Bool)
      → svc.get_request request_id ≡ ok req
      → SentLast req.protocol r w.events
      → svc.append_history (entry_of svc fuel req r resp) ≡ takes
      → EachAsked w.events
      → Ends
          (OnRecord svc request_id)
          (ok resp, append svc fuel (entry_of svc fuel req r resp) (emit (saved resp) w))
  on_record request_id req r resp w true stored sent e h = rw e (
    h,
    record {
      request = req;
      stored = stored;
      resolved = r;
      entry = entry_of svc fuel req r resp;
      before = w.events;
      tells = entry_of-Tells req r resp;
      sent = sent;
      ends = inl (e, refl);
    },
  )
  on_record request_id req r resp w false stored sent e h = rw e (
    h,
    record {
      request = req;
      stored = stored;
      resolved = r;
      entry = entry_of svc fuel req r resp;
      before = w.events;
      tells = entry_of-Tells req r resp;
      sent = sent;
      ends = inr (e, refl);
    },
  )

  store-Ends :
      (request_id : Bytes) (req : Request A) (r : ResolvedRequest A) (o : Response × World A)
      → svc.get_request request_id ≡ ok req
      → SentLast req.protocol r o.1.events
      → EachAsked o.1.events
      → Ends (OnRecord svc request_id) (store svc fuel req r o)
  store-Ends request_id req r (resp, w) stored sent h = elim (Bool-cases (svc.save_response resp)) [
    | inl saves ↦ rw saves (
        on_record request_id req r resp w (svc.append_history (entry_of svc fuel req r resp)) stored
          sent refl h)
    | inr fails ↦ rw fails (h, tt)
  ]

  environment_for-world :
      (req : Request A) (id : Bytes) (w : World A) → (environment_for svc fuel req id w).1 ≡ w
  environment_for-world req id w =
      go (load_environment id w.state.environments) (folder_vars_of svc fuel req)
    where
      go :
          (env : Option (Option Environment)) (vars : Option (List KeyValue))
          → (merge_layers svc fuel req env vars id w).1 ≡ w
      go none vars = refl
      go (some env) none = refl
      go (some none) (some vars) = refl
      go (some (some env)) (some vars) = refl

  -- The script after the response sends nothing.
  post_events :
      (req : Request A) (id : Bytes) (resp : Response) (w : World A)
      → (run_post_response_script svc fuel req id resp w).1.events ≡ w.events
  unfolding run_post_response_script
  post_events req id resp w = go svc.post_scripter
    where
      ran :
          (run : Bytes → Response → Vars → List Bytes → Output (List TestResult))
          (o : Result EngineError (Option Environment) × World A)
          → (post_output svc fuel req id run resp o).1.events ≡ o.1.events
      ran run (err e, v) = refl
      ran run (ok env, v) = refl

      go :
          (p : Option (Bytes → Response → Vars → List Bytes → Output (List TestResult)))
          → (post_scripted svc fuel req id resp p w).1.events ≡ w.events
      go none = refl
      go (some run) = elim (Bool-cases (is_blank req.post_response_script)) [
        | inl blank ↦ rw blank refl
        | inr script ↦ rw script (
            ran run (environment_for svc fuel req id w)
            ∙ ap (λ (v : World A). v.events) (environment_for-world req id w))
      ]

  capture-EachAsked :
      (workspace : Bytes) (resp : Response) (w : World A)
      → EachAsked w.events
      → EachAsked (capture svc fuel workspace resp w).events
  capture-EachAsked workspace resp w h = elim (Bool-cases svc.captures_cookies) [
    | inl jar ↦ rw jar h
    | inr no_jar ↦ rw no_jar h
  ]

  capture-SentLast :
      (kind : ProtocolKind) (r : ResolvedRequest A) (workspace : Bytes) (resp : Response)
      (w : World A) (rest : List (Event A))
      → w.events ≡ executed kind r ∷ rest
      → SentLast kind r (capture svc fuel workspace resp w).events
  capture-SentLast kind r workspace resp w rest e = elim (Bool-cases svc.captures_cookies) [
    | inl jar ↦
        rw jar
          (rest, inr (workspace, (resp.headers, ap (λ es. captured workspace resp.headers ∷ es) e)))
    | inr no_jar ↦ rw no_jar (rest, inl e)
  ]

  execute-Ends :
      (session id request_id : Bytes) (req : Request A) (r : ResolvedRequest A)
      (p : Option (Request A → ResolvedRequest A → Response × Option Bytes)) (w : World A)
      → svc.get_request request_id ≡ ok req
      → EachAsked w.events
      → AskedFor r w.events
      → Ends (OnRecord svc request_id) (execute svc fuel session id req r p w)
  execute-Ends session id request_id req r none w stored h leave = (h, tt)
  execute-Ends session id request_id req r (some protocol) w stored h leave =
      close-Ends request_id session (received svc fuel req id r (protocol req r) v)
        (go (protocol req r))
    where
      v : World A
      v = emit (executed req.protocol r) (open_session svc fuel session w)

      go :
          (o : Response × Option Bytes)
          → Ends (OnRecord svc request_id) (received svc fuel req id r o v)
      go (resp, some e) = ((leave, h), tt)
      go (resp, none) =
          let resp' = asserted svc fuel req.assertions svc.asserter resp in
          let w' = capture svc fuel req.workspace_id resp v in
          let same = sym (post_events req id resp' w') in
          store-Ends request_id req r (run_post_response_script svc fuel req id resp' w') stored
            (subst (SentLast req.protocol r) same
              (capture-SentLast req.protocol r req.workspace_id resp v w.events refl))
            (subst EachAsked same (capture-EachAsked req.workspace_id resp v (leave, h)))

  run_request-Keeps :
      (prev : Option ChainState) (session request_id id origin : Bytes)
      → Keeps (OnRecord svc request_id) (run_request svc fuel prev session request_id id origin)
  unfolding run_request
  run_request-Keeps prev session request_id id origin = go (with_chain_request prev request_id)
    where
      go :
          (c : Result ChainError ChainState)
          → Keeps (OnRecord svc request_id) (
              enter svc fuel c >>= λ state.
              resolve_and_authorize svc fuel state request_id id origin >>= λ got.
              execute svc fuel session id got.0 got.1 (svc.protocol got.0.protocol))
      go (err e) w h = (h, tt)
      go (ok state) w h =
          after-Ends (Allowed svc fuel templater request_id) (OnRecord svc request_id)
            (resolve_and_authorize svc fuel state request_id id origin w)
            (λ got. execute svc fuel session id got.0 got.1 (svc.protocol got.0.protocol))
            (resolve_and_authorize-Keeps svc fuel templater state request_id id origin w h)
            (λ got v g leave.
              execute-Ends session id request_id got.0 got.1 (svc.protocol got.0.protocol) v leave.1
                g leave.0)

-- Whatever the services do, whether the run ends with a response or an error: each execution in the
-- record of events directly follows the policy's leave for its very method and URL. Where a response is
-- returned, the stored request of this id was executed, and nothing but the capture of cookies came
-- between that and the saving of the response. A history entry with the request's id and name, the
-- method and the URL that were executed, and the response's id, status, timing and time then follows as the
-- last event, unless the history has failed to take it. The events before the run had each execution
-- allowed, and the runs of other requests that the templater starts keep it so.
pub run_request_lem :
    {A : Type 0} (svc : Services A) (fuel : ℕ) (prev : Option ChainState)
    (session request_id id origin : Bytes) (w : World A)
    → TemplaterAsks svc
    → EachAsked w.events
    → Ends (OnRecord svc request_id) (run_request svc fuel prev session request_id id origin w)
run_request_lem svc fuel prev session request_id id origin w templater h =
    run_request-Keeps svc fuel templater prev session request_id id origin w h
