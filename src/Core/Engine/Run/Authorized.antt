-- ===== src/Core/Engine/Run/Authorized.antt =====
-- `resolveAndAuthorize` ends with the policy's leave for what it returns.
use auk.Base.{ℕ, ◌≡◌, refl, inl, inr, List, ◌++◌, Option, none, some, Bool-cases}
use auk.Base.Text.{Bytes, codes, bytes_eq, is_blank}
use auk.Base.Result.{Result, ok, err}
use auk.Core.Model.{KeyValue, Environment}
use auk.Core.Vars.{Vars}
use auk.Core.Chaining.{ChainState}
use auk.Core.Engine.Layers.{load_environment}
use auk.Core.Engine.Secrets.{variable_map, secret_names, secret_values, merge_secret_maps}
use auk.Core.Engine.Request.{ResolvedRequest, redact_resolved}
use auk.Core.Engine.Run.{
  Request, Verdict, allow, deny, broken, Event, asked, bad_request, World, Scripter, plain,
  with_vars, Act, Services, ◌>>=◌, lift, emit, values_of,
}
use auk.Core.Engine.Run.Resolve.{
  environment_for, merge_layers, folder_vars_of, auth_config, applied, apply_to, authenticated,
  run_script, scripted, decided, ask, dispatch_context, prepared, resolve_and_authorize, with_path,
  scripted_plain, finished, write_variables,
}
use auk.Core.Engine.Run.Asked.{
  AskedFor, EachAsked, Ends, Keeps, Any, after-Ends, then-Keeps, TemplaterAsks,
}

module _ {A : Type 0} (svc : Services A) (fuel : ℕ) (templater : TemplaterAsks svc) where
  pub environment_for-Keeps :
      (req : Request A) (id : Bytes) → Keeps Any (environment_for svc fuel req id)
  environment_for-Keeps req id w h =
      go (load_environment id w.state.environments) (folder_vars_of svc fuel req)
    where
      go :
          (env : Option (Option Environment)) (vars : Option (List KeyValue))
          → Ends Any (merge_layers svc fuel req env vars id w)
      go none vars = (h, tt)
      go (some env) none = (h, tt)
      go (some none) (some vars) = (h, tt)
      go (some (some env)) (some vars) = (h, tt)

  auth_config-Keeps :
      (f : Option (ChainState → Request A → Option Environment → A → Act A A))
      → svc.resolve_auth ≡ f
      → (chain : ChainState) (req : Request A) (env : Option Environment) (auth : A)
      → Keeps Any (auth_config svc fuel f chain req env auth)
  auth_config-Keeps none e chain req env auth w h = (h, tt)
  auth_config-Keeps (some f) e chain req env auth w h = templater.1 f e chain req env auth w h

  apply_to-Keeps :
      (label : Bytes) (r : ResolvedRequest A) (auth : A)
      → Keeps Any (apply_to svc fuel label r auth)
  apply_to-Keeps label r auth w h = go (svc.apply auth (record r { auth = some auth }))
    where
      go :
          (o : Result Bytes (ResolvedRequest A))
          → Ends Any (applied svc fuel label (values_of r.headers) o w)
      go (ok r) = (h, tt)
      go (err e) = (h, tt)

  authenticated-Keeps :
      (chain : ChainState) (req : Request A) (env : Option Environment) (r : ResolvedRequest A)
      (auth : Option A)
      → Keeps Any (authenticated svc fuel chain req env r auth)
  authenticated-Keeps chain req env r none w h = (h, tt)
  authenticated-Keeps chain req env r (some auth) w h =
      elim (Bool-cases (bytes_eq (svc.auth_kind auth) (codes "none"))) [
        | inl none_kind ↦ rw none_kind (h, tt)
        | inr kind ↦ rw kind (
            then-Keeps Any (auth_config svc fuel svc.resolve_auth chain req env auth)
              (apply_to svc fuel (codes "auth:" ++ svc.auth_kind auth) r)
              (auth_config-Keeps svc.resolve_auth refl chain req env auth)
              (apply_to-Keeps (codes "auth:" ++ svc.auth_kind auth) r) w h)
      ]

  run_script-Keeps :
      (req : Request A) (id : Bytes) (env : Option Environment) (r snapshot : ResolvedRequest A)
      (s : Scripter A)
      → Keeps Any (run_script svc fuel req id env r snapshot s)
  run_script-Keeps req id env r snapshot (plain run) w h = go (run req.pre_request_script snapshot)
    where
      go :
          (o : Result Bytes (ResolvedRequest A)) → Ends Any (scripted_plain svc fuel r snapshot o w)
      go (ok x) = (h, tt)
      go (err e) = (h, tt)
  run_script-Keeps req id env r snapshot (with_vars run) w h =
      let out = run req.pre_request_script snapshot (variable_map env) (secret_names env) in
      go out.failure out.result (write_variables svc fuel req id env out.writes out.unsets w) h
    where
      go :
          (o : Option Bytes) (x : ResolvedRequest A) (v : World A)
          → EachAsked v.events
          → Ends Any (finished svc fuel r snapshot o x v)
      go none x v g = (g, tt)
      go (some e) x v g = (g, tt)

  scripted-Keeps :
      (req : Request A) (id : Bytes) (env : Option Environment) (minted : Vars)
      (r : ResolvedRequest A) (s : Option (Scripter A))
      → Keeps Any (scripted svc fuel req id env minted r s)
  scripted-Keeps req id env minted r none w h = (h, tt)
  scripted-Keeps req id env minted r (some s) w h =
      elim (Bool-cases (is_blank req.pre_request_script)) [
        | inl blank ↦ rw blank (h, tt)
        | inr script ↦ rw script (
            run_script-Keeps req id env r
              (redact_resolved (merge_secret_maps (secret_values env) minted) r) s w h)
      ]

  -- what comes out of the chokepoint
  -- the policy's leave for the resolved request, and the request as it is stored
  abbrev pub Allowed : Bytes → Request A × ResolvedRequest A → List (Event A) → Type 0
  Allowed request_id got events = AskedFor got.1 events × (svc.get_request request_id ≡ ok got.0)

  ask-Keeps :
      (req : Request A) (origin request_id id : Bytes) (r : ResolvedRequest A)
      → svc.get_request request_id ≡ ok req
      → Keeps
          (Allowed request_id)
          (ask svc fuel req (dispatch_context svc fuel origin request_id id r) r)
  ask-Keeps req origin request_id id r stored w h =
      go (svc.authorize w.events (dispatch_context svc fuel origin request_id id r))
    where
      go :
          (v : Verdict)
          → Ends (Allowed request_id) (
              decided svc fuel req r v
                (emit (asked (dispatch_context svc fuel origin request_id id r) v) w))
      go allow = (h, ((refl, refl), stored))
      go (deny reason) = (h, tt)
      go (broken e) = (h, tt)

  prepared-Keeps :
      (chain : ChainState) (request_id id origin : Bytes) (req : Request A)
      (env : Option Environment) (r : ResolvedRequest A)
      → svc.get_request request_id ≡ ok req
      → Keeps (Allowed request_id) (prepared svc fuel chain request_id id origin req env r)
  prepared-Keeps chain request_id id origin req env r stored =
      then-Keeps (Allowed request_id)
        (authenticated svc fuel chain req env (with_path svc fuel req r) req.auth)
        (λ made. asking made)
        (authenticated-Keeps chain req env (with_path svc fuel req r) req.auth)
        (λ made.
          then-Keeps (Allowed request_id) (scripted svc fuel req id env made.1 made.0 svc.scripter)
            (λ final. ask svc fuel req (dispatch_context svc fuel origin request_id id final) final)
            (scripted-Keeps req id env made.1 made.0 svc.scripter)
            (λ final. ask-Keeps req origin request_id id final stored))
    where
      asking : ResolvedRequest A × Vars → Act A (Request A × ResolvedRequest A)
      asking made = scripted svc fuel req id env made.1 made.0 svc.scripter >>= λ final.
          ask svc fuel req (dispatch_context svc fuel origin request_id id final) final

  pub resolve_and_authorize-Keeps :
      (chain : ChainState) (request_id id origin : Bytes)
      → Keeps (Allowed request_id) (resolve_and_authorize svc fuel chain request_id id origin)
  unfolding resolve_and_authorize
  resolve_and_authorize-Keeps chain request_id id origin w h =
      after-Ends (λ req _. svc.get_request request_id ≡ ok req) (Allowed request_id)
        (lift bad_request (svc.get_request request_id) w) (λ req. from_request req)
        (fetched (svc.get_request request_id) refl)
        (λ req v g stored. from_request-Keeps req stored v g)
    where
      fetched :
          (o : Result Bytes (Request A))
          → svc.get_request request_id ≡ o
          → Ends (λ req _. svc.get_request request_id ≡ ok req) (lift bad_request o w)
      fetched (ok req) e = (h, e)
      fetched (err error) e = (h, tt)

      from_environment : Request A → Option Environment → Act A (Request A × ResolvedRequest A)
      from_environment req env =
          svc.resolve chain req env >>= λ r. prepared svc fuel chain request_id id origin req env r

      from_request : Request A → Act A (Request A × ResolvedRequest A)
      from_request req = environment_for svc fuel req id >>= λ env. from_environment req env

      from_request-Keeps :
          (req : Request A)
          → svc.get_request request_id ≡ ok req
          → Keeps (Allowed request_id) (from_request req)
      from_request-Keeps req stored =
          then-Keeps (Allowed request_id) (environment_for svc fuel req id)
            (λ env. from_environment req env) (environment_for-Keeps req id)
            (λ env.
              then-Keeps (Allowed request_id) (svc.resolve chain req env)
                (λ r. prepared svc fuel chain request_id id origin req env r)
                (templater.0 chain req env)
                (λ r. prepared-Keeps chain request_id id origin req env r stored))
