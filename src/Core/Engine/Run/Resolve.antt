-- ===== src/Core/Engine/Run/Resolve.antt =====
-- `resolveAndAuthorize`, step by step.
use auk.Base.{ℕ, List, [], ◌++◌, Option, none, some, if◌then◌else◌}
use auk.Base.Text.{Bytes, codes, bytes_eq, is_blank}
use auk.Base.Result.{Result, ok, err}
use auk.Core.Model.{KeyValue, Environment}
use auk.Core.Vars.{Vars}
use auk.Core.Chaining.{ChainState}
use auk.Core.PathParams.{apply_path_params}
use auk.Core.Engine.Layers.{folder_variables, load_environment, merged_environment}
use auk.Core.Engine.Secrets.{
  variable_map, secret_names, secret_values, minted_secrets, merge_secret_maps,
}
use auk.Core.Engine.Request.{ResolvedRequest, redact_resolved, merge_script_edits}
use auk.Core.Engine.Writes.{run_rows, apply_variable_writes}
use auk.Core.Engine.Run.{
  Request, DispatchContext, Verdict, allow, deny, broken, asked, bad_request, bad_environment,
  endless_folders, auth_failed, script_failed, policy_check, blocked, World, Scripter, plain,
  with_vars, Act, Services, ◌>>=◌, lift, emit, values_of,
}

module _ {A : Type 0} (svc : Services A) (fuel : ℕ) where
  abbrev pub merge_layers :
      Request A
      → Option (Option Environment)
      → Option (List KeyValue)
      → Bytes
      → Act A (Option Environment)
  merge_layers req none folder_vars id w = (err (bad_environment (svc.not_found id)), w)
  merge_layers req (some env) none id w = (err endless_folders, w)
  merge_layers req (some none) (some folder_vars) id w = (
    ok (
        merged_environment none folder_vars (w.state.session req.workspace_id)
          (run_rows w.state.run)),
    w,
  )
  merge_layers req (some (some env)) (some folder_vars) id w = (
    ok (
        merged_environment (some (svc.with_secrets env)) folder_vars
          (w.state.session req.workspace_id) (run_rows w.state.run)),
    w,
  )

  abbrev pub folder_vars_of : Request A → Option (List KeyValue)
  folder_vars_of req = folder_variables fuel (svc.list_folders req.workspace_id) req.folder

  -- `mergedEnvironment`
  abbrev pub environment_for : Request A → Bytes → Act A (Option Environment)
  environment_for req id w =
      merge_layers req (load_environment id w.state.environments) (folder_vars_of req) id w

  abbrev pub or_none : Option (List KeyValue) → List KeyValue
  or_none none = []
  or_none (some kvs) = kvs

  -- `applyVariableWrites` in the world
  abbrev pub write_variables :
      Request A → Bytes → Option Environment → Vars → List Bytes → World A → World A
  write_variables req id env writes unsets w = record w {
    state =
        apply_variable_writes svc.accepts req.workspace_id (or_none (folder_vars_of req)) id env
          writes unsets w.state;
  }

  abbrev pub auth_config :
      Option (ChainState → Request A → Option Environment → A → Act A A)
      → ChainState
      → Request A
      → Option Environment
      → A
      → Act A A
  auth_config none chain req env auth w = (ok auth, w)
  auth_config (some resolve) chain req env auth w = resolve chain req env auth w

  -- the request with its auth applied, and the credentials that this has minted
  abbrev pub applied :
      Bytes → List Bytes → Result Bytes (ResolvedRequest A) → Act A (ResolvedRequest A × Vars)
  applied label before (ok r) w = (ok (r, minted_secrets label before r.headers []), w)
  applied label before (err e) w = (err (auth_failed e), w)

  abbrev pub apply_to : Bytes → ResolvedRequest A → A → Act A (ResolvedRequest A × Vars)
  apply_to label r auth =
      applied label (values_of r.headers) (svc.apply auth (record r { auth = some auth }))

  abbrev pub authenticated :
      ChainState
      → Request A
      → Option Environment
      → ResolvedRequest A
      → Option A
      → Act A (ResolvedRequest A × Vars)
  authenticated chain req env r none w = (ok (r, []), w)
  authenticated chain req env r (some auth) w =
      let kind = svc.auth_kind auth in
      let rest =
        (auth_config svc.resolve_auth chain req env auth >>= apply_to (codes "auth:" ++ kind) r)
          w in
      if bytes_eq kind (codes "none") then (ok (r, []), w) else rest

  abbrev pub finished :
      ResolvedRequest A
      → ResolvedRequest A
      → Option Bytes
      → ResolvedRequest A
      → Act A (ResolvedRequest A)
  finished r snapshot none scripted w = (ok (merge_script_edits r snapshot scripted), w)
  finished r snapshot (some e) scripted w = (err (script_failed e), w)

  abbrev pub scripted_plain :
      ResolvedRequest A
      → ResolvedRequest A
      → Result Bytes (ResolvedRequest A)
      → Act A (ResolvedRequest A)
  scripted_plain r snapshot (ok scripted) w = (ok (merge_script_edits r snapshot scripted), w)
  scripted_plain r snapshot (err e) w = (err (script_failed e), w)

  abbrev pub run_script :
      Request A
      → Bytes
      → Option Environment
      → ResolvedRequest A
      → ResolvedRequest A
      → Scripter A
      → Act A (ResolvedRequest A)
  run_script req id env r snapshot (plain run) w =
      scripted_plain r snapshot (run req.pre_request_script snapshot) w
  run_script req id env r snapshot (with_vars run) w =
      let out = run req.pre_request_script snapshot (variable_map env) (secret_names env) in
      finished r snapshot out.failure out.result
        (write_variables req id env out.writes out.unsets w)

  abbrev pub scripted :
      Request A
      → Bytes
      → Option Environment
      → Vars
      → ResolvedRequest A
      → Option (Scripter A)
      → Act A (ResolvedRequest A)
  scripted req id env minted r none w = (ok r, w)
  scripted req id env minted r (some s) w =
      let snapshot = redact_resolved (merge_secret_maps (secret_values env) minted) r in
      let rest = run_script req id env r snapshot s w in
      if is_blank req.pre_request_script then (ok r, w) else rest

  abbrev pub decided :
      Request A → ResolvedRequest A → Verdict → Act A (Request A × ResolvedRequest A)
  decided req r allow w = (ok (req, r), w)
  decided req r (deny reason) w = (err (blocked reason), w)
  decided req r (broken e) w = (err (policy_check e), w)

  abbrev pub dispatch_context : Bytes → Bytes → Bytes → ResolvedRequest A → DispatchContext
  dispatch_context origin request_id id r = record {
    origin = origin;
    request_id = request_id;
    method = r.method;
    url = r.url;
    environment = id;
  }

  abbrev pub ask :
      Request A → DispatchContext → ResolvedRequest A → Act A (Request A × ResolvedRequest A)
  ask req dc r w =
      let verdict = svc.authorize w.events dc in decided req r verdict (emit (asked dc verdict) w)

  abbrev pub with_path : Request A → ResolvedRequest A → ResolvedRequest A
  with_path req r = record r { url = apply_path_params req.protocol r.url r.path_params }

  -- what follows the templates
  abbrev pub prepared :
      ChainState
      → Bytes
      → Bytes
      → Bytes
      → Request A
      → Option Environment
      → ResolvedRequest A
      → Act A (Request A × ResolvedRequest A)
  prepared chain request_id id origin req env r =
      authenticated chain req env (with_path req r) req.auth >>= λ made.
      scripted req id env made.1 made.0 svc.scripter >>= λ final.
      ask req (dispatch_context origin request_id id final) final

  -- `resolveAndAuthorize`
  unfoldable pub resolve_and_authorize :
      ChainState → Bytes → Bytes → Bytes → Act A (Request A × ResolvedRequest A)
  unfolding load_environment folder_variables merged_environment
  resolve_and_authorize chain request_id id origin =
      lift bad_request (svc.get_request request_id) >>= λ req. environment_for req id >>= λ env.
      svc.resolve chain req env >>= λ r. prepared chain request_id id origin req env r
