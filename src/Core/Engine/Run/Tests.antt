-- ===== src/Core/Engine/Run/Tests.antt =====
-- A send with its policy, at concrete services.
use auk.Base.{◌≡◌, refl, true, [], none, some, if◌then◌else◌}
use auk.Base.Int.{pos}
use auk.Base.Result.{Result, ok, err}
use auk.Base.Text.{Bytes, codes, bytes_eq}
use auk.Core.Model.{http}
use auk.Core.Chaining.{with_chain_request}
use auk.Core.Engine.Layers.{
  folder_variables, folder_chain, folder_rows, load_environment, merged_environment,
}
use auk.Core.Engine.Request.{ResolvedRequest}
use auk.Core.PathParams.{apply_path_params}
use auk.Core.Engine.Run.{
  Request, Response, DispatchContext, Verdict, allow, deny, EngineError, blocked, World, Services,
}
use auk.Core.Engine.Run.Resolve.{resolve_and_authorize}
use auk.Core.Engine.Run.Send.{run_post_response_script, run_request}
use auk.Core.Engine.Run.Asked.{OnRecord, Ends, TemplaterAsks}
use auk.Core.Engine.Run.Chokepoint.{run_request_lem}

abbrev saved_request : Bytes → Request Bytes
saved_request id = record {
  id = id;
  workspace_id = codes "w";
  folder = none;
  name = codes "list";
  protocol = http;
  auth = none;
  assertions = [];
  pre_request_script = [];
  post_response_script = [];
}

-- the id of a request stands for its method
abbrev resolved : Request Bytes → ResolvedRequest Bytes
resolved req = record {
  url = codes "http://h/";
  method = req.id;
  headers = [];
  params = [];
  body = none;
  path_params = [];
  auth = none;
}

abbrev reply : Response
reply = record {
  request_id = codes "1";
  status = pos 200;
  headers = [];
  body_base64 = [];
  timing_ms = pos 3;
  timestamp = [];
  assertion_results = [];
  test_results = [];
  script_logs = [];
  script_error = [];
}

abbrev reads_only : DispatchContext → Verdict
reads_only dc = if bytes_eq dc.method (codes "GET") then allow else deny (codes "no")

abbrev services : Services Bytes
services = record {
  get_request = λ id. ok (saved_request id);
  with_secrets = λ env. env;
  not_found = λ id. id;
  list_folders = λ w. [];
  accepts = λ env. true;
  save_response = λ resp. true;
  append_history = λ entry. true;
  resolve = λ chain req env w. (ok (resolved req), w);
  resolve_auth = none;
  auth_kind = λ a. a;
  apply = λ a r. ok r;
  scripter = none;
  post_scripter = none;
  asserter = none;
  authorize = λ events dc. reads_only dc;
  protocol = λ kind. some (λ req r. (reply, none));
  captures_cookies = true;
}

services-TemplaterAsks : TemplaterAsks services
services-TemplaterAsks = ((λ chain req env w h. (h, tt)), λ f e. absurd (cc e))

abbrev fresh : World Bytes
fresh = record {
  state = record { environments = []; session = λ w. []; run = none };
  sessions = [];
  events = [];
}

abbrev sent : Bytes → Result EngineError Response × World Bytes
sent method = run_request services 2 none (codes "s") method [] (codes "mcp") fresh

-- A denied method is not executed.
delete_blocked : (sent (codes "DELETE")).0 ≡ err (blocked (codes "no"))
unfolding run_request with_chain_request resolve_and_authorize folder_variables folder_chain
    folder_rows load_environment merged_environment apply_path_params bytes_eq
delete_blocked = refl

get_answered : (sent (codes "GET")).0 ≡ ok reply
unfolding run_request with_chain_request resolve_and_authorize run_post_response_script
    folder_variables folder_chain folder_rows load_environment merged_environment apply_path_params
    bytes_eq
get_answered = refl

run_request_lem_example :
    Ends
      (OnRecord services (codes "GET"))
      (run_request services 2 none (codes "s") (codes "GET") [] (codes "mcp") fresh)
run_request_lem_example =
    run_request_lem services 2 none (codes "s") (codes "GET") [] (codes "mcp") fresh
      services-TemplaterAsks tt
