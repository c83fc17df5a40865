-- ===== src/MockServer/Route/Tests.antt =====
-- Routes at concrete requests.
use auk.Base.{◌≡◌, ◌≢◌, ◌↔◌, refl, List, [], ◌∷◌, Option, some, none, All}
use mathlib.Core.List.{Memᴰ}
use auk.Base.Int.{pos}
use auk.Base.Text.{Bytes, codes, bytes_lt, to_upper, trim_prefix}
use auk.Base.Text.Space.{trim_space}
use auk.Core.Model.{http, websocket}
use auk.Core.PathParams.{path_param_name}
use auk.MockServer.Path.{extract_path, normalize_path, split_path, behind_scheme, from_slash}
use auk.MockServer.Route.{Request, Route, derive_routes, match_route, route_of}
use auk.MockServer.Route.Match.{Answers, match_route-Answers}
use auk.MockServer.Path.Normal.{extract_path-IsRoutable}
use auk.MockServer.Route.Derive.{Replays, derive_routes_iff}

abbrev by_id : Request
by_id = record {
  id = codes "r1";
  name = codes "one user";
  protocol = http;
  method = codes "get";
  url = codes "${base}/users/:id/?full=1";
  recorded = some (pos 200);
}

abbrev own : Request
own = record {
  id = codes "r2";
  name = codes "me";
  protocol = http;
  method = [];
  url = codes "https://api.test/users/me";
  recorded = some (pos 200);
}

abbrev feed : Request
feed = record {
  id = codes "r3";
  name = codes "feed";
  protocol = websocket;
  method = [];
  url = codes "wss://api.test/users/me";
  recorded = some (pos 101);
}

abbrev saved : List Request
saved = by_id ∷ own ∷ feed ∷ []

abbrev decoded : Bytes → Option Bytes
decoded part = some part

abbrev table : List Route
table = derive_routes decoded saved

abbrev chosen : Option Route → Bytes
chosen none = []
chosen (some r) = r.request_id

prefers_literal : chosen (match_route table (codes "get") (codes "/users/me")).0 ≡ codes "r2"
unfolding match_route derive_routes behind_scheme trim_space from_slash bytes_lt trim_prefix
    path_param_name
prefers_literal = refl

offers_methods : (match_route table (codes "POST") (codes "/users/7")).1 ≡ codes "GET" ∷ []
unfolding match_route derive_routes behind_scheme trim_space from_slash bytes_lt trim_prefix
    path_param_name
offers_methods = refl

match_route-Answers_example :
    Answers table
      (split_path (codes "/users/me"))
      (to_upper (codes "get"))
      (match_route table (codes "get") (codes "/users/me"))
match_route-Answers_example = match_route-Answers table (codes "get") (codes "/users/me")

abbrev raw_url : Bytes
raw_url = codes "http://h/a/b/?q#f"

extract_path-IsRoutable_example :
    ((rest : Bytes) × (extract_path raw_url ≡ b'/' ∷ rest))
    × (normalize_path (extract_path raw_url) ≡ extract_path raw_url)
    × All (λ c. (c ≢ b'?') × (c ≢ b'#')) (extract_path raw_url)
extract_path-IsRoutable_example = extract_path-IsRoutable raw_url

derive_routes_iff_example :
    Memᴰ (route_of decoded own (pos 200)) (derive_routes decoded saved)
    ↔ ((req : Request) × Memᴰ req saved × Replays decoded req (route_of decoded own (pos 200)))
derive_routes_iff_example = derive_routes_iff decoded saved (route_of decoded own (pos 200))
