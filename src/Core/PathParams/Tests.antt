-- ===== src/Core/PathParams/Tests.antt =====
-- Path parameters at concrete URLs.
use auk.Base.{◌≡◌, refl, true, false, List, [], ◌∷◌, some, none, arith, All}
use auk.Base.Text.{Bytes, codes}
use auk.Core.Model.{KeyValue, http, websocket}
use auk.Core.PathParams.{path_param_name, escape_path_segment, apply_path_params}
use auk.Core.PathParams.Escape.{IsInert, decode, escape_path_segment_lem}

abbrev rows : List KeyValue
rows =
    record { key = codes "id"; value = codes "a/b"; enabled = false }
    ∷ record { key = codes "host"; value = codes "evil"; enabled = true }
    ∷ []

abbrev users_url : Bytes
users_url = codes "https://:host:1/u/:id/:x?q=:id"

fills_users : apply_path_params http users_url rows ≡ codes "https://:host:1/u/a%2Fb/:x?q=:id"
unfolding apply_path_params
fills_users = refl

keeps_websocket : apply_path_params websocket users_url rows ≡ users_url
unfolding apply_path_params
keeps_websocket = refl

escape_path_segment_lem_example :
    All IsInert (escape_path_segment (codes "a/:b"))
    × (path_param_name (escape_path_segment (codes "a/:b")) ≡ none)
    × (decode (escape_path_segment (codes "a/:b")) ≡ some (codes "a/:b"))
escape_path_segment_lem_example = escape_path_segment_lem (codes "a/:b") (omega arith)
