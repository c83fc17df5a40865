-- ===== src/Core/Chaining/Tests.antt =====
-- Chained values and nested sends at concrete inputs.
use auk.Base.{◌≤◌, ◌≡◌, ◌↔◌, refl, [], ◌∷◌, Option, none, some, length}
use auk.Base.Int.{pos, atoi}
use auk.Base.Text.{Bytes, codes, trim_prefix, strip_prefix, bytes_eq}
use auk.Base.Text.Space.{trim_space}
use auk.Base.Result.{ok, map_err}
use auk.JsonPath.{Json, null, str, arr, obj, nil, cons, end, field, get}
use auk.Core.Chaining.{
  Response, parse_json_path, walk_json, json_value_to_string, json_get_path, extract_chain_value,
}
use auk.Core.Chaining.Agrees.{kind, json_get_path-get}
use auk.Core.Chaining.Chain.{nested, IsFresh, Succeeds, nested_iff}

-- {"a":["x",null]}
abbrev doc : Json
doc = obj (field (codes "a") (arr (cons (str (codes "x")) (cons null nil))) end)

abbrev unmarshal : Bytes → Option Json
unmarshal text = some doc

abbrev no_text : {A : Type 0} → A → Bytes
no_text _ = []

abbrev response : Response
response = record {
  status = pos 200;
  headers = record { key = codes "X"; value = codes "y" } ∷ [];
  body_base64 = codes "e30=";
  error = [];
}

get_first : json_get_path unmarshal no_text no_text [] (codes "$.a[0]") ≡ ok (codes "x")
unfolding json_get_path parse_json_path walk_json json_value_to_string trim_space trim_prefix atoi
    bytes_eq
get_first = refl

header_value :
    extract_chain_value unmarshal no_text no_text
      (λ b. some b)
      bytes_eq
      no_text
      response
      (codes " header.X")
    ≡ ok (codes "y")
unfolding extract_chain_value trim_space strip_prefix bytes_eq
header_value = refl

json_get_path-get_example :
    json_get_path unmarshal no_text no_text [] (codes "$.a[7]")
    ≡ map_err kind (get unmarshal no_text no_text [] (codes "$.a[7]"))
json_get_path-get_example = json_get_path-get unmarshal no_text no_text [] (codes "$.a[7]")

nested_iff_example : Succeeds (nested none (codes "A" ∷ codes "B" ∷ codes "A" ∷ [])) ↔ (
    IsFresh [] (codes "A" ∷ codes "B" ∷ codes "A" ∷ [])
    × (length (codes "A" ∷ codes "B" ∷ codes "A" ∷ []) ≤ 9))
nested_iff_example = nested_iff (codes "A" ∷ codes "B" ∷ codes "A" ∷ [])
