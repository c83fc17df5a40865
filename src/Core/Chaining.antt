-- ===== src/Core/Chaining.antt =====
-- internal/core/chaining.go: values read out of a response that another request refers to.
-- The package holds its own copy of the JSON path evaluator; `Agrees` compares the two.
-- A `context.Context` carries at most one chain state; here it is passed as an argument.
pub mod Agrees
pub mod Chain
mod Tests
use auk.Base.{
  ℕ, zero, suc, ◌+◌, ◌<◌, Bool, true, false, not, ◌&&◌, ◌||◌, List, [], ◌∷◌, ◌++◌, Option, none,
  some, ltb, ◌==◌, if◌then◌else◌, length, any,
}
use auk.Base.Int.{ℤ, pos, negsuc, atoi}
use auk.Base.Text.{Bytes, codes, bytes_eq, strip_prefix, trim_prefix, cut_byte}
use auk.Base.Text.Space.{trim_space}
use auk.Base.Result.{Result, ok, err, ◌>>=◌}
use auk.JsonPath.{Json, null, bool, num, str, arr, obj, Token, key, index, item_at, field_of}

pub data ChainError : Type 0 where
  bad_body unterminated bad_index empty_path out_of_fuel missing out_of_range : ChainError
  response_error undecodable no_header unsupported : ChainError
  cycle too_deep : ChainError

unfoldable pub step_json : Json → Token → Result ChainError Json
unfolding field_of
step_json (obj fs) (key k) = elim (field_of k fs) [ none ↦ err missing | some v ↦ ok v ]
step_json _ (key k) = err missing
step_json (arr xs) (index (negsuc n)) = err out_of_range
step_json (arr xs) (index (pos n)) = elim (item_at xs n) [ none ↦ err out_of_range | some v ↦ ok v ]
step_json _ (index n) = err missing

unfoldable pub walk_json : Json → List Token → Result ChainError Json
unfolding step_json
walk_json cur [] = ok cur
walk_json cur (t ∷ ts) = step_json cur t >>= λ next. walk_json next ts

abbrev pub flush_token : List Token → Bytes → List Token
flush_token tokens [] = tokens
flush_token tokens (c ∷ buf) = tokens ++ key (c ∷ buf) ∷ []

unfoldable pub read_index :
    (List Token → Bytes → Bytes → Result ChainError (List Token))
    → List Token
    → Option (Bytes × Bytes)
    → Result ChainError (List Token)
read_index rec tokens none = err unterminated
read_index rec tokens (some (text, rest)) = elim (atoi (trim_space text)) [
  | none ↦ err bad_index
  | some n ↦ rec (tokens ++ index n ∷ []) [] rest
]

-- the loop of `parseJSONPath`
unfoldable pub scan_json_path : ℕ → List Token → Bytes → Bytes → Result ChainError (List Token)
unfolding read_index cut_byte
scan_json_path fuel tokens buf [] = ok (flush_token tokens buf)
scan_json_path zero tokens buf (c ∷ s) = err out_of_fuel
scan_json_path (suc fuel) tokens buf (c ∷ s) =
    let dot = scan_json_path fuel (flush_token tokens buf) [] s in
    let plain = scan_json_path fuel tokens (buf ++ c ∷ []) s in
    if c == b'.'
    then dot
    else if c == b'['
    then read_index (scan_json_path fuel) (flush_token tokens buf) (cut_byte b']' s)
    else plain

abbrev pub some_token : List Token → Result ChainError (List Token)
some_token [] = err empty_path
some_token (t ∷ ts) = ok (t ∷ ts)

abbrev pub strip_dollar : Bytes → Bytes
strip_dollar path = trim_prefix (trim_prefix (trim_space path) (codes "$.")) (codes "$")

unfoldable pub parse_json_path : Bytes → Result ChainError (List Token)
unfolding scan_json_path
parse_json_path path =
    scan_json_path (length (strip_dollar path)) [] [] (strip_dollar path) >>= some_token

pub record Header : Type 0 where
  pub key : Bytes
  pub value : Bytes

-- what a chain reads of a `model.ResponseData`; the status is printed by `strconv.Itoa`
pub record Response : Type 0 where
  pub status : ℤ
  pub headers : List Header
  pub body_base64 : Bytes
  pub error : Bytes

module _ (unmarshal : Bytes → Option Json) (format_float : ℕ → Bytes) (marshal : Json → Bytes) where
  unfoldable pub json_value_to_string : Json → Bytes
  json_value_to_string (str s) = s
  json_value_to_string null = []
  json_value_to_string (num bits) = format_float bits
  json_value_to_string (bool true) = codes "true"
  json_value_to_string (bool false) = codes "false"
  json_value_to_string v = marshal v

  unfoldable pub json_get_path : Bytes → Bytes → Result ChainError Bytes
  json_get_path text path = elim (unmarshal text) [
    | none ↦ err bad_body
    | some doc ↦
        parse_json_path path >>= λ tokens. walk_json doc tokens >>= λ v. ok (json_value_to_string v)
  ]

  module _ (decode : Bytes → Option Bytes) (equal_fold : Bytes → Bytes → Bool)
      (itoa : ℤ → Bytes) where
    unfoldable pub decode_response_body : Response → Result ChainError Bytes
    decode_response_body resp = elim resp.error [
      | [] ↦ elim (decode resp.body_base64) [ none ↦ err undecodable | some body ↦ ok body ]
      | c ∷ s ↦ err response_error
    ]

    unfoldable pub find_header : Bytes → List Header → Result ChainError Bytes
    find_header name [] = err no_header
    find_header name (h ∷ hs) = if equal_fold h.key name then ok h.value else find_header name hs

    unfoldable pub extract_chain_value : Response → Bytes → Result ChainError Bytes
    unfolding decode_response_body find_header json_get_path
    extract_chain_value resp raw =
        let path = trim_space raw in
        if bytes_eq path [] || bytes_eq path (codes "body")
        then decode_response_body resp
        else if bytes_eq path (codes "status")
        then ok (itoa resp.status)
        else elim (strip_prefix (codes "header.") path) [
          | some name ↦ find_header name resp.headers
          | none ↦ elim (strip_prefix (codes "body.") path) [
            | some inner ↦ decode_response_body resp >>= λ body. json_get_path body inner
            | none ↦ err unsupported
          ]
        ]

-- `chainState`
pub record ChainState : Type 0 where
  pub depth : ℕ
  pub visited : List Bytes

abbrev pub max_chain_depth : ℕ
max_chain_depth = 8

abbrev pub is_visited : Bytes → List Bytes → Bool
is_visited id visited = any (bytes_eq id) visited

-- the state of a nested call, before its own request is added
abbrev pub entered : Option ChainState → ChainState
entered none = record { depth = 0; visited = [] }
entered (some prev) = record { depth = prev.depth + 1; visited = prev.visited }

unfoldable pub with_chain_request : Option ChainState → Bytes → Result ChainError ChainState
unfolding bytes_eq
with_chain_request prev id =
    let next = entered prev in
    if is_visited id next.visited
    then err cycle
    else if ltb max_chain_depth next.depth
    then err too_deep
    else ok (record next { visited = id ∷ next.visited })
