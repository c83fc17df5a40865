-- ===== src/Core/Engine/Request.antt =====
-- The resolved request, what a pre-request script sees of it, and how its edits come back.
-- The auth configuration is any type `A`: only its presence and identity matter here.
pub mod Edits
use auk.Base.{Bool, true, false, List, [], ◌∷◌, Option, none, some, if◌then◌else◌}
use auk.Base.Text.{Bytes, bytes_eq}
use auk.Core.Model.{KeyValue}
use auk.Core.Vars.{Vars}
use auk.Core.Engine.Secrets.{redact_secret_values}

-- `model.RequestBody`
pub record Body : Type 0 where
  pub kind : Bytes
  pub text : Bytes
  pub form_fields : List KeyValue
  pub graphql_variables : Bytes

pub record ResolvedRequest (A : Type 0) : Type 0 where
  pub url : Bytes
  pub method : Bytes
  pub headers : List KeyValue
  pub params : List KeyValue
  pub body : Option Body
  pub path_params : List KeyValue
  pub auth : Option A

abbrev pub map_headers : (Bytes → Bytes) → List KeyValue → List KeyValue
map_headers f [] = []
map_headers f (h ∷ headers) = record h { key = f h.key; value = f h.value } ∷ map_headers f headers

abbrev pub map_body : (Bytes → Bytes) → Option Body → Option Body
map_body f none = none
map_body f (some b) = some (record b { text = f b.text })

module _ {A : Type 0} where
  -- the snapshot under any redaction of texts
  abbrev pub redact_by : (Bytes → Bytes) → ResolvedRequest A → ResolvedRequest A
  redact_by f r = record r {
    url = f r.url;
    headers = map_headers f r.headers;
    body = map_body f r.body;
  }

  -- `redactResolved`
  unfoldable pub redact_resolved : Vars → ResolvedRequest A → ResolvedRequest A
  unfolding redact_secret_values
  redact_resolved [] r = r
  redact_resolved (e ∷ secrets) r = redact_by (redact_secret_values (e ∷ secrets)) r

-- one header of the script's, with the real and the redacted header of its place
unfoldable pub merge_header : KeyValue → KeyValue → KeyValue → KeyValue
unfolding bytes_eq
merge_header real base h =
    if bytes_eq h.key base.key
    then record h {
      key = real.key;
      value = if bytes_eq h.value base.value then real.value else h.value;
    }
    else h

unfoldable pub merge_headers : List KeyValue → List KeyValue → List KeyValue → List KeyValue
unfolding merge_header
merge_headers (r ∷ real) (b ∷ baseline) (h ∷ headers) =
    merge_header r b h ∷ merge_headers real baseline headers
merge_headers real baseline [] = []
merge_headers [] baseline (h ∷ headers) = h ∷ headers
merge_headers (r ∷ real) [] (h ∷ headers) = h ∷ headers

abbrev pub merge_body : Option Body → Option Body → Option Body → Option Body
merge_body (some real) (some base) (some b) =
    some (record b { text = if bytes_eq b.text base.text then real.text else b.text })
merge_body _ _ none = none
merge_body none _ (some b) = some b
merge_body (some real) none (some b) = some b

module _ {A : Type 0} where
  -- `mergeScriptEdits`
  unfoldable pub merge_script_edits :
      ResolvedRequest A → ResolvedRequest A → ResolvedRequest A → ResolvedRequest A
  unfolding merge_headers
  merge_script_edits real baseline scripted = record scripted {
    url = if bytes_eq scripted.url baseline.url then real.url else scripted.url;
    headers = merge_headers real.headers baseline.headers scripted.headers;
    body = merge_body real.body baseline.body scripted.body;
    auth = real.auth;
  }
