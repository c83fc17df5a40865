-- ===== src/Core/Engine/Run.antt =====
-- The path of a send: `resolveAndAuthorize`, `RunRequest` and the post-response script.
-- What the engine is wired to is a record of services. A templater may run other requests, so it
-- reads and changes the engine's world; `fuel` bounds the walk up the folders. The world keeps what the
-- engine has asked and done, the last event first.
pub mod Resolve
pub mod Send
pub mod Asked
pub mod Authorized
pub mod Chokepoint
mod Tests
use auk.Base.{
  ℕ, Bool, true, false, not, ◌&&◌, ◌||◌, List, [], ◌∷◌, ◌++◌, Option, none, some, if◌then◌else◌,
}
use auk.Base.Int.{ℤ}
use auk.Base.Text.{Bytes, codes, bytes_eq, is_blank}
use auk.Base.Result.{Result, ok, err}
use auk.Core.Model.{ProtocolKind, KeyValue, Folder, Environment}
use auk.Core.Vars.{Vars}
use auk.Core.Chaining.{ChainState, ChainError, with_chain_request}
use auk.Core.PathParams.{apply_path_params}
use auk.Core.Engine.Layers.{folder_variables, load_environment, merged_environment}
use auk.Core.Engine.Secrets.{
  variable_map, secret_names, secret_values, minted_secrets, merge_secret_maps,
}
use auk.Core.Engine.Request.{ResolvedRequest, redact_resolved, merge_script_edits}
use auk.Core.Engine.Writes.{State, run_rows, apply_variable_writes}
use auk.Assert.{Assertion, AssertionResult, TestResult}

-- what the engine reads of a `model.RequestDef`
pub record Request (A : Type 0) : Type 0 where
  pub id : Bytes
  pub workspace_id : Bytes
  pub folder : Option Bytes
  pub name : Bytes
  pub protocol : ProtocolKind
  pub auth : Option A
  pub assertions : List Assertion
  pub pre_request_script : Bytes
  pub post_response_script : Bytes

-- what the engine reads and sets of a `model.ResponseData`
pub record Response : Type 0 where
  pub request_id : Bytes
  pub status : ℤ
  pub headers : List KeyValue
  pub body_base64 : Bytes
  pub timing_ms : ℤ
  pub timestamp : Bytes
  pub assertion_results : List AssertionResult
  pub test_results : List TestResult
  pub script_logs : List Bytes
  pub script_error : Bytes

-- `DispatchContext`
pub record DispatchContext : Type 0 where
  pub origin : Bytes
  pub request_id : Bytes
  pub method : Bytes
  pub url : Bytes
  pub environment : Bytes

-- `Decision`, or the policy's error
pub data Verdict : Type 0 where
  allow : Verdict
  deny : Bytes → Verdict
  broken : Bytes → Verdict

pub record HistoryEntry : Type 0 where
  pub id : Bytes
  pub request_id : Bytes
  pub request_name : Bytes
  pub method : Bytes
  pub url : Bytes
  pub status : ℤ
  pub timing_ms : ℤ
  pub timestamp : Bytes

-- what has left the engine: a question to the policy, a request on the wire, a response's cookies, and
-- what the store was given
pub data Event (A : Type 0) : Type 0 where
  asked : DispatchContext → Verdict → Event A
  executed : ProtocolKind → ResolvedRequest A → Event A
  captured : Bytes → List KeyValue → Event A
  saved : Response → Event A
  recorded : HistoryEntry → Event A

pub data EngineError : Type 0 where
  bad_request bad_environment : Bytes → EngineError
  endless_folders : EngineError
  chain_refused : ChainError → EngineError
  templates auth_templates auth_failed script_failed policy_check blocked : Bytes → EngineError
  no_protocol : EngineError
  execution : Bytes → Response → EngineError
  persist_response : Response → EngineError

pub record World (A : Type 0) : Type 0 where
  pub state : State
  pub sessions : List Bytes
  pub events : List (Event A)

-- what a script leaves, `PreRequestOutput` and `PostResponseOutput`, and its error if it has one
pub record Output (R : Type 0) : Type 0 where
  pub result : R
  pub writes : Vars
  pub unsets : List Bytes
  pub logs : List Bytes
  pub failure : Option Bytes

-- `Scripter`, with or without the variables of `PreRequestVarScripter`
pub data Scripter (A : Type 0) : Type 0 where
  plain : (Bytes → ResolvedRequest A → Result Bytes (ResolvedRequest A)) → Scripter A
  with_vars :
      (Bytes → ResolvedRequest A → Vars → List Bytes → Output (ResolvedRequest A)) → Scripter A

module _ (A : Type 0) where
  abbrev pub Act : Type 0 → Type 0
  Act R = World A → Result EngineError R × World A

  pub record Services : Type 0 where
    pub get_request : Bytes → Result Bytes (Request A)
    pub with_secrets : Environment → Environment
    pub not_found : Bytes → Bytes
    pub list_folders : Bytes → List Folder
    pub accepts : Environment → Bool
    pub save_response : Response → Bool
    pub append_history : HistoryEntry → Bool
    pub resolve : ChainState → Request A → Option Environment → Act (ResolvedRequest A)
    pub resolve_auth : Option (ChainState → Request A → Option Environment → A → Act A)
    pub auth_kind : A → Bytes
    pub apply : A → ResolvedRequest A → Result Bytes (ResolvedRequest A)
    pub scripter : Option (Scripter A)
    pub post_scripter : Option (Bytes → Response → Vars → List Bytes → Output (List TestResult))
    pub asserter : Option (List Assertion → Response → List AssertionResult)
    pub authorize : List (Event A) → DispatchContext → Verdict
    pub protocol : ProtocolKind → Option (Request A → ResolvedRequest A → Response × Option Bytes)
    pub captures_cookies : Bool

module _ {A R S : Type 0} where
  abbrev pub after : Result EngineError R × World A → (R → Act A S) → Result EngineError S × World A
  after (ok r, w) k = k r w
  after (err e, w) k = (err e, w)

  infixl 5 ◌>>=◌
  abbrev pub ◌>>=◌ : Act A R → (R → Act A S) → Act A S
  m >>= k = λ w. after (m w) k

module _ {A : Type 0} where
  abbrev pub lift : {R : Type 0} → (Bytes → EngineError) → Result Bytes R → Act A R
  lift wrap (ok r) w = (ok r, w)
  lift wrap (err e) w = (err (wrap e), w)

  abbrev pub emit : Event A → World A → World A
  emit e w = record w { events = e ∷ w.events }

abbrev pub values_of : List KeyValue → List Bytes
values_of [] = []
values_of (h ∷ headers) = h.value ∷ values_of headers
