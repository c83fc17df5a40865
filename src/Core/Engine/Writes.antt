-- ===== src/Core/Engine/Writes.antt =====
-- Where the variables that a script writes land: the run's layer, an environment or the session.
-- The store lists its environments raw, `ListEnvironmentsRaw`; `accepts` says which environments
-- `PutEnvironment` writes without an error. The session keeps its variables by workspace.
pub mod Kept
pub mod Spared
pub mod Guarded
pub mod DataRun
pub mod Effects
pub mod Settled
pub mod Hidden
pub mod Landed
pub mod Seen
use auk.Base.{Bool, true, false, not, ◌&&◌, List, [], ◌∷◌, ◌++◌, Option, none, some, if◌then◌else◌}
use auk.Base.Text.{Bytes, bytes_eq, is_blank}
use auk.Core.Model.{KeyValue, Folder, Environment}
use auk.Core.Vars.{Vars, get, set, delete, member}
use auk.Core.Engine.RunVars.{RunVars, set_script, unset_script, overlay}
use auk.Core.Engine.Layers.{folder_rows, merged_environment}
use auk.Core.Engine.Secrets.{secret_names, secret_values, contains_secret_value}

pub record State : Type 0 where
  pub environments : List Environment
  pub session : Bytes → Vars
  pub run : Option RunVars

abbrev pub run_rows : Option RunVars → List KeyValue
run_rows none = []
run_rows (some rv) = overlay rv

-- `mergedEnvironment` in a state, of the environment as it is loaded, before the keychain fills in the
-- values of its secrets, and the request's folders
unfoldable pub seen_environment :
    Bytes → List Folder → Option Environment → State → Option Environment
unfolding merged_environment
seen_environment workspace chain env s =
    merged_environment env (folder_rows chain) (s.session workspace) (run_rows s.run)

-- `workspaceSecretNames`
abbrev pub workspace_secret_names : Bytes → List Environment → List Bytes
workspace_secret_names workspace [] = []
workspace_secret_names workspace (env ∷ envs) =
    let rest = workspace_secret_names workspace envs in
    if is_blank workspace
    then env.secrets ++ rest
    else if bytes_eq env.workspace_id workspace
    then env.secrets ++ rest
    else rest

-- the names that no script may write
abbrev pub protected_names : Bytes → Option Environment → List Environment → List Bytes
protected_names workspace env envs = workspace_secret_names workspace envs ++ secret_names env

-- `safeWrites`
unfoldable pub safe_writes : List Bytes → Vars → Vars → Vars
unfolding contains_secret_value
safe_writes protected leaks [] = []
safe_writes protected leaks ((name, value) ∷ writes) =
    let rest = safe_writes protected leaks writes in
    if not (member name protected) && not (contains_secret_value value leaks)
    then (name, value) ∷ rest
    else rest

-- `safeUnsets`
unfoldable pub safe_unsets : List Bytes → List Bytes → List Bytes
safe_unsets protected [] = []
safe_unsets protected (name ∷ unsets) =
    let rest = safe_unsets protected unsets in if member name protected then rest else name ∷ rest

-- `upsertVariable`
unfoldable pub upsert_variable : Bytes → Bytes → List KeyValue → List KeyValue
upsert_variable k v [] = record { key = k; value = v; enabled = true } ∷ []
upsert_variable k v (kv ∷ vars) =
    if bytes_eq kv.key k
    then record kv { value = v; enabled = true } ∷ vars
    else kv ∷ upsert_variable k v vars

-- `removeVariable`
unfoldable pub remove_variable : Bytes → List KeyValue → List KeyValue
remove_variable k [] = []
remove_variable k (kv ∷ vars) =
    let rest = remove_variable k vars in if bytes_eq kv.key k then rest else kv ∷ rest

abbrev pub upsert_all : Vars → List KeyValue → List KeyValue
upsert_all [] vars = vars
upsert_all ((k, v) ∷ writes) vars = upsert_all writes (upsert_variable k v vars)

abbrev pub remove_all : List Bytes → List KeyValue → List KeyValue
remove_all [] vars = vars
remove_all (k ∷ unsets) vars = remove_all unsets (remove_variable k vars)

-- the environment with the delta
unfoldable pub with_delta : Vars → List Bytes → Environment → Environment
unfolding upsert_variable remove_variable
with_delta writes unsets env = record env {
  variables = remove_all unsets (upsert_all writes env.variables);
}

abbrev pub onto_environments : Environment → Option (List Environment) → Option (List Environment)
onto_environments env none = none
onto_environments env (some envs) = some (env ∷ envs)

-- `persistVariables`: the environments afterwards, or `none` where it did not get there
unfoldable pub persist_variables :
    (Environment → Bool) → Bytes → Vars → List Bytes → List Environment → Option (List Environment)
unfolding with_delta
persist_variables accepts id writes unsets [] = none
persist_variables accepts id writes unsets (env ∷ envs) =
    let rest = persist_variables accepts id writes unsets envs in
    if bytes_eq env.id id
    then (if accepts (with_delta writes unsets env)
        then some (with_delta writes unsets env ∷ envs)
        else none)
    else onto_environments env rest

-- `forget`, of one workspace
abbrev pub forget : List Bytes → Vars → Vars
forget [] m = m
forget (k ∷ names) m = forget names (delete k m)

abbrev pub set_all : Vars → Vars → Vars
set_all [] m = m
set_all ((k, v) ∷ writes) m = set_all writes (set k v m)

-- The writes of names that a folder's variable would hide stay with the session.
abbrev pub hidden_writes : List Bytes → Vars → Vars
hidden_writes shadowed [] = []
hidden_writes shadowed ((k, v) ∷ writes) =
    let rest = hidden_writes shadowed writes in if member k shadowed then (k, v) ∷ rest else rest

abbrev pub keys : Vars → List Bytes
keys [] = []
keys ((k, v) ∷ m) = k ∷ keys m

abbrev pub names_of : List KeyValue → List Bytes
names_of [] = []
names_of (kv ∷ kvs) = kv.key ∷ names_of kvs

-- `settled`: the names of writes and unsets that no hidden write has
abbrev pub settled : List Bytes → List Bytes → List Bytes
settled hidden [] = []
settled hidden (k ∷ names) =
    let rest = settled hidden names in if member k hidden then rest else k ∷ rest

-- the session behind a write to an environment
unfoldable pub settle : List Bytes → Vars → List Bytes → Vars → Vars
unfolding set delete
settle shadowed writes unsets m =
    let hidden = hidden_writes shadowed writes in
    forget (settled (keys hidden) (keys writes ++ unsets)) (set_all hidden m)

abbrev pub script_all : Vars → List Bytes → RunVars → RunVars
script_all [] [] rv = rv
script_all [] (k ∷ unsets) rv = script_all [] unsets (unset_script k rv)
script_all ((k, v) ∷ writes) unsets rv = script_all writes unsets (set_script k v rv)

abbrev pub at_workspace : Bytes → (Vars → Vars) → (Bytes → Vars) → Bytes → Vars
at_workspace workspace f session w = if bytes_eq w workspace then f (session w) else session w

-- the end of `applyVariableWrites`, of what `persistVariables` reports
abbrev pub land : Bytes → List Bytes → Vars → List Bytes → Option (List Environment) → State → State
land workspace shadowed writes unsets none s = record s {
  session = at_workspace workspace (λ m. forget unsets (set_all writes m)) s.session;
}
land workspace shadowed writes unsets (some envs) s = record s {
  environments = envs;
  session = at_workspace workspace (settle shadowed writes unsets) s.session;
}

abbrev pub persisted :
    (Environment → Bool) → Bytes → Vars → List Bytes → List Environment → Option (List Environment)
persisted accepts id writes unsets envs =
    if is_blank id then none else persist_variables accepts id writes unsets envs

-- the writes and unsets that have passed the guards
unfoldable pub apply_safe :
    (Environment → Bool)
    → Bytes
    → List Bytes
    → Bytes
    → Vars
    → List Bytes
    → Option RunVars
    → State
    → State
unfolding persist_variables settle set_script unset_script
apply_safe accepts workspace shadowed id writes unsets (some rv) s = record s {
  run = some (script_all writes unsets rv);
}
apply_safe accepts workspace shadowed id writes unsets none s =
    land workspace shadowed writes unsets (persisted accepts id writes unsets s.environments) s

abbrev pub no_writes : Vars → List Bytes → Bool
no_writes [] [] = true
no_writes [] (_ ∷ _) = false
no_writes (_ ∷ _) unsets = false

-- `applyVariableWrites`, of the request's workspace and folder variables, the environment's id and the
-- merged environment
unfoldable pub apply_variable_writes :
    (Environment → Bool)
    → Bytes
    → List KeyValue
    → Bytes
    → Option Environment
    → Vars
    → List Bytes
    → State
    → State
unfolding secret_values safe_writes safe_unsets apply_safe
apply_variable_writes accepts workspace folder_vars id env writes unsets s =
    let protected = protected_names workspace env s.environments in
    let writes' = safe_writes protected (secret_values env) writes in
    let unsets' = safe_unsets protected unsets in
    if no_writes writes' unsets'
    then s
    else apply_safe accepts workspace (names_of folder_vars) id writes' unsets' s.run s
