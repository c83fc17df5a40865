-- ===== src/Core/Engine/Layers.antt =====
-- The variables that a request sees: environment, folders, session and run, the later ones first.
-- `ListFolders` gives each id once. The walk up the folders takes fuel; `none` is a walk that has
-- not ended.
pub mod Precedence
pub mod Walk
use auk.Base.{
  ℕ, zero, suc, Bool, true, false, ◌&&◌, List, [], ◌∷◌, ◌++◌, Option, none, some, if◌then◌else◌,
}
use auk.Base.Text.{Bytes, bytes_eq, is_blank}
use auk.Core.Model.{KeyValue, Folder, Environment}
use auk.Core.Vars.{Vars, rows}

-- `byID[id]`
unfoldable pub find_folder : Bytes → List Folder → Option Folder
find_folder id [] = none
find_folder id (f ∷ folders) = if bytes_eq f.id id then some f else find_folder id folders

abbrev pub onto_chain : Folder → Option (List Folder) → Option (List Folder)
onto_chain f none = none
onto_chain f (some chain) = some (f ∷ chain)

abbrev pub chain_of : (Option Bytes → Option (List Folder)) → Option Folder → Option (List Folder)
chain_of above none = some []
chain_of above (some f) = onto_chain f (above f.parent)

-- the loop of `folderVariables`: the chain of a folder, itself first; a dangling id ends it
unfoldable pub folder_chain : ℕ → List Folder → Option Bytes → Option (List Folder)
unfolding find_folder
folder_chain zero folders id = none
folder_chain (suc fuel) folders none = some []
folder_chain (suc fuel) folders (some id) =
    chain_of (folder_chain fuel folders) (find_folder id folders)

abbrev pub enabled_rows : List KeyValue → List KeyValue
enabled_rows [] = []
enabled_rows (kv ∷ kvs) = if kv.enabled then kv ∷ enabled_rows kvs else enabled_rows kvs

-- the variables along a chain, those of the root first
unfoldable pub folder_rows : List Folder → List KeyValue
folder_rows [] = []
folder_rows (f ∷ chain) = folder_rows chain ++ enabled_rows f.variables

abbrev pub rows_of_chain : Option (List Folder) → Option (List KeyValue)
rows_of_chain none = none
rows_of_chain (some chain) = some (folder_rows chain)

-- `folderVariables`
unfoldable pub folder_variables : ℕ → List Folder → Option Bytes → Option (List KeyValue)
unfolding folder_chain folder_rows
folder_variables fuel folders folder = rows_of_chain (folder_chain fuel folders folder)

abbrev pub is_nil : List KeyValue → Bool
is_nil [] = true
is_nil (_ ∷ _) = false

abbrev pub no_environment : Environment
no_environment = record { id = []; workspace_id = []; variables = []; secrets = [] }

abbrev pub or_empty : Option Environment → Environment
or_empty none = no_environment
or_empty (some env) = env

-- `mergedEnvironment`, of a loaded environment and the three layers over it
unfoldable pub merged_environment :
    Option Environment → List KeyValue → Vars → List KeyValue → Option Environment
merged_environment env folder_vars session run_vars =
    if is_nil folder_vars && (is_nil (rows session) && is_nil run_vars)
    then env
    else some (record (or_empty env) {
      variables = (or_empty env).variables ++ folder_vars ++ rows session ++ run_vars;
    })

abbrev pub variables_of : Option Environment → List KeyValue
variables_of none = []
variables_of (some env) = env.variables

-- `s.environments[id]`
unfoldable pub find_environment : Bytes → List Environment → Option Environment
find_environment id [] = none
find_environment id (env ∷ envs) = if bytes_eq env.id id then some env else find_environment id envs

abbrev pub as_loaded : Option Environment → Option (Option Environment)
as_loaded none = none
as_loaded (some env) = some (some env)

-- the environment that `mergedEnvironment` loads; `none` is its error
unfoldable pub load_environment : Bytes → List Environment → Option (Option Environment)
unfolding find_environment
load_environment id envs = if is_blank id then some none else as_loaded (find_environment id envs)
