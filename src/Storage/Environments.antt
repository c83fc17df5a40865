-- ===== src/Storage/Environments.antt =====
-- internal/storage/filestore.go: environments in memory, in files and in the keychain.
-- A file is the environment that it decodes to. Which accesses fail is an argument of each call; an
-- account of the keychain is the text of `secretAccount`. `ListEnvironments` and its like give the
-- environments in the order in which they are kept here, and the values of secrets are set in the order
-- of their names.
pub mod Blank
pub mod Resolved
mod Tests
use auk.Base.{
  Bool, true, false, not, ◌&&◌, ◌||◌, List, [], ◌∷◌, ◌++◌, Option, none, some, if◌then◌else◌,
}
use auk.Base.Text.{Bytes, codes, bytes_eq, is_blank}
use auk.Base.Result.{Result, ok, err}
use auk.Core.Model.{KeyValue, Environment}
use auk.Core.Vars.{Vars, get, set, delete, member}

pub record Files : Type 0 where
  pub environments : List Environment
  pub disk : List Environment
  pub keychain : Vars

pub record Failures : Type 0 where
  pub writes_file : Bool
  pub removes_file : Bool
  pub sets_secret : Bytes → Bool
  pub deletes_secret : Bytes → Bool
  pub gets_secret : Bytes → Bool

pub data StoreError : Type 0 where
  no_file no_removal : StoreError
  no_secret not_deleted not_found : Bytes → StoreError

-- `secretAccount`
abbrev pub secret_account : Environment → Bytes → Bytes
secret_account e name = e.workspace_id ++ codes "/" ++ e.id ++ codes "/" ++ name

abbrev pub blank_value : List Bytes → KeyValue → KeyValue
blank_value secrets kv = if member kv.key secrets then record kv { value = [] } else kv

abbrev pub map_rows : (KeyValue → KeyValue) → List KeyValue → List KeyValue
map_rows f [] = []
map_rows f (kv ∷ kvs) = f kv ∷ map_rows f kvs

-- `onDisk`
unfoldable pub on_disk : Environment → Environment
on_disk e = record e { variables = map_rows (blank_value e.secrets) e.variables }

-- two environments with one file
abbrev pub same_file : Environment → Environment → Bool
same_file e f = bytes_eq e.workspace_id f.workspace_id && bytes_eq e.id f.id

abbrev pub remove_file : Environment → List Environment → List Environment
remove_file e [] = []
remove_file e (f ∷ files) =
    let rest = remove_file e files in if same_file f e then rest else f ∷ rest

-- `writeYAMLFile`
abbrev pub write_file : Environment → List Environment → List Environment
write_file e files = e ∷ remove_file e files

abbrev pub drop_environment : Bytes → List Environment → List Environment
drop_environment id [] = []
drop_environment id (e ∷ envs) =
    let rest = drop_environment id envs in if bytes_eq e.id id then rest else e ∷ rest

abbrev pub is_given : Environment → Bytes → Bytes → Bool
is_given e name value = member name e.secrets && not (is_blank value)

-- the loop of `PutEnvironment` over the values of secrets
unfoldable pub set_secrets : Failures → Environment → Vars → Vars → Option StoreError × Vars
unfolding set
set_secrets f e [] keychain = (none, keychain)
set_secrets f e ((name, value) ∷ values) keychain =
    let account = secret_account e name in
    let rest =
      set_secrets f e values
        (if is_given e name value then set account value keychain else keychain) in
    if is_given e name value && not (f.sets_secret account)
    then (some (no_secret name), keychain)
    else rest

abbrev pub kept_in_memory :
    Environment → Option StoreError × Vars → Files → Option StoreError × Files
kept_in_memory e (some error, keychain) s = (some error, record s { keychain = keychain })
kept_in_memory e (none, keychain) s = (
  none,
  record s { environments = e ∷ drop_environment e.id s.environments; keychain = keychain },
)

-- `PutEnvironment`
unfoldable pub put_environment : Failures → Environment → Vars → Files → Option StoreError × Files
unfolding on_disk set_secrets
put_environment f e values s =
    if f.writes_file
    then kept_in_memory e (set_secrets f e values s.keychain)
        (record s { disk = write_file (on_disk e) s.disk })
    else (some no_file, s)

abbrev pub delete_secrets : Failures → Environment → List Bytes → Vars → Option StoreError × Vars
delete_secrets f e [] keychain = (none, keychain)
delete_secrets f e (name ∷ names) keychain =
    let rest = delete_secrets f e names (delete (secret_account e name) keychain) in
    if f.deletes_secret (secret_account e name) then rest else (some (not_deleted name), keychain)

-- `s.environments[id]`
unfoldable pub find : Bytes → List Environment → Option Environment
find id [] = none
find id (e ∷ envs) = if bytes_eq e.id id then some e else find id envs

abbrev pub dropped_from_memory :
    Bytes → Option StoreError × Vars → Files → Option StoreError × Files
dropped_from_memory id (some error, keychain) s = (some error, record s { keychain = keychain })
dropped_from_memory id (none, keychain) s =
    (none, record s { environments = drop_environment id s.environments; keychain = keychain })

abbrev pub remove_found : Failures → Bytes → Option Environment → Files → Option StoreError × Files
remove_found f id none s = (none, s)
remove_found f id (some e) s =
    if f.removes_file
    then dropped_from_memory id (delete_secrets f e e.secrets s.keychain)
        (record s { disk = remove_file e s.disk })
    else (some no_removal, s)

-- `RemoveEnvironment`
unfoldable pub remove_environment : Failures → Bytes → Files → Option StoreError × Files
unfolding find delete
remove_environment f id s = remove_found f id (find id s.environments) s

abbrev pub value_or : Bytes → Option Bytes → Bytes
value_or old none = old
value_or old (some v) = v

abbrev pub read_secret : Failures → Vars → Bytes → Option Bytes
read_secret f keychain account = if f.gets_secret account then get account keychain else none

abbrev pub resolve_row : Failures → Vars → Environment → KeyValue → KeyValue
resolve_row f keychain e kv =
    if member kv.key e.secrets
    then record kv { value = value_or kv.value (read_secret f keychain (secret_account e kv.key)) }
    else kv

-- `withResolvedSecretsLocked`
unfoldable pub with_resolved_secrets : Failures → Vars → Environment → Environment
unfolding get
with_resolved_secrets f keychain e = record e {
  variables = map_rows (resolve_row f keychain e) e.variables;
}

abbrev pub resolve_found : Failures → Vars → Option Environment → Option Environment
resolve_found f keychain none = none
resolve_found f keychain (some e) = some (with_resolved_secrets f keychain e)

-- `GetEnvironment`
unfoldable pub get_environment : Failures → Bytes → Files → Option Environment
unfolding find with_resolved_secrets
get_environment f id s = resolve_found f s.keychain (find id s.environments)
