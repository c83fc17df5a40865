-- ===== src/Core/Engine/Writes/Seen.antt =====
-- What a script writes is what the next request resolves.
use auk.Base.{◌≡◌, refl, Bool, false, List, [], ◌∷◌, Option, some}
use auk.Base.Text.{Bytes}
use auk.Core.Model.{Folder, Environment}
use auk.Core.Vars.{Vars, get, member}
use auk.Core.Vars.Laws.{IsMap}
use auk.Core.Engine.Layers.{folder_rows, variables_of, load_environment}
use auk.Core.Engine.Secrets.{secret_values, contains_secret_value}
use auk.Core.Engine.Writes.{
  State, protected_names, safe_writes, safe_unsets, no_writes, apply_variable_writes,
}
use auk.Core.Engine.Writes.Kept.{rows_named, Others}
use auk.Core.Engine.Writes.Guarded.{safe_unsets-Others}
use auk.Core.Engine.Writes.Effects.{Written, get-Written, safe_writes-Written}
use auk.Core.Engine.Writes.Settled.{AtMostOne}
use auk.Core.Engine.Writes.Landed.{ValidRun, Reads, safe_read}

-- What a script writes is what the next request reads, from the run, the environment or the session,
-- wherever it has landed: a value without a secret's value, under a name that is no secret and that
-- the script does not unset. The request runs in the same folders and loads the same environment,
-- which is none or one of the store's; this has at most one row of the name. The writes, the session's
-- variables and those of the run are maps.
pub written_value_seen :
    (accepts : Environment → Bool) (workspace : Bytes) (chain : List Folder) (id k v : Bytes)
    (env merged : Option Environment) (writes : Vars) (unsets : List Bytes) (s : State)
    → load_environment id s.environments ≡ some env
    → AtMostOne (rows_named k (variables_of env))
    → IsMap (s.session workspace)
    → ValidRun s.run
    → IsMap writes
    → get k writes ≡ some v
    → Others k unsets
    → member k (protected_names workspace merged s.environments) ≡ false
    → contains_secret_value v (secret_values merged) ≡ false
    → Reads k v workspace chain id
        (apply_variable_writes accepts workspace (folder_rows chain) id merged writes unsets s)
unfolding apply_variable_writes
written_value_seen accepts workspace chain id k v env merged writes unsets s loaded one session
      valid is_map written u free clean =
    let protected = protected_names workspace merged s.environments in
    let writes' = safe_writes protected (secret_values merged) writes in
    let unsets' = safe_unsets protected unsets in
    let w : Written k v writes' =
      safe_writes-Written k v protected (secret_values merged) writes free clean
        (get-Written k v writes is_map written) in
    rw (some_writes writes' unsets' w) (
      safe_read accepts workspace chain id k v writes' unsets' s env loaded session w
        (safe_unsets-Others k protected unsets u) valid one)
  where
    some_writes : (ws : Vars) (us : List Bytes) → Written k v ws → no_writes ws us ≡ false
    some_writes [] us h = absurd h
    some_writes (e ∷ ws) us h = refl
