-- ===== src/Core/Engine/Writes/DataRun.antt =====
-- A data-driven run leaves the workspace as it is.
use auk.Base.{◌≡◌, refl, inl, inr, Bool, List, Option, some, Bool-cases}
use auk.Base.Text.{Bytes}
use auk.Core.Model.{KeyValue, Environment}
use auk.Core.Vars.{Vars}
use auk.Core.Engine.RunVars.{RunVars}
use auk.Core.Engine.Secrets.{secret_values}
use auk.Core.Engine.Writes.{
  State, protected_names, safe_writes, safe_unsets, apply_safe, no_writes, apply_variable_writes,
}

-- Where a run's layer is there, whatever a script sets and unsets changes no environment and no session.
pub data_run_kept :
    (accepts : Environment → Bool) (workspace : Bytes) (folder_vars : List KeyValue) (id : Bytes)
    (env : Option Environment) (writes : Vars) (unsets : List Bytes) (s : State) (rv : RunVars)
    → s.run ≡ some rv
    → ((apply_variable_writes accepts workspace folder_vars id env writes unsets s).environments
        ≡ s.environments)
      × ((apply_variable_writes accepts workspace folder_vars id env writes unsets s).session
          ≡ s.session)
unfolding apply_variable_writes apply_safe
data_run_kept accepts workspace folder_vars id env writes unsets s rv e =
    let protected = protected_names workspace env s.environments in
    let writes' = safe_writes protected (secret_values env) writes in
    let unsets' = safe_unsets protected unsets in
    elim (Bool-cases (no_writes writes' unsets')) [
      | inl nothing ↦ rw nothing (refl, refl)
      | inr something ↦ rw (something, e) (refl, refl)
    ]
