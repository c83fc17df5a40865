-- ===== src/Core/Engine/Layers/Precedence.antt =====
-- Which of the layers gives a name its value.
use auk.Base.{
  ◌≡◌, ◌∙◌, sym, ap, refl, inl, inr, List, [], ◌∷◌, ◌++◌, Option, none, some, Bool-cases,
  append-nil,
}
use auk.Base.Text.{Bytes}
use auk.Core.Model.{KeyValue, Folder, Environment}
use auk.Core.Vars.{Vars, get, over, assign, rows}
use auk.Core.Vars.Laws.{
  get-assign, last_value, last_value-append, last_value-rows, over-none, IsMap,
}
use auk.Core.Engine.Layers.{enabled_rows, folder_rows, merged_environment, variables_of}

last_value-enabled :
    (k : Bytes) (kvs : List KeyValue) → last_value k (enabled_rows kvs) ≡ last_value k kvs
unfolding last_value
last_value-enabled k [] = refl
last_value-enabled k (kv ∷ kvs) = elim (Bool-cases kv.enabled) [
  | inl on ↦ rw (on, last_value-enabled k kvs) refl
  | inr off ↦ rw (off, last_value-enabled k kvs) (sym (over-none (last_value k kvs)))
]

-- the value of a name in the closest folder of a chain that has it
abbrev pub closest : Bytes → List Folder → Option Bytes
closest k [] = none
closest k (f ∷ chain) = over (closest k chain) (last_value k f.variables)

pub last_value-folder_rows :
    (k : Bytes) (chain : List Folder) → last_value k (folder_rows chain) ≡ closest k chain
unfolding folder_rows last_value
last_value-folder_rows k [] = refl
last_value-folder_rows k (f ∷ chain) =
    last_value-append k (folder_rows chain) (enabled_rows f.variables)
    ∙ (ap (λ (o : Option Bytes). over o (last_value k (enabled_rows f.variables)))
          (last_value-folder_rows k chain)
        ∙ ap (over (closest k chain)) (last_value-enabled k f.variables))

-- the variables in a row, also where there is nothing to merge
merged_variables :
    (env : Option Environment) (folder_vars : List KeyValue) (session : Vars)
    (run_vars : List KeyValue)
    → variables_of (merged_environment env folder_vars session run_vars)
      ≡ variables_of env ++ folder_vars ++ rows session ++ run_vars
unfolding merged_environment
merged_variables none (kv ∷ folder_vars) session run_vars = refl
merged_variables none [] (e ∷ session) run_vars = refl
merged_variables none [] [] (kv ∷ run_vars) = refl
merged_variables none [] [] [] = refl
merged_variables (some env) (kv ∷ folder_vars) session run_vars = refl
merged_variables (some env) [] (e ∷ session) run_vars = refl
merged_variables (some env) [] [] (kv ∷ run_vars) = refl
merged_variables (some env) [] [] [] = simp append-nil

-- A name has the value of the run, or else of the session, or else of the closest folder that has it
-- enabled, or else of the environment: so the templates read it from the merged environment. The
-- session's names are distinct.
pub merged_environment_lem :
    (env : Option Environment) (chain : List Folder) (session : Vars) (run_vars : List KeyValue)
    (k : Bytes)
    → IsMap session
    → get k (assign [] (variables_of (merged_environment env (folder_rows chain) session run_vars)))
      ≡ over
          (over (over (last_value k (variables_of env)) (closest k chain)) (get k session))
          (last_value k run_vars)
unfolding get
merged_environment_lem env chain session run_vars k h =
    get-assign k [] (variables_of (merged_environment env (folder_rows chain) session run_vars))
    ∙ (over-none (
          last_value k (variables_of (merged_environment env (folder_rows chain) session run_vars)))
        ∙ (ap (last_value k) (merged_variables env (folder_rows chain) session run_vars)
            ∙ simp (last_value-append, last_value-folder_rows, last_value-rows k session h)))
