-- ===== src/Core/Engine/Writes/Kept.antt =====
-- A name that is not among the writes keeps its rows and values.
use auk.Base.{
  ◌≡◌, ◌∙◌, ap, refl, inl, inr, Bool, false, List, [], ◌∷◌, Option, none, some, if◌then◌else◌, map,
  Bool-cases, Option-cases, All,
}
use auk.Base.Text.{Bytes, bytes_eq, bytes_eq_iff}
use auk.Core.Model.{KeyValue, Environment}
use auk.Core.Vars.{Vars, get, set, delete}
use auk.Core.Vars.Laws.{get-set, get-delete}
use auk.Core.Engine.RunVars.{RunVars, set_script, unset_script}
use auk.Core.Engine.RunVars.Refines.{view, written, unset, view-apply}
use auk.Core.Engine.Writes.{
  State, upsert_variable, remove_variable, upsert_all, remove_all, with_delta, persist_variables,
  forget, set_all, script_all,
}

-- the rows of a name, in order
abbrev pub rows_named : Bytes → List KeyValue → List KeyValue
rows_named k [] = []
rows_named k (kv ∷ kvs) =
    let rest = rows_named k kvs in if bytes_eq kv.key k then kv ∷ rest else rest

abbrev pub environment_rows : Bytes → Environment → List KeyValue
environment_rows k env = rows_named k env.variables

-- the value of a name in the run's layer
abbrev pub run_value : Bytes → Option RunVars → Option Bytes
run_value k none = none
run_value k (some rv) = view rv k

-- A name has in every place what it had there: in each session, each environment and the run.
abbrev pub Untouched : Bytes → State → State → Type 0
Untouched k s t =
    ((w : Bytes) → get k (t.session w) ≡ get k (s.session w))
    × (map (environment_rows k) t.environments ≡ map (environment_rows k) s.environments)
    × (run_value k t.run ≡ run_value k s.run)

abbrev pub OtherWrites : Bytes → Vars → Type 0
OtherWrites k writes = All (λ (e : Bytes × Bytes). bytes_eq e.0 k ≡ false) writes

abbrev pub Others : Bytes → List Bytes → Type 0
Others k names = All (λ (j : Bytes). bytes_eq j k ≡ false) names

pub rows_named-upsert_variable :
    (k j v : Bytes) (vars : List KeyValue)
    → bytes_eq j k ≡ false
    → rows_named k (upsert_variable j v vars) ≡ rows_named k vars
unfolding upsert_variable
rows_named-upsert_variable k j v [] h = rw h refl
rows_named-upsert_variable k j v (kv ∷ vars) h = elim (Bool-cases (bytes_eq kv.key j)) [
  | inl same ↦
      let away : bytes_eq kv.key k ≡ false =
        ap (λ (t : Bytes). bytes_eq t k) ((bytes_eq_iff kv.key j).0 same) ∙ h in
      rw (same, away) refl
  | inr other ↦ rw (other, rows_named-upsert_variable k j v vars h) refl
]

pub rows_named-remove_variable :
    (k j : Bytes) (vars : List KeyValue)
    → bytes_eq j k ≡ false
    → rows_named k (remove_variable j vars) ≡ rows_named k vars
unfolding remove_variable
rows_named-remove_variable k j [] h = refl
rows_named-remove_variable k j (kv ∷ vars) h =
    let rest = rows_named-remove_variable k j vars h in
    elim (Bool-cases (bytes_eq kv.key j)) [
      | inl same ↦
          let away : bytes_eq kv.key k ≡ false =
            ap (λ (t : Bytes). bytes_eq t k) ((bytes_eq_iff kv.key j).0 same) ∙ h in
          rw (same, away) rest
      | inr other ↦ rw (other, rest) refl
    ]

pub rows_named-upsert_all :
    (k : Bytes) (writes : Vars) (vars : List KeyValue)
    → OtherWrites k writes
    → rows_named k (upsert_all writes vars) ≡ rows_named k vars
rows_named-upsert_all k [] vars h = refl
rows_named-upsert_all k ((j, v) ∷ writes) vars (h, hs) =
    rows_named-upsert_all k writes (upsert_variable j v vars) hs
    ∙ rows_named-upsert_variable k j v vars h

pub rows_named-remove_all :
    (k : Bytes) (unsets : List Bytes) (vars : List KeyValue)
    → Others k unsets
    → rows_named k (remove_all unsets vars) ≡ rows_named k vars
rows_named-remove_all k [] vars h = refl
rows_named-remove_all k (j ∷ unsets) vars (h, hs) =
    rows_named-remove_all k unsets (remove_variable j vars) hs
    ∙ rows_named-remove_variable k j vars h

pub persist_variables-kept :
    (accepts : Environment → Bool) (id k : Bytes) (writes : Vars) (unsets : List Bytes)
    (envs envs' : List Environment)
    → OtherWrites k writes
    → Others k unsets
    → persist_variables accepts id writes unsets envs ≡ some envs'
    → map (environment_rows k) envs' ≡ map (environment_rows k) envs
unfolding persist_variables with_delta
persist_variables-kept accepts id k writes unsets [] envs' w u e = cc e
persist_variables-kept accepts id k writes unsets (env ∷ envs) envs' w u e =
    elim (Bool-cases (bytes_eq env.id id)) [
      | inl here ↦ elim (Bool-cases (accepts (with_delta writes unsets env))) [
        | inl ok ↦
            let got : some (with_delta writes unsets env ∷ envs) ≡ some envs' =
              rw (here, ok) at e in
            let same : envs' ≡ with_delta writes unsets env ∷ envs = cc got in
            let rows : environment_rows k (with_delta writes unsets env) ≡ environment_rows k env =
              rows_named-remove_all k unsets (upsert_all writes env.variables) u
              ∙ rows_named-upsert_all k writes env.variables w in
            ap (map (environment_rows k)) same
            ∙ ap (λ (r : List KeyValue). r ∷ map (environment_rows k) envs) rows
        | inr failed ↦ cc (rw (here, failed) at e)
      ]
      | inr other ↦ elim (Option-cases (persist_variables accepts id writes unsets envs)) [
        | inl missing ↦ cc (rw (other, missing) at e)
        | inr (rest, found) ↦
            let got : some (env ∷ rest) ≡ some envs' = rw (other, found) at e in
            let same : envs' ≡ env ∷ rest = cc got in
            ap (map (environment_rows k)) same
            ∙ ap (λ (r : List (List KeyValue)). environment_rows k env ∷ r)
                (persist_variables-kept accepts id k writes unsets envs rest w u found)
      ]
    ]

pub get-forget :
    (k : Bytes) (names : List Bytes) (m : Vars) → Others k names → get k (forget names m) ≡ get k m
get-forget k [] m h = refl
get-forget k (j ∷ names) m (h, hs) =
    get-forget k names (delete j m) hs ∙ rw (get-delete j k m, h) refl

pub get-set_all :
    (k : Bytes) (writes m : Vars) → OtherWrites k writes → get k (set_all writes m) ≡ get k m
get-set_all k [] m h = refl
get-set_all k ((j, v) ∷ writes) m (h, hs) =
    get-set_all k writes (set j v m) hs ∙ rw (get-set j k v m, h) refl

pub view-script_all :
    (k : Bytes) (writes : Vars) (unsets : List Bytes) (rv : RunVars)
    → OtherWrites k writes
    → Others k unsets
    → view (script_all writes unsets rv) k ≡ view rv k
view-script_all k [] [] rv w u = refl
view-script_all k [] (j ∷ unsets) rv w (h, u) =
    view-script_all k [] unsets (unset_script j rv) w u ∙ (view-apply (unset j) rv k ∙ rw h refl)
view-script_all k ((j, v) ∷ writes) unsets rv (h, w) u =
    view-script_all k writes unsets (set_script j v rv) w u
    ∙ (view-apply (written j v) rv k ∙ rw h refl)
