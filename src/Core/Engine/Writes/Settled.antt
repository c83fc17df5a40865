-- ===== src/Core/Engine/Writes/Settled.antt =====
-- A written name in the environment's rows, and in the session behind such a write.
use auk.Base.{
  ◌≡◌, ◌∙◌, sym, ap, refl, inl, inr, Bool, true, false, List, [], ◌∷◌, Option, none, some,
  if◌then◌else◌, Bool-cases, Option-cases,
}
use auk.Base.Text.{Bytes, bytes_eq, bytes_eq_iff, bytes_eq_self}
use auk.Core.Model.{KeyValue, Environment}
use auk.Core.Vars.{Vars, member, over}
use auk.Core.Vars.Laws.{last_value, over-none}
use auk.Core.Engine.Layers.{find_environment}
use auk.Core.Engine.Writes.{
  upsert_variable, upsert_all, remove_all, with_delta, persist_variables, keys,
}
use auk.Core.Engine.Writes.Kept.{
  rows_named, Others, rows_named-upsert_variable, rows_named-upsert_all, rows_named-remove_all,
}
use auk.Core.Engine.Writes.Effects.{Written}

-- At most one row.
abbrev pub AtMostOne : List KeyValue → Type 0
AtMostOne [] = Unit
AtMostOne (r ∷ []) = Unit
AtMostOne (r ∷ q ∷ rows) = ⊥

-- A name's value is in its rows.
pub last_value-rows_named :
    (k : Bytes) (vars : List KeyValue) → last_value k (rows_named k vars) ≡ last_value k vars
unfolding last_value
last_value-rows_named k [] = refl
last_value-rows_named k (kv ∷ vars) =
    let rest = last_value-rows_named k vars in
    elim (Bool-cases (bytes_eq kv.key k)) [
      | inl same ↦ rw same (rw (rest, same) refl)
      | inr other ↦ rw (other, rest) (sym (none_before kv.enabled (last_value k vars)))
    ]
  where
    none_before : (on : Bool) (o : Option Bytes) → over (if on then none else none) o ≡ o
    none_before true o = over-none o
    none_before false o = over-none o

rows_named-upsert :
    (k v : Bytes) (vars : List KeyValue)
    → AtMostOne (rows_named k vars)
    → rows_named k (upsert_variable k v vars) ≡ record { key = k; value = v; enabled = true } ∷ []
unfolding upsert_variable
rows_named-upsert k v [] h = rw (bytes_eq_self k) refl
rows_named-upsert k v (kv ∷ vars) h = elim (Bool-cases (bytes_eq kv.key k)) [
  | inl same ↦
      rw (same, (bytes_eq_iff kv.key k).0 same, bytes_eq_self k)
        (alone (rows_named k vars) (rw same at h))
  | inr other ↦ rw (other, other) (rows_named-upsert k v vars (rw other at h))
]
  where
    alone :
        (rest : List KeyValue)
        → AtMostOne (kv ∷ rest)
        → (record { key = k; value = v; enabled = true } ∷ rest)
          ≡ record { key = k; value = v; enabled = true } ∷ []
    alone [] h = refl
    alone (r ∷ rest) h = absurd h

rows_named-upsert_all-Written :
    (k v : Bytes) (writes : Vars) (vars : List KeyValue)
    → Written k v writes
    → AtMostOne (rows_named k vars)
    → rows_named k (upsert_all writes vars) ≡ record { key = k; value = v; enabled = true } ∷ []
rows_named-upsert_all-Written k v [] vars h one = absurd h
rows_named-upsert_all-Written k v ((j, w) ∷ writes) vars (inl (here, value, others)) one =
    rows_named-upsert_all k writes (upsert_variable j w vars) others
    ∙ rw (here, value) (rows_named-upsert k v vars one)
rows_named-upsert_all-Written k v ((j, w) ∷ writes) vars (inr (other, h)) one =
    rows_named-upsert_all-Written k v writes (upsert_variable j w vars) h
      (rw (rows_named-upsert_variable k j w vars other) one)

-- The environment with the delta gives a written name its value.
pub last_value-with_delta :
    (k v : Bytes) (writes : Vars) (unsets : List Bytes) (env : Environment)
    → Written k v writes
    → Others k unsets
    → AtMostOne (rows_named k env.variables)
    → last_value k (with_delta writes unsets env).variables ≡ some v
unfolding with_delta last_value
last_value-with_delta k v writes unsets env h u one =
    sym (last_value-rows_named k (remove_all unsets (upsert_all writes env.variables)))
    ∙ (ap (last_value k) (
          rows_named-remove_all k unsets (upsert_all writes env.variables) u
          ∙ rows_named-upsert_all-Written k v writes env.variables h one)
        ∙ rw (bytes_eq_self k) refl)

pub find_environment-persist_variables :
    (accepts : Environment → Bool) (id : Bytes) (writes : Vars) (unsets : List Bytes)
    (envs envs' : List Environment) (env : Environment)
    → find_environment id envs ≡ some env
    → persist_variables accepts id writes unsets envs ≡ some envs'
    → find_environment id envs' ≡ some (with_delta writes unsets env)
unfolding find_environment persist_variables with_delta
find_environment-persist_variables accepts id writes unsets [] envs' env f e = cc f
find_environment-persist_variables accepts id writes unsets (x ∷ envs) envs' env f e =
    elim (Bool-cases (bytes_eq x.id id)) [
      | inl here ↦
          let same : x ≡ env = cc (rw here at f) in
          elim (Bool-cases (accepts (with_delta writes unsets x))) [
            | inl ok ↦
                let got : some (with_delta writes unsets x ∷ envs) ≡ some envs' =
                  rw (here, ok) at e in
                let list : envs' ≡ with_delta writes unsets x ∷ envs = cc got in
                rw (list, here) (ap (λ (t : Environment). some (with_delta writes unsets t)) same)
            | inr failed ↦ cc (rw (here, failed) at e)
          ]
      | inr other ↦ elim (Option-cases (persist_variables accepts id writes unsets envs)) [
        | inl missing ↦ cc (rw (other, missing) at e)
        | inr (rest, found) ↦
            let got : some (x ∷ rest) ≡ some envs' = rw (other, found) at e in
            let list : envs' ≡ x ∷ rest = cc got in
            rw (list, other)
              (find_environment-persist_variables accepts id writes unsets envs rest env
                (rw other at f) found)
      ]
    ]

pub keys-Written :
    (k v : Bytes) (writes : Vars) → Written k v writes → member k (keys writes) ≡ true
keys-Written k v [] h = absurd h
keys-Written k v ((j, w) ∷ writes) (inl (here, value, others)) = rw (here, bytes_eq_self k) refl
keys-Written k v ((j, w) ∷ writes) (inr (other, h)) = rw (other) (keys-Written k v writes h)
