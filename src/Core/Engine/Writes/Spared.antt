-- ===== src/Core/Engine/Writes/Spared.antt =====
-- A name that is not among the writes keeps what it has in every place where they land.
use auk.Base.{
  ◌≡◌, ◌∙◌, sym, ap, refl, inl, inr, Bool, List, [], ◌∷◌, ◌++◌, Option, none, some, map, Bool-cases,
  Option-cases,
}
use auk.Base.Text.{Bytes, bytes_eq, is_blank}
use auk.Core.Model.{Environment}
use auk.Core.Vars.{Vars, get, member}
use auk.Core.Engine.RunVars.{RunVars}
use auk.Core.Engine.Writes.{
  State, forget, set_all, hidden_writes, keys, settled, settle, at_workspace, persisted, apply_safe,
}
use auk.Core.Engine.Writes.Kept.{
  environment_rows, run_value, Untouched, OtherWrites, Others, persist_variables-kept, get-forget,
  get-set_all, view-script_all,
}

pub hidden_writes-others :
    (k : Bytes) (shadowed : List Bytes) (writes : Vars)
    → OtherWrites k writes
    → OtherWrites k (hidden_writes shadowed writes)
hidden_writes-others k shadowed [] h = tt
hidden_writes-others k shadowed ((j, v) ∷ writes) (h, hs) = elim (Bool-cases (member j shadowed)) [
  | inl hit ↦ rw hit (h, hidden_writes-others k shadowed writes hs)
  | inr miss ↦ rw miss (hidden_writes-others k shadowed writes hs)
]

settled-Others :
    (k : Bytes) (hidden names : List Bytes) → Others k names → Others k (settled hidden names)
settled-Others k hidden [] h = tt
settled-Others k hidden (j ∷ names) (h, hs) = elim (Bool-cases (member j hidden)) [
  | inl hit ↦ rw hit (settled-Others k hidden names hs)
  | inr miss ↦ rw miss (h, settled-Others k hidden names hs)
]

names-Others :
    (k : Bytes) (writes : Vars) (unsets : List Bytes)
    → OtherWrites k writes
    → Others k unsets
    → Others k (keys writes ++ unsets)
names-Others k [] unsets w u = u
names-Others k ((j, v) ∷ writes) unsets (h, w) u = (h, names-Others k writes unsets w u)

get-settle :
    (k : Bytes) (shadowed : List Bytes) (writes : Vars) (unsets : List Bytes) (m : Vars)
    → OtherWrites k writes
    → Others k unsets
    → get k (settle shadowed writes unsets m) ≡ get k m
unfolding settle
get-settle k shadowed writes unsets m w u =
    let hidden = hidden_writes shadowed writes in
    let names =
      settled-Others k (keys hidden) (keys writes ++ unsets) (names-Others k writes unsets w u) in
    get-forget k (settled (keys hidden) (keys writes ++ unsets)) (set_all hidden m) names
    ∙ get-set_all k hidden m (hidden_writes-others k shadowed writes w)

get-at_workspace :
    (k workspace : Bytes) (f : Vars → Vars) (session : Bytes → Vars) (w : Bytes)
    → ((m : Vars) → get k (f m) ≡ get k m)
    → get k (at_workspace workspace f session w) ≡ get k (session w)
get-at_workspace k workspace f session w h = elim (Bool-cases (bytes_eq w workspace)) [
  | inl here ↦ rw here (h (session w))
  | inr other ↦ rw other refl
]

pub apply_safe-kept :
    (accepts : Environment → Bool) (workspace : Bytes) (shadowed : List Bytes) (id k : Bytes)
    (writes : Vars) (unsets : List Bytes) (run : Option RunVars) (s : State)
    → s.run ≡ run
    → OtherWrites k writes
    → Others k unsets
    → Untouched k s (apply_safe accepts workspace shadowed id writes unsets run s)
unfolding apply_safe
apply_safe-kept accepts workspace shadowed id k writes unsets (some rv) s e w u =
    ((λ _. refl), refl, view-script_all k writes unsets rv w u ∙ ap (run_value k) (sym e))
apply_safe-kept accepts workspace shadowed id k writes unsets none s e w u =
    elim (Option-cases (persisted accepts id writes unsets s.environments)) [
      | inl failed ↦ rw failed (
        (λ x.
            get-at_workspace k workspace (λ m. forget unsets (set_all writes m)) s.session x
              (λ m. get-forget k unsets (set_all writes m) u ∙ get-set_all k writes m w)),
        refl,
        refl,
      )
      | inr (envs, found) ↦ rw found (
        (λ x.
            get-at_workspace k workspace (settle shadowed writes unsets) s.session x
              (λ m. get-settle k shadowed writes unsets m w u)),
        kept envs found,
        refl,
      )
    ]
  where
    kept :
        (envs : List Environment)
        → persisted accepts id writes unsets s.environments ≡ some envs
        → map (environment_rows k) envs ≡ map (environment_rows k) s.environments
    kept envs found = elim (Bool-cases (is_blank id)) [
      | inl blank ↦ cc (rw blank at found)
      | inr named ↦
          persist_variables-kept accepts id k writes unsets s.environments envs w u
            (rw named at found)
    ]
