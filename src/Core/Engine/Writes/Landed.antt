-- ===== src/Core/Engine/Writes/Landed.antt =====
-- What a request reads of a name that has passed the guards, wherever it has landed.
use auk.Base.{
  ◌≡◌, ◌∙◌, sym, ap, refl, inl, inr, Bool, true, false, List, [], Option, none, some, if◌then◌else◌,
  Bool-cases, Option-cases,
}
use auk.Base.Text.{Bytes, bytes_eq_self, is_blank}
use auk.Core.Model.{Folder, Environment}
use auk.Core.Vars.{Vars, get, member, over, assign}
use auk.Core.Vars.Laws.{IsMap, last_value}
use auk.Core.Engine.RunVars.{RunVars, overlay}
use auk.Core.Engine.RunVars.Refines.{IsValid, overlay-view}
use auk.Core.Engine.Layers.{
  folder_rows, variables_of, find_environment, load_environment, as_loaded,
}
use auk.Core.Engine.Layers.Precedence.{closest, last_value-folder_rows, merged_environment_lem}
use auk.Core.Engine.Writes.{
  State, run_rows, seen_environment, with_delta, forget, set_all, names_of, settle, script_all,
  at_workspace, persisted, apply_safe,
}
use auk.Core.Engine.Writes.Kept.{rows_named, Others, get-forget}
use auk.Core.Engine.Writes.Effects.{
  Written, get-set_all-Written, set_all-IsMap, forget-IsMap, view-Written, script_all-IsValid,
}
use auk.Core.Engine.Writes.Settled.{
  AtMostOne, last_value-with_delta, find_environment-persist_variables,
}
use auk.Core.Engine.Writes.Hidden.{get-settle, settle-IsMap, last_value-miss}

abbrev pub ValidRun : Option RunVars → Type 0
ValidRun none = Unit
ValidRun (some rv) = IsValid rv

-- the value that a request in this state reads of a name
abbrev pub value_in : Bytes → Bytes → List Folder → Option Environment → State → Option Bytes
value_in k workspace chain env s =
    get k (assign [] (variables_of (seen_environment workspace chain env s)))

-- A request in this state loads its environment, and reads this value of the name.
abbrev pub Reads : Bytes → Bytes → Bytes → List Folder → Bytes → State → Type 0
Reads k v workspace chain id s =
    (env : Option Environment) × ((load_environment id s.environments ≡ some env)
      × (value_in k workspace chain env s ≡ some v))

value_in_lem :
    (k workspace : Bytes) (chain : List Folder) (env : Option Environment) (s : State)
    → IsMap (s.session workspace)
    → value_in k workspace chain env s
      ≡ over
          (over
            (over (last_value k (variables_of env)) (closest k chain))
            (get k (s.session workspace)))
          (last_value k (run_rows s.run))
unfolding seen_environment
value_in_lem k workspace chain env s h =
    merged_environment_lem env chain (s.session workspace) (run_rows s.run) k h

over-some : (o p : Option Bytes) (v : Bytes) → p ≡ some v → over o p ≡ some v
over-some o p v e = ap (over o) e

an_environment :
    (o env : Option Environment) → as_loaded o ≡ some env → (e : Environment) × (env ≡ some e)
an_environment none env h = cc h
an_environment (some e) env h = (e, cc h)

layered :
    (v : Bytes) (d c g : Option Bytes) (hit : Bool)
    → d ≡ some v
    → g ≡ (if hit then some v else none)
    → (hit ≡ false → c ≡ none)
    → over (over d c) g ≡ some v
layered v d c g true ed eg ec = rw eg refl
layered v d c g false ed eg ec = rw (eg, ec refl) ed

module _ (accepts : Environment → Bool) (workspace : Bytes) (chain : List Folder) (id k v : Bytes)
    (writes : Vars) (unsets : List Bytes) (s : State) (env : Option Environment)
    (loaded : load_environment id s.environments ≡ some env) (session : IsMap (s.session workspace))
    (w : Written k v writes) (u : Others k unsets) where
  abbrev shadowed : List Bytes
  shadowed = names_of (folder_rows chain)

  abbrev after : Option RunVars → State
  after run = apply_safe accepts workspace shadowed id writes unsets run s

  in_run : (rv : RunVars) → IsValid rv → Reads k v workspace chain id (after (some rv))
  unfolding apply_safe
  in_run rv valid =
      let rv' = script_all writes unsets rv in
      let value : last_value k (overlay rv') ≡ some v =
        overlay-view rv' k (script_all-IsValid writes unsets rv valid)
        ∙ view-Written k v writes unsets rv w u in
      (
        env,
        (
          loaded,
          value_in_lem k workspace chain env (record s { run = some rv' }) session
              ∙ over-some
                  (over (over (last_value k (variables_of env)) (closest k chain))
                    (get k (s.session workspace)))
                  (last_value k (overlay rv')) v value,
        ),
      )

  session_at :
      (f : Vars → Vars) → at_workspace workspace f s.session workspace ≡ f (s.session workspace)
  session_at f = rw (bytes_eq_self workspace) refl

  in_session :
      s.run ≡ none
      → persisted accepts id writes unsets s.environments ≡ none
      → Reads k v workspace chain id (after none)
  unfolding apply_safe last_value
  in_session no_run failed =
      let f : Vars → Vars = λ m. forget unsets (set_all writes m) in
      let m = s.session workspace in
      let t : State = record s { session = at_workspace workspace f s.session } in
      let map_after : IsMap (f m) =
        forget-IsMap unsets (set_all writes m) (set_all-IsMap writes m session) in
      let value : get k (t.session workspace) ≡ some v =
        ap (get k) (session_at f)
        ∙ (get-forget k unsets (set_all writes m) u ∙ get-set_all-Written k v writes m w) in
      rw failed (
        env,
        (
          loaded,
          value_in_lem k workspace chain env t (rw (session_at f) map_after)
              ∙ rw (value, no_run) refl,
        ),
      )

  in_environment :
      (envs : List Environment) (e : Environment)
      → s.run ≡ none
      → env ≡ some e
      → AtMostOne (rows_named k e.variables)
      → is_blank id ≡ false
      → persisted accepts id writes unsets s.environments ≡ some envs
      → Reads k v workspace chain id (after none)
  unfolding apply_safe load_environment last_value
  in_environment envs e no_run is one named ok =
      let e' = with_delta writes unsets e in
      let m = s.session workspace in
      let t : State = record s {
        environments = envs;
        session = at_workspace workspace (settle shadowed writes unsets) s.session;
      } in
      let found : find_environment id s.environments ≡ some e =
        found_of (find_environment id s.environments) (rw named at loaded) in
      let found' : find_environment id envs ≡ some e' =
        find_environment-persist_variables accepts id writes unsets s.environments envs e found
          (rw named at ok) in
      rw ok (
        some e',
        (
          rw (named, found') refl,
          value_in_lem k workspace chain (some e') t (
                rw (session_at (settle shadowed writes unsets))
                  (settle-IsMap shadowed writes unsets m session))
              ∙ ap (λ (o : Option RunVars). over (reads t) (last_value k (run_rows o))) no_run
              ∙ layered v (last_value k e'.variables) (closest k chain)
                  (get k (t.session workspace)) (member k shadowed)
                  (last_value-with_delta k v writes unsets e w u one)
                  (ap (get k) (session_at (settle shadowed writes unsets))
                    ∙ get-settle k v shadowed writes unsets m w)
                  (λ miss.
                    sym (last_value-folder_rows k chain)
                    ∙ last_value-miss k (folder_rows chain) miss),
        ),
      )
    where
      found_of : (o : Option Environment) → as_loaded o ≡ some env → o ≡ some e
      found_of none h = cc h
      found_of (some x) h = cc (h, is)

      reads : State → Option Bytes
      reads t =
          over (over (last_value k (with_delta writes unsets e).variables) (closest k chain))
            (get k (t.session workspace))

  pub safe_read :
      ValidRun s.run
      → AtMostOne (rows_named k (variables_of env))
      → Reads k v workspace chain id (after s.run)
  unfolding load_environment
  safe_read valid one = go s.run refl valid
    where
      go :
          (run : Option RunVars)
          → s.run ≡ run
          → ValidRun run
          → Reads k v workspace chain id (after run)
      go (some rv) e valid = in_run rv valid
      go none e valid = elim (Option-cases (persisted accepts id writes unsets s.environments)) [
        | inl failed ↦ in_session e failed
        | inr (envs, ok) ↦ elim (Bool-cases (is_blank id)) [
          | inl blank ↦ cc (rw blank at ok)
          | inr named ↦
              let (x, is) =
                an_environment (find_environment id s.environments) env (rw named at loaded) in
              in_environment envs x e is (rw is at one) named ok
        ]
      ]
