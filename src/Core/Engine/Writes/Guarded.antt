-- ===== src/Core/Engine/Writes/Guarded.antt =====
-- The guards on what a script writes: names and values that stay away from every place.
use auk.Base.{
  ◌≡◌, ◌⊎◌, ◌++◌, if◌then◌else◌, ap, arith, false, some, refl, inl, inr, Bool, true, List, [], ◌∷◌,
  Option, Bool-cases, All,
}
use mathlib.Core.Path.{subst}
use mathlib.Core.List.{Memᴰ}
use auk.Base.Text.{Bytes, is_blank, bytes_eq, bytes_eq_iff}
use auk.Core.Model.{KeyValue, Environment}
use auk.Core.Vars.{Vars, member}
use auk.Core.Engine.Secrets.Detected.{HasSecretValue, HasSecretValue-contains, Mem-member}
use auk.Core.Engine.Secrets.{secret_names, secret_values, contains_secret_value}
use auk.Core.Engine.Writes.{
  State, workspace_secret_names, protected_names, safe_writes, safe_unsets, names_of, no_writes,
  apply_variable_writes,
}
use auk.Core.Engine.Writes.Kept.{Untouched, OtherWrites, Others}
use auk.Core.Engine.Writes.Spared.{apply_safe-kept}

-- a write that is not of this name, or that the guards stop
abbrev pub Stopped : Bytes → List Bytes → Vars → Bytes × Bytes → Type 0
Stopped k protected leaks e =
    bytes_eq e.0 k ≡ true → (member k protected ≡ true) ⊎ (contains_secret_value e.1 leaks ≡ true)

safe_writes-others :
    (k : Bytes) (protected : List Bytes) (leaks writes : Vars)
    → All (Stopped k protected leaks) writes
    → OtherWrites k (safe_writes protected leaks writes)
unfolding safe_writes
safe_writes-others k protected leaks [] h = tt
safe_writes-others k protected leaks ((j, v) ∷ writes) (h, hs) =
    let rest = safe_writes-others k protected leaks writes hs in
    elim (Bool-cases (member j protected)) [
      | inl stopped ↦ rw stopped rest
      | inr free ↦ elim (Bool-cases (contains_secret_value v leaks)) [
        | inl leak ↦ rw (free, leak) rest
        | inr clean ↦
            rw (free, clean)
              (
                elim (Bool-cases (bytes_eq j k)) [
                  | inl same ↦ elim (h same) [
                    | inl stopped ↦ absurd (cc (free, rw (← (bytes_eq_iff j k).0 same) at stopped))
                    | inr leak ↦ cc (leak, clean)
                  ]
                  | inr other ↦ other
                ],
                rest,
              )
      ]
    ]

safe_unsets-protected :
    (k : Bytes) (protected unsets : List Bytes)
    → member k protected ≡ true
    → Others k (safe_unsets protected unsets)
unfolding safe_unsets
safe_unsets-protected k protected [] h = tt
safe_unsets-protected k protected (j ∷ unsets) h =
    let rest = safe_unsets-protected k protected unsets h in
    elim (Bool-cases (member j protected)) [
      | inl stopped ↦ rw stopped rest
      | inr free ↦ rw free (
        elim (Bool-cases (bytes_eq j k)) [
          | inl same ↦ absurd (cc (free, rw (← (bytes_eq_iff j k).0 same) at h))
          | inr other ↦ other
        ],
        rest,
      )
    ]

pub safe_unsets-Others :
    (k : Bytes) (protected unsets : List Bytes)
    → Others k unsets
    → Others k (safe_unsets protected unsets)
unfolding safe_unsets
safe_unsets-Others k protected [] h = tt
safe_unsets-Others k protected (j ∷ unsets) (h, hs) = elim (Bool-cases (member j protected)) [
  | inl stopped ↦ rw stopped (safe_unsets-Others k protected unsets hs)
  | inr free ↦ rw free (h, safe_unsets-Others k protected unsets hs)
]

untouched : (k : Bytes) (s : State) → Untouched k s s
untouched k s = ((λ _. refl), refl, refl)

writes-kept :
    (accepts : Environment → Bool) (workspace : Bytes) (folder_vars : List KeyValue) (id : Bytes)
    (env : Option Environment) (writes : Vars) (unsets : List Bytes) (s : State) (k : Bytes)
    → OtherWrites k
        (safe_writes (protected_names workspace env s.environments) (secret_values env) writes)
    → Others k (safe_unsets (protected_names workspace env s.environments) unsets)
    → Untouched k s (apply_variable_writes accepts workspace folder_vars id env writes unsets s)
unfolding apply_variable_writes
writes-kept accepts workspace folder_vars id env writes unsets s k w u =
    let protected = protected_names workspace env s.environments in
    let writes' = safe_writes protected (secret_values env) writes in
    let unsets' = safe_unsets protected unsets in
    elim (Bool-cases (no_writes writes' unsets')) [
      | inl nothing ↦ rw nothing (untouched k s)
      | inr something ↦ rw something (
          apply_safe-kept accepts workspace (names_of folder_vars) id k writes' unsets' s.run s refl
            w u)
    ]

member-append_left :
    (k : Bytes) (js js' : List Bytes) → member k js ≡ true → member k (js ++ js') ≡ true
member-append_left k (j ∷ js) js' h = ground (arith, member-append_left k js js')
member-append_left k [] js' h = cc h

member-append_right :
    (k : Bytes) (js js' : List Bytes) → member k js' ≡ true → member k (js ++ js') ≡ true
member-append_right k [] js' h = h
member-append_right k (j ∷ js) js' h = ground (arith, member-append_right k js js' h)

-- The name is a secret of one of the environments of the workspace; without one, of any environment.
abbrev pub IsSecretOf : Bytes → Bytes → List Environment → Type 0
IsSecretOf k workspace environments =
    (e : Environment) × (Memᴰ e environments
      × (((workspace ≡ []) ⊎ (e.workspace_id ≡ workspace)) × Memᴰ k e.secrets))

workspace_secret_names-has :
    (k workspace : Bytes) (envs : List Environment) (e : Environment)
    → Memᴰ e envs
    → (workspace ≡ []) ⊎ (e.workspace_id ≡ workspace)
    → Memᴰ k e.secrets
    → member k (workspace_secret_names workspace envs) ≡ true
workspace_secret_names-has k workspace [] e m same has = elim m [ ]
workspace_secret_names-has k workspace (e' ∷ envs) e m same has =
    go (λ n. workspace_secret_names-has k workspace envs e n same has) m
  where
    rest : List Bytes
    rest = workspace_secret_names workspace envs

    own :
        (b c : Bool)
        → member k e'.secrets ≡ true
        → (b ≡ true) ⊎ (c ≡ true)
        → member k (if b then e'.secrets ++ rest else if c then e'.secrets ++ rest else rest) ≡ true
    own true c h s = member-append_left k e'.secrets rest h
    own false true h s = member-append_left k e'.secrets rest h
    own false false h (inl s) = cc s
    own false false h (inr s) = cc s

    later :
        (b c : Bool)
        → member k rest ≡ true
        → member k (if b then e'.secrets ++ rest else if c then e'.secrets ++ rest else rest) ≡ true
    later true c h = member-append_right k e'.secrets rest h
    later false true h = member-append_right k e'.secrets rest h
    later false false h = h

    test :
        (x : Environment)
        → (workspace ≡ []) ⊎ (x.workspace_id ≡ workspace)
        → (is_blank workspace ≡ true) ⊎ (bytes_eq x.workspace_id workspace ≡ true)
    test x (inl all) = inl (ap is_blank all)
    test x (inr here) = inr ((bytes_eq_iff x.workspace_id workspace).1 here)

    go :
        (Memᴰ e envs → member k rest ≡ true)
        → Memᴰ e (e' ∷ envs)
        → member k (workspace_secret_names workspace (e' ∷ envs)) ≡ true
    go more (Memᴰ.head x) =
        own (is_blank workspace) (bytes_eq e'.workspace_id workspace)
          (Mem-member k e'.secrets (subst (λ (y : Environment). Memᴰ k y.secrets) x has))
          (test e' (rw x at same))
    go more (Memᴰ.tail n) = later (is_blank workspace) (bytes_eq e'.workspace_id workspace) (more n)

-- A name that is a secret of any environment of the request's workspace (of any at all, where the
-- workspace has no id) is out of a script's reach: whatever environment the request resolves against,
-- whatever the script sets and unsets, and whether the store takes the write, every session,
-- environment and run has of it what it had.
pub protected_kept :
    (accepts : Environment → Bool) (workspace : Bytes) (folder_vars : List KeyValue) (id : Bytes)
    (env : Option Environment) (writes : Vars) (unsets : List Bytes) (s : State) (k : Bytes)
    → IsSecretOf k workspace s.environments
    → Untouched k s (apply_variable_writes accepts workspace folder_vars id env writes unsets s)
protected_kept accepts workspace folder_vars id env writes unsets s k (e, (m, (same, has))) =
    let protected = protected_names workspace env s.environments in
    let h =
      member-append_left k (workspace_secret_names workspace s.environments) (secret_names env)
        (workspace_secret_names-has k workspace s.environments e m same has) in
    writes-kept accepts workspace folder_vars id env writes unsets s k
      (safe_writes-others k protected (secret_values env) writes (stopped h writes))
      (safe_unsets-protected k protected unsets h)
  where
    stopped :
        member k (protected_names workspace env s.environments) ≡ true
        → (ws : Vars)
        → All (Stopped k (protected_names workspace env s.environments) (secret_values env)) ws
    stopped h [] = tt
    stopped h (e ∷ ws) = ((λ _. inl h), stopped h ws)

-- a write that is not of this name, or whose value has a secret's value in it
abbrev pub Leaks : Bytes → Environment → Bytes × Bytes → Type 0
Leaks k env e = e.0 ≡ k → HasSecretValue env e.1

-- A value that has a secret's value in it, as an enabled row of the environment that the request
-- resolves against holds it, lands nowhere, whatever name a script gives it: where every value that the
-- script writes to a name has one, and the script does not unset the name, every session, environment
-- and run has of the name what it had.
pub secret_value_kept :
    (accepts : Environment → Bool) (workspace : Bytes) (folder_vars : List KeyValue) (id : Bytes)
    (env : Environment) (writes : Vars) (unsets : List Bytes) (s : State) (k : Bytes)
    → All (Leaks k env) writes
    → Others k unsets
    → Untouched k s
        (apply_variable_writes accepts workspace folder_vars id (some env) writes unsets s)
secret_value_kept accepts workspace folder_vars id env writes unsets s k leak u =
    let protected = protected_names workspace (some env) s.environments in
    writes-kept accepts workspace folder_vars id (some env) writes unsets s k
      (safe_writes-others k protected (secret_values (some env)) writes (stopped writes leak))
      (safe_unsets-Others k protected unsets u)
  where
    stopped :
        (ws : Vars)
        → All (Leaks k env) ws
        → All
            (Stopped k
              (protected_names workspace (some env) s.environments)
              (secret_values (some env)))
            ws
    stopped [] h = tt
    stopped (e ∷ ws) (h, hs) = (
      (λ same. inr (HasSecretValue-contains env e.1 (h ((bytes_eq_iff e.0 k).0 same)))),
      stopped ws hs,
    )
