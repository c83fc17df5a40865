-- ===== src/Core/Engine/Secrets/Redacted.antt =====
-- What a script reads: no secret by its name, and texts without secrets as they are.
use auk.Base.{
  ◌≡◌, ◌∙◌, sym, ap, refl, inl, inr, Bool, true, false, not, ◌&&◌, List, [], ◌∷◌, Option, none,
  some, if◌then◌else◌, Bool-cases, All,
}
use auk.Base.Text.{Bytes, bytes_eq, bytes_eq_iff, is_blank, has_prefix, contains_text, replace_all}
use auk.Core.Model.{KeyValue, Environment}
use auk.Core.Vars.{Vars, get, assign, member, over}
use auk.Core.Vars.Laws.{last_value, get-assign, over-none}
use auk.Core.Engine.Secrets.{
  is_plain, plain_rows, variable_map, goes_before, insert_value, longest_first, placeholder,
  redact_values, redact_secret_values,
}

plain_rows-secret :
    (k : Bytes) (secrets : List Bytes) (kvs : List KeyValue)
    → member k secrets ≡ true
    → last_value k (plain_rows secrets kvs) ≡ none
unfolding last_value
plain_rows-secret k secrets [] h = refl
plain_rows-secret k secrets (kv ∷ kvs) h =
    let rest = plain_rows-secret k secrets kvs h in
    elim (Bool-cases (is_plain secrets kv)) [
      | inr hidden ↦ rw hidden rest
      | inl plain ↦
          rw (plain, rest)
            (elim (Bool-cases (bytes_eq kv.key k)) [
              | inl same ↦ absurd (
                  secret kv.enabled (member kv.key secrets) plain
                    (ap (λ (t : Bytes). member t secrets) ((bytes_eq_iff kv.key k).0 same) ∙ h))
              | inr other ↦ rw other (off kv.enabled)
            ])
    ]
  where
    secret : (on hit : Bool) → (on && not hit) ≡ true → hit ≡ true → ⊥
    secret true true e h = cc e
    secret true false e h = cc h
    secret false hit e h = cc e

    off : (on : Bool) → over (if on then none else none) none ≡ none
    off true = refl
    off false = refl

plain_rows-plain :
    (k : Bytes) (secrets : List Bytes) (kvs : List KeyValue)
    → member k secrets ≡ false
    → last_value k (plain_rows secrets kvs) ≡ last_value k kvs
unfolding last_value
plain_rows-plain k secrets [] h = refl
plain_rows-plain k secrets (kv ∷ kvs) h =
    let rest = plain_rows-plain k secrets kvs h in
    elim (Bool-cases (is_plain secrets kv)) [
      | inl plain ↦ rw (plain, rest) refl
      | inr hidden ↦
          rw (hidden, rest)
            (sym (elim (Bool-cases (bytes_eq kv.key k)) [
              | inl same ↦ rw (same) (
                  disabled kv.enabled (member kv.key secrets) (last_value k kvs) kv.value hidden
                    (ap (λ (t : Bytes). member t secrets) ((bytes_eq_iff kv.key k).0 same) ∙ h))
              | inr other ↦ rw other (off kv.enabled (last_value k kvs))
            ]))
    ]
  where
    disabled :
        (on hit : Bool) (o : Option Bytes) (v : Bytes)
        → (on && not hit) ≡ false
        → hit ≡ false
        → over (if on then some v else none) o ≡ o
    disabled true true o v e h = cc h
    disabled true false o v e h = cc e
    disabled false hit o v e h = over-none o

    off : (on : Bool) (o : Option Bytes) → over (if on then none else none) o ≡ o
    off true o = over-none o
    off false o = over-none o

-- A script reads no secret by its name, whatever the layers say of it, and of any other name the value
-- that the templates give it.
pub variable_map_lem :
    (env : Environment) (k : Bytes)
    → get k (variable_map (some env))
      ≡ (if member k env.secrets then none else get k (assign [] env.variables))
unfolding variable_map get
variable_map_lem env k =
    get-assign k [] (plain_rows env.secrets env.variables)
    ∙ (over-none (last_value k (plain_rows env.secrets env.variables))
        ∙ elim (Bool-cases (member k env.secrets)) [
          | inl hit ↦ rw hit (plain_rows-secret k env.secrets env.variables hit)
          | inr miss ↦ rw miss (
              plain_rows-plain k env.secrets env.variables miss
              ∙ sym (get-assign k [] env.variables ∙ over-none (last_value k env.variables)))
        ])

replace_all-absent : (old new s : Bytes) → contains_text s old ≡ false → replace_all 0 old new s ≡ s
unfolding contains_text replace_all
replace_all-absent old new [] h = refl
replace_all-absent old new (c ∷ s) h = elim (Bool-cases (has_prefix (c ∷ s) old)) [
  | inl hit ↦ cc (rw hit at h)
  | inr miss ↦ rw miss (ap (λ (t : Bytes). c ∷ t) (replace_all-absent old new s (rw miss at h)))
]

abbrev pub Absent : Bytes → Vars → Type 0
Absent s secrets = All (λ (e : Bytes × Bytes). contains_text s e.0 ≡ false) secrets

insert_value-Absent :
    (s : Bytes) (e : Bytes × Bytes) (secrets : Vars)
    → contains_text s e.0 ≡ false
    → Absent s secrets
    → Absent s (insert_value e secrets)
unfolding insert_value
insert_value-Absent s e [] h hs = (h, tt)
insert_value-Absent s (v, n) ((w, o) ∷ rest) h (k, hs) = elim (Bool-cases (goes_before w v)) [
  | inl before ↦ rw before (k, insert_value-Absent s (v, n) rest h hs)
  | inr behind ↦ rw behind (h, (k, hs))
]

longest_first-Absent :
    (s : Bytes) (secrets : Vars) → Absent s secrets → Absent s (longest_first secrets)
unfolding longest_first
longest_first-Absent s [] h = tt
longest_first-Absent s (e ∷ secrets) (h, hs) =
    insert_value-Absent s e (longest_first secrets) h (longest_first-Absent s secrets hs)

redact_values-Absent : (s : Bytes) (secrets : Vars) → Absent s secrets → redact_values s secrets ≡ s
unfolding redact_values
redact_values-Absent s [] h = refl
redact_values-Absent s ((v, n) ∷ secrets) (h, hs) =
    ap (λ (t : Bytes). redact_values t secrets) (replace_all-absent v (placeholder n) s h)
    ∙ redact_values-Absent s secrets hs

-- A text that has none of the secret values in it is shown to scripts as it is.
pub redact_secret_values-Absent :
    (s : Bytes) (secrets : Vars) → Absent s secrets → redact_secret_values secrets s ≡ s
unfolding redact_secret_values
redact_secret_values-Absent s secrets h = elim (Bool-cases (is_blank s)) [
  | inl blank ↦ rw blank refl
  | inr text ↦
      rw text (redact_values-Absent s (longest_first secrets) (longest_first-Absent s secrets h))
]
