-- ===== src/Core/Engine/Writes/Effects.antt =====
-- What a written name has afterwards: in a map, in the run's layer, and in an environment's rows.
use auk.Base.{
  ◌≡◌, ◌⊎◌, ◌∙◌, ap, refl, inl, inr, true, false, not, ◌&&◌, List, [], ◌∷◌, some, Bool-cases, All,
}
use auk.Base.Text.{Bytes, bytes_eq, bytes_eq_iff, bytes_eq_self, bytes_lt}
use auk.Base.Text.Order.{bytes_lt_irrefl}
use auk.Core.Vars.{Vars, get, set, delete, member}
use auk.Core.Vars.Laws.{get-set, IsMap, set-IsMap, delete-IsMap}
use auk.Core.Engine.RunVars.{RunVars, set_script, unset_script}
use auk.Core.Engine.RunVars.Refines.{view, written, unset, view-apply, IsValid, apply-IsValid}
use auk.Core.Engine.Secrets.{contains_secret_value}
use auk.Core.Engine.Writes.{safe_writes, forget, set_all, script_all}
use auk.Core.Engine.Writes.Kept.{OtherWrites, Others, get-set_all, view-script_all}

-- The writes give a name one value.
abbrev pub Written : Bytes → Bytes → Vars → Type 0
Written k v [] = ⊥
Written k v ((j, w) ∷ writes) =
    ((j ≡ k) × (w ≡ v) × OtherWrites k writes) ⊎ ((bytes_eq j k ≡ false) × Written k v writes)

above-others :
    (k : Bytes) (writes : Vars)
    → All (λ (e : Bytes × Bytes). bytes_lt k e.0 ≡ true) writes
    → OtherWrites k writes
above-others k [] h = tt
above-others k ((j, w) ∷ writes) (h, hs) = (
  elim (Bool-cases (bytes_eq j k)) [
    | inl same ↦ absurd (cc (rw ((bytes_eq_iff j k).0 same) at h, bytes_lt_irrefl k))
    | inr other ↦ other
  ],
  above-others k writes hs,
)

pub get-Written :
    (k v : Bytes) (writes : Vars) → IsMap writes → get k writes ≡ some v → Written k v writes
unfolding get
get-Written k v [] h e = cc e
get-Written k v ((j, w) ∷ writes) (above, h) e = elim (Bool-cases (bytes_eq j k)) [
  | inl same ↦
      let here : j ≡ k = (bytes_eq_iff j k).0 same in
      inl (here, cc (rw same at e), above-others k writes (rw here at above))
  | inr other ↦ inr (other, get-Written k v writes h (rw other at e))
]

safe_writes-OtherWrites :
    (k : Bytes) (protected : List Bytes) (leaks writes : Vars)
    → OtherWrites k writes
    → OtherWrites k (safe_writes protected leaks writes)
unfolding safe_writes
safe_writes-OtherWrites k protected leaks [] h = tt
safe_writes-OtherWrites k protected leaks ((j, w) ∷ writes) (h, hs) =
    let rest = safe_writes-OtherWrites k protected leaks writes hs in
    elim (Bool-cases (not (member j protected) && not (contains_secret_value w leaks))) [
      | inl free ↦ rw free (h, rest)
      | inr stopped ↦ rw stopped rest
    ]

-- The guards let a free name with a clean value through.
pub safe_writes-Written :
    (k v : Bytes) (protected : List Bytes) (leaks writes : Vars)
    → member k protected ≡ false
    → contains_secret_value v leaks ≡ false
    → Written k v writes
    → Written k v (safe_writes protected leaks writes)
unfolding safe_writes
safe_writes-Written k v protected leaks [] free clean h = absurd h
safe_writes-Written k v protected leaks ((j, w) ∷ writes) free clean (inl (here, value, others)) =
    rw (ap (λ (t : Bytes). member t protected) here ∙ free) (
      rw (ap (λ (t : Bytes). contains_secret_value t leaks) value ∙ clean)
        (inl (here, value, safe_writes-OtherWrites k protected leaks writes others)))
safe_writes-Written k v protected leaks ((j, w) ∷ writes) free clean (inr (other, h)) =
    let rest = safe_writes-Written k v protected leaks writes free clean h in
    elim (Bool-cases (not (member j protected) && not (contains_secret_value w leaks))) [
      | inl passed ↦ rw passed (inr (other, rest))
      | inr stopped ↦ rw stopped rest
    ]

pub get-set_all-Written :
    (k v : Bytes) (writes m : Vars) → Written k v writes → get k (set_all writes m) ≡ some v
get-set_all-Written k v [] m h = absurd h
get-set_all-Written k v ((j, w) ∷ writes) m (inl (here, value, others)) =
    get-set_all k writes (set j w m) others
    ∙ (get-set j k w m ∙ rw (here, bytes_eq_self k, value) refl)
get-set_all-Written k v ((j, w) ∷ writes) m (inr (other, h)) =
    get-set_all-Written k v writes (set j w m) h

pub set_all-IsMap : (writes m : Vars) → IsMap m → IsMap (set_all writes m)
set_all-IsMap [] m h = h
set_all-IsMap ((k, v) ∷ writes) m h = set_all-IsMap writes (set k v m) (set-IsMap k v m h)

pub forget-IsMap : (names : List Bytes) (m : Vars) → IsMap m → IsMap (forget names m)
forget-IsMap [] m h = h
forget-IsMap (k ∷ names) m h = forget-IsMap names (delete k m) (delete-IsMap k m h)

pub view-Written :
    (k v : Bytes) (writes : Vars) (unsets : List Bytes) (rv : RunVars)
    → Written k v writes
    → Others k unsets
    → view (script_all writes unsets rv) k ≡ some v
view-Written k v [] unsets rv h u = absurd h
view-Written k v ((j, w) ∷ writes) unsets rv (inl (here, value, others)) u =
    view-script_all k writes unsets (set_script j w rv) others u
    ∙ (view-apply (written j w) rv k ∙ rw (here, bytes_eq_self k, value) refl)
view-Written k v ((j, w) ∷ writes) unsets rv (inr (other, h)) u =
    view-Written k v writes unsets (set_script j w rv) h u

pub script_all-IsValid :
    (writes : Vars) (unsets : List Bytes) (rv : RunVars)
    → IsValid rv
    → IsValid (script_all writes unsets rv)
script_all-IsValid [] [] rv h = h
script_all-IsValid [] (j ∷ unsets) rv h =
    script_all-IsValid [] unsets (unset_script j rv) (apply-IsValid (unset j) rv h)
script_all-IsValid ((j, v) ∷ writes) unsets rv h =
    script_all-IsValid writes unsets (set_script j v rv) (apply-IsValid (written j v) rv h)
