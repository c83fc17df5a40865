-- ===== src/Core/Engine/Writes/Hidden.antt =====
-- The session behind a write to the environment: what folders hide stays, all else is forgotten.
use auk.Base.{
  ◌≡◌, ◌∙◌, ap, refl, inl, inr, Bool, true, false, List, [], ◌∷◌, ◌++◌, none, some, if◌then◌else◌,
  Bool-cases,
}
use auk.Base.Text.{Bytes, bytes_eq, bytes_eq_iff}
use auk.Core.Model.{KeyValue}
use auk.Core.Vars.{Vars, get, delete, member, over}
use auk.Core.Vars.Laws.{get-delete, IsMap, last_value}
use auk.Core.Engine.Writes.{forget, set_all, hidden_writes, keys, names_of, settled, settle}
use auk.Core.Engine.Writes.Kept.{Others, get-forget}
use auk.Core.Engine.Writes.Spared.{hidden_writes-others}
use auk.Core.Engine.Writes.Effects.{Written, get-set_all-Written, set_all-IsMap, forget-IsMap}
use auk.Core.Engine.Writes.Settled.{keys-Written}

hidden_writes-Written :
    (k v : Bytes) (shadowed : List Bytes) (writes : Vars)
    → member k shadowed ≡ true
    → Written k v writes
    → Written k v (hidden_writes shadowed writes)
hidden_writes-Written k v shadowed [] s h = absurd h
hidden_writes-Written k v shadowed ((j, w) ∷ writes) s (inl (here, value, others)) =
    rw (ap (λ (t : Bytes). member t shadowed) here ∙ s)
      (inl (here, value, hidden_writes-others k shadowed writes others))
hidden_writes-Written k v shadowed ((j, w) ∷ writes) s (inr (other, h)) =
    let rest = hidden_writes-Written k v shadowed writes s h in
    elim (Bool-cases (member j shadowed)) [
      | inl hit ↦ rw hit (inr (other, rest))
      | inr miss ↦ rw miss rest
    ]

settled-hidden :
    (k : Bytes) (hidden names : List Bytes)
    → member k hidden ≡ true
    → Others k (settled hidden names)
settled-hidden k hidden [] h = tt
settled-hidden k hidden (j ∷ names) h =
    let rest = settled-hidden k hidden names h in
    elim (Bool-cases (member j hidden)) [
      | inl hit ↦ rw hit rest
      | inr miss ↦ rw miss (
        elim (Bool-cases (bytes_eq j k)) [
          | inl same ↦ absurd (cc (miss, rw (← (bytes_eq_iff j k).0 same) at h))
          | inr other ↦ other
        ],
        rest,
      )
    ]

member-settled :
    (k : Bytes) (hidden names : List Bytes)
    → member k hidden ≡ false
    → member k names ≡ true
    → member k (settled hidden names) ≡ true
member-settled k hidden [] h m = m
member-settled k hidden (j ∷ names) h m = elim (Bool-cases (bytes_eq j k)) [
  | inl same ↦ rw (ap (λ (t : Bytes). member t hidden) ((bytes_eq_iff j k).0 same) ∙ h, same) refl
  | inr other ↦
      let rest = member-settled k hidden names h (rw other at m) in
      elim (Bool-cases (member j hidden)) [
        | inl hit ↦ rw hit rest
        | inr miss ↦ rw (miss, other) rest
      ]
]

member-append-left : (k : Bytes) (a b : List Bytes) → member k a ≡ true → member k (a ++ b) ≡ true
member-append-left k [] b h = cc h
member-append-left k (j ∷ a) b h = elim (Bool-cases (bytes_eq j k)) [
  | inl same ↦ rw same refl
  | inr other ↦ rw other (member-append-left k a b (rw other at h))
]

hidden_writes-miss :
    (k : Bytes) (shadowed : List Bytes) (writes : Vars)
    → member k shadowed ≡ false
    → member k (keys (hidden_writes shadowed writes)) ≡ false
hidden_writes-miss k shadowed [] h = refl
hidden_writes-miss k shadowed ((j, v) ∷ writes) h =
    let rest = hidden_writes-miss k shadowed writes h in
    elim (Bool-cases (member j shadowed)) [
      | inr miss ↦ rw miss rest
      | inl hit ↦ rw hit (elim (Bool-cases (bytes_eq j k)) [
        | inl same ↦ absurd (cc (h, rw ((bytes_eq_iff j k).0 same) at hit))
        | inr other ↦ rw other rest
      ])
    ]

get-forget-none :
    (k : Bytes) (names : List Bytes) (m : Vars) → get k m ≡ none → get k (forget names m) ≡ none
get-forget-none k [] m h = h
get-forget-none k (j ∷ names) m h =
    get-forget-none k names (delete j m) (elim (Bool-cases (bytes_eq j k)) [
      | inl same ↦ rw (get-delete j k m, same) refl
      | inr other ↦ rw (get-delete j k m, other) h
    ])

get-forget-member :
    (k : Bytes) (names : List Bytes) (m : Vars)
    → member k names ≡ true
    → get k (forget names m) ≡ none
get-forget-member k [] m h = cc h
get-forget-member k (j ∷ names) m h = elim (Bool-cases (bytes_eq j k)) [
  | inl same ↦ get-forget-none k names (delete j m) (rw (get-delete j k m, same) refl)
  | inr other ↦ get-forget-member k names (delete j m) (rw other at h)
]

-- Behind a write to the environment the session has a hidden name's value, and no other written name.
pub get-settle :
    (k v : Bytes) (shadowed : List Bytes) (writes : Vars) (unsets : List Bytes) (m : Vars)
    → Written k v writes
    → get k (settle shadowed writes unsets m) ≡ (if member k shadowed then some v else none)
unfolding settle
get-settle k v shadowed writes unsets m h =
    let hidden = hidden_writes shadowed writes in
    let names = keys writes ++ unsets in
    elim (Bool-cases (member k shadowed)) [
      | inl hit ↦
          let w = hidden_writes-Written k v shadowed writes hit h in
          rw hit (
            get-forget k (settled (keys hidden) names) (set_all hidden m)
              (settled-hidden k (keys hidden) names (keys-Written k v hidden w))
            ∙ get-set_all-Written k v hidden m w)
      | inr miss ↦ rw miss (
          get-forget-member k (settled (keys hidden) names) (set_all hidden m) (
            member-settled k (keys hidden) names (hidden_writes-miss k shadowed writes miss)
              (member-append-left k (keys writes) unsets (keys-Written k v writes h))))
    ]

-- a name that no folder has
pub last_value-miss :
    (k : Bytes) (kvs : List KeyValue) → member k (names_of kvs) ≡ false → last_value k kvs ≡ none
unfolding last_value
last_value-miss k [] h = refl
last_value-miss k (kv ∷ kvs) h = elim (Bool-cases (bytes_eq kv.key k)) [
  | inl same ↦ cc (rw same at h)
  | inr other ↦ rw (other, last_value-miss k kvs (rw other at h)) (off kv.enabled)
]
  where
    off : (on : Bool) → over (if on then none else none) none ≡ none
    off true = refl
    off false = refl

pub settle-IsMap :
    (shadowed : List Bytes) (writes : Vars) (unsets : List Bytes) (m : Vars)
    → IsMap m
    → IsMap (settle shadowed writes unsets m)
unfolding settle
settle-IsMap shadowed writes unsets m h =
    let hidden = hidden_writes shadowed writes in
    forget-IsMap (settled (keys hidden) (keys writes ++ unsets)) (set_all hidden m)
      (set_all-IsMap hidden m h)
