-- ===== src/Core/Vars/Laws.antt =====
-- Reads after writes, and rows assigned one after the other.
use auk.Base.{
  ◌≡◌, ◌∙◌, sym, ap, refl, inl, inr, true, List, [], ◌∷◌, ◌++◌, Option, none, some, if◌then◌else◌,
  arith, Bool-cases, All,
}
use auk.Base.Text.{Bytes, bytes_eq, bytes_lt, bytes_eq_iff}
use auk.Base.Text.Order.{bytes_lt_trans, bytes_lt_irrefl, bytes_lt_total}
use auk.Core.Model.{KeyValue}
use auk.Core.Vars.{Vars, get, set, delete, over, assign, rows}

pub get-set :
    (k j v : Bytes) (m : Vars) → get j (set k v m) ≡ (if bytes_eq k j then some v else get j m)
unfolding get set
get-set k j v [] = refl
get-set k j v ((i, w) ∷ m) =
    ground (arith, bytes_eq_iff i k, bytes_eq_iff k j, bytes_eq_iff i j, get-set k j v m)

pub get-delete :
    (k j : Bytes) (m : Vars) → get j (delete k m) ≡ (if bytes_eq k j then none else get j m)
unfolding get delete
get-delete k j [] = ground arith
get-delete k j ((i, w) ∷ m) =
    ground (arith, bytes_eq_iff i k, bytes_eq_iff k j, bytes_eq_iff i j, get-delete k j m)

abbrev pub row_value : Bytes → KeyValue → Option Bytes
row_value k kv = if kv.enabled then (if bytes_eq kv.key k then some kv.value else none) else none

-- the value of the last enabled row of a name
unfoldable pub last_value : Bytes → List KeyValue → Option Bytes
last_value k [] = none
last_value k (kv ∷ kvs) = over (row_value k kv) (last_value k kvs)

pub over_assoc : (a b c : Option Bytes) → over (over a b) c ≡ over a (over b c)
over_assoc a b none = refl
over_assoc a b (some v) = refl

pub over-none : (a : Option Bytes) → over none a ≡ a
over-none none = refl
over-none (some v) = refl

get-step :
    (k : Bytes) (m : Vars) (kv : KeyValue)
    → get k (if kv.enabled then set kv.key kv.value m else m) ≡ over (get k m) (row_value k kv)
get-step k m kv = elim (Bool-cases kv.enabled) [
  | inr off ↦ rw off refl
  | inl on ↦
      rw (on, get-set kv.key k kv.value m)
        (elim (Bool-cases (bytes_eq kv.key k)) [
          | inl same ↦ rw same refl
          | inr other ↦ rw other refl
        ])
]

-- Assigned rows: the last enabled one of a name counts.
pub get-assign :
    (k : Bytes) (m : Vars) (kvs : List KeyValue)
    → get k (assign m kvs) ≡ over (get k m) (last_value k kvs)
unfolding assign last_value
get-assign k m [] = refl
get-assign k m (kv ∷ kvs) =
    get-assign k (if kv.enabled then set kv.key kv.value m else m) kvs
    ∙ (ap (λ (t : Option Bytes). over t (last_value k kvs)) (get-step k m kv)
        ∙ over_assoc (get k m) (row_value k kv) (last_value k kvs))

pub last_value-append :
    (k : Bytes) (a b : List KeyValue)
    → last_value k (a ++ b) ≡ over (last_value k a) (last_value k b)
unfolding last_value
last_value-append k [] b = sym (over-none (last_value k b))
last_value-append k (kv ∷ a) b =
    ap (over (row_value k kv)) (last_value-append k a b)
    ∙ sym (over_assoc (row_value k kv) (last_value k a) (last_value k b))

-- Keys strictly increase, so each stands there once.
abbrev pub IsMap : Vars → Type 0
IsMap [] = Unit
IsMap ((k, v) ∷ m) = All (λ (e : Bytes × Bytes). bytes_lt k e.0 ≡ true) m × IsMap m

absent :
    (k : Bytes) (m : Vars)
    → All (λ (e : Bytes × Bytes). bytes_lt k e.0 ≡ true) m
    → last_value k (rows m) ≡ none
unfolding last_value
absent k [] h = refl
absent k ((j, v) ∷ m) (lt, h) = rw (absent k m h) (elim (Bool-cases (bytes_eq j k)) [
  | inr other ↦ rw other refl
  | inl same ↦ cc (rw ((bytes_eq_iff j k).0 same) at lt, bytes_lt_irrefl k)
])

-- The rows of a map give its values back.
pub last_value-rows : (k : Bytes) (m : Vars) → IsMap m → last_value k (rows m) ≡ get k m
unfolding last_value get
last_value-rows k [] h = refl
last_value-rows k ((j, v) ∷ m) (above, h) = elim (Bool-cases (bytes_eq j k)) [
  | inr other ↦ rw (other, last_value-rows k m h) (over-none (get k m))
  | inl same ↦ rw (same, absent k m (rw ((bytes_eq_iff j k).0 same) at above)) refl
]

above-set :
    (i k v : Bytes) (m : Vars)
    → bytes_lt i k ≡ true
    → All (λ (e : Bytes × Bytes). bytes_lt i e.0 ≡ true) m
    → All (λ (e : Bytes × Bytes). bytes_lt i e.0 ≡ true) (set k v m)
unfolding set
above-set i k v [] lt h = (lt, tt)
above-set i k v ((j, w) ∷ m) lt (h, hs) = elim (Bool-cases (bytes_eq j k)) [
  | inl same ↦ rw same (lt, hs)
  | inr other ↦ elim (Bool-cases (bytes_lt k j)) [
    | inl before ↦ rw (other, before) (lt, (h, hs))
    | inr behind ↦ rw (other, behind) (h, above-set i k v m lt hs)
  ]
]

below-All :
    (i k : Bytes) (m : Vars)
    → bytes_lt i k ≡ true
    → All (λ (e : Bytes × Bytes). bytes_lt k e.0 ≡ true) m
    → All (λ (e : Bytes × Bytes). bytes_lt i e.0 ≡ true) m
below-All i k [] lt h = tt
below-All i k ((j, w) ∷ m) lt (h, hs) = (bytes_lt_trans i k j lt h, below-All i k m lt hs)

pub set-IsMap : (k v : Bytes) (m : Vars) → IsMap m → IsMap (set k v m)
unfolding set
set-IsMap k v [] h = (tt, tt)
set-IsMap k v ((j, w) ∷ m) (above, h) = elim (Bool-cases (bytes_eq j k)) [
  | inl same ↦ rw same (rw (← (bytes_eq_iff j k).0 same) (above, h))
  | inr other ↦ elim (Bool-cases (bytes_lt k j)) [
    | inl before ↦ rw (other, before) ((before, below-All k j m before above), (above, h))
    | inr behind ↦ elim (Bool-cases (bytes_lt j k)) [
      | inl less ↦ rw (other, behind) (above-set j k v m less above, set-IsMap k v m h)
      | inr more ↦ absurd (cc ((bytes_eq_iff j k).1 (bytes_lt_total j k more behind), other))
    ]
  ]
]

above-delete :
    (i k : Bytes) (m : Vars)
    → All (λ (e : Bytes × Bytes). bytes_lt i e.0 ≡ true) m
    → All (λ (e : Bytes × Bytes). bytes_lt i e.0 ≡ true) (delete k m)
unfolding delete
above-delete i k [] h = tt
above-delete i k ((j, w) ∷ m) (h, hs) = elim (Bool-cases (bytes_eq j k)) [
  | inl same ↦ rw same (above-delete i k m hs)
  | inr other ↦ rw other (h, above-delete i k m hs)
]

pub delete-IsMap : (k : Bytes) (m : Vars) → IsMap m → IsMap (delete k m)
unfolding delete
delete-IsMap k [] h = tt
delete-IsMap k ((j, w) ∷ m) (above, h) = elim (Bool-cases (bytes_eq j k)) [
  | inl same ↦ rw same (delete-IsMap k m h)
  | inr other ↦ rw other (above-delete j k m above, delete-IsMap k m h)
]

pub assign-IsMap : (m : Vars) (kvs : List KeyValue) → IsMap m → IsMap (assign m kvs)
unfolding assign
assign-IsMap m [] h = h
assign-IsMap m (kv ∷ kvs) h =
    assign-IsMap (if kv.enabled then set kv.key kv.value m else m) kvs
      (elim (Bool-cases kv.enabled) [
        | inl on ↦ rw on (set-IsMap kv.key kv.value m h)
        | inr off ↦ rw off h
      ])
