-- ===== src/Core/Engine/RunVars/Refines.antt =====
-- The layer is a map from names to values, with a reset, an assignment and a removal.
use auk.Base.{
  ◌≡◌, ◌∙◌, sym, ap, refl, inl, inr, true, false, List, [], ◌∷◌, Option, none, some, if◌then◌else◌,
  arith, Bool-cases, All,
}
use auk.Base.Text.{Bytes, bytes_eq, bytes_lt, bytes_eq_iff}
use auk.Core.Model.{KeyValue}
use auk.Core.Vars.{Vars, get, member, over, assign, rows}
use auk.Core.Vars.Laws.{
  get-set, get-delete, get-assign, last_value, last_value-rows, over-none, IsMap, set-IsMap,
  delete-IsMap, assign-IsMap,
}
use auk.Core.Engine.RunVars.{
  RunVars, new, reset, remove_name, set_script, unset_script, without, overlay,
}

-- What happens to the layer during a run.
pub data Event : Type 0 where
  row : List KeyValue → Event
  written : Bytes → Bytes → Event
  unset : Bytes → Event

abbrev pub apply : Event → RunVars → RunVars
apply (row kvs) rv = reset kvs rv
apply (written k v) rv = set_script k v rv
apply (unset k) rv = unset_script k rv

abbrev pub replay : List Event → RunVars → RunVars
replay [] rv = rv
replay (e ∷ es) rv = replay es (apply e rv)

-- The specification: a function from names to values.
abbrev pub Spec : Type 0
Spec = Bytes → Option Bytes

abbrev pub step : Event → Spec → Spec
step (row kvs) f k = last_value k kvs
step (written j v) f k = if bytes_eq j k then some v else f k
step (unset j) f k = if bytes_eq j k then none else f k

abbrev pub steps : List Event → Spec → Spec
steps [] f = f
steps (e ∷ es) f = steps es (step e f)

-- the value of a name in the layer
abbrev pub view : RunVars → Spec
view rv k = over (if member k rv.unsets then none else get k rv.data_row) (get k rv.writes)

abbrev pub IsValid : RunVars → Type 0
IsValid rv = IsMap rv.data_row × IsMap rv.writes

member-remove_name :
    (k j : Bytes) (js : List Bytes)
    → member j (remove_name k js) ≡ (if bytes_eq k j then false else member j js)
member-remove_name k j [] = ground arith
member-remove_name k j (i ∷ js) =
    ground (arith, bytes_eq_iff i k, bytes_eq_iff k j, bytes_eq_iff i j, member-remove_name k j js)

get-without :
    (names : List Bytes) (k : Bytes) (m : Vars)
    → get k (without names m) ≡ (if member k names then none else get k m)
unfolding get
get-without names k [] = ground arith
get-without names k ((j, v) ∷ m) =
    let rest = get-without names k m in
    elim (Bool-cases (bytes_eq j k)) [
      | inr other ↦ elim (Bool-cases (member j names)) [
        | inl gone ↦ rw (gone, other) rest
        | inr kept ↦ rw (kept, other) rest
      ]
      | inl same ↦ elim (Bool-cases (member j names)) [
        | inl gone ↦
            let away =
              ap (λ (t : Bytes). member t names) (sym ((bytes_eq_iff j k).0 same)) ∙ gone in
            rw (gone, away) (rest ∙ rw away refl)
        | inr kept ↦
            let stays =
              ap (λ (t : Bytes). member t names) (sym ((bytes_eq_iff j k).0 same)) ∙ kept in
            rw (kept, stays, same) refl
      ]
    ]

above-without :
    (names : List Bytes) (i : Bytes) (m : Vars)
    → All (λ (e : Bytes × Bytes). bytes_lt i e.0 ≡ true) m
    → All (λ (e : Bytes × Bytes). bytes_lt i e.0 ≡ true) (without names m)
above-without names i [] h = tt
above-without names i ((j, v) ∷ m) (h, hs) = elim (Bool-cases (member j names)) [
  | inl gone ↦ rw gone (above-without names i m hs)
  | inr kept ↦ rw kept (h, above-without names i m hs)
]

without-IsMap : (names : List Bytes) (m : Vars) → IsMap m → IsMap (without names m)
without-IsMap names [] h = tt
without-IsMap names ((j, v) ∷ m) (above, h) = elim (Bool-cases (member j names)) [
  | inl gone ↦ rw gone (without-IsMap names m h)
  | inr kept ↦ rw kept (above-without names j m above, without-IsMap names m h)
]

pub apply-IsValid : (e : Event) (rv : RunVars) → IsValid rv → IsValid (apply e rv)
unfolding reset set_script unset_script
apply-IsValid (row kvs) rv h = (assign-IsMap [] kvs tt, tt)
apply-IsValid (written k v) rv h = (h.0, set-IsMap k v rv.writes h.1)
apply-IsValid (unset k) rv h = (h.0, delete-IsMap k rv.writes h.1)

pub view-apply : (e : Event) (rv : RunVars) (k : Bytes) → view (apply e rv) k ≡ step e (view rv) k
unfolding reset set_script unset_script get
view-apply (row kvs) rv k = rw (get-assign k [] kvs) (over-none (last_value k kvs))
view-apply (written j v) rv k =
    rw (get-set j k v rv.writes, member-remove_name j k rv.unsets)
      (elim (Bool-cases (bytes_eq j k)) [ inl same ↦ rw same refl | inr other ↦ rw other refl ])
view-apply (unset j) rv k =
    rw (get-delete j k rv.writes, member-remove_name j k rv.unsets)
      (elim (Bool-cases (bytes_eq j k)) [ inl same ↦ rw same refl | inr other ↦ rw other refl ])

steps-cong :
    (es : List Event) (f g : Spec)
    → ((k : Bytes) → f k ≡ g k)
    → (k : Bytes) → steps es f k ≡ steps es g k
steps-cong [] f g h k = h k
steps-cong (e ∷ es) f g h k = steps-cong es (step e f) (step e g) (step-cong e f g h) k
  where
    step-cong :
        (e : Event) (f g : Spec) → ((k : Bytes) → f k ≡ g k) → (k : Bytes) → step e f k ≡ step e g k
    step-cong (row kvs) f g h k = refl
    step-cong (written j v) f g h k =
        ap (λ (o : Option Bytes). if bytes_eq j k then some v else o) (h k)
    step-cong (unset j) f g h k = ap (λ (o : Option Bytes). if bytes_eq j k then none else o) (h k)

replay-IsValid : (es : List Event) (rv : RunVars) → IsValid rv → IsValid (replay es rv)
replay-IsValid [] rv h = h
replay-IsValid (e ∷ es) rv h = replay-IsValid es (apply e rv) (apply-IsValid e rv h)

view-replay :
    (es : List Event) (rv : RunVars) (k : Bytes) → view (replay es rv) k ≡ steps es (view rv) k
view-replay [] rv k = refl
view-replay (e ∷ es) rv k =
    view-replay es (apply e rv) k
    ∙ steps-cong es (view (apply e rv)) (step e (view rv)) (view-apply e rv) k

pub overlay-view : (rv : RunVars) (k : Bytes) → IsValid rv → last_value k (overlay rv) ≡ view rv k
unfolding overlay
overlay-view rv k h =
    let base = without rv.unsets rv.data_row in
    last_value-rows k (assign base (rows rv.writes))
      (assign-IsMap base (rows rv.writes) (without-IsMap rv.unsets rv.data_row h.0))
    ∙ (get-assign k base (rows rv.writes)
        ∙ (ap (λ (o : Option Bytes). over o (last_value k (rows rv.writes)))
              (get-without rv.unsets k rv.data_row)
            ∙ ap (over (if member k rv.unsets then none else get k rv.data_row))
                (last_value-rows k rv.writes h.1)))

-- After any run of resets, assignments and removals, the rows that the layer hands to the templates give
-- each name the value that the same events make of an empty function from names to values: a
-- reset forgets all but its row, the last assignment wins, and a removed name has no value.
pub overlay_refines :
    (es : List Event) (k : Bytes) → last_value k (overlay (replay es new)) ≡ steps es (λ _. none) k
unfolding get
overlay_refines es k =
    overlay-view (replay es new) k (replay-IsValid es new (tt, tt))
    ∙ (view-replay es new k ∙ steps-cong es (view new) (λ _. none) view_new k)
  where
    view_new : (k : Bytes) → view new k ≡ none
    view_new k = refl
