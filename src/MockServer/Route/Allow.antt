-- ===== src/MockServer/Route/Allow.antt =====
-- The set of methods that a path has: without repetition, in order.
use auk.Base.{◌≡◌, ◌≢◌, ◌∙◌, sym, ap, ◌⊎◌, inl, inr, refl, true, List, [], ◌∷◌, Bool-cases, All}
use mathlib.Core.Path.{subst}
use mathlib.Core.List.{Memᴰ}
use auk.Base.Text.{Bytes, bytes_eq, bytes_lt, bytes_eq_iff}
use auk.Base.Text.Order.{bytes_lt_total, bytes_lt_trans}
use auk.MockServer.Route.{Route, matches, add_method}
use auk.MockServer.Route.Best.{Fits, Fits-cast, Seen}

abbrev pub Above : Bytes → Bytes → Type 0
Above x y = bytes_lt x y ≡ true

-- strictly increasing, so no text comes twice
abbrev pub Ascending : List Bytes → Type 0
Ascending [] = Unit
Ascending (x ∷ xs) = All (Above x) xs × Ascending xs

pub add_method-has : (m : Bytes) (xs : List Bytes) → Memᴰ m (add_method m xs)
unfolding add_method
add_method-has m [] = Memᴰ.head refl
add_method-has m (x ∷ xs) = elim (Bool-cases (bytes_eq m x)) [
  | inl same ↦ rw same (Memᴰ.head ((bytes_eq_iff m x).0 same))
  | inr other ↦ elim (Bool-cases (bytes_lt m x)) [
    | inl less ↦ rw (other, less) (Memᴰ.head refl)
    | inr more ↦ rw (other, more) (Memᴰ.tail (add_method-has m xs))
  ]
]

pub add_method-keeps :
    (m : Bytes) (xs : List Bytes) (y : Bytes) → Memᴰ y xs → Memᴰ y (add_method m xs)
unfolding add_method
add_method-keeps m [] y h = Memᴰ.tail h
add_method-keeps m (x ∷ xs) y h = elim (Bool-cases (bytes_eq m x)) [
  | inl same ↦ rw same h
  | inr other ↦ elim (Bool-cases (bytes_lt m x)) [
    | inl less ↦ rw (other, less) (Memᴰ.tail h)
    | inr more ↦
        rw (other, more)
          (elim h [
            | Memᴰ.head e ↦ Memᴰ.head e
            | Memᴰ.tail k ↦ Memᴰ.tail (add_method-keeps m xs y k)
          ])
  ]
]

pub add_method-only :
    (m : Bytes) (xs : List Bytes) (y : Bytes) → Memᴰ y (add_method m xs) → (y ≡ m) ⊎ Memᴰ y xs
unfolding add_method
add_method-only m [] y (Memᴰ.head e) = inl e
add_method-only m [] y (Memᴰ.tail h) = inr h
add_method-only m (x ∷ xs) y h = elim (Bool-cases (bytes_eq m x)) [
  | inl same ↦ inr (rw same at h)
  | inr other ↦ elim (Bool-cases (bytes_lt m x)) [
    | inl less ↦ elim (rw (other, less) at h) [ Memᴰ.head e ↦ inl e | Memᴰ.tail k ↦ inr k ]
    | inr more ↦ elim (rw (other, more) at h) [
      | Memᴰ.head e ↦ inr (Memᴰ.head e)
      | Memᴰ.tail k ↦ elim (add_method-only m xs y k) [ inl e ↦ inl e | inr q ↦ inr (Memᴰ.tail q) ]
    ]
  ]
]

All-Above :
    (x m : Bytes) (xs : List Bytes)
    → bytes_lt x m ≡ true
    → All (Above x) xs
    → All (Above x) (add_method m xs)
unfolding add_method
All-Above x m [] h k = (h, tt)
All-Above x m (y ∷ xs) h (k, ks) =
    let rest = All-Above x m xs h ks in
    elim (Bool-cases (bytes_eq m y)) [
      | inl same ↦ rw same (k, ks)
      | inr other ↦ elim (Bool-cases (bytes_lt m y)) [
        | inl less ↦ rw (other, less) (h, (k, ks))
        | inr more ↦ rw (other, more) (k, rest)
      ]
    ]

All-below :
    (m x : Bytes) (xs : List Bytes) → bytes_lt m x ≡ true → All (Above x) xs → All (Above m) xs
All-below m x [] h k = tt
All-below m x (y ∷ xs) h (k, ks) = (bytes_lt_trans m x y h k, All-below m x xs h ks)

pub add_method-Ascending :
    (m : Bytes) (xs : List Bytes) → Ascending xs → Ascending (add_method m xs)
unfolding add_method
add_method-Ascending m [] h = (tt, tt)
add_method-Ascending m (x ∷ xs) (above, h) = elim (Bool-cases (bytes_eq m x)) [
  | inl same ↦ rw same (above, h)
  | inr other ↦ elim (Bool-cases (bytes_lt m x)) [
    | inl less ↦ rw (other, less) ((less, All-below m x xs less above), (above, h))
    | inr more ↦ elim (Bool-cases (bytes_lt x m)) [
      | inl over ↦ rw (other, more) (All-Above x m xs over above, add_method-Ascending m xs h)
      | inr under ↦ absurd (cc ((bytes_eq_iff m x).1 (bytes_lt_total m x more under), other))
    ]
  ]
]

-- Some route with `P` has the path, and this method.
abbrev pub Offered : (Route → Type 0) → List Bytes → Bytes → Type 0
Offered P req m = (r : Route) × P r × Fits req m r

-- The methods are those of the routes with `P` that have the path, but for the asked one.
abbrev pub Allowed : (Route → Type 0) → List Bytes → Bytes → List Bytes → Type 0
Allowed P req method allow =
    ((m : Bytes) → Memᴰ m allow → Offered P req m)
    × ((m : Bytes) → m ≢ method → Offered P req m → Memᴰ m allow)
    × Ascending allow

Offered-Seen :
    (P : Route → Type 0) (req : List Bytes) (r : Route) (m : Bytes)
    → Offered P req m
    → Offered (Seen P r) req m
Offered-Seen P req r m (x, p, f) = (x, inr p, f)

pub Allowed-skip :
    (P : Route → Type 0) (req : List Bytes) (method : Bytes) (r : Route) (allow : List Bytes)
    → ((m : Bytes) → m ≢ method → ¬ Fits req m r)
    → Allowed P req method allow
    → Allowed (Seen P r) req method allow
Allowed-skip P req method r allow h (sound, full, ascending) =
    (λ m k. Offered-Seen P req r m (sound m k), full_of, ascending)
  where
    full_of : (m : Bytes) → m ≢ method → Offered (Seen P r) req m → Memᴰ m allow
    full_of m ne (x, inl e, f) = absurd (h m ne (Fits-cast req m r x e f))
    full_of m ne (x, inr p, f) = full m ne (x, p, f)

pub Allowed-add :
    (P : Route → Type 0) (req : List Bytes) (method : Bytes) (r : Route) (allow : List Bytes)
    → matches r req ≡ true
    → Allowed P req method allow
    → Allowed (Seen P r) req method (add_method r.method allow)
Allowed-add P req method r allow h (sound, full, ascending) =
    (sound_of, full_of, add_method-Ascending r.method allow ascending)
  where
    sound_of : (m : Bytes) → Memᴰ m (add_method r.method allow) → Offered (Seen P r) req m
    sound_of m k = elim (add_method-only r.method allow m k) [
      | inl e ↦ (r, inl refl, (h, sym e))
      | inr q ↦ Offered-Seen P req r m (sound m q)
    ]

    full_of :
        (m : Bytes) → m ≢ method → Offered (Seen P r) req m → Memᴰ m (add_method r.method allow)
    full_of m ne (x, inl e, f) =
        subst (λ (t : Bytes). Memᴰ t (add_method r.method allow))
          (sym (ap (λ (y : Route). y.method) e) ∙ f.1) (add_method-has r.method allow)
    full_of m ne (x, inr p, f) = add_method-keeps r.method allow m (full m ne (x, p, f))
