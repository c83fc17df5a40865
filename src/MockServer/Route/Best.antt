-- ===== src/MockServer/Route/Best.antt =====
-- The best route so far: of the path and the method, with none more specific.
use auk.Base.{◌≡◌, ◌⊎◌, ◌∙◌, sym, inl, inr, refl, true, false, List, Option, none, some, Bool-cases}
use mathlib.Core.Path.{subst}
use auk.Base.Text.{Bytes}
use auk.MockServer.Route.{Route, matches, more_specific, better}
use auk.MockServer.Route.Specific.{more_specific_irrefl, more_specific_trans, matches-length}

-- The route is of the path and the method.
abbrev pub Fits : List Bytes → Bytes → Route → Type 0
Fits req method r = (matches r req ≡ true) × (r.method ≡ method)

-- Among the routes with `P` that fit, the route is one, and none of them is more specific.
abbrev pub IsBest : (Route → Type 0) → List Bytes → Bytes → Route → Type 0
IsBest P req method best =
    P best
    × Fits req method best
    × ((r : Route) → P r → Fits req method r → more_specific r best ≡ false)

abbrev pub NoneFits : (Route → Type 0) → List Bytes → Bytes → Type 0
NoneFits P req method = (r : Route) → P r → ¬ Fits req method r

abbrev pub Chosen : (Route → Type 0) → List Bytes → Bytes → Option Route → Type 0
Chosen P req method none = NoneFits P req method
Chosen P req method (some best) = IsBest P req method best

-- What `consider` makes of the best route so far.
abbrev pub Seen : (Route → Type 0) → Route → Route → Type 0
Seen P r x = (x ≡ r) ⊎ P x

pub Fits-cast :
    (req : List Bytes) (method : Bytes) (r x : Route)
    → x ≡ r
    → Fits req method x
    → Fits req method r
Fits-cast req method r x e fits = subst (Fits req method) e fits

pub Chosen-skip :
    (P : Route → Type 0) (req : List Bytes) (method : Bytes) (r : Route) (o : Option Route)
    → ¬ Fits req method r
    → Chosen P req method o
    → Chosen (Seen P r) req method o
Chosen-skip P req method r none h k = none_of
  where
    none_of : NoneFits (Seen P r) req method
    none_of x (inl e) f = h (Fits-cast req method r x e f)
    none_of x (inr p) f = k x p f
Chosen-skip P req method r (some best) h (p, fits, top) = (inr p, fits, top_of)
  where
    top_of : (x : Route) → Seen P r x → Fits req method x → more_specific x best ≡ false
    top_of x (inl e) f = absurd (h (Fits-cast req method r x e f))
    top_of x (inr q) f = top x q f

-- What is more specific than the taken route is more specific than the one before.
Chosen-above :
    (P : Route → Type 0) (req : List Bytes) (method : Bytes) (r : Route) (o : Option Route)
    → Fits req method r
    → better r o ≡ true
    → Chosen P req method o
    → (x : Route) → P x
    → Fits req method x
    → more_specific x r ≡ false
Chosen-above P req method r none f b k x q fx = absurd (k x q fx)
Chosen-above P req method r (some best) f b (p, fb, top) x q fx =
    let no = top x q fx in
    let lx = matches-length x req fx.0 in
    let lr = matches-length r req f.0 in
    let lb = matches-length best req fb.0 in
    let through = more_specific_trans x r best (lx ∙ sym lr) (lr ∙ sym lb) in
    elim (Bool-cases (more_specific x r)) [ inr off ↦ off | inl on ↦ cc (through on b, no) ]

-- A more specific route takes the place of the best one.
pub Chosen-take :
    (P : Route → Type 0) (req : List Bytes) (method : Bytes) (r : Route) (o : Option Route)
    → Fits req method r
    → better r o ≡ true
    → Chosen P req method o
    → Chosen (Seen P r) req method (some r)
Chosen-take P req method r o f b k = (inl refl, f, top_of)
  where
    top_of : (x : Route) → Seen P r x → Fits req method x → more_specific x r ≡ false
    top_of x (inl e) fx = rw e (more_specific_irrefl r)
    top_of x (inr q) fx = Chosen-above P req method r o f b k x q fx

pub Chosen-keep :
    (P : Route → Type 0) (req : List Bytes) (method : Bytes) (r : Route) (o : Option Route)
    → better r o ≡ false
    → Chosen P req method o
    → Chosen (Seen P r) req method o
Chosen-keep P req method r none b k = cc
Chosen-keep P req method r (some best) b (p, fits, top) = (inr p, fits, top_of)
  where
    top_of : (x : Route) → Seen P r x → Fits req method x → more_specific x best ≡ false
    top_of x (inl e) f = rw e b
    top_of x (inr q) f = top x q f
