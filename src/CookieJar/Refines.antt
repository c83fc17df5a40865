-- ===== src/CookieJar/Refines.antt =====
-- The jar is a function from workspaces and names to values, and its list says the same.
use auk.Base.{
  ◌≡◌, ◌∙◌, ap, refl, inl, inr, Bool, true, false, List, [], ◌∷◌, Option, none, some, if◌then◌else◌,
  Bool-cases,
}
use auk.Base.Text.{Bytes, bytes_eq}
use auk.Core.Model.{KeyValue}
use auk.Core.Vars.{Vars, get, set, delete, over}
use auk.Core.Vars.Laws.{
  get-set, get-delete, IsMap, set-IsMap, delete-IsMap, last_value, last_value-rows, over_assoc,
}
use auk.CookieJar.{
  Jar, empty_jar, update, set_cookies, raw_cookies, parse_some, capture, get_cookie, list_cookies,
  set_cookie, delete_cookie,
}

-- What is done to the jar; a capture comes with the cookies that the headers hold.
pub data Event : Type 0 where
  captured : Bytes → List KeyValue → Event
  put : Bytes → Bytes → Bytes → Event
  removed : Bytes → Bytes → Event

-- the value of the last cookie of a name
abbrev pub last_cookie : Bytes → List (Bytes × Bytes) → Option Bytes
last_cookie k [] = none
last_cookie k ((name, value) ∷ cookies) =
    over (if bytes_eq name k then some value else none) (last_cookie k cookies)

-- The specification: a function from workspaces and names to values.
abbrev pub Spec : Type 0
Spec = Bytes → Bytes → Option Bytes

module _ (equal_fold : Bytes → Bytes → Bool) (parse : List Bytes → List (Bytes × Bytes)) where
  abbrev pub apply : Event → Jar → Jar
  apply (captured w headers) jar = capture equal_fold parse w headers jar
  apply (put w k v) jar = set_cookie w k v jar
  apply (removed w k) jar = delete_cookie w k jar

  abbrev pub replay : List Event → Jar → Jar
  replay [] jar = jar
  replay (e ∷ es) jar = replay es (apply e jar)

  abbrev pub step : Event → Spec → Spec
  step (captured ws headers) f w k =
      if bytes_eq w ws
      then over (f w k) (last_cookie k (parse_some parse (raw_cookies equal_fold headers)))
      else f w k
  step (put ws j v) f w k =
      if bytes_eq w ws then (if bytes_eq j k then some v else f w k) else f w k
  step (removed ws j) f w k =
      if bytes_eq w ws then (if bytes_eq j k then none else f w k) else f w k

  abbrev pub steps : List Event → Spec → Spec
  steps [] f = f
  steps (e ∷ es) f = steps es (step e f)

get-set_cookies :
    (k : Bytes) (cookies : List (Bytes × Bytes)) (m : Vars)
    → get k (set_cookies cookies m) ≡ over (get k m) (last_cookie k cookies)
get-set_cookies k [] m = refl
get-set_cookies k ((name, value) ∷ cookies) m =
    get-set_cookies k cookies (set name value m)
    ∙ (ap (λ (o : Option Bytes). over o (last_cookie k cookies)) (get-set name k value m)
        ∙ settle (bytes_eq name k))
  where
    settle :
        (hit : Bool)
        → over (if hit then some value else get k m) (last_cookie k cookies)
          ≡ over (get k m) (over (if hit then some value else none) (last_cookie k cookies))
    settle true = over_assoc (get k m) (some value) (last_cookie k cookies)
    settle false = over_assoc (get k m) none (last_cookie k cookies)

set_cookies-IsMap :
    (cookies : List (Bytes × Bytes)) (m : Vars) → IsMap m → IsMap (set_cookies cookies m)
set_cookies-IsMap [] m h = h
set_cookies-IsMap ((name, value) ∷ cookies) m h =
    set_cookies-IsMap cookies (set name value m) (set-IsMap name value m h)

abbrev pub HasMaps : Jar → Type 0
HasMaps jar = (w : Bytes) → IsMap (jar w)

update-HasMaps :
    (ws : Bytes) (f : Vars → Vars) (jar : Jar)
    → HasMaps jar
    → ((m : Vars) → IsMap m → IsMap (f m))
    → HasMaps (update ws f jar)
update-HasMaps ws f jar h g w = elim (Bool-cases (bytes_eq w ws)) [
  | inl here ↦ rw here (g (jar w) (h w))
  | inr other ↦ rw other (h w)
]

module _ (equal_fold : Bytes → Bytes → Bool) (parse : List Bytes → List (Bytes × Bytes)) where
  apply-HasMaps : (e : Event) (jar : Jar) → HasMaps jar → HasMaps (apply equal_fold parse e jar)
  unfolding capture set_cookie delete_cookie
  apply-HasMaps (captured ws headers) jar h =
      let cookies = parse_some parse (raw_cookies equal_fold headers) in
      update-HasMaps ws (set_cookies cookies) jar h (set_cookies-IsMap cookies)
  apply-HasMaps (put ws k v) jar h = update-HasMaps ws (set k v) jar h (set-IsMap k v)
  apply-HasMaps (removed ws k) jar h = update-HasMaps ws (delete k) jar h (delete-IsMap k)

  replay-HasMaps :
      (es : List Event) (jar : Jar) → HasMaps jar → HasMaps (replay equal_fold parse es jar)
  replay-HasMaps [] jar h = h
  replay-HasMaps (e ∷ es) jar h =
      replay-HasMaps es (apply equal_fold parse e jar) (apply-HasMaps e jar h)

  view-apply :
      (e : Event) (jar : Jar) (f : Spec)
      → ((w k : Bytes) → get k (jar w) ≡ f w k)
      → (w k : Bytes) → get k (apply equal_fold parse e jar w) ≡ step equal_fold parse e f w k
  unfolding capture set_cookie delete_cookie
  view-apply (captured ws headers) jar f h w k =
      let cookies = parse_some parse (raw_cookies equal_fold headers) in
      elim (Bool-cases (bytes_eq w ws)) [
        | inl here ↦ rw here (
            get-set_cookies k cookies (jar w)
            ∙ ap (λ (o : Option Bytes). over o (last_cookie k cookies)) (h w k))
        | inr other ↦ rw other (h w k)
      ]
  view-apply (put ws j v) jar f h w k = elim (Bool-cases (bytes_eq w ws)) [
    | inl here ↦ rw here (
        get-set j k v (jar w)
        ∙ ap (λ (o : Option Bytes). if bytes_eq j k then some v else o) (h w k))
    | inr other ↦ rw other (h w k)
  ]
  view-apply (removed ws j) jar f h w k = elim (Bool-cases (bytes_eq w ws)) [
    | inl here ↦ rw here (
        get-delete j k (jar w)
        ∙ ap (λ (o : Option Bytes). if bytes_eq j k then none else o) (h w k))
    | inr other ↦ rw other (h w k)
  ]

  view-replay :
      (es : List Event) (jar : Jar) (f : Spec)
      → ((w k : Bytes) → get k (jar w) ≡ f w k)
      → (w k : Bytes) → get k (replay equal_fold parse es jar w) ≡ steps equal_fold parse es f w k
  view-replay [] jar f h = h
  view-replay (e ∷ es) jar f h =
      view-replay es (apply equal_fold parse e jar) (step equal_fold parse e f)
        (view-apply e jar f h)

-- After any captures, settings and deletions on a new jar, each cookie of each workspace has the value
-- that they make of an empty function from workspaces and names to values, and the list of a
-- workspace's cookies says the same. So no workspace sees another's, for any parser of headers.
pub jar_refines :
    (equal_fold : Bytes → Bytes → Bool) (parse : List Bytes → List (Bytes × Bytes))
    (es : List Event) (w k : Bytes)
    → (get_cookie w k (replay equal_fold parse es empty_jar)
        ≡ steps equal_fold parse es (λ _ _. none) w k)
      × (last_value k (list_cookies w (replay equal_fold parse es empty_jar))
          ≡ steps equal_fold parse es (λ _ _. none) w k)
unfolding get_cookie list_cookies get
jar_refines equal_fold parse es w k =
    let value = view-replay equal_fold parse es empty_jar (λ _ _. none) (λ w k. refl) w k in
    (
      value,
      last_value-rows k (replay equal_fold parse es empty_jar w)
            (replay-HasMaps equal_fold parse es empty_jar (λ w. tt) w)
          ∙ value,
    )
