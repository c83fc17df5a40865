-- ===== src/MockServer/Route/Match.antt =====
-- `Match`: the best route of the method, or else the methods that the path has.
use auk.Base.{
  ◌≡◌, ◌≢◌, ◌⊎◌, ◌∙◌, ◌↔◌, sym, inl, inr, refl, List, [], ◌∷◌, Option, none, some, Bool-cases,
}
use mathlib.Core.List.{Memᴰ}
use auk.Base.Text.{Bytes, bytes_eq, bytes_eq_iff, to_upper}
use auk.MockServer.Route.{Route, Search, matches, better, consider, search, answer, match_route}
use auk.MockServer.Path.{split_path}
use auk.MockServer.Route.Best.{
  IsBest, NoneFits, Chosen, Seen, Chosen-skip, Chosen-take, Chosen-keep,
}
use auk.MockServer.Route.Covers.{HasPath, MoreSpecific, matches_iff, more_specific_iff}
use auk.MockServer.Route.Allow.{Ascending, Offered, Allowed, Allowed-skip, Allowed-add}

-- What the loop knows of the routes with `P`.
abbrev Knows : (Route → Type 0) → List Bytes → Bytes → Search → Type 0
Knows P req method found = Chosen P req method found.best × Allowed P req method found.allow

consider-Knows :
    (P : Route → Type 0) (req : List Bytes) (method : Bytes) (r : Route) (found : Search)
    → Knows P req method found
    → Knows (Seen P r) req method (consider req method r found)
unfolding consider
consider-Knows P req method r found (chosen, allowed) = elim (Bool-cases (matches r req)) [
  | inr off ↦ rw off (
    Chosen-skip P req method r found.best (λ f. cc (f.0, off)) chosen,
    Allowed-skip P req method r found.allow (λ m ne f. cc (f.0, off)) allowed,
  )
  | inl on ↦ elim (Bool-cases (bytes_eq r.method method)) [
    | inr other ↦
        rw (on, other)
          (
            Chosen-skip P req method r found.best
                (λ f. cc ((bytes_eq_iff r.method method).1 f.1, other)) chosen,
            Allowed-add P req method r found.allow on allowed,
          )
    | inl same ↦
        let here = (bytes_eq_iff r.method method).0 same in
        let skip =
          Allowed-skip P req method r found.allow (λ m ne f. ne (sym f.1 ∙ here)) allowed in
        elim (Bool-cases (better r found.best)) [
          | inl up ↦
              rw (on, same, up) (Chosen-take P req method r found.best (on, here) up chosen, skip)
          | inr down ↦ rw (on, same, down) (Chosen-keep P req method r found.best down chosen, skip)
        ]
  ]
]

Knows-map :
    (P Q : Route → Type 0) (req : List Bytes) (method : Bytes) (found : Search)
    → ((x : Route) → P x → Q x)
    → ((x : Route) → Q x → P x)
    → Knows P req method found
    → Knows Q req method found
Knows-map P Q req method found to from (chosen, (sound, full, ascending)) = (
  chosen_map found.best chosen,
  (
    (λ m k. let (x, p, f) = sound m k in (x, to x p, f)),
    (λ m ne (x, q, f). full m ne (x, from x q, f)),
    ascending,
  ),
)
  where
    chosen_map : (o : Option Route) → Chosen P req method o → Chosen Q req method o
    chosen_map none k = λ x q f. k x (from x q) f
    chosen_map (some best) (p, fits, top) = (to best p, fits, λ x q f. top x (from x q) f)

abbrev Among : List Route → (Route → Type 0) → Route → Type 0
Among routes P x = Memᴰ x routes ⊎ P x

search-Knows :
    (P : Route → Type 0) (req : List Bytes) (method : Bytes) (routes : List Route) (found : Search)
    → Knows P req method found
    → Knows (Among routes P) req method (search req method routes found)
unfolding search
search-Knows P req method [] found k =
    Knows-map P (Among [] P) req method found (λ x p. inr p) back k
  where
    back : (x : Route) → Among [] P x → P x
    back x (inl m) = elim m [ ]
    back x (inr p) = p
search-Knows P req method (r ∷ routes) found k =
    Knows-map (Among routes (Seen P r)) (Among (r ∷ routes) P) req method
      (search req method routes (consider req method r found)) there back
      (search-Knows (Seen P r) req method routes (consider req method r found)
        (consider-Knows P req method r found k))
  where
    there : (x : Route) → Among routes (Seen P r) x → Among (r ∷ routes) P x
    there x (inl m) = inl (Memᴰ.tail m)
    there x (inr (inl e)) = inl (Memᴰ.head e)
    there x (inr (inr p)) = inr p

    back : (x : Route) → Among (r ∷ routes) P x → Among routes (Seen P r) x
    back x (inl (Memᴰ.head e)) = inr (inl e)
    back x (inl (Memᴰ.tail m)) = inl m
    back x (inr p) = inr (inr p)

-- the answer that the loop's knowledge makes
abbrev Found : List Route → List Bytes → Bytes → Option Route × List Bytes → Type 0
Found routes req method (some best, allow) =
    IsBest (λ r. Memᴰ r routes) req method best × (allow ≡ [])
Found routes req method (none, allow) =
    NoneFits (λ r. Memᴰ r routes) req method
    × ((m : Bytes) → Memᴰ m allow ↔ Offered (λ r. Memᴰ r routes) req m)
    × Ascending allow

answer-Found :
    (routes : List Route) (req : List Bytes) (method : Bytes) (best : Option Route)
    (allow : List Bytes)
    → Knows (λ r. Memᴰ r routes) req method (record { best = best; allow = allow })
    → Found routes req method (answer (record { best = best; allow = allow }))
answer-Found routes req method (some best) allow (chosen, _) = (chosen, refl)
answer-Found routes req method none allow (chosen, (sound, full, ascending)) =
    (chosen, (λ m. (sound m, λ o. full m (differs m o) o)), ascending)
  where
    differs : (m : Bytes) → Offered (λ r. Memᴰ r routes) req m → m ≢ method
    differs m (r, k, (on, e)) same = chosen r k (on, e ∙ same)

abbrev no_search : Search
no_search = record { best = none; allow = [] }

no_search-Knows : (req : List Bytes) (method : Bytes) → Knows (λ _. ⊥) req method no_search
no_search-Knows req method = ((λ x p f. p), ((λ m k. elim k [ ]), (λ m ne o. absurd o.1), tt))

only_among : (routes : List Route) (r : Route) → Among routes (λ _. ⊥) r → Memᴰ r routes
only_among routes r (inl m) = m
only_among routes r (inr p) = absurd p

match_route-Found :
    (routes : List Route) (method path : Bytes)
    → Found routes (split_path path) (to_upper method) (match_route routes method path)
unfolding match_route
match_route-Found routes method path =
    let req = split_path path in
    let found = search req (to_upper method) routes no_search in
    answer-Found routes req (to_upper method) found.best found.allow (
      Knows-map (Among routes (λ _. ⊥)) (λ r. Memᴰ r routes) req (to_upper method) found
        (λ r. only_among routes r) (λ r m. inl m)
        (search-Knows (λ _. ⊥) req (to_upper method) routes no_search
          (no_search-Knows req (to_upper method))))

-- one of the routes that have the path and the method, and none of them is more specific
pub record IsChosen (routes : List Route) (req : List Bytes) (method : Bytes) (best : Route)
    : Type 0 where
  pub is_route : Memᴰ best routes
  pub has_path : HasPath best.segments req
  pub has_method : best.method ≡ method
  pub first :
      (r : Route)
      → Memᴰ r routes
      → HasPath r.segments req
      → r.method ≡ method
      → ¬ MoreSpecific r best

-- one of the routes has the path and this method
abbrev pub Offers : List Route → List Bytes → Bytes → Type 0
Offers routes req m = (r : Route) × Memᴰ r routes × HasPath r.segments req × (r.method ≡ m)

-- The answer that the routes call for.
abbrev pub Answers : List Route → List Bytes → Bytes → Option Route × List Bytes → Type 0
Answers routes req method (some best, allow) = IsChosen routes req method best × (allow ≡ [])
Answers routes req method (none, allow) =
    (¬ Offers routes req method)
    × ((m : Bytes) → Memᴰ m allow ↔ Offers routes req m)
    × Ascending allow

Found-Answers :
    (routes : List Route) (req : List Bytes) (method : Bytes) (o : Option Route × List Bytes)
    → Found routes req method o
    → Answers routes req method o
Found-Answers routes req method (some best, allow) ((here, fits, top), e) = (
  record {
    is_route = here;
    has_path = (matches_iff best req).0 fits.0;
    has_method = fits.1;
    first = λ r m has same above.
        cc (top r m ((matches_iff r req).1 has, same), (more_specific_iff r best).1 above);
  },
  e,
)
Found-Answers routes req method (none, allow) (nothing, offers, ascending) = (
  (λ (r, m, has, same). nothing r m ((matches_iff r req).1 has, same)),
  (λ m. (
    (λ k. let (r, here, f) = (offers m).0 k in (r, here, (matches_iff r req).0 f.0, f.1)),
    (λ (r, here, has, same). (offers m).1 (r, here, ((matches_iff r req).1 has, same))),
  )),
  ascending,
)

-- Match finds the best route, or tells what the path offers. A route has the path where it has as many
-- segments, each a wildcard or the path's own; it is more specific where it has fewer wildcards, or as
-- many and, where the two first differ in having one, a literal. Match answers a route that has the path and
-- the method, with no more specific one among those that have both, or, exactly where there is none,
-- lists in order and without repetition the methods of the routes that have the path.
pub match_route-Answers :
    (routes : List Route) (method path : Bytes)
    → Answers routes (split_path path) (to_upper method) (match_route routes method path)
match_route-Answers routes method path =
    Found-Answers routes (split_path path) (to_upper method) (match_route routes method path)
      (match_route-Found routes method path)
