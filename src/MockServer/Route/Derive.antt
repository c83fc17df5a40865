-- ===== src/MockServer/Route/Derive.antt =====
-- `DeriveRoutes`: one route for each request with a recorded response.
use auk.Base.{
  ◌≡◌, ◌⊎◌, ◌↔◌, ℕ, zero, suc, none, arith, ap, inl, inr, refl, true, List, [], ◌∷◌, Option, some,
  Bool-cases, Option-cases,
}
use mathlib.Core.Path.{subst}
use mathlib.Core.List.{Memᴰ}
use auk.Base.Int.{ℤ, pos, negsuc}
use auk.Base.Text.{Bytes}
use auk.Core.Model.{ProtocolKind, unset, http, graphql}
use auk.MockServer.Route.{
  Request, Route, mockable_protocol, recorded_status, insert_route, route_lt, route_of, add_route,
  derive_routes,
}

insert_route-has : (r : Route) (rs : List Route) → Memᴰ r (insert_route r rs)
unfolding insert_route
insert_route-has r [] = Memᴰ.head refl
insert_route-has r (s ∷ rs) = elim (Bool-cases (route_lt s r)) [
  | inl less ↦ rw less (Memᴰ.tail (insert_route-has r rs))
  | inr more ↦ rw more (Memᴰ.head refl)
]

insert_route-keeps :
    (r : Route) (rs : List Route) (x : Route) → Memᴰ x rs → Memᴰ x (insert_route r rs)
unfolding insert_route
insert_route-keeps r [] x h = Memᴰ.tail h
insert_route-keeps r (s ∷ rs) x h = elim (Bool-cases (route_lt s r)) [
  | inl less ↦
      rw less (elim h [
        | Memᴰ.head e ↦ Memᴰ.head e
        | Memᴰ.tail k ↦ Memᴰ.tail (insert_route-keeps r rs x k)
      ])
  | inr more ↦ rw more (Memᴰ.tail h)
]

insert_route-only :
    (r : Route) (rs : List Route) (x : Route) → Memᴰ x (insert_route r rs) → (x ≡ r) ⊎ Memᴰ x rs
unfolding insert_route
insert_route-only r [] x (Memᴰ.head e) = inl e
insert_route-only r [] x (Memᴰ.tail h) = inr h
insert_route-only r (s ∷ rs) x h = elim (Bool-cases (route_lt s r)) [
  | inl less ↦ elim (rw less at h) [
    | Memᴰ.head e ↦ inr (Memᴰ.head e)
    | Memᴰ.tail k ↦ elim (insert_route-only r rs x k) [ inl e ↦ inl e | inr q ↦ inr (Memᴰ.tail q) ]
  ]
  | inr more ↦ elim (rw more at h) [ Memᴰ.head e ↦ inl e | Memᴰ.tail k ↦ inr k ]
]

-- HTTP, GraphQL, or no protocol at all, which stands for HTTP
abbrev pub IsReplayable : ProtocolKind → Type 0
IsReplayable p = (p ≡ unset) ⊎ ((p ≡ http) ⊎ (p ≡ graphql))

mockable_protocol_iff : (p : ProtocolKind) → (mockable_protocol p ≡ true) ↔ IsReplayable p
unfolding mockable_protocol
mockable_protocol_iff p = ground arith

recorded_status_iff :
    (o : Option ℤ) (status : ℤ)
    → (recorded_status o ≡ some status) ↔ ((o ≡ some status) × ((n : ℕ) × (status ≡ pos (suc n))))
recorded_status_iff none status = ((λ h. cc h), (λ h. cc (h.0)))
recorded_status_iff (some (pos zero)) status = ((λ h. cc h), (λ h. cc (h.0, h.1.1)))
recorded_status_iff (some (pos (suc n))) status = ((λ h. (h, (n, cc h))), (λ h. h.0))
recorded_status_iff (some (negsuc n)) status = ((λ h. cc h), (λ h. cc (h.0, h.1.1)))

module _ (unescape : Bytes → Option Bytes) where
  -- what the code tests
  abbrev Tested : Request → Route → Type 0
  Tested req r =
      (status : ℤ) × (mockable_protocol req.protocol ≡ true)
      × (recorded_status req.recorded ≡ some status)
      × (r ≡ route_of unescape req status)

  -- The route is that of the request, whose protocol the server can replay and whose last response has
  -- a positive status, which is the route's.
  abbrev pub Replays : Request → Route → Type 0
  Replays req r =
      (n : ℕ) × IsReplayable req.protocol
      × (req.recorded ≡ some (pos (suc n)))
      × (r.status ≡ pos (suc n))
      × (r.request_id ≡ req.id)
      × (r ≡ route_of unescape req (pos (suc n)))

  Tested-Replays : (req : Request) (r : Route) → Tested req r ↔ Replays req r
  Tested-Replays req r = (
    (λ (status, on, here, e).
        let (kept, (n, is)) = (recorded_status_iff req.recorded status).0 here in
        let same : r ≡ route_of unescape req (pos (suc n)) = rw (← is) e in
        (
          n,
          (mockable_protocol_iff req.protocol).0 on,
          rw (← is) kept,
          ap (λ (t : Route). t.status) same,
          ap (λ (t : Route). t.request_id) same,
          same,
        )),
    (λ (n, on, kept, _, _, e). (
      pos (suc n),
      (mockable_protocol_iff req.protocol).1 on,
      (recorded_status_iff req.recorded (pos (suc n))).1 (kept, (n, refl)),
      e,
    )),
  )

  add_route-keeps :
      (req : Request) (rs : List Route) (r : Route)
      → Tested req r ⊎ Memᴰ r rs
      → Memᴰ r (add_route unescape req rs)
  add_route-keeps req rs r (inl (status, on, here, e)) =
      rw (on, here, e) (insert_route-has (route_of unescape req status) rs)
  add_route-keeps req rs r (inr h) = elim (Bool-cases (mockable_protocol req.protocol)) [
    | inr off ↦ rw off h
    | inl on ↦ elim (Option-cases (recorded_status req.recorded)) [
      | inl none_yet ↦ rw (on, none_yet) h
      | inr (status, here) ↦
          rw (on, here) (insert_route-keeps (route_of unescape req status) rs r h)
    ]
  ]

  add_route-only :
      (req : Request) (rs : List Route) (r : Route)
      → Memᴰ r (add_route unescape req rs)
      → Tested req r ⊎ Memᴰ r rs
  add_route-only req rs r h = elim (Bool-cases (mockable_protocol req.protocol)) [
    | inr off ↦ inr (rw off at h)
    | inl on ↦ elim (Option-cases (recorded_status req.recorded)) [
      | inl none_yet ↦ inr (rw (on, none_yet) at h)
      | inr (status, here) ↦
          elim (insert_route-only (route_of unescape req status) rs r (rw (on, here) at h)) [
            | inl e ↦ inl (status, on, here, e)
            | inr k ↦ inr k
          ]
    ]
  ]

  derive_routes-Tested :
      (reqs : List Request) (r : Route)
      → Memᴰ r (derive_routes unescape reqs) ↔ ((req : Request) × Memᴰ req reqs × Tested req r)
  unfolding derive_routes
  derive_routes-Tested reqs r = (only reqs, full reqs)
    where
      only :
          (reqs : List Request)
          → Memᴰ r (derive_routes unescape reqs)
          → (req : Request) × Memᴰ req reqs × Tested req r
      only [] h = elim h [ ]
      only (q ∷ reqs) h = elim (add_route-only q (derive_routes unescape reqs) r h) [
        | inl tested ↦ (q, Memᴰ.head refl, tested)
        | inr k ↦ let (req, m, tested) = only reqs k in (req, Memᴰ.tail m, tested)
      ]

      full :
          (reqs : List Request)
          → ((req : Request) × Memᴰ req reqs × Tested req r)
          → Memᴰ r (derive_routes unescape reqs)
      full [] (req, m, tested) = elim m [ ]
      full (q ∷ reqs) (req, Memᴰ.head e, tested) =
          add_route-keeps q (derive_routes unescape reqs) r
            (inl (subst (λ (t : Request). Tested t r) e tested))
      full (q ∷ reqs) (req, Memᴰ.tail m, tested) =
          add_route-keeps q (derive_routes unescape reqs) r (inr (full reqs (req, m, tested)))

  -- The routes are exactly those of the requests by HTTP, by GraphQL or of no protocol, whose last response
  -- is recorded with a positive status: each has that status and its request's id.
  pub derive_routes_iff :
      (reqs : List Request) (r : Route)
      → Memᴰ r (derive_routes unescape reqs) ↔ ((req : Request) × Memᴰ req reqs × Replays req r)
  derive_routes_iff reqs r =
      let (to, from) = derive_routes-Tested reqs r in
      (
        (λ h. let (req, m, tested) = to h in (req, m, (Tested-Replays req r).0 tested)),
        (λ (req, m, replays). from (req, m, (Tested-Replays req r).1 replays)),
      )
