-- ===== src/MockServer/Route.antt =====
-- internal/mockserver/route.go: the routes of the mock server and the choice among them.
-- `url.PathUnescape` is a parameter. `strings.ToUpper` meets methods, which are ASCII text.
pub mod Specific
pub mod Best
pub mod Allow
pub mod Match
pub mod Covers
pub mod Derive
mod Tests
use auk.Base.{
  ℕ, zero, suc, ◌+◌, ◌-◌, Bool, true, false, not, ◌&&◌, ◌||◌, List, [], ◌∷◌, ◌++◌, Option, none,
  some, ltb, leb, ◌==◌, if◌then◌else◌, length,
}
use auk.Base.Int.{ℤ, pos, negsuc}
use auk.Base.Text.{
  Bytes, codes, bytes_eq, bytes_lt, has_prefix, strip_prefix, trim_prefix, cut_byte, split,
  to_upper,
}
use auk.Base.Text.Space.{trim_space}
use auk.Core.Model.{ProtocolKind, unset, http, graphql}
use auk.Core.PathParams.{path_param_name}
use auk.MockServer.Path.{is_empty, normalize_path, extract_path, split_path}

pub record Segment : Type 0 where
  pub wildcard : Bool
  pub lit : Bytes

pub record Route : Type 0 where
  pub method : Bytes
  pub path : Bytes
  pub request_id : Bytes
  pub request_name : Bytes
  pub status : ℤ
  pub segments : List Segment
  pub wildcards : ℕ

-- what `DeriveRoutes` reads of a saved request, with the status of its last response
pub record Request : Type 0 where
  pub id : Bytes
  pub name : Bytes
  pub protocol : ProtocolKind
  pub method : Bytes
  pub url : Bytes
  pub recorded : Option ℤ

unfoldable pub mockable_protocol : ProtocolKind → Bool
mockable_protocol unset = true
mockable_protocol http = true
mockable_protocol graphql = true
mockable_protocol _ = false

abbrev default_method : ProtocolKind → Bytes
default_method graphql = codes "POST"
default_method _ = codes "GET"

unfoldable pub normalize_method : Bytes → ProtocolKind → Bytes
normalize_method method protocol =
    let m = to_upper (trim_space method) in if is_empty m then default_method protocol else m

-- `templateRef.MatchString`: "${", then one or more bytes other than "}", then "}"
unfoldable pub has_template_ref : Bytes → Bool
has_template_ref [] = false
has_template_ref (c ∷ s) =
    let later = has_template_ref s in
    elim (strip_prefix (codes "${") (c ∷ s)) [
      | none ↦ later
      | some rest ↦ elim (cut_byte b'}' rest) [
        | none ↦ later
        | some (name, _) ↦ if is_empty name then later else true
      ]
    ]

abbrev is_param : Bytes → Bool
is_param part = elim (path_param_name part) [ none ↦ false | some _ ↦ true ]

module _ (unescape : Bytes → Option Bytes) where
  abbrev pub compile_segment : Bytes → Segment
  compile_segment part =
      if has_template_ref part || is_param part
      then record { wildcard = true; lit = [] }
      else elim (unescape part) [
        | some decoded ↦ record { wildcard = false; lit = decoded }
        | none ↦ record { wildcard = false; lit = part }
      ]

  abbrev pub compile_parts : List Bytes → List Segment
  compile_parts [] = []
  compile_parts (part ∷ parts) = compile_segment part ∷ compile_parts parts

  unfoldable pub compile_segments : Bytes → List Segment
  unfolding split_path has_template_ref
  compile_segments path = compile_parts (split_path path)

abbrev pub count_wildcards : List Segment → ℕ
count_wildcards [] = 0
count_wildcards (s ∷ segs) = if s.wildcard then suc (count_wildcards segs) else count_wildcards segs

-- the loop of `matches`
unfoldable pub covers : List Segment → List Bytes → Bool
covers [] req = true
covers (s ∷ segs) [] = false
covers (s ∷ segs) (x ∷ req) =
    let rest = covers segs req in
    if s.wildcard then rest else if bytes_eq s.lit x then rest else false

unfoldable pub matches : Route → List Bytes → Bool
unfolding covers bytes_eq
matches r req = if length r.segments == length req then covers r.segments req else false

-- the loop of `moreSpecific`
unfoldable pub pins_earlier : List Segment → List Segment → Bool
pins_earlier [] _ = false
pins_earlier (s ∷ a) [] = false
pins_earlier (s ∷ a) (t ∷ b) =
    let later = pins_earlier a b in
    if s.wildcard then (if t.wildcard then later else false) else if t.wildcard then true else later

unfoldable pub more_specific : Route → Route → Bool
unfolding pins_earlier
more_specific a b =
    if a.wildcards == b.wildcards
    then pins_earlier a.segments b.segments
    else ltb a.wildcards b.wildcards

-- `best` and `found`, and `allowSet`, which is kept as `sort.Strings` leaves it
pub record Search : Type 0 where
  pub best : Option Route
  pub allow : List Bytes

unfoldable pub add_method : Bytes → List Bytes → List Bytes
add_method m [] = m ∷ []
add_method m (x ∷ xs) =
    if bytes_eq m x then x ∷ xs else if bytes_lt m x then m ∷ x ∷ xs else x ∷ add_method m xs

abbrev pub better : Route → Option Route → Bool
better r none = true
better r (some best) = more_specific r best

-- one round of the loop of `Match`
unfoldable pub consider : List Bytes → Bytes → Route → Search → Search
unfolding matches bytes_eq more_specific add_method
consider req method r found =
    if not (matches r req)
    then found
    else if not (bytes_eq r.method method)
    then record found { allow = add_method r.method found.allow }
    else if better r found.best
    then record found { best = some r }
    else found

unfoldable pub search : List Bytes → Bytes → List Route → Search → Search
unfolding consider
search req method [] found = found
search req method (r ∷ routes) found = search req method routes (consider req method r found)

abbrev pub answer : Search → Option Route × List Bytes
answer found = elim found.best [ none ↦ (none, found.allow) | some r ↦ (some r, []) ]

-- `Match`
unfoldable pub match_route : List Route → Bytes → Bytes → Option Route × List Bytes
unfolding search split_path
match_route routes method path =
    answer (search (split_path path) (to_upper method) routes (record { best = none; allow = [] }))

unfoldable pub route_lt : Route → Route → Bool
route_lt a b =
    if not (bytes_eq a.path b.path)
    then bytes_lt a.path b.path
    else if not (bytes_eq a.method b.method)
    then bytes_lt a.method b.method
    else bytes_lt a.request_id b.request_id

unfoldable pub insert_route : Route → List Route → List Route
unfolding route_lt
insert_route r [] = r ∷ []
insert_route r (s ∷ routes) = if route_lt s r then s ∷ insert_route r routes else r ∷ s ∷ routes

-- `resp.Status <= 0`
abbrev pub recorded_status : Option ℤ → Option ℤ
recorded_status none = none
recorded_status (some (pos zero)) = none
recorded_status (some (pos (suc n))) = some (pos (suc n))
recorded_status (some (negsuc n)) = none

module _ (unescape : Bytes → Option Bytes) where
  abbrev pub route_of : Request → ℤ → Route
  route_of r status =
      let path = extract_path r.url in
      let segs = compile_segments unescape path in
      record {
        method = normalize_method r.method r.protocol;
        path = path;
        request_id = r.id;
        request_name = r.name;
        status = status;
        segments = segs;
        wildcards = count_wildcards segs;
      }

  abbrev pub add_route : Request → List Route → List Route
  add_route r routes =
      if mockable_protocol r.protocol
      then elim (recorded_status r.recorded) [
        | none ↦ routes
        | some status ↦ insert_route (route_of r status) routes
      ]
      else routes

  -- `DeriveRoutes`, of a store with a workspace
  unfoldable pub derive_routes : List Request → List Route
  unfolding mockable_protocol normalize_method extract_path compile_segments insert_route
  derive_routes [] = []
  derive_routes (r ∷ requests) = add_route r (derive_routes requests)
