-- ===== src/MockServer/Route/Specific.antt =====
-- `moreSpecific` orders the routes of one depth.
use auk.Base.{◌≡◌, true, false, List, [], ◌∷◌, arith, length, refl}
use auk.Base.Text.{Bytes}
use auk.MockServer.Route.{Segment, Route, pins_earlier, more_specific, matches}

pins_earlier_irrefl : (a : List Segment) → pins_earlier a a ≡ false
unfolding pins_earlier
pins_earlier_irrefl [] = refl
pins_earlier_irrefl (s ∷ a) = let rest = pins_earlier_irrefl a in ground arith

pins_earlier_trans :
    (a b c : List Segment)
    → length a ≡ length b
    → length b ≡ length c
    → pins_earlier a b ≡ true
    → pins_earlier b c ≡ true
    → pins_earlier a c ≡ true
unfolding pins_earlier
pins_earlier_trans [] b c h k p q = ground arith
pins_earlier_trans (s ∷ a) [] c h k p q = ground arith
pins_earlier_trans (s ∷ a) (t ∷ b) [] h k p q = ground arith
pins_earlier_trans (s ∷ a) (t ∷ b) (u ∷ c) h k p q =
    let rest = pins_earlier_trans a b c (omega (arith, h)) (omega (arith, k)) in
    ground (arith, p, q, rest)

pub more_specific_irrefl : (a : Route) → more_specific a a ≡ false
unfolding more_specific
more_specific_irrefl a = let same = pins_earlier_irrefl a.segments in ground arith

pub more_specific_trans :
    (a b c : Route)
    → length a.segments ≡ length b.segments
    → length b.segments ≡ length c.segments
    → more_specific a b ≡ true
    → more_specific b c ≡ true
    → more_specific a c ≡ true
unfolding more_specific
more_specific_trans a b c h k p q =
    let pins = pins_earlier_trans a.segments b.segments c.segments h k in ground arith

-- A route that matches has as many segments as the path.
pub matches-length :
    (r : Route) (req : List Bytes) → matches r req ≡ true → length r.segments ≡ length req
unfolding matches
matches-length r req h = ground arith
