-- ===== src/MockServer/Route/Covers.antt =====
-- What `matches` and `moreSpecific` decide, segment by segment.
use auk.Base.{
  ◌≡◌, ◌⊎◌, ◌<◌, ◌↔◌, inl, inr, refl, Bool, true, false, List, [], ◌∷◌, arith, ltb, ◌==◌,
  Bool-cases, length, if◌then◌else◌,
}
use auk.Base.Text.{Bytes, bytes_eq, bytes_eq_iff}
use auk.MockServer.Route.{Segment, Route, covers, matches, pins_earlier, more_specific}

-- As many segments as the path has, each a wildcard or the path's own.
abbrev pub HasPath : List Segment → List Bytes → Type 0
HasPath [] [] = Unit
HasPath [] (x ∷ req) = ⊥
HasPath (s ∷ segs) [] = ⊥
HasPath (s ∷ segs) (x ∷ req) = ((s.wildcard ≡ true) ⊎ (s.lit ≡ x)) × HasPath segs req

-- Where the two first differ in having a wildcard, it is the other that has it.
abbrev pub PinsEarlier : List Segment → List Segment → Type 0
PinsEarlier [] b = ⊥
PinsEarlier (s ∷ a) [] = ⊥
PinsEarlier (s ∷ a) (t ∷ b) =
    ((s.wildcard ≡ false) × (t.wildcard ≡ true)) ⊎ ((s.wildcard ≡ t.wildcard) × PinsEarlier a b)

-- Fewer wildcards; with as many, a literal where the other has its wildcard earlier.
abbrev pub MoreSpecific : Route → Route → Type 0
MoreSpecific a b =
    (a.wildcards < b.wildcards) ⊎ ((a.wildcards ≡ b.wildcards) × PinsEarlier a.segments b.segments)

covers-HasPath :
    (segs : List Segment) (req : List Bytes)
    → length segs ≡ length req
    → covers segs req ≡ true
    → HasPath segs req
unfolding covers
covers-HasPath [] [] l h = tt
covers-HasPath [] (x ∷ req) l h = absurd (omega (arith, l))
covers-HasPath (s ∷ segs) [] l h = cc h
covers-HasPath (s ∷ segs) (x ∷ req) l h =
    let rest = covers-HasPath segs req (omega (arith, l)) in
    elim (Bool-cases s.wildcard) [
      | inl any ↦ (inl any, rest (rw any at h))
      | inr fixed ↦ elim (Bool-cases (bytes_eq s.lit x)) [
        | inl same ↦ (inr ((bytes_eq_iff s.lit x).0 same), rest (rw (fixed, same) at h))
        | inr other ↦ cc (rw (fixed, other) at h)
      ]
    ]

HasPath-covers :
    (segs : List Segment) (req : List Bytes)
    → HasPath segs req
    → (length segs ≡ length req) × (covers segs req ≡ true)
unfolding covers
HasPath-covers [] [] h = (refl, refl)
HasPath-covers [] (x ∷ req) h = absurd h
HasPath-covers (s ∷ segs) [] h = absurd h
HasPath-covers (s ∷ segs) (x ∷ req) (here, h) =
    let (same, rest) = HasPath-covers segs req h in
    (
      omega (arith, same),
      elim here [
        | inl any ↦ rw any rest
        | inr own ↦ elim (Bool-cases s.wildcard) [
          | inl any ↦ rw any rest
          | inr fixed ↦ rw (fixed, (bytes_eq_iff s.lit x).1 own) rest
        ]
      ],
    )

pub matches_iff : (r : Route) (req : List Bytes) → (matches r req ≡ true) ↔ HasPath r.segments req
unfolding matches
matches_iff r req = (
  (λ h. elim (Bool-cases (length r.segments == length req)) [
    | inl same ↦ covers-HasPath r.segments req (ground (arith, same)) (rw same at h)
    | inr other ↦ cc (rw other at h)
  ]),
  (λ h.
      let (same, on) = HasPath-covers r.segments req h in
      let eq : (length r.segments == length req) ≡ true = ground (arith, same) in rw eq on),
)

pins_earlier_iff : (a b : List Segment) → (pins_earlier a b ≡ true) ↔ PinsEarlier a b
unfolding pins_earlier
pins_earlier_iff [] b = ((λ h. cc h), (λ h. absurd h))
pins_earlier_iff (s ∷ a) [] = ((λ h. cc h), (λ h. absurd h))
pins_earlier_iff (s ∷ a) (t ∷ b) =
    let (to, from) = pins_earlier_iff a b in
    (there s.wildcard t.wildcard to, back s.wildcard t.wildcard from)
  where
    there :
        (v w : Bool)
        → (pins_earlier a b ≡ true → PinsEarlier a b)
        → (if v
            then (if w then pins_earlier a b else false)
            else if w
            then true
            else pins_earlier a b)
          ≡ true
        → ((v ≡ false) × (w ≡ true)) ⊎ ((v ≡ w) × PinsEarlier a b)
    there true true to h = inr (refl, to h)
    there true false to h = cc h
    there false true to h = inl (refl, refl)
    there false false to h = inr (refl, to h)

    back :
        (v w : Bool)
        → (PinsEarlier a b → pins_earlier a b ≡ true)
        → ((v ≡ false) × (w ≡ true)) ⊎ ((v ≡ w) × PinsEarlier a b)
        → (if v
            then (if w then pins_earlier a b else false)
            else if w
            then true
            else pins_earlier a b)
          ≡ true
    back true true from (inl h) = cc (h.0)
    back true true from (inr h) = from h.1
    back true false from (inl h) = cc (h.0)
    back true false from (inr h) = cc (h.0)
    back false true from h = refl
    back false false from (inl h) = cc (h.1)
    back false false from (inr h) = from h.1

pub more_specific_iff : (a b : Route) → (more_specific a b ≡ true) ↔ MoreSpecific a b
unfolding more_specific
more_specific_iff a b =
    let (to, from) = pins_earlier_iff a.segments b.segments in
    (
      (λ h. elim (Bool-cases (a.wildcards == b.wildcards)) [
        | inl same ↦ inr (ground (arith, same), to (rw same at h))
        | inr other ↦
            let less : ltb a.wildcards b.wildcards ≡ true = rw other at h in
            inl (ground (arith, less))
      ]),
      (λ h. elim h [
        | inl less ↦
            let other : (a.wildcards == b.wildcards) ≡ false = ground (arith, less) in
            rw other (ground (arith, less))
        | inr (same, pins) ↦
            let eq : (a.wildcards == b.wildcards) ≡ true = ground (arith, same) in rw eq (from pins)
      ]),
    )
