-- ===== src/Storage/Heal/Keys.antt =====
-- What one pass of `healGroup` leaves: valid keys, in strictly increasing order.
use auk.Base.{
  ◌≡◌, ◌≢◌, ◌↔◌, refl, ap, true, false, ◌&&◌, List, [], ◌∷◌, some, arith, ltb, map, Bool-cases, inl,
  inr, all, and-eq-true,
}
use auk.Base.Text.{Bytes, bytes_lt}
use auk.Storage.OrderKey.{digit_val}
use auk.Storage.OrderKey.Digits.{digit_val_zero}
use auk.Storage.OrderKey.Bounds.{IsDigits, IsKey, Below, IsDigits-key}
use auk.Storage.OrderKey.Between.{Below-of_lt}
use auk.Storage.OrderKey.Insert.{order_key_between_ordered}
use auk.Storage.Heal.{Row, ends_in_zero, valid_order_key, upper_bound, keeps, heal_from}

all-IsDigits : (k : Bytes) → all (λ c. ltb 0 (digit_val c)) k ≡ true → IsDigits k
all-IsDigits [] h = tt
all-IsDigits (c ∷ k) h = (ground arith, all-IsDigits k (ground arith))

IsDigits-all : (k : Bytes) → IsDigits k → all (λ c. ltb 0 (digit_val c)) k ≡ true
IsDigits-all [] h = refl
IsDigits-all (c ∷ k) h = ground (arith, IsDigits-all k h.1, h.0)

ends-IsKey : (k : Bytes) → ends_in_zero k ≡ false → IsDigits k → IsKey k
ends-IsKey [] h d = tt
ends-IsKey (c ∷ []) h d = ground (arith, digit_val_zero c, d.0)
ends-IsKey (c ∷ x ∷ k) h d = (d.0, ends-IsKey (x ∷ k) h d.1)

IsKey-ends : (k : Bytes) → IsKey k → ends_in_zero k ≡ false
IsKey-ends [] h = refl
IsKey-ends (c ∷ []) h = ground (arith, digit_val_zero c)
IsKey-ends (c ∷ x ∷ k) h = IsKey-ends (x ∷ k) h.1

-- `validOrderKey` accepts exactly the nonempty keys that can be an upper bound.
pub valid_order_key_iff : (k : Bytes) → (valid_order_key k ≡ true) ↔ (IsKey k × (k ≢ []))
unfolding valid_order_key
valid_order_key_iff [] = (λ h. cc, λ h. absurd (h.1 refl))
valid_order_key_iff (c ∷ k) = elim (Bool-cases (ends_in_zero (c ∷ k))) [
  | inl low ↦ (λ h. cc (rw low at h), λ h. cc (low, IsKey-ends (c ∷ k) h.0))
  | inr high ↦ rw high (
    λ h. (ends-IsKey (c ∷ k) high (all-IsDigits (c ∷ k) h), λ e. cc),
    λ h. IsDigits-all (c ∷ k) (IsDigits-key (c ∷ k) h.0),
  )
]

-- The keys are valid and strictly increase from `prev`.
abbrev pub Healed : Bytes → List Row → Type 0
Healed prev [] = Unit
Healed prev (r ∷ rows) =
    (valid_order_key r.key ≡ true) × (bytes_lt prev r.key ≡ true) × Healed r.key rows

upper_bound_fits :
    (prev : Bytes) (rows : List Row)
    → IsKey (upper_bound prev rows) × Below prev (upper_bound prev rows)
unfolding upper_bound
upper_bound_fits prev [] = (tt, tt)
upper_bound_fits prev (r ∷ rows) =
    elim (Bool-cases (valid_order_key r.key && bytes_lt prev r.key)) [
      | inl fits ↦
          let (valid, above) = and-eq-true _ _ fits in
          rw fits (((valid_order_key_iff r.key).0 valid).0, Below-of_lt prev r.key above)
      | inr other ↦ rw other (upper_bound_fits prev rows)
    ]

nil_lt : (k : Bytes) → k ≢ [] → bytes_lt [] k ≡ true
unfolding bytes_lt
nil_lt [] h = absurd (h refl)
nil_lt (c ∷ k) h = refl

keeps-lt :
    (prev k : Bytes) → keeps prev k ≡ true → (valid_order_key k ≡ true) × (bytes_lt prev k ≡ true)
keeps-lt [] k h =
    let (valid, _) = and-eq-true _ _ h in (valid, nil_lt k ((valid_order_key_iff k).0 valid).1)
keeps-lt (c ∷ prev) k h = and-eq-true _ _ h

abbrev pub ids : List Row → List Bytes
ids = map (λ r. r.id)

-- The loop of `healGroup` from a key `prev`: it returns, and every row keeps its id and place.
pub heal_from_heals :
    (prev : Bytes) (rows : List Row)
    → IsKey prev
    → (healed : List Row) × (heal_from prev rows ≡ some healed)
      × Healed prev healed
      × (ids healed ≡ ids rows)
unfolding heal_from
heal_from_heals prev [] h = ([], refl, tt, refl)
heal_from_heals prev (r ∷ rows) h = elim (Bool-cases (keeps prev r.key)) [
  | inl kept ↦
      let (valid, above) = keeps-lt prev r.key kept in
      let (healed, e, w, same) =
        heal_from_heals r.key rows ((valid_order_key_iff r.key).0 valid).0 in
      (r ∷ healed, rw (kept, e), (valid, above, w), ap (◌∷◌ r.id) same)
  | inr broken ↦
      let (key, below) = upper_bound_fits prev rows in
      let (k, minted, (above, _, k_key, k_ne)) =
        order_key_between_ordered prev (upper_bound prev rows) (IsDigits-key prev h) key below in
      let (healed, e, w, same) = heal_from_heals k rows k_key in
      (
        record r { key = k } ∷ healed,
        rw (broken, minted, e),
        ((valid_order_key_iff k).1 (k_key, k_ne), above, w),
        ap (◌∷◌ r.id) same,
      )
]
