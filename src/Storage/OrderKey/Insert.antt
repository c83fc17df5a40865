-- ===== src/Storage/OrderKey/Insert.antt =====
-- `OrderKeyBetween` as its callers use it: the lower bound may end in zeros, which it trims.
use auk.Base.{
  ℕ, suc, ◌+◌, ◌≤◌, ◌≡◌, ◌≢◌, ◌⊎◌, refl, Bool, true, false, not, ◌&&◌, [], ◌∷◌, some, arith, ◌==◌,
  if◌then◌else◌, length, Bool-cases, inl, inr,
}
use auk.Base.Text.{Bytes, bytes_lt}
use auk.Storage.OrderKey.{digit_val, is_empty, midpoint, trim_zeros, order_key_between}
use auk.Storage.OrderKey.Digits.{digit_val_zero, digit_val_least}
use auk.Storage.OrderKey.Bounds.{IsDigits, IsKey, Below, Between}
use auk.Storage.OrderKey.Between.{midpoint_between, ne_of_lt}

IsDigits-trim_zeros : (a : Bytes) → IsDigits a → IsDigits (trim_zeros a)
unfolding trim_zeros
IsDigits-trim_zeros [] d = tt
IsDigits-trim_zeros (c ∷ s) d = ground (arith, IsDigits-trim_zeros s d.1)

IsKey-tail : (c : ℕ) (k : Bytes) → IsKey (c ∷ k) → IsKey k
IsKey-tail c [] h = tt
IsKey-tail c (d ∷ k) h = h.1

IsKey-head : (c : ℕ) (k : Bytes) → IsKey (c ∷ k) → (1 ≤ digit_val c) × (k ≡ [] → 2 ≤ digit_val c)
IsKey-head c [] h = (omega arith, λ _. h)
IsKey-head c (d ∷ k) h = (h.0, λ e. cc)

trim_zeros-nil : trim_zeros [] ≡ []
unfolding trim_zeros
trim_zeros-nil = refl

trim_zeros-cons :
    (c : ℕ) (s : Bytes)
    → ((trim_zeros (c ∷ s) ≡ []) × (trim_zeros s ≡ []) × (c ≡ b'0'))
      ⊎ (trim_zeros (c ∷ s) ≡ c ∷ trim_zeros s)
unfolding trim_zeros
trim_zeros-cons c s = split_on (trim_zeros s)
  where
    split_on :
        (rest : Bytes)
        → (((if is_empty rest && c == b'0' then [] else c ∷ rest) ≡ []) × (rest ≡ []) × (c ≡ b'0'))
          ⊎ ((if is_empty rest && c == b'0' then [] else c ∷ rest) ≡ c ∷ rest)
    split_on [] = ground arith
    split_on (x ∷ r) = inr refl

zeros_inv : (c : ℕ) (s : Bytes) → trim_zeros (c ∷ s) ≡ [] → (trim_zeros s ≡ []) × (c ≡ b'0')
zeros_inv c s e = elim (trim_zeros-cons c s) [ inl zeros ↦ (zeros.1, zeros.2) | inr kept ↦ cc ]

-- Only zeros: any key is above them.
zeros_lt : (a k : Bytes) → trim_zeros a ≡ [] → IsKey k → k ≢ [] → bytes_lt a k ≡ true
unfolding bytes_lt
zeros_lt a [] e h n = absurd (n refl)
zeros_lt [] (d ∷ k) e h n = refl
zeros_lt (c ∷ s) (d ∷ []) e h n =
    let (_, zero_byte) = zeros_inv c s e in ground (arith, digit_val_zero d, digit_val_least d)
zeros_lt (c ∷ s) (d ∷ x ∷ k) e h n =
    let (zeros, zero_byte) = zeros_inv c s e in
    let later = zeros_lt s (x ∷ k) zeros h.1 (λ q. cc) in ground (arith, digit_val_least d h.0)

-- What the trimmed bound is below, the bound itself is below too.
trim_zeros_lt : (a k : Bytes) → IsKey k → bytes_lt (trim_zeros a) k ≡ true → bytes_lt a k ≡ true
unfolding bytes_lt
trim_zeros_lt [] k h e = rw trim_zeros-nil at e
trim_zeros_lt (c ∷ s) [] h e = absurd (ne_of_lt (trim_zeros (c ∷ s)) [] e refl)
trim_zeros_lt (c ∷ s) (d ∷ k) h e = elim (trim_zeros-cons c s) [
  | inl (all_zeros, _, _) ↦ zeros_lt (c ∷ s) (d ∷ k) all_zeros h (λ q. cc)
  | inr kept ↦ let e' = rw kept at e in ground (arith, trim_zeros_lt s k (IsKey-tail d k h))
]

-- Trimming lowers a bound.
trim_zeros-lt : (a b : Bytes) → bytes_lt a b ≡ true → bytes_lt (trim_zeros a) b ≡ true
unfolding bytes_lt
trim_zeros-lt [] b e = rw trim_zeros-nil e
trim_zeros-lt (c ∷ s) [] e = cc
trim_zeros-lt (c ∷ s) (d ∷ b) e = elim (trim_zeros-cons c s) [
  | inl (all_zeros, _, _) ↦ rw all_zeros refl
  | inr kept ↦ rw kept (ground (arith, trim_zeros-lt s b))
]

-- Whatever the upper bound, the key is above the lower bound; it is a key itself.
abbrev pub Above : Bytes → Bytes → Type 0
Above a k = (bytes_lt a k ≡ true) × IsKey k × (k ≢ [])

Between-trimmed :
    (a b : Bytes)
    → IsDigits a
    → IsKey b
    → Below (trim_zeros a) b
    → (k : Bytes) × (midpoint (suc (length (trim_zeros a) + length b)) (trim_zeros a) b ≡ some k)
      × Between a b k
Between-trimmed a b d h p =
    let (k, e, (lo, hi, key, ne)) =
      midpoint_between (suc (length (trim_zeros a) + length b)) (trim_zeros a) b (omega arith)
        (IsDigits-trim_zeros a d) h p in
    (k, e, (trim_zeros_lt a k key lo, hi, key, ne))

abbrev inverted : Bytes → Bytes → Bool
inverted a b =
    not (is_empty (trim_zeros a)) && (not (is_empty b) && not (bytes_lt (trim_zeros a) b))

Below-trim_zeros : (a b : Bytes) → Below a b → Below (trim_zeros a) b
Below-trim_zeros a [] h = tt
Below-trim_zeros a (c ∷ b) h = trim_zeros-lt a (c ∷ b) h

not_inverted : (a b : Bytes) → Below (trim_zeros a) b → inverted a b ≡ false
not_inverted a [] h = ground arith
not_inverted a (c ∷ b) h = ground arith

not_inverted-Below : (a b : Bytes) → inverted a b ≡ false → Below (trim_zeros a) b
unfolding bytes_lt
not_inverted-Below a [] h = tt
not_inverted-Below a (c ∷ b) h = go (trim_zeros a) h
  where
    go :
        (l : Bytes)
        → (not (is_empty l) && (true && not (bytes_lt l (c ∷ b)))) ≡ false
        → bytes_lt l (c ∷ b) ≡ true
    go [] e = refl
    go (x ∷ l) e = ground arith

-- Between two neighbours in order, a key is returned, with no panic. It sorts strictly after
-- the lower and, where there is one, strictly before the upper; it is over the alphabet and does not
-- end in "0". The lower bound is any digit string, one that ends in "0" too.
pub order_key_between_ordered :
    (a b : Bytes)
    → IsDigits a
    → IsKey b
    → Below a b
    → (k : Bytes) × (order_key_between a b ≡ some k) × Between a b k
unfolding order_key_between
order_key_between_ordered a b d h p =
    let low = Below-trim_zeros a b p in
    let (k, e, w) = Between-trimmed a b d h low in (k, rw (not_inverted a b low) e, w)

-- Whatever the order of the two bounds, an equal or inverted pair included, a key is returned,
-- with no panic: it sorts strictly after the lower bound, is over the alphabet and does not end
-- in "0".
pub order_key_between_total :
    (a b : Bytes)
    → IsDigits a
    → IsKey b
    → (k : Bytes) × (order_key_between a b ≡ some k) × (bytes_lt a k ≡ true) × IsKey k × (k ≢ [])
unfolding order_key_between
order_key_between_total a b d h = elim (Bool-cases (inverted a b)) [
  | inl swapped ↦
      let lower = trim_zeros a in
      let (k, e, (lo, _, key, ne)) =
        midpoint_between (suc (length lower)) lower [] (omega arith) (IsDigits-trim_zeros a d) tt
          tt in
      (k, rw swapped e, trim_zeros_lt a k key lo, key, ne)
  | inr ordered ↦
      let (k, e, (lo, _, key, ne)) = Between-trimmed a b d h (not_inverted-Below a b ordered) in
      (k, rw ordered e, lo, key, ne)
]
