-- ===== src/Storage/OrderKey/Narrow.antt =====
-- `midpoint` of bounds whose first digits differ.
use auk.Base.{
  ℕ, ◌+◌, ◌≤◌, ◌<◌, ◌≡◌, ◌≢◌, refl, sym, ap, ◌∙◌, true, [], ◌∷◌, Option, some, arith, lt→ltb,
  length, drop,
}
use native.Mathlib.Decide.{dec_lt}
use auk.Base.Text.{Bytes, bytes_lt}
use auk.Storage.OrderKey.{digit_val, letter, first_digit, base_digit, round_half, narrow}
use auk.Storage.OrderKey.Digits.{
  letter-digit_val, digit_val-le, lt_of_digit_val, digit_val_lt, digit_val_injective,
}
use auk.Storage.OrderKey.Bounds.{IsDigits, IsKey, Below, Between, IsDigits-key}

-- Fuel for every pair of bounds that is shorter than `n` in all.
abbrev pub Solves : (Bytes → Bytes → Option Bytes) → ℕ → Type 0
Solves rec n =
    (a b : Bytes)
    → length a + length b < n
    → IsDigits a
    → IsKey b
    → Below a b
    → (k : Bytes) × (rec a b ≡ some k) × Between a b k

abbrev pub Narrows : (Bytes → Bytes → Option Bytes) → Bytes → Bytes → Type 0
Narrows rec a b = (k : Bytes) × (narrow rec a b ≡ some k) × Between a b k

round_half_bounds : (d e : ℕ) → d + 1 < e → (d < round_half d e) × (round_half d e < e)
unfolding round_half
round_half_bounds d e h = omega arith

module _ (rec : Bytes → Bytes → Option Bytes) (a b : Bytes) where
  narrow_gap :
      (c : ℕ)
      → first_digit 1 a + 1 < first_digit base_digit b
      → letter (round_half (first_digit 1 a) (first_digit base_digit b)) ≡ some c
      → narrow rec a b ≡ some (c ∷ [])
  unfolding narrow
  narrow_gap c h e = rw (lt→ltb _ _ h, e)

  narrow_same :
      (c : ℕ) (r : Bytes)
      → first_digit 1 a ≡ first_digit base_digit b
      → letter 1 ≡ some c
      → rec [] (drop 1 b) ≡ some r
      → narrow rec a b ≡ some (c ∷ r)
  unfolding narrow
  narrow_same c r h e f = ground arith

  narrow_last :
      (c : ℕ) (r : Bytes)
      → first_digit 1 a + 1 ≡ first_digit base_digit b
      → length b ≤ 1
      → letter (first_digit 1 a) ≡ some c
      → rec (drop 1 a) [] ≡ some r
      → narrow rec a b ≡ some (c ∷ r)
  unfolding narrow
  narrow_last c r h short e f = ground arith

narrow_head :
    (rec : Bytes → Bytes → Option Bytes) (a : Bytes) (c d : ℕ) (b : Bytes)
    → first_digit 1 a + 1 ≡ digit_val c
    → 2 ≤ digit_val c
    → narrow rec a (c ∷ d ∷ b) ≡ some (c ∷ [])
unfolding narrow
narrow_head rec a c d b h k = ground arith

lt_single :
    (a : Bytes) (c : ℕ) → IsDigits a → first_digit 1 a < digit_val c → bytes_lt a (c ∷ []) ≡ true
unfolding bytes_lt
lt_single [] c d h = refl
lt_single (x ∷ a) c d h = ground (arith, lt_of_digit_val x c)

single-Below :
    (b : Bytes) (c : ℕ)
    → 1 ≤ digit_val c
    → digit_val c < first_digit base_digit b
    → Below (c ∷ []) b
unfolding bytes_lt
single-Below [] c d h = tt
single-Below (e ∷ b) c d h = ground (arith, lt_of_digit_val c e)

first_digit_bounds : (a : Bytes) → IsDigits a → (1 ≤ first_digit 1 a) × (first_digit 1 a ≤ 36)
first_digit_bounds [] d = omega arith
first_digit_bounds (x ∷ a) d = omega (arith, digit_val-le x)

first_digit_base : (b : Bytes) → first_digit base_digit b ≤ 37
first_digit_base [] = omega arith
first_digit_base (x ∷ a) = omega (arith, digit_val-le x)

-- The heads of the bounds differ, the lower bound's first.
abbrev pub Apart : Bytes → Bytes → Type 0
Apart [] b = Unit
Apart (x ∷ a) [] = Unit
Apart (x ∷ a) (c ∷ b) = x < c

-- A digit fits between the two leading digits.
between_gap :
    (rec : Bytes → Bytes → Option Bytes) (a b : Bytes)
    → IsDigits a
    → first_digit 1 a + 1 < first_digit base_digit b
    → Narrows rec a b
between_gap rec a b d h =
    let (lo, hi) = round_half_bounds (first_digit 1 a) (first_digit base_digit b) h in
    let (one, _) = first_digit_bounds a d in
    let (c, e, v) =
      letter-digit_val (round_half (first_digit 1 a) (first_digit base_digit b)) (omega arith)
        (omega (arith, first_digit_base b)) in
    (
      c ∷ [],
      narrow_gap rec a b c h e,
      (
        lt_single a c d (omega arith),
        single-Below b c (omega arith) (omega arith),
        omega arith,
        λ p. cc,
      ),
    )

IsKey-cons : (c : ℕ) (r : Bytes) → 1 ≤ digit_val c → IsKey r → r ≢ [] → IsKey (c ∷ r)
IsKey-cons c [] d k e = absurd (e refl)
IsKey-cons c (x ∷ r) d k e = (d, k)

Below-cons :
    (b : Bytes) (c : ℕ) (r : Bytes)
    → 1 ≤ digit_val c
    → digit_val c < first_digit base_digit b
    → Below (c ∷ r) b
unfolding bytes_lt
Below-cons [] c r d h = tt
Below-cons (e ∷ b) c r d h = ground (arith, lt_of_digit_val c e)

letter_self : (x : ℕ) → 1 ≤ digit_val x → letter (digit_val x) ≡ some x
letter_self x h =
    let (y, e, v) = letter-digit_val (digit_val x) h (digit_val-le x) in
    e ∙ ap some (digit_val_injective y x (omega arith) v)

module _ (rec : Bytes → Bytes → Option Bytes) (n : ℕ) (solves : Solves rec n) where
  -- The lower bound's digit is kept, and what follows it has no upper bound.
  between_last :
      (a b : Bytes)
      → length a + length b ≤ n
      → 1 ≤ length a + length b
      → IsDigits a
      → first_digit 1 a + 1 ≡ first_digit base_digit b
      → length b ≤ 1
      → Narrows rec a b
  unfolding bytes_lt
  between_last [] b h p d e s =
      let (z, ze, zv) = letter-digit_val 1 (omega arith) (omega arith) in
      let (r, re, rb) = solves [] [] (omega arith) tt tt tt in
      (
        z ∷ r,
        narrow_last rec [] b z r e s ze re,
        (
          refl,
          Below-cons b z r (omega arith) (omega arith),
          IsKey-cons z r (omega arith) rb.2 rb.3,
          λ q. cc,
        ),
      )
  between_last (x ∷ a) b h p d e s =
      let (r, re, rb) = solves a [] (omega arith) d.1 tt tt in
      (
        x ∷ r,
        narrow_last rec (x ∷ a) b x r e s (letter_self x d.0) re,
        (ground arith, Below-cons b x r d.0 (omega arith), IsKey-cons x r d.0 rb.2 rb.3, λ q. cc),
      )

  -- The upper bound starts with the lowest digit: keep it, and go on below the rest.
  between_zero :
      (c : ℕ) (b : Bytes)
      → length b + 1 ≤ n
      → IsKey (c ∷ b)
      → digit_val c ≡ 1
      → Narrows rec [] (c ∷ b)
  unfolding bytes_lt
  between_zero c [] h k e = absurd (omega arith)
  between_zero c (d ∷ b) h k e =
      let (r, re, rb) = solves [] (d ∷ b) (omega arith) tt k.1 refl in
      (
        c ∷ r,
        narrow_same rec [] (c ∷ d ∷ b) c r (sym e) (rw (← e) (letter_self c (omega arith))) re,
        (refl, ground arith, IsKey-cons c r (omega arith) rb.2 rb.3, λ q. cc),
      )

  -- The upper bound's digit alone sorts below the upper bound.
  between_head :
      (a : Bytes) (c d : ℕ) (b : Bytes)
      → IsDigits a
      → IsKey (c ∷ d ∷ b)
      → first_digit 1 a + 1 ≡ digit_val c
      → Narrows rec a (c ∷ d ∷ b)
  unfolding bytes_lt
  between_head a c d b s k e =
      let (one, _) = first_digit_bounds a s in
      (
        c ∷ [],
        narrow_head rec a c d b e (omega arith),
        (lt_single a c s (omega arith), ground arith, omega arith, λ q. cc),
      )

  between_tight :
      (a b : Bytes)
      → length a + length b ≤ n
      → IsDigits a
      → IsKey b
      → first_digit 1 a + 1 ≡ first_digit base_digit b
      → Narrows rec a b
  between_tight [] [] h d k e = absurd (omega arith)
  between_tight (x ∷ a) [] h d k e = between_last (x ∷ a) [] h (omega arith) d e (omega arith)
  between_tight a (c ∷ []) h d k e = between_last a (c ∷ []) h (omega arith) d e (omega arith)
  between_tight a (c ∷ y ∷ b) h d k e = between_head a c y b d k e

  between_low :
      (c : ℕ) (b : Bytes)
      → length b + 1 ≤ n
      → IsKey (c ∷ b)
      → 1 ≤ digit_val c
      → digit_val c ≤ 2
      → Narrows rec [] (c ∷ b)
  between_low c b h k one two = elim (dec_lt 1 (digit_val c)) [
    | yes above ↦ between_tight [] (c ∷ b) (omega arith) tt k (omega arith)
    | no least ↦ between_zero c b h k (omega arith)
  ]

  between_close :
      (a b : Bytes)
      → length a + length b ≤ n
      → IsDigits a
      → IsKey b
      → Apart a b
      → first_digit base_digit b ≤ first_digit 1 a + 1
      → Narrows rec a b
  between_close [] [] h d k p t = absurd (omega arith)
  between_close [] (c ∷ b) h d k p t = between_low c b (omega arith) k (IsDigits-key (c ∷ b) k).0 t
  between_close (x ∷ a) [] h d k p t =
      between_tight (x ∷ a) [] h d k (omega (arith, digit_val-le x))
  between_close (x ∷ a) (c ∷ b) h d k p t =
      let up = digit_val_lt x c (IsDigits-key (c ∷ b) k).0 p d.0 in
      between_tight (x ∷ a) (c ∷ b) h d k (omega arith)

  -- Bounds that differ at once have a key between them.
  pub narrow_between :
      (a b : Bytes) → length a + length b ≤ n → IsDigits a → IsKey b → Apart a b → Narrows rec a b
  narrow_between a b h d k p = elim (dec_lt (first_digit 1 a + 1) (first_digit base_digit b)) [
    | yes gap ↦ between_gap rec a b d gap
    | no tight ↦ between_close a b h d k p (omega arith)
  ]
