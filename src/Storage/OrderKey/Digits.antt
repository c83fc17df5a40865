-- ===== src/Storage/OrderKey/Digits.antt =====
-- The digits of the order-key alphabet: their order is the order of the bytes.
use auk.Base.{
  ℕ, zero, suc, ◌+◌, ◌-◌, ◌≤◌, ◌<◌, ◌≡◌, refl, sym, ◌∙◌, Bool, true, false, ◌&&◌, [], ◌∷◌, Option,
  none, some, arith, ltb, leb, ◌==◌, if◌then◌else◌, All, ==_iff, Bool-cases, inl, inr,
}
use auk.Base.Text.{Bytes}
use auk.Storage.OrderKey.{alphabet, position, digit_val, letter}

-- A test that passes at every number under a limit.
passes_under : (ℕ → Bool) → ℕ → Bool
passes_under test zero = true
passes_under test (suc limit) = if test limit then passes_under test limit else false

passes_at :
    (test : ℕ → Bool) (limit c : ℕ) → c < limit → passes_under test limit ≡ true → test c ≡ true
unfolding passes_under
passes_at test zero c below every = absurd (omega arith)
passes_at test (suc limit) c below every = ground (arith, passes_at test limit c)

abbrev closed : ℕ → ℕ
closed c =
    if leb b'0' c && leb c b'9' then c - 47 else if leb b'A' c && leb c b'Z' then c - 54 else 0

position-above : (s : Bytes) (c : ℕ) → All (λ x. x < 91) s → 91 ≤ c → position s c ≡ 0
unfolding position
position-above [] c h k = refl
position-above (x ∷ s) c h k = ground (arith, position-above s c h.1 k)

low_table : passes_under (λ c. digit_val c == closed c) 91 ≡ true
unfolding passes_under digit_val
low_table = refl

closed-high : (c : ℕ) → 91 ≤ c → closed c ≡ 0
closed-high c h = ground arith

digit_val-high : (c : ℕ) → 91 ≤ c → digit_val c ≡ 0
unfolding digit_val
digit_val-high c h = position-above alphabet c (omega arith) h

digit_val-closed : (c : ℕ) → digit_val c ≡ closed c
digit_val-closed c = elim (Bool-cases (ltb c 91)) [
  | inl low ↦ (==_iff _ _).0 (passes_at _ 91 c (ground arith) low_table)
  | inr high ↦ let h : 91 ≤ c = ground arith in digit_val-high c h ∙ sym (closed-high c h)
]

abbrev letter_is : ℕ → Option ℕ → Bool
letter_is m none = false
letter_is m (some c) = c == (if ltb m 10 then m + 48 else m + 55)

letter_table : passes_under (λ m. letter_is m (letter (suc m))) 36 ≡ true
unfolding passes_under letter
letter_table = refl

letter_of :
    (m : ℕ) (o : Option ℕ)
    → letter_is m o ≡ true
    → m < 36
    → (c : ℕ) × (o ≡ some c) × (digit_val c ≡ suc m)
letter_of m none h k = cc
letter_of m (some c) h k = (c, refl, ground (arith, digit_val-closed c))

-- Every digit has its letter, whose digit it is.
pub letter-digit_val : (d : ℕ) → 1 ≤ d → d ≤ 36 → (c : ℕ) × (letter d ≡ some c) × (digit_val c ≡ d)
letter-digit_val zero h k = absurd (omega arith)
letter-digit_val (suc m) h k =
    letter_of m (letter (suc m)) (passes_at _ 36 m (omega arith) letter_table) (omega arith)

pub digit_val-le : (c : ℕ) → digit_val c ≤ 36
digit_val-le c = ground (arith, digit_val-closed c)

pub lt_of_digit_val : (x y : ℕ) → 1 ≤ digit_val x → digit_val x < digit_val y → x < y
lt_of_digit_val x y h k = ground (arith, digit_val-closed x, digit_val-closed y)

pub digit_val_lt : (x y : ℕ) → 1 ≤ digit_val y → x < y → 1 ≤ digit_val x → digit_val x < digit_val y
digit_val_lt x y h k j = ground (arith, digit_val-closed x, digit_val-closed y)

pub digit_val_injective : (x y : ℕ) → 1 ≤ digit_val x → digit_val x ≡ digit_val y → x ≡ y
digit_val_injective x y h k = ground (arith, digit_val-closed x, digit_val-closed y)

pub digit_val_zero : (c : ℕ) → (c == b'0') ≡ (digit_val c == 1)
digit_val_zero c = ground (arith, digit_val-closed c)

pub digit_val_least : (c : ℕ) → 1 ≤ digit_val c → b'0' ≤ c
digit_val_least c h = ground (arith, digit_val-closed c)

pub digit_val_upper : (c : ℕ) → 1 ≤ digit_val c → c ≤ b'Z'
digit_val_upper c h = ground (arith, digit_val-closed c)
