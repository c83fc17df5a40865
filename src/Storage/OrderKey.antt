-- ===== src/Storage/OrderKey.antt =====
-- internal/storage/orderkey.go: fractional order keys.
-- `digit_val` is `digitVal` plus one, so that the -1 of a foreign byte is 0; a Go index out of
-- range (a panic) is `none`. `midpoint` takes fuel; `Between` shows how much is enough.
pub mod Digits
pub mod Bounds
mod Narrow
pub mod Between
pub mod Insert
use auk.Base.{
  ℕ, zero, suc, ◌+◌, ◌-◌, ◌/◌, Bool, true, false, not, ◌&&◌, ◌||◌, List, [], ◌∷◌, ◌++◌, Option,
  none, some, ltb, ◌==◌, if◌then◌else◌, length, take, drop, get_elem?, ◌>>=◌,
}
use auk.Base.Text.{Bytes, codes, bytes_lt}

-- `orderKeyAlphabet`
abbrev pub alphabet : Bytes
alphabet = codes "0123456789ABCDEFGHIJKLMNOPQRSTUVWXYZ"

-- `orderKeyBase`, plus one
abbrev pub base_digit : ℕ
base_digit = 37

-- one more than the position of a byte; 0 when it is not there
unfoldable pub position : Bytes → ℕ → ℕ
position [] c = 0
position (x ∷ s) c =
    let later = position s c in if x == c then 1 else if later == 0 then 0 else suc later

unfoldable pub digit_val : ℕ → ℕ
unfolding position
digit_val c = position alphabet c

-- `orderKeyAlphabet[d]`
unfoldable pub letter : ℕ → Option ℕ
letter zero = none
letter (suc m) = get_elem? alphabet m

unfoldable pub common_prefix_len : Bytes → Bytes → ℕ
common_prefix_len (x ∷ a) (y ∷ b) = if x == y then suc (common_prefix_len a b) else 0
common_prefix_len _ _ = 0

unfoldable pub round_half : ℕ → ℕ → ℕ
round_half digit_a digit_b = digit_a + (digit_b - digit_a + 1) / 2

abbrev pub is_empty : Bytes → Bool
is_empty [] = true
is_empty (_ ∷ _) = false

abbrev pub first_digit : ℕ → Bytes → ℕ
first_digit d [] = d
first_digit d (c ∷ _) = digit_val c

-- `midpoint` below its prefix step; `rec` is the recursive call.
pub narrow : (Bytes → Bytes → Option Bytes) → Bytes → Bytes → Option Bytes
narrow rec a b =
    let digit_a = first_digit 1 a in
    let digit_b = first_digit base_digit b in
    if ltb (digit_a + 1) digit_b
    then letter (round_half digit_a digit_b) >>= (λ c. some (c ∷ []))
    else if digit_a == digit_b
    then letter 1 >>= (λ c. rec [] (drop 1 b) >>= (λ r. some (c ∷ r)))
    else if not (is_empty b) && (ltb 1 (length b) && not (digit_b == 1))
    then some (take 1 b)
    else letter digit_a >>= (λ c. rec (drop 1 a) [] >>= (λ r. some (c ∷ r)))

unfoldable pub midpoint : ℕ → Bytes → Bytes → Option Bytes
unfolding common_prefix_len narrow
midpoint zero a b = none
midpoint (suc fuel) a b =
    let n = common_prefix_len a b in
    if not (is_empty b) && ltb 0 n
    then midpoint fuel (drop n a) (drop n b) >>= (λ r. some (take n b ++ r))
    else narrow (midpoint fuel) a b

-- `strings.TrimRight(a, "0")`
unfoldable pub trim_zeros : Bytes → Bytes
trim_zeros [] = []
trim_zeros (c ∷ s) = let rest = trim_zeros s in if is_empty rest && c == b'0' then [] else c ∷ rest

-- `OrderKeyBetween`; the fuel covers every round of `midpoint`
unfoldable pub order_key_between : Bytes → Bytes → Option Bytes
unfolding trim_zeros bytes_lt midpoint digit_val letter round_half
order_key_between a b =
    let lower = trim_zeros a in
    if not (is_empty lower) && (not (is_empty b) && not (bytes_lt lower b))
    then midpoint (suc (length lower)) lower []
    else midpoint (suc (length lower + length b)) lower b
