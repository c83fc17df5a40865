-- ===== src/Base/Int.antt =====
-- Go's `int`: the integers, with the 64-bit range that `strconv.Atoi` enforces.
use Prim.Native.Nat.{ℕ, zero, suc, ◌+◌, ◌-◌, ◌*◌}
use mathlib.Core.Bool.{Bool, true, false, ◌&&◌}
use mathlib.Core.Option.{Option, none, some}
use mathlib.Core.List.{List, [], ◌∷◌}
use auk.Base.Tests.{ltb, leb, ◌==◌, if◌then◌else◌}

-- `negsuc n` is -(n + 1).
pub data ℤ : Type 0 where
  pos : ℕ → ℤ
  negsuc : ℕ → ℤ

-- -n, as an integer.
abbrev pub neg_of : ℕ → ℤ
neg_of zero = pos 0
neg_of (suc n) = negsuc n

abbrev pub lt_int : ℤ → ℤ → Bool
lt_int (pos a) (pos b) = ltb a b
lt_int (pos a) (negsuc b) = false
lt_int (negsuc a) (pos b) = true
lt_int (negsuc a) (negsuc b) = ltb b a

abbrev pub is_digit : ℕ → Bool
is_digit c = leb b'0' c && leb c b'9'

-- The value of a run of decimal digits, most significant first; any other byte fails.
unfoldable pub digits_from : ℕ → List ℕ → Option ℕ
digits_from acc [] = some acc
digits_from acc (c ∷ cs) =
    let rest = digits_from (acc * 10 + (c - b'0')) cs in if is_digit c then rest else none

abbrev pub min_int64 : ℕ
min_int64 = 9223372036854775808

-- one or more digits
abbrev pub unsigned : List ℕ → Option ℕ
unsigned [] = none
unsigned (c ∷ cs) = digits_from 0 (c ∷ cs)

abbrev pub in_range : Bool → Option ℕ → Option ℤ
in_range neg none = none
in_range true (some n) = if leb n min_int64 then some (neg_of n) else none
in_range false (some n) = if ltb n min_int64 then some (pos n) else none

-- `strconv.Atoi`: an optional sign, one or more decimal digits, within the 64-bit range.
unfoldable pub atoi : List ℕ → Option ℤ
unfolding digits_from
atoi [] = none
atoi (c ∷ cs) =
    if c == b'-'
    then in_range true (unsigned cs)
    else if c == b'+'
    then in_range false (unsigned cs)
    else in_range false (unsigned (c ∷ cs))
