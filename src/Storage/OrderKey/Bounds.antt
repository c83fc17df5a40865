-- ===== src/Storage/OrderKey/Bounds.antt =====
-- Keys as bounds: digit strings, their order, and their common prefix.
use auk.Base.{◌≤◌, ◌≡◌, ◌≢◌, refl, true, [], ◌∷◌, ◌++◌, arith, length, take, All}
use auk.Base.Text.{Bytes, bytes_lt}
use auk.Storage.OrderKey.{digit_val, common_prefix_len}

-- Every byte is a digit of the alphabet.
abbrev pub IsDigits : Bytes → Type 0
IsDigits s = All (λ c. 1 ≤ digit_val c) s

-- A key that can be an upper bound: digits, the last of them not the lowest.
abbrev pub IsKey : Bytes → Type 0
IsKey [] = Unit
IsKey (c ∷ []) = 2 ≤ digit_val c
IsKey (c ∷ d ∷ s) = (1 ≤ digit_val c) × IsKey (d ∷ s)

-- `k` sorts before `b`, where the empty `b` is no bound.
abbrev pub Below : Bytes → Bytes → Type 0
Below k [] = Unit
Below k (c ∷ b) = bytes_lt k (c ∷ b) ≡ true

abbrev pub Between : Bytes → Bytes → Bytes → Type 0
Between a b k = (bytes_lt a k ≡ true) × Below k b × IsKey k × (k ≢ [])

pub bytes_lt-append : (p x y : Bytes) → bytes_lt (p ++ x) (p ++ y) ≡ bytes_lt x y
unfolding bytes_lt
bytes_lt-append [] x y = refl
bytes_lt-append (c ∷ p) x y = ground (arith, bytes_lt-append p x y)

pub IsKey-suffix : (p : Bytes) (y : Bytes) → IsKey (p ++ y) → IsKey y
IsKey-suffix [] y h = h
IsKey-suffix (c ∷ []) [] h = tt
IsKey-suffix (c ∷ []) (d ∷ y) h = h.1
IsKey-suffix (c ∷ d ∷ p) y h = IsKey-suffix (d ∷ p) y h.1

pub IsDigits-key : (s : Bytes) → IsKey s → IsDigits s
IsDigits-key [] h = tt
IsDigits-key (c ∷ []) h = (omega arith, tt)
IsDigits-key (c ∷ d ∷ s) h = (h.0, IsDigits-key (d ∷ s) h.1)

pub IsDigits-prefix : (p y : Bytes) → IsDigits (p ++ y) → IsDigits p
IsDigits-prefix [] y h = tt
IsDigits-prefix (c ∷ p) y h = (h.0, IsDigits-prefix p y h.1)

pub IsDigits-suffix : (p y : Bytes) → IsDigits (p ++ y) → IsDigits y
IsDigits-suffix [] y h = h
IsDigits-suffix (c ∷ p) y h = IsDigits-suffix p y h.1

pub IsKey-append : (p r : Bytes) → IsDigits p → IsKey r → r ≢ [] → IsKey (p ++ r)
IsKey-append [] r d k e = k
IsKey-append (c ∷ []) [] d k e = absurd (e refl)
IsKey-append (c ∷ []) (x ∷ r) d k e = (d.0, k)
IsKey-append (c ∷ x ∷ p) r d k e = (d.0, IsKey-append (x ∷ p) r d.1 k e)

pub append-ne-nil : (p r : Bytes) → r ≢ [] → p ++ r ≢ []
append-ne-nil [] r h = h
append-ne-nil (c ∷ p) r h = λ e. cc

pub prefix_same : (a b : Bytes) → take (common_prefix_len a b) a ≡ take (common_prefix_len a b) b
unfolding common_prefix_len
prefix_same [] b = refl
prefix_same (x ∷ a) [] = refl
prefix_same (x ∷ a) (y ∷ b) = ground (arith, prefix_same a b)

pub prefix_le : (a b : Bytes) → common_prefix_len a b ≤ length b
unfolding common_prefix_len
prefix_le [] b = omega arith
prefix_le (x ∷ a) [] = omega arith
prefix_le (x ∷ a) (y ∷ b) = ground (arith, prefix_le a b)
