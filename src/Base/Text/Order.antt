-- ===== src/Base/Text/Order.antt =====
-- The order of Go strings is a strict total order.
use mathlib.Core.Path.{◌≡◌, refl}
use mathlib.Core.Bool.{true, false}
use mathlib.Core.List.{[], ◌∷◌}
use native.Mathlib.Omega.{arith}
use auk.Base.Text.{Bytes, bytes_lt}

pub bytes_lt_irrefl : (a : Bytes) → bytes_lt a a ≡ false
unfolding bytes_lt
bytes_lt_irrefl [] = refl
bytes_lt_irrefl (x ∷ a) = ground (arith, bytes_lt_irrefl a)

pub bytes_lt_asymm : (a b : Bytes) → bytes_lt a b ≡ true → bytes_lt b a ≡ false
unfolding bytes_lt
bytes_lt_asymm [] [] h = refl
bytes_lt_asymm [] (y ∷ b) h = refl
bytes_lt_asymm (x ∷ a) [] h = cc
bytes_lt_asymm (x ∷ a) (y ∷ b) h = ground (arith, bytes_lt_asymm a b)

pub bytes_lt_trans :
    (a b c : Bytes) → bytes_lt a b ≡ true → bytes_lt b c ≡ true → bytes_lt a c ≡ true
unfolding bytes_lt
bytes_lt_trans [] b [] h k = ground (arith, bytes_lt_trans_nil b k)
  where
    bytes_lt_trans_nil : (b : Bytes) → bytes_lt b [] ≡ true → false ≡ true
    bytes_lt_trans_nil [] e = e
    bytes_lt_trans_nil (y ∷ b) e = e
bytes_lt_trans [] b (z ∷ c) h k = refl
bytes_lt_trans (x ∷ a) [] c h k = cc
bytes_lt_trans (x ∷ a) (y ∷ b) [] h k = cc
bytes_lt_trans (x ∷ a) (y ∷ b) (z ∷ c) h k = ground (arith, bytes_lt_trans a b c)

pub bytes_lt_total : (a b : Bytes) → bytes_lt a b ≡ false → bytes_lt b a ≡ false → a ≡ b
unfolding bytes_lt
bytes_lt_total [] [] h k = refl
bytes_lt_total [] (y ∷ b) h k = cc
bytes_lt_total (x ∷ a) [] h k = cc
bytes_lt_total (x ∷ a) (y ∷ b) h k = ground (arith, bytes_lt_total a b)
