-- ===== src/Storage/OrderKey/Between.antt =====
-- A new order key sorts strictly between its neighbours.
use auk.Base.{
  ℕ, zero, suc, ◌<◌, ◌≡◌, ◌≢◌, refl, sym, ap, ◌∙◌, Bool, true, false, not, ◌&&◌, [], ◌∷◌, ◌++◌,
  arith, ltb, take, drop, take-append-drop, length-drop, Bool-cases, inl, inr,
}
use mathlib.Core.Path.{subst₂}
use auk.Base.Text.{Bytes, bytes_lt}
use auk.Storage.OrderKey.{common_prefix_len, is_empty, midpoint}
use auk.Storage.OrderKey.Bounds.{
  IsDigits, IsKey, Below, Between, bytes_lt-append, IsKey-suffix, IsDigits-key, IsDigits-prefix,
  IsDigits-suffix, IsKey-append, append-ne-nil, prefix_same, prefix_le,
}
use auk.Storage.OrderKey.Narrow.{Solves, Apart, narrow_between}

-- The first byte behind the common prefix differs.
prefix_Apart : (a b : Bytes) → common_prefix_len a b ≡ 0 → Below a b → Apart a b
unfolding common_prefix_len bytes_lt
prefix_Apart [] b e h = tt
prefix_Apart (x ∷ a) [] e h = tt
prefix_Apart (x ∷ a) (y ∷ b) e h = ground arith

pub lt_of_Below : (k b : Bytes) → b ≢ [] → Below k b → bytes_lt k b ≡ true
lt_of_Below k [] e h = absurd (e refl)
lt_of_Below k (c ∷ b) e h = h

pub Below-of_lt : (k b : Bytes) → bytes_lt k b ≡ true → Below k b
Below-of_lt k [] h = tt
Below-of_lt k (c ∷ b) h = h

pub ne_of_lt : (k b : Bytes) → bytes_lt k b ≡ true → b ≢ []
unfolding bytes_lt
ne_of_lt [] [] h = cc
ne_of_lt (x ∷ k) [] h = cc
ne_of_lt k (c ∷ b) h = λ e. cc

-- A key between two bounds stays between them behind one more prefix.
prefix-Between :
    (p x y r : Bytes) → IsDigits p → y ≢ [] → Between x y r → Between (p ++ x) (p ++ y) (p ++ r)
prefix-Between p x y r d e (lo, hi, key, ne) = (
  bytes_lt-append p x r ∙ lo,
  Below-of_lt (p ++ r) (p ++ y) (bytes_lt-append p r y ∙ lt_of_Below r y e hi),
  IsKey-append p r d key ne,
  append-ne-nil p r ne,
)

module _ (a b : Bytes) where
  abbrev cut : ℕ
  cut = common_prefix_len a b

  prefix_left : take cut b ++ drop cut a ≡ a
  prefix_left = rw (← prefix_same a b) (take-append-drop cut a)

  drop_lt : bytes_lt a b ≡ true → bytes_lt (drop cut a) (drop cut b) ≡ true
  drop_lt h =
      sym (bytes_lt-append (take cut b) (drop cut a) (drop cut b))
      ∙ ap (λ s. bytes_lt s (take cut b ++ drop cut b)) prefix_left
      ∙ ap (bytes_lt a) (take-append-drop cut b)
      ∙ h

  -- The prefix step of `midpoint`, from a key between what stands behind the prefix.
  whole-Between :
      (r : Bytes)
      → IsKey b
      → bytes_lt a b ≡ true
      → Between (drop cut a) (drop cut b) r
      → Between a b (take cut b ++ r)
  whole-Between r k h w =
      let same = take-append-drop cut b in
      let d = IsDigits-prefix (take cut b) (drop cut b) (rw same (IsDigits-key b k)) in
      let e = ne_of_lt (drop cut a) (drop cut b) (drop_lt h) in
      subst₂ (λ s t. Between s t (take cut b ++ r)) prefix_left same
        (prefix-Between (take cut b) (drop cut a) (drop cut b) r d e w)

abbrev shares : Bytes → Bytes → Bool
shares a b = not (is_empty b) && ltb 0 (common_prefix_len a b)

shares-lt :
    (a b : Bytes)
    → shares a b ≡ true
    → Below a b
    → (0 < common_prefix_len a b) × (bytes_lt a b ≡ true)
shares-lt a [] e p = cc
shares-lt a (c ∷ b) e p = (ground arith, p)

not_shares-Apart : (a b : Bytes) → shares a b ≡ false → Below a b → Apart a b
not_shares-Apart [] b e p = tt
not_shares-Apart (x ∷ a) [] e p = tt
not_shares-Apart (x ∷ a) (c ∷ b) e p = prefix_Apart (x ∷ a) (c ∷ b) (ground arith) p

-- Fuel beyond the two lengths is enough: `midpoint` returns, and its key lies between.
pub midpoint_between : (f : ℕ) → Solves (midpoint f) f
unfolding midpoint
midpoint_between zero a b h d k p = absurd (omega arith)
midpoint_between (suc f) a b h d k p = elim (Bool-cases (shares a b)) [
  | inl shared ↦
      let (pos, lt) = shares-lt a b shared p in
      let n = common_prefix_len a b in
      let same = take-append-drop n b in
      let (r, e, w) =
        midpoint_between f (drop n a) (drop n b)
          (omega (arith, length-drop n a, length-drop n b, prefix_le a b))
          (IsDigits-suffix (take n b) (drop n a) (rw (prefix_left a b) d))
          (IsKey-suffix (take n b) (drop n b) (rw same k))
          (Below-of_lt (drop n a) (drop n b) (drop_lt a b lt)) in
      (take n b ++ r, rw (shared, e), whole-Between a b r k lt w)
  | inr apart ↦
      let (r, e, w) =
        narrow_between (midpoint f) f (midpoint_between f) a b (omega arith) d k
          (not_shares-Apart a b apart p) in
      (r, rw apart e, w)
]
