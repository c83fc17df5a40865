-- ===== src/Base/Result.antt =====
-- Go's pair of a value and an error, where exactly one of the two counts.
use auk.Base.{◌≡◌, refl}

pub data Result {ℓ} (E : Type ℓ) (A : Type ℓ) : Type ℓ where
  ok : A → Result E A
  err : E → Result E A

infixl 5 ◌>>=◌
abbrev pub ◌>>=◌ : {E A B : Type 0} → Result E A → (A → Result E B) → Result E B
ok a >>= k = k a
err e >>= k = err e

-- Errors translated, values kept.
abbrev pub map_err : {E F A : Type 0} → (E → F) → Result E A → Result F A
map_err f (ok a) = ok a
map_err f (err e) = err (f e)

-- Two chains that agree step by step, up to the translation of errors.
pub bind_agrees :
    {E F A B : Type 0} (f : E → F) (m : Result E A) (h : A → Result F B) (k : A → Result E B)
    → ((a : A) → h a ≡ map_err f (k a))
    → (map_err f m >>= h) ≡ map_err f (m >>= k)
bind_agrees f (ok a) h k e = e a
bind_agrees f (err x) h k e = refl
