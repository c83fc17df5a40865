-- ===== src/Base/Text/Split.antt =====
-- Cutting texts: at a byte, at every separator, behind a prefix.
use Prim.Native.Nat.{ℕ}
use mathlib.Core.Path.{◌≡◌, refl, ap, ◌∙◌}
use mathlib.Core.Logic.{◌≢◌, inl, inr}
use mathlib.Core.Bool.{false}
use mathlib.Core.Option.{some}
use mathlib.Core.List.{List, [], ◌∷◌, ◌++◌}
use native.Mathlib.Omega.{arith}
use auk.Base.Tests.{◌==◌, Bool-cases, ==_iff, ==_self}
use auk.Base.Lists.{All}
use auk.Base.Text.{Bytes, split, join, onto_first, strip_prefix}

-- The byte does not stand in the text.
abbrev pub Lacks : ℕ → Bytes → Type 0
Lacks sep = All (λ c. c ≢ sep)

onto_first-Lacks :
    (sep c : ℕ) (parts : List Bytes)
    → c ≢ sep
    → All (Lacks sep) parts
    → All (Lacks sep) (onto_first c parts)
onto_first-Lacks sep c [] ne h = ((ne, tt), tt)
onto_first-Lacks sep c (part ∷ parts) ne (h, hs) = ((ne, h), hs)

pub split-Lacks : (sep : ℕ) (s : Bytes) → All (Lacks sep) (split sep s)
unfolding split
split-Lacks sep [] = (tt, tt)
split-Lacks sep (c ∷ s) = elim (Bool-cases (c == sep)) [
  | inl here ↦ rw here (tt, split-Lacks sep s)
  | inr other ↦ rw other (onto_first-Lacks sep c (split sep s) (ground arith) (split-Lacks sep s))
]

split_last : (sep : ℕ) (p : Bytes) → Lacks sep p → split sep p ≡ p ∷ []
unfolding split
split_last sep [] h = refl
split_last sep (c ∷ p) (ne, h) = let other = ne_test c sep ne in rw (other, split_last sep p h) refl
  where
    ne_test : (c d : ℕ) → c ≢ d → (c == d) ≡ false
    ne_test c d ne = ground arith

split_first :
    (sep : ℕ) (p rest : Bytes) → Lacks sep p → split sep (p ++ sep ∷ rest) ≡ p ∷ split sep rest
unfolding split
split_first sep [] rest h = rw (==_self sep) refl
split_first sep (c ∷ p) rest (ne, h) =
    let other = ne_test c sep ne in rw (other, split_first sep p rest h) refl
  where
    ne_test : (c d : ℕ) → c ≢ d → (c == d) ≡ false
    ne_test c d ne = ground arith

-- Joined parts that lack the separator come apart again.
pub split-join :
    (sep : ℕ) (part : Bytes) (parts : List Bytes)
    → All (Lacks sep) (part ∷ parts)
    → split sep (join sep (part ∷ parts)) ≡ part ∷ parts
unfolding join
split-join sep p [] (h, _) = split_last sep p h
split-join sep p (q ∷ ps) (h, hs) =
    split_first sep p (join sep (q ∷ ps)) h ∙ ap (◌∷◌ p) (split-join sep q ps hs)

pub strip_prefix-append : (p s rest : Bytes) → strip_prefix p s ≡ some rest → p ++ rest ≡ s
unfolding strip_prefix
strip_prefix-append [] s rest e = cc e
strip_prefix-append (x ∷ p) [] rest e = cc e
strip_prefix-append (x ∷ p) (y ∷ s) rest e = elim (Bool-cases (x == y)) [
  | inl same ↦ cc ((==_iff x y).0 same, strip_prefix-append p s rest (rw same at e))
  | inr other ↦ cc (rw other at e)
]
