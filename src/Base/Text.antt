-- ===== src/Base/Text.antt =====
-- Go strings: byte sequences, compared and searched as the package `strings` does.
pub mod Order
pub mod Space
pub mod Split
use Prim.Native.Char.{code}
use Prim.Native.String.{String}
use Prim.Native.Nat.{ℕ, zero, suc, ◌-◌}
use mathlib.Core.Path.{◌≡◌, refl}
use mathlib.Core.Logic.{◌↔◌}
use mathlib.Core.Bool.{Bool, true, false, ◌&&◌, ◌||◌}
use mathlib.Core.Option.{Option, none, some}
use mathlib.Core.List.{List, [], ◌∷◌, ◌++◌}
use native.Mathlib.Omega.{arith}
use auk.Base.Lists.{length}
use auk.Base.Tests.{ltb, leb, ◌==◌, if◌then◌else◌}

abbrev pub Bytes : Type 0
Bytes = List ℕ

-- The bytes of an ASCII text.
abbrev pub codes : String → Bytes
codes String.[] = []
codes (String.◌∷◌ c s) = code c ∷ codes s

-- `a == b`
unfoldable pub bytes_eq : Bytes → Bytes → Bool
bytes_eq [] [] = true
bytes_eq [] (y ∷ ys) = false
bytes_eq (x ∷ xs) [] = false
bytes_eq (x ∷ xs) (y ∷ ys) = x == y && bytes_eq xs ys

pub bytes_eq_iff : (a b : Bytes) → (bytes_eq a b ≡ true) ↔ (a ≡ b)
unfolding bytes_eq
bytes_eq_iff [] [] = ground arith
bytes_eq_iff [] (y ∷ ys) = ground arith
bytes_eq_iff (x ∷ xs) [] = ground arith
bytes_eq_iff (x ∷ xs) (y ∷ ys) = ground (arith, bytes_eq_iff xs ys)

pub bytes_eq_self : (a : Bytes) → bytes_eq a a ≡ true
bytes_eq_self a = (bytes_eq_iff a a).1 refl

-- `a < b`, byte by byte
unfoldable pub bytes_lt : Bytes → Bytes → Bool
bytes_lt [] [] = false
bytes_lt [] (y ∷ ys) = true
bytes_lt (x ∷ xs) [] = false
bytes_lt (x ∷ xs) (y ∷ ys) = ltb x y || (x == y && bytes_lt xs ys)

-- `strings.HasPrefix(s, p)`, and what stands behind the prefix
unfoldable pub strip_prefix : Bytes → Bytes → Option Bytes
strip_prefix [] s = some s
strip_prefix (x ∷ p) [] = none
strip_prefix (x ∷ p) (y ∷ s) = if x == y then strip_prefix p s else none

abbrev pub has_prefix : Bytes → Bytes → Bool
has_prefix s p = elim (strip_prefix p s) [ none ↦ false | some _ ↦ true ]

-- `s == ""`
abbrev pub is_blank : Bytes → Bool
is_blank [] = true
is_blank (_ ∷ _) = false

-- `strings.Contains`
unfoldable pub contains_text : Bytes → Bytes → Bool
unfolding strip_prefix
contains_text [] t = has_prefix [] t
contains_text (c ∷ s) t =
    let later = contains_text s t in if has_prefix (c ∷ s) t then true else later

-- `strings.TrimPrefix(s, p)`
unfoldable pub trim_prefix : Bytes → Bytes → Bytes
unfolding strip_prefix
trim_prefix s p = elim (strip_prefix p s) [ none ↦ s | some rest ↦ rest ]

-- `strings.IndexByte(s, c)`, with the parts before and behind that byte
unfoldable pub cut_byte : ℕ → Bytes → Option (Bytes × Bytes)
cut_byte c [] = none
cut_byte c (x ∷ s) =
    let rest = cut_byte c s in
    if x == c
    then some ([], s)
    else elim rest [ none ↦ none | some (before, after) ↦ some (x ∷ before, after) ]

-- `strings.ToUpper`, of ASCII text
abbrev pub to_upper : Bytes → Bytes
to_upper [] = []
to_upper (c ∷ s) = (if leb b'a' c && leb c b'z' then c - 32 else c) ∷ to_upper s

-- one more byte in front of the first part
abbrev pub onto_first : ℕ → List Bytes → List Bytes
onto_first c [] = (c ∷ []) ∷ []
onto_first c (part ∷ parts) = (c ∷ part) ∷ parts

-- `strings.Split(s, sep)` for a separator of one byte
unfoldable pub split : ℕ → Bytes → List Bytes
split sep [] = [] ∷ []
split sep (c ∷ s) = if c == sep then [] ∷ split sep s else onto_first c (split sep s)

-- `strings.Join(parts, sep)` for a separator of one byte
unfoldable pub join : ℕ → List Bytes → Bytes
join sep [] = []
join sep (p ∷ []) = p
join sep (p ∷ q ∷ ps) = p ++ sep ∷ join sep (q ∷ ps)

-- `strings.ReplaceAll(s, old, new)` for a nonempty `old`; `skip` bytes are still to be passed over
unfoldable pub replace_all : ℕ → Bytes → Bytes → Bytes → Bytes
unfolding strip_prefix
replace_all skip old new [] = []
replace_all (suc skip) old new (c ∷ s) = replace_all skip old new s
replace_all zero old new (c ∷ s) =
    let hit = has_prefix (c ∷ s) old in
    let rest = replace_all (if hit then length old - 1 else 0) old new s in
    if hit then new ++ rest else c ∷ rest
