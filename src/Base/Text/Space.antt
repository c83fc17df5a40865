-- ===== src/Base/Text/Space.antt =====
-- `strings.TrimSpace`: the white space of Unicode, in UTF-8.
use Prim.Native.Nat.{ℕ, ◌≤◌}
use mathlib.Core.Path.{◌≡◌, refl}
use mathlib.Core.Bool.{Bool, true, false, ◌&&◌, ◌||◌}
use mathlib.Core.List.{[], ◌∷◌, reverse, reverse-reverse, reverse-cons}
use native.Mathlib.Omega.{arith}
use auk.Base.Tests.{leb, ◌==◌, if◌then◌else◌}
use auk.Base.Lists.{All, All-append}
use auk.Base.Text.{Bytes}

abbrev one_byte : ℕ → Bool
one_byte c = (leb 9 c && leb c 13) || c == 32

abbrev two_bytes : ℕ → ℕ → Bool
two_bytes c d = c == 0xc2 && (d == 0x85 || d == 0xa0)

abbrev three_bytes : ℕ → ℕ → ℕ → Bool
three_bytes c d e =
    (c == 0xe1 && (d == 0x9a && e == 0x80))
    || (c == 0xe2
        && (d == 0x80 && ((leb 0x80 e && leb e 0x8a) || (e == 0xa8 || (e == 0xa9 || e == 0xaf)))))
    || (c == 0xe2 && (d == 0x81 && e == 0x9f))
    || (c == 0xe3 && (d == 0x80 && e == 0x80))

-- Strip leading space characters; `back` reads the bytes of a character from its end.
unfoldable pub strip_spaces : Bool → Bytes → Bytes
strip_spaces back [] = []
strip_spaces back (c ∷ []) = if one_byte c then [] else c ∷ []
strip_spaces back (c ∷ d ∷ []) =
    let one = strip_spaces back (d ∷ []) in
    if one_byte c
    then one
    else if (if back then two_bytes d c else two_bytes c d)
    then []
    else c ∷ d ∷ []
strip_spaces back (c ∷ d ∷ e ∷ s) =
    let one = strip_spaces back (d ∷ e ∷ s) in
    let two = strip_spaces back (e ∷ s) in
    let three = strip_spaces back s in
    if one_byte c
    then one
    else if (if back then two_bytes d c else two_bytes c d)
    then two
    else if (if back then three_bytes e d c else three_bytes c d e)
    then three
    else c ∷ d ∷ e ∷ s

unfoldable pub trim_space : Bytes → Bytes
unfolding strip_spaces
trim_space s = reverse (strip_spaces true (reverse (strip_spaces false s)))

-- A printable ASCII byte that is no space.
abbrev pub IsPlain : ℕ → Type 0
IsPlain c = (33 ≤ c) × (c ≤ 126)

strip_spaces-IsPlain : (back : Bool) (s : Bytes) → All IsPlain s → strip_spaces back s ≡ s
unfolding strip_spaces
strip_spaces-IsPlain back [] h = refl
strip_spaces-IsPlain back (c ∷ []) h = ground arith
strip_spaces-IsPlain false (c ∷ d ∷ []) (p, (q, h)) = ground arith
strip_spaces-IsPlain true (c ∷ d ∷ []) (p, (q, h)) = ground arith
strip_spaces-IsPlain false (c ∷ d ∷ e ∷ s) (p, (q, (r, h))) = ground arith
strip_spaces-IsPlain true (c ∷ d ∷ e ∷ s) (p, (q, (r, h))) = ground arith

All-reverse : (s : Bytes) → All IsPlain s → All IsPlain (reverse s)
All-reverse [] h = tt
All-reverse (c ∷ s) h =
    rw reverse-cons (All-append IsPlain (reverse s) (c ∷ []) (All-reverse s h.1) (h.0, tt))

-- Text with no space in it is left alone.
pub trim_space-IsPlain : (s : Bytes) → All IsPlain s → trim_space s ≡ s
unfolding trim_space
trim_space-IsPlain s h =
    rw (strip_spaces-IsPlain false s h)
      (rw (strip_spaces-IsPlain true (reverse s) (All-reverse s h)) (reverse-reverse s))
