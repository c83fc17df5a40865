-- ===== src/Core/PathParams/Escape.antt =====
-- `escapePathSegment` against the percent-decoding of RFC 3986.
use auk.Base.{
  ℕ, ◌+◌, ◌-◌, ◌*◌, ◌/◌, ◌%◌, ◌<◌, ◌≤◌, ◌≡◌, ◌⊎◌, ◌∙◌, ap, inl, inr, refl, true, false, ◌&&◌, [],
  ◌∷◌, Option, none, some, arith, leb, ◌==◌, if◌then◌else◌, Bool-cases, All,
}
use auk.Base.Text.{Bytes}
use auk.Core.PathParams.{hex_digit, is_unreserved, escape_path_segment, path_param_name}

-- the value of a hexadecimal digit in upper case
abbrev pub hex_value : ℕ → Option ℕ
hex_value c =
    if leb b'0' c && leb c b'9'
    then some (c - b'0')
    else if leb b'A' c && leb c b'F'
    then some (c - b'A' + 10)
    else none

abbrev pub onto_text : Option ℕ → Option Bytes → Option Bytes
onto_text (some c) (some v) = some (c ∷ v)
onto_text _ _ = none

abbrev pub byte_of : Option ℕ → Option ℕ → Option ℕ
byte_of (some h) (some l) = some (16 * h + l)
byte_of _ _ = none

-- RFC 3986: a triplet `%HL` stands for a byte, and every other byte for itself.
unfoldable pub decode : Bytes → Option Bytes
decode [] = some []
decode (c ∷ []) = if c == b'%' then none else some (c ∷ [])
decode (c ∷ h ∷ []) =
    let rest = decode (h ∷ []) in if c == b'%' then none else onto_text (some c) rest
decode (c ∷ h ∷ l ∷ s) =
    let triplet = decode s in
    let plain = decode (h ∷ l ∷ s) in
    if c == b'%'
    then onto_text (byte_of (hex_value h) (hex_value l)) triplet
    else onto_text (some c) plain

hex_value-hex_digit : (d : ℕ) → d < 16 → hex_value (hex_digit d) ≡ some d
unfolding hex_digit
hex_value-hex_digit d h = ground arith

byte_of_halves :
    (c : ℕ)
    → c < 256
    → byte_of (hex_value (hex_digit (c / 16))) (hex_value (hex_digit (c % 16))) ≡ some c
byte_of_halves c h =
    rw (hex_value-hex_digit (c / 16) (omega arith), hex_value-hex_digit (c % 16) (omega arith))
      (ap some (omega arith))

decode_plain :
    (c : ℕ) (s : Bytes) → (c == b'%') ≡ false → decode (c ∷ s) ≡ onto_text (some c) (decode s)
unfolding decode
decode_plain c [] h = rw h refl
decode_plain c (x ∷ []) h = rw h refl
decode_plain c (x ∷ y ∷ s) h = rw h refl

unreserved-ne_percent : (c : ℕ) → is_unreserved c ≡ true → (c == b'%') ≡ false
unreserved-ne_percent c h = ground arith

-- Every text of bytes comes back from its escaped form.
pub decode-escape_path_segment :
    (v : Bytes) → All (λ c. c < 256) v → decode (escape_path_segment v) ≡ some v
unfolding escape_path_segment decode
decode-escape_path_segment [] h = refl
decode-escape_path_segment (c ∷ v) (lt, h) =
    let back = decode-escape_path_segment v h in
    elim (Bool-cases (is_unreserved c)) [
      | inl safe ↦ rw safe (
          decode_plain c (escape_path_segment v) (unreserved-ne_percent c safe)
          ∙ ap (onto_text (some c)) back)
      | inr escaped ↦ rw (escaped, byte_of_halves c lt, back) refl
    ]

-- RFC 3986, 2.3: a letter, a digit, or one of `-`, `.`, `_` and `~`
abbrev pub IsUnreserved : ℕ → Type 0
IsUnreserved c =
    ((b'A' ≤ c) × (c ≤ b'Z'))
    ⊎ (((b'a' ≤ c) × (c ≤ b'z'))
        ⊎ (((b'0' ≤ c) × (c ≤ b'9')) ⊎ ((c ≡ b'-') ⊎ ((c ≡ b'.') ⊎ ((c ≡ b'_') ⊎ (c ≡ b'~'))))))

-- a byte of a path segment with no meaning in the syntax of a URL
abbrev pub IsInert : ℕ → Type 0
IsInert c = IsUnreserved c ⊎ (c ≡ b'%')

is_unreserved-IsInert : (c : ℕ) → is_unreserved c ≡ true → IsInert c
is_unreserved-IsInert c h = ground arith

hex_digit-IsInert : (d : ℕ) → d < 16 → IsInert (hex_digit d)
unfolding hex_digit
hex_digit-IsInert d h = ground arith

pub escape_path_segment-IsInert :
    (v : Bytes) → All (λ c. c < 256) v → All IsInert (escape_path_segment v)
unfolding escape_path_segment
escape_path_segment-IsInert [] h = tt
escape_path_segment-IsInert (c ∷ v) (lt, h) =
    let rest = escape_path_segment-IsInert v h in
    elim (Bool-cases (is_unreserved c)) [
      | inl safe ↦ rw safe (is_unreserved-IsInert c safe, rest)
      | inr escaped ↦ rw escaped (
        inr refl,
        (
          hex_digit-IsInert (c / 16) (omega arith),
          (hex_digit-IsInert (c % 16) (omega arith), rest),
        ),
      )
    ]

inert_name : (s : Bytes) → All IsInert s → path_param_name s ≡ none
unfolding path_param_name
inert_name [] h = refl
inert_name (c ∷ []) h = refl
inert_name (c ∷ d ∷ s) (h, _) = ground arith

-- The escaped form of a byte text has only letters, digits, `-`, `.`, `_`, `~` and percent signs, it
-- is no placeholder, and it decodes by RFC 3986 to the text.
pub escape_path_segment_lem :
    (v : Bytes)
    → All (λ c. c < 256) v
    → All IsInert (escape_path_segment v)
      × (path_param_name (escape_path_segment v) ≡ none)
      × (decode (escape_path_segment v) ≡ some v)
escape_path_segment_lem v h = (
  escape_path_segment-IsInert v h,
  inert_name (escape_path_segment v) (escape_path_segment-IsInert v h),
  decode-escape_path_segment v h,
)
