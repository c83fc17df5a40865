-- ===== src/MockServer/Path/Normal.antt =====
-- `ExtractPath` and `normalizePath`: every result is in one normal form.
use auk.Base.{
  ℕ, ◌≡◌, ◌≢◌, ◌⊎◌, inl, inr, refl, ap, ◌∙◌, sym, false, ◌&&◌, length, ltb, [], ◌∷◌, Option, none,
  some, arith, ◌==◌, Bool-cases, All,
}
use mathlib.Core.Path.{subst}
use auk.Base.Text.{Bytes, codes, has_prefix, strip_prefix}
use auk.Base.Text.Space.{trim_space}
use auk.MockServer.Path.{
  before_byte, from_slash, or_else, behind_scheme, path_of, path_part, trim_slashes, slash_if_empty,
  normalize_path, extract_path, is_empty, rooted,
}

trim_slashes_idempotent : (s : Bytes) → trim_slashes (trim_slashes s) ≡ trim_slashes s
unfolding trim_slashes
trim_slashes_idempotent [] = refl
trim_slashes_idempotent (c ∷ s) =
    let again = trim_slashes_idempotent s in
    elim (Bool-cases (is_empty (trim_slashes s) && c == b'/')) [
      | inl gone ↦ rw gone refl
      | inr stays ↦ rw stays (rw again (rw stays refl))
    ]

-- a rooted text that `TrimRight` leaves alone
abbrev Trimmed : Bytes → Type 0
Trimmed p = (r : Bytes) × (p ≡ b'/' ∷ r) × (normalize_path p ≡ p)

normalize-Trimmed : (r : Bytes) → trim_slashes (b'/' ∷ r) ≡ b'/' ∷ r → Trimmed (b'/' ∷ r)
unfolding normalize_path
normalize-Trimmed r e = (
  r,
  refl,
  elim (Bool-cases (ltb 1 (length (b'/' ∷ r)))) [
    | inl long ↦ rw (long, e) refl
    | inr short ↦ rw short refl
  ],
)

root-Trimmed : Trimmed (codes "/")
unfolding normalize_path trim_slashes
root-Trimmed = ([], refl, refl)

-- What is left of a rooted text is rooted, or nothing.
trim_slashes_rooted :
    (t : Bytes)
    → (trim_slashes (b'/' ∷ t) ≡ []) ⊎ ((r : Bytes) × (trim_slashes (b'/' ∷ t) ≡ b'/' ∷ r))
unfolding trim_slashes
trim_slashes_rooted t = elim (Bool-cases (is_empty (trim_slashes t))) [
  | inl gone ↦ inl (rw gone refl)
  | inr stays ↦ inr (trim_slashes t, rw stays refl)
]

shortened-Trimmed : (t : Bytes) → Trimmed (slash_if_empty (trim_slashes (b'/' ∷ t)))
shortened-Trimmed t = elim (trim_slashes_rooted t) [
  | inl gone ↦ rw gone root-Trimmed
  | inr (r, e) ↦
      rw e
        (normalize-Trimmed r (sym (ap trim_slashes e) ∙ (trim_slashes_idempotent (b'/' ∷ t) ∙ e)))
]

short-Trimmed : (t : Bytes) → ltb 1 (length (b'/' ∷ t)) ≡ false → Trimmed (b'/' ∷ t)
short-Trimmed [] h = root-Trimmed
short-Trimmed (x ∷ t) h = ground arith

rooted_at : (c : ℕ) (p : Bytes) → (t : Bytes) × (rooted (c ∷ p) ≡ b'/' ∷ t)
unfolding strip_prefix
rooted_at c p = elim (Bool-cases (b'/' == c)) [
  | inl same ↦ (p, ground arith)
  | inr other ↦ (c ∷ p, ground arith)
]

pub normalize_path-Trimmed : (p : Bytes) → Trimmed (normalize_path p)
unfolding normalize_path
normalize_path-Trimmed [] = root-Trimmed
normalize_path-Trimmed (c ∷ p) =
    let (t, e) = rooted_at c p in
    rw e (elim (Bool-cases (ltb 1 (length (b'/' ∷ t)))) [
      | inl long ↦ rw long (shortened-Trimmed t)
      | inr short ↦ rw short (short-Trimmed t short)
    ])

module _ (P : ℕ → Type 0) where
  slash_if_empty-All : (s : Bytes) → P b'/' → All P s → All P (slash_if_empty s)
  slash_if_empty-All [] k h = (k, tt)
  slash_if_empty-All (x ∷ s) k h = h

  strip_prefix-All : (p s rest : Bytes) → strip_prefix p s ≡ some rest → All P s → All P rest
  unfolding strip_prefix
  strip_prefix-All [] s rest e h = subst (All P) (cc e) h
  strip_prefix-All (x ∷ p) [] rest e h = cc
  strip_prefix-All (x ∷ p) (y ∷ s) rest e h = elim (Bool-cases (x == y)) [
    | inl same ↦ strip_prefix-All p s rest (rw same at e) h.1
    | inr other ↦ cc (rw other at e)
  ]

  from_slash-All : (s : Bytes) → All P s → All P (from_slash s)
  unfolding from_slash
  from_slash-All [] h = h
  from_slash-All (x ∷ s) h = let rest = from_slash-All s h.1 in ground arith

  trim_slashes-All : (s : Bytes) → All P s → All P (trim_slashes s)
  unfolding trim_slashes
  trim_slashes-All [] h = h
  trim_slashes-All (x ∷ s) h = let rest = trim_slashes-All s h.1 in ground arith

  -- the bytes of an optional text
  abbrev AllIn : Option Bytes → Type 0
  AllIn none = Unit
  AllIn (some s) = All P s

  strip_prefix-AllIn : (p s : Bytes) → All P s → AllIn (strip_prefix p s)
  strip_prefix-AllIn p s h = go (strip_prefix p s) refl
    where
      go : (o : Option Bytes) → strip_prefix p s ≡ o → AllIn o
      go none e = tt
      go (some r) e = strip_prefix-All p s r e h

  or_else-AllIn : (o later : Option Bytes) → AllIn o → AllIn later → AllIn (or_else o later)
  or_else-AllIn none later h k = k
  or_else-AllIn (some r) later h k = h

  behind_scheme-AllIn : (s : Bytes) → All P s → AllIn (behind_scheme s)
  unfolding behind_scheme
  behind_scheme-AllIn [] h = tt
  behind_scheme-AllIn (x ∷ s) h =
      or_else-AllIn _ _ (strip_prefix-AllIn (codes "://") (x ∷ s) h)
        (elim (Bool-cases (x == b'/')) [
          | inl slash ↦ rw slash tt
          | inr other ↦ rw other (behind_scheme-AllIn s h.1)
        ])

  path_of-All :
      (o p : Option Bytes) (s : Bytes) → AllIn o → AllIn p → All P s → All P (path_of o p s)
  path_of-All (some r) p s h k l = from_slash-All r h
  path_of-All none (some r) s h k l = from_slash-All r k
  path_of-All none none s h k l = from_slash-All s l

  path_part-All : (s : Bytes) → All P s → All P (path_part s)
  unfolding path_part
  path_part-All s h =
      path_of-All _ _ s (behind_scheme-AllIn s h) (strip_prefix-AllIn (codes "//") s h) h

  normalize_path-All : (p : Bytes) → P b'/' → All P p → All P (normalize_path p)
  unfolding normalize_path
  normalize_path-All [] k h = (k, tt)
  normalize_path-All (c ∷ p) k h = elim (Bool-cases (ltb 1 (length (rooted (c ∷ p))))) [
    | inl long ↦ rw long (slash_if_empty-All _ k (trim_slashes-All _ rooted-All))
    | inr short ↦ rw short (slash_if_empty-All _ k rooted-All)
  ]
    where
      rooted-All : All P (rooted (c ∷ p))
      rooted-All = elim (Bool-cases (has_prefix (c ∷ p) (codes "/"))) [
        | inl has ↦ rw has h
        | inr lacks ↦ rw lacks (k, h)
      ]

before_byte-lacks : (c : ℕ) (s : Bytes) → All (λ x. x ≢ c) (before_byte c s)
unfolding before_byte
before_byte-lacks c [] = tt
before_byte-lacks c (x ∷ s) = let rest = before_byte-lacks c s in ground (arith, rest)

before_byte-All : (P : ℕ → Type 0) (c : ℕ) (s : Bytes) → All P s → All P (before_byte c s)
unfolding before_byte
before_byte-All P c [] h = tt
before_byte-All P c (x ∷ s) h = let rest = before_byte-All P c s h.1 in ground arith

abbrev IsPathByte : ℕ → Type 0
IsPathByte c = (c ≢ b'?') × (c ≢ b'#')

All-both : (P Q : ℕ → Type 0) (s : Bytes) → All P s → All Q s → All (λ c. P c × Q c) s
All-both P Q [] h k = tt
All-both P Q (x ∷ s) (h, hs) (k, ks) = ((h, k), All-both P Q s hs ks)

before_byte-IsPathByte : (s : Bytes) → All IsPathByte (before_byte b'?' (before_byte b'#' s))
before_byte-IsPathByte s =
    All-both (λ c. c ≢ b'?') (λ c. c ≢ b'#') _ (before_byte-lacks b'?' (before_byte b'#' s))
      (before_byte-All (λ c. c ≢ b'#') b'?' _ (before_byte-lacks b'#' s))

-- The path of every URL text starts with a slash, has neither query nor fragment, and is its own
-- normal form, so that its display form and its compiled segments are of one path.
pub extract_path-IsRoutable :
    (raw : Bytes)
    → ((rest : Bytes) × (extract_path raw ≡ b'/' ∷ rest))
      × (normalize_path (extract_path raw) ≡ extract_path raw)
      × All (λ c. (c ≢ b'?') × (c ≢ b'#')) (extract_path raw)
unfolding extract_path
extract_path-IsRoutable raw =
    let cut = before_byte b'#' (trim_space raw) in
    let (rest, starts, normal) = normalize_path-Trimmed (path_part (before_byte b'?' cut)) in
    (
      (rest, starts),
      normal,
      normalize_path-All IsPathByte (path_part (before_byte b'?' cut)) (omega arith, omega arith)
          (path_part-All IsPathByte (before_byte b'?' cut)
            (before_byte-IsPathByte (trim_space raw))),
    )
