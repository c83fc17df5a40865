-- ===== src/Updater/Version.antt =====
-- internal/updater/version.go: semantic versions, parsed and compared.
-- Errors carry no text here; Go's -1, 0 and +1 are `less`, `same` and `more`.
pub mod Order
pub mod Precedence
pub mod Higher
pub mod Newer
use auk.Base.{
  ℕ, ◌<◌, Bool, true, false, not, ◌&&◌, ◌||◌, List, [], ◌∷◌, Option, none, some, ◌==◌,
  if◌then◌else◌, ◌>>=◌, length, any,
}
use auk.Base.Int.{ℤ, pos, negsuc, lt_int, atoi}
use auk.Base.Text.{Bytes, codes, bytes_lt, trim_prefix, cut_byte, split}
use auk.Base.Text.Space.{trim_space}

pub record Version : Type 0 where
  pub major : ℤ
  pub minor : ℤ
  pub patch : ℤ
  pub pre : List Bytes

abbrev pub is_empty {ℓ} : {A : Type ℓ} → List A → Bool
is_empty [] = true
is_empty (_ ∷ _) = false

-- the text before the first `c`, or all of it
abbrev pub before : ℕ → Bytes → Bytes
before c s = elim (cut_byte c s) [ none ↦ s | some (head, _) ↦ head ]

-- one component: `Atoi`, and no negative number
unfoldable pub component : Bytes → Option ℤ
unfolding atoi
component part = elim (atoi part) [
  | none ↦ none
  | some n ↦ elim n [ pos k ↦ some (pos k) | negsuc _ ↦ none ]
]

-- MAJOR.MINOR.PATCH
unfoldable pub parse_core : List Bytes → List Bytes → Option Version
unfolding component
parse_core (a ∷ b ∷ c ∷ []) pre = component a >>= λ major. component b >>= λ minor.
    component c >>= λ patch.
    some (record { major = major; minor = minor; patch = patch; pre = pre })
parse_core _ pre = none

-- behind the build metadata's removal
unfoldable pub parse_release : Bytes → Option Version
unfolding parse_core split cut_byte
parse_release raw = elim (cut_byte b'-' raw) [
  | none ↦ parse_core (split b'.' raw) []
  | some (core, pre) ↦
      if is_empty pre || any is_empty (split b'.' pre)
      then none
      else parse_core (split b'.' core) (split b'.' pre)
]

abbrev pub strip_v : Bytes → Bytes
strip_v s = trim_prefix (trim_prefix (trim_space s) (codes "v")) (codes "V")

unfoldable pub parse_version : Bytes → Option Version
unfolding parse_release
parse_version s = if is_empty (strip_v s) then none else parse_release (before b'+' (strip_v s))

pub data Cmp : Type 0 where
  less same more : Cmp

unfoldable pub cmp_int : ℤ → ℤ → Cmp
cmp_int a b = if lt_int a b then less else if lt_int b a then more else same

-- `strings.Compare`
unfoldable pub cmp_text : Bytes → Bytes → Cmp
unfolding bytes_lt
cmp_text a b = if bytes_lt a b then less else if bytes_lt b a then more else same

-- `if c := …; c != 0 { return c }`, then `rest`
abbrev pub then_cmp : Cmp → Cmp → Cmp
then_cmp less rest = less
then_cmp same rest = rest
then_cmp more rest = more

-- one round of the loop of `comparePre`, on `toNum` of both identifiers
abbrev pub cmp_num : Option ℤ → Option ℤ → Bytes → Bytes → Cmp
cmp_num (some m) (some n) x y = cmp_int m n
cmp_num (some m) none x y = less
cmp_num none (some n) x y = more
cmp_num none none x y = cmp_text x y

unfoldable pub cmp_id : Bytes → Bytes → Cmp
unfolding atoi cmp_int cmp_text
cmp_id x y = cmp_num (atoi x) (atoi y) x y

-- the loop over the shorter list, with what is returned behind it
unfoldable pub pre_loop : Cmp → List Bytes → List Bytes → Cmp
pre_loop final [] b = final
pre_loop final (x ∷ a) [] = final
pre_loop final (x ∷ a) (y ∷ b) = then_cmp (cmp_id x y) (pre_loop final a b)

unfoldable pub compare_pre : List Bytes → List Bytes → Cmp
unfolding pre_loop cmp_id
compare_pre a b = pre_loop (cmp_int (pos (length a)) (pos (length b))) a b

abbrev pub by_pre : List Bytes → List Bytes → Cmp
by_pre [] [] = same
by_pre (_ ∷ _) [] = less
by_pre [] (_ ∷ _) = more
by_pre (x ∷ a) (y ∷ b) = compare_pre (x ∷ a) (y ∷ b)

unfoldable pub compare_version : Version → Version → Cmp
compare_version a b =
    then_cmp (cmp_int a.major b.major)
      (then_cmp (cmp_int a.minor b.minor) (then_cmp (cmp_int a.patch b.patch) (by_pre a.pre b.pre)))

abbrev pub is_zero : ℤ → Bool
is_zero (pos n) = n == 0
is_zero (negsuc n) = false

unfoldable pub is_dev_version : Bytes → Bool
is_dev_version s = elim (parse_version s) [
  | none ↦ true
  | some v ↦ is_zero v.major && (is_zero v.minor && is_zero v.patch)
]

abbrev pub is_more : Cmp → Bool
is_more more = true
is_more _ = false

unfoldable pub is_newer : Bytes → Bytes → Bool
is_newer latest current = if is_dev_version current then false else elim (parse_version latest) [
  | none ↦ false
  | some l ↦ elim (parse_version current) [ none ↦ false | some c ↦ is_more (compare_version l c) ]
]
