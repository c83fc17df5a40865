-- ===== src/SecretRef.antt =====
-- internal/secretref/secretref.go: references to secrets, and who resolves them.
-- A resolver is its scheme, whether it is available, and what it makes of a reference.
pub mod Plain
mod Tests
use auk.Base.{
  Bool, true, false, not, ◌&&◌, ◌||◌, List, [], ◌∷◌, ◌++◌, Option, none, some, if◌then◌else◌, ◌==◌,
  any,
}
use auk.Base.Text.{Bytes, codes, bytes_eq, bytes_lt, is_blank, has_prefix, strip_prefix}
use auk.Base.Result.{Result, ok, err}

pub record Resolver : Type 0 where
  pub scheme : Bytes
  pub unavailable : Option Bytes
  pub resolves : Bytes → Result Bytes Bytes

-- `Registry`, in the order of the schemes
abbrev pub Registry : Type 0
Registry = List Resolver

-- `r.by[s]`
unfoldable pub lookup : Bytes → Registry → Option Resolver
lookup s [] = none
lookup s (r ∷ registry) = if bytes_eq r.scheme s then some r else lookup s registry

abbrev pub insert : Resolver → Registry → Registry
insert res [] = res ∷ []
insert res (r ∷ registry) =
    if bytes_lt res.scheme r.scheme then res ∷ r ∷ registry else r ∷ insert res registry

abbrev pub unless_there : Option Resolver → Resolver → Registry → Option Registry
unless_there none res registry = some (insert res registry)
unless_there (some _) res registry = none

-- `Register`; `none` is its panic
unfoldable pub register : Resolver → Registry → Option Registry
unfolding lookup
register res registry = unless_there (lookup res.scheme registry) res registry

-- `Schemes`
unfoldable pub schemes : Registry → List Bytes
schemes [] = []
schemes (r ∷ registry) = r.scheme ∷ schemes registry

-- what stands before the first "://"; empty where there is none
unfoldable pub before_sep : Bytes → Option Bytes
unfolding strip_prefix
before_sep [] = none
before_sep (c ∷ s) =
    let rest = before_sep s in
    if has_prefix (c ∷ s) (codes "://")
    then some []
    else elim rest [ none ↦ none | some scheme ↦ some (c ∷ scheme) ]

-- `strings.ContainsAny(scheme, " \t/\\")`
abbrev pub is_foreign : Bytes → Bool
is_foreign scheme = any (λ c. c == b' ' || (c == 9 || (c == b'/' || c == 92))) scheme

abbrev pub scheme_or_blank : Option Bytes → Bytes
scheme_or_blank none = []
scheme_or_blank (some scheme) = if is_foreign scheme then [] else scheme

-- `schemeOf`
unfoldable pub scheme_of : Bytes → Bytes
unfolding before_sep
scheme_of value = scheme_or_blank (before_sep value)

abbrev pub is_some : Option Resolver → Bool
is_some none = false
is_some (some _) = true

-- `IsRef`
unfoldable pub is_ref : Registry → Bytes → Bool
unfolding lookup scheme_of
is_ref registry value =
    if is_blank (scheme_of value) then false else is_some (lookup (scheme_of value) registry)

abbrev pub with_scheme : Bytes → Result Bytes Bytes → Result Bytes Bytes
with_scheme scheme (ok v) = ok v
with_scheme scheme (err e) = err (scheme ++ codes ": " ++ e)

abbrev pub resolved_by : Bytes → Bytes → Option Resolver → Result Bytes Bytes
resolved_by scheme value none = ok value
resolved_by scheme value (some r) = elim r.unavailable [
  | none ↦ with_scheme scheme (r.resolves value)
  | some e ↦ err e
]

-- `Resolve`
unfoldable pub resolve : Registry → Bytes → Result Bytes Bytes
unfolding lookup scheme_of
resolve registry value =
    if is_blank (scheme_of value)
    then ok value
    else resolved_by (scheme_of value) value (lookup (scheme_of value) registry)
