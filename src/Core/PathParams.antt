-- ===== src/Core/PathParams.antt =====
-- internal/core/pathparams.go: `:name` placeholders in the path of a URL.
pub mod Escape
pub mod Cut
pub mod Segments
pub mod Absolute
mod Tests
use auk.Base.{
  ℕ, ◌+◌, ◌-◌, ◌*◌, ◌/◌, ◌%◌, Bool, true, false, not, ◌&&◌, ◌||◌, List, [], ◌∷◌, ◌++◌, Option, none,
  some, ltb, leb, ◌==◌, if◌then◌else◌, get_elem?, ◌>>=◌,
}
use auk.Core.Model.{ProtocolKind, http, graphql, KeyValue}
use auk.Base.Text.{Bytes, codes, bytes_eq, strip_prefix, cut_byte, split, join}

abbrev pub is_letter : ℕ → Bool
is_letter c = (leb b'a' c && leb c b'z') || ((leb b'A' c && leb c b'Z') || c == b'_')

abbrev pub is_digit : ℕ → Bool
is_digit c = leb b'0' c && leb c b'9'

unfoldable pub name_rest : Bytes → Bool
name_rest [] = true
name_rest (c ∷ s) = (is_letter c || is_digit c) && name_rest s

-- `pathParamName`
unfoldable pub path_param_name : Bytes → Option Bytes
unfolding name_rest
path_param_name [] = none
path_param_name (c ∷ []) = none
path_param_name (c ∷ d ∷ s) =
    if c == b':' && (is_letter d && name_rest s) then some (d ∷ s) else none

abbrev pub hex : Bytes
hex = codes "0123456789ABCDEF"

abbrev pub is_unreserved : ℕ → Bool
is_unreserved c =
    ((leb b'a' c && leb c b'z') || ((leb b'A' c && leb c b'Z') || (leb b'0' c && leb c b'9')))
    || (c == b'-' || (c == b'.' || (c == b'_' || c == b'~')))

-- `hex[d]`; a byte has two hexadecimal digits, so the index is in range
unfoldable pub hex_digit : ℕ → ℕ
hex_digit d = if ltb d 10 then b'0' + d else b'A' + (d - 10)

unfoldable pub escape_path_segment : Bytes → Bytes
unfolding hex_digit
escape_path_segment [] = []
escape_path_segment (c ∷ v) =
    let rest = escape_path_segment v in
    if is_unreserved c then c ∷ rest else b'%' ∷ hex_digit (c / 16) ∷ hex_digit (c % 16) ∷ rest

abbrev pub is_empty : Bytes → Bool
is_empty [] = true
is_empty (_ ∷ _) = false

abbrev is_none : List KeyValue → Bool
is_none [] = true
is_none (_ ∷ _) = false

-- a row enters the map, unless it has no key or a later row has its place
abbrev pub latest : KeyValue → Bytes → Option Bytes → Option Bytes
latest p name (some v) = some v
latest p name none = if bytes_eq p.key name && not (is_empty p.key) then some p.value else none

-- `values[name]`
unfoldable pub value_for : Bytes → List KeyValue → Option Bytes
value_for name [] = none
value_for name (p ∷ params) = latest p name (value_for name params)

abbrev pub filled : Bytes → Option Bytes → Bytes
filled seg none = seg
filled seg (some v) = if is_empty v then seg else escape_path_segment v

abbrev pub placed : List KeyValue → Bytes → Option Bytes → Bytes
placed params seg none = seg
placed params seg (some name) = filled seg (value_for name params)

-- one round of the loop over the segments
unfoldable pub substitute : List KeyValue → Bytes → Bytes
unfolding path_param_name value_for bytes_eq escape_path_segment
substitute params seg = placed params seg (path_param_name seg)

abbrev pub substitute_all : List KeyValue → List Bytes → List Bytes
substitute_all params [] = []
substitute_all params (seg ∷ segs) = substitute params seg ∷ substitute_all params segs

-- a text as what is before a byte and what starts with it; without that byte, all and nothing
unfoldable pub split_at : ℕ → Bytes → Bytes × Bytes
split_at c [] = ([], [])
split_at c (x ∷ s) = let rest = split_at c s in if x == c then ([], x ∷ s) else (x ∷ rest.0, rest.1)

abbrev pub onto_scheme : ℕ → Option (Bytes × Bytes) → Option (Bytes × Bytes)
onto_scheme x none = none
onto_scheme x (some (scheme, rest)) = some (x ∷ scheme, rest)

abbrev pub scheme_or : Option Bytes → Option (Bytes × Bytes) → Option (Bytes × Bytes)
scheme_or (some rest) later = some (codes "://", rest)
scheme_or none later = later

-- what ends with the first "://", and what is behind it
unfoldable pub split_scheme : Bytes → Option (Bytes × Bytes)
split_scheme [] = none
split_scheme (x ∷ s) =
    scheme_or (strip_prefix (codes "://") (x ∷ s)) (onto_scheme x (split_scheme s))

abbrev pub onto : Bytes → Bytes × Bytes → Bytes × Bytes
onto before (head, path) = (before ++ head, path)

-- the three cases of the authority: behind a scheme, behind "//", or before the first slash
abbrev pub authority_of : Option (Bytes × Bytes) → Option Bytes → Bytes → Bytes × Bytes
authority_of (some (scheme, rest)) relative base = onto scheme (split_at b'/' rest)
authority_of none (some rest) base = onto (codes "//") (split_at b'/' rest)
authority_of none none base = split_at b'/' base

-- `base[:pathStart]` and `base[pathStart:]`; without a path, that is empty
unfoldable pub split_authority : Bytes → Bytes × Bytes
unfolding split_at split_scheme strip_prefix
split_authority base = authority_of (split_scheme base) (strip_prefix (codes "//") base) base

abbrev pub has_path_params : ProtocolKind → Bool
has_path_params http = true
has_path_params graphql = true
has_path_params _ = false

-- the substitution in a URL split into its base and its query
abbrev pub fill_path : List KeyValue → Bytes → Bytes × Bytes → Bytes → Bytes
fill_path params url (head, []) query = url
fill_path params url (head, c ∷ path) query =
    head ++ join b'/' (substitute_all params (split b'/' (c ∷ path))) ++ query

-- `applyPathParams`
unfoldable pub apply_path_params : ProtocolKind → Bytes → List KeyValue → Bytes
unfolding split_authority split_at substitute split join
apply_path_params protocol url params =
    let cut = split_at b'?' url in
    if not (has_path_params protocol) || is_none params
    then url
    else fill_path params url (split_authority cut.0) cut.1
