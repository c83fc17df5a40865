-- ===== src/MockServer/Path.antt =====
-- internal/mockserver/route.go: the path of a URL, its normal form and its segments.
pub mod Normal
use auk.Base.{
  ℕ, Bool, true, false, ◌&&◌, List, [], ◌∷◌, Option, none, some, ltb, ◌==◌, if◌then◌else◌, length,
}
use auk.Base.Text.{Bytes, codes, bytes_eq, has_prefix, strip_prefix, trim_prefix, split}
use auk.Base.Text.Space.{trim_space}

abbrev pub is_empty : Bytes → Bool
is_empty [] = true
is_empty (_ ∷ _) = false

-- the text before the first `c`, or all of it
unfoldable pub before_byte : ℕ → Bytes → Bytes
before_byte c [] = []
before_byte c (x ∷ s) = if x == c then [] else x ∷ before_byte c s

-- the text from the first `/` on; without one, none
unfoldable pub from_slash : Bytes → Bytes
from_slash [] = []
from_slash (x ∷ s) = if x == b'/' then x ∷ s else from_slash s

abbrev pub or_else : Option Bytes → Option Bytes → Option Bytes
or_else (some rest) later = some rest
or_else none later = later

-- `s[schemeSep(s)+3:]`: what is behind a "://" with no slash before it
unfoldable pub behind_scheme : Bytes → Option Bytes
behind_scheme [] = none
behind_scheme (x ∷ s) =
    let later = behind_scheme s in
    or_else (strip_prefix (codes "://") (x ∷ s)) (if x == b'/' then none else later)

-- the cases of the switch
abbrev pub path_of : Option Bytes → Option Bytes → Bytes → Bytes
path_of (some rest) relative s = from_slash rest
path_of none (some rest) s = from_slash rest
path_of none none s = from_slash s

-- the path of a text with neither query nor fragment
unfoldable pub path_part : Bytes → Bytes
path_part s = path_of (behind_scheme s) (strip_prefix (codes "//") s) s

-- `strings.TrimRight(p, "/")`
unfoldable pub trim_slashes : Bytes → Bytes
trim_slashes [] = []
trim_slashes (c ∷ s) =
    let rest = trim_slashes s in if is_empty rest && c == b'/' then [] else c ∷ rest

abbrev pub slash_if_empty : Bytes → Bytes
slash_if_empty [] = codes "/"
slash_if_empty (c ∷ s) = c ∷ s

abbrev pub rooted : Bytes → Bytes
rooted p = if has_prefix p (codes "/") then p else b'/' ∷ p

unfoldable pub normalize_path : Bytes → Bytes
unfolding trim_slashes strip_prefix
normalize_path [] = codes "/"
normalize_path (c ∷ p) =
    let q = rooted (c ∷ p) in slash_if_empty (if ltb 1 (length q) then trim_slashes q else q)

-- Where no part of the text is a path, `path_part` is empty and gives the root.
unfoldable pub extract_path : Bytes → Bytes
unfolding normalize_path path_part before_byte
extract_path raw = normalize_path (path_part (before_byte b'?' (before_byte b'#' (trim_space raw))))

unfoldable pub split_path : Bytes → List Bytes
unfolding split
split_path p =
    let q = normalize_path p in
    if bytes_eq q (codes "/") then [] else split b'/' (trim_prefix q (codes "/"))
