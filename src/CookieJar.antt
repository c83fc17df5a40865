-- ===== src/CookieJar.antt =====
-- internal/cookiejar/cookiejar.go: the cookies of each workspace.
-- A workspace without a map has the empty one. `strings.EqualFold` and the parser of `net/http` are
-- parameters.
pub mod Refines
mod Tests
use auk.Base.{Bool, List, [], ◌∷◌, Option, if◌then◌else◌}
use auk.Base.Text.{Bytes, codes, bytes_eq}
use auk.Core.Model.{KeyValue}
use auk.Core.Vars.{Vars, get, set, delete, rows}

-- `byWS`
abbrev pub Jar : Type 0
Jar = Bytes → Vars

-- `New`
abbrev pub empty_jar : Jar
empty_jar workspace = []

abbrev pub update : Bytes → (Vars → Vars) → Jar → Jar
update workspace f jar w = if bytes_eq w workspace then f (jar w) else jar w

abbrev pub set_cookies : List (Bytes × Bytes) → Vars → Vars
set_cookies [] m = m
set_cookies ((name, value) ∷ cookies) m = set_cookies cookies (set name value m)

-- the values of the Set-Cookie headers
abbrev pub raw_cookies : (Bytes → Bytes → Bool) → List KeyValue → List Bytes
raw_cookies equal_fold [] = []
raw_cookies equal_fold (h ∷ headers) =
    let rest = raw_cookies equal_fold headers in
    if equal_fold h.key (codes "Set-Cookie") then h.value ∷ rest else rest

-- nothing is parsed of no header
abbrev pub parse_some : (List Bytes → List (Bytes × Bytes)) → List Bytes → List (Bytes × Bytes)
parse_some parse [] = []
parse_some parse (value ∷ raw) = parse (value ∷ raw)

-- `Capture`
unfoldable pub capture :
    (Bytes → Bytes → Bool) → (List Bytes → List (Bytes × Bytes)) → Bytes → List KeyValue → Jar → Jar
unfolding set
capture equal_fold parse workspace headers jar =
    update workspace (set_cookies (parse_some parse (raw_cookies equal_fold headers))) jar

-- `Get`
unfoldable pub get_cookie : Bytes → Bytes → Jar → Option Bytes
unfolding get
get_cookie workspace name jar = get name (jar workspace)

-- `List`
unfoldable pub list_cookies : Bytes → Jar → List KeyValue
list_cookies workspace jar = rows (jar workspace)

-- `Set`
unfoldable pub set_cookie : Bytes → Bytes → Bytes → Jar → Jar
unfolding set
set_cookie workspace name value jar = update workspace (set name value) jar

-- `Delete`
unfoldable pub delete_cookie : Bytes → Bytes → Jar → Jar
unfolding delete
delete_cookie workspace name jar = update workspace (delete name) jar
