-- ===== src/Core/Engine/Secrets.antt =====
-- What a script may see and write: the redaction of secret values, and the guards on writes.
-- A map from values to names is `Vars`, its keys the values.
pub mod Redacted
pub mod Detected
use auk.Base.{
  ℕ, ◌+◌, Bool, true, false, not, ◌&&◌, ◌||◌, List, [], ◌∷◌, ◌++◌, Option, none, some,
  if◌then◌else◌, ltb, ◌==◌, length,
}
use auk.Base.Text.{Bytes, codes, bytes_eq, bytes_lt, is_blank, contains_text, replace_all, cut_byte}
use auk.Core.Model.{KeyValue, Environment}
use auk.Core.Vars.{Vars, get, set, assign, member}

-- a row that a script may see: enabled, with a name that is no secret
abbrev pub is_plain : List Bytes → KeyValue → Bool
is_plain secrets kv = kv.enabled && not (member kv.key secrets)

abbrev pub plain_rows : List Bytes → List KeyValue → List KeyValue
plain_rows secrets [] = []
plain_rows secrets (kv ∷ kvs) =
    if is_plain secrets kv then kv ∷ plain_rows secrets kvs else plain_rows secrets kvs

-- `variableMap`; a nil map is empty
unfoldable pub variable_map : Option Environment → Vars
unfolding assign
variable_map none = []
variable_map (some env) = assign [] (plain_rows env.secrets env.variables)

-- `secretNames`
abbrev pub secret_names : Option Environment → List Bytes
secret_names none = []
secret_names (some env) = env.secrets

abbrev pub add_secret : List Bytes → KeyValue → Vars → Vars
add_secret secrets kv m =
    if kv.enabled && (member kv.key secrets && not (is_blank kv.value))
    then set kv.value kv.key m
    else m

abbrev pub add_secrets : List Bytes → List KeyValue → Vars → Vars
add_secrets secrets [] m = m
add_secrets secrets (kv ∷ kvs) m = add_secrets secrets kvs (add_secret secrets kv m)

-- `strings.Cut(value, " ")` with something behind the blank, else all of the value
abbrev pub bare_credential : Option (Bytes × Bytes) → Bytes → Bytes
bare_credential none value = value
bare_credential (some (scheme, [])) value = value
bare_credential (some (scheme, c ∷ bare)) value = c ∷ bare

-- `authMintedSecrets`, of the header values before and the headers after the auth was applied
unfoldable pub minted_secrets : Bytes → List Bytes → List KeyValue → Vars → Vars
unfolding set cut_byte
minted_secrets label before [] m = m
minted_secrets label before (h ∷ headers) m = minted_secrets label before headers (
    if is_blank h.value || member h.value before
    then m
    else set (bare_credential (cut_byte b' ' h.value) h.value) label m)

-- `secretValues`: the names by their values
unfoldable pub secret_values : Option Environment → Vars
unfolding set
secret_values none = []
secret_values (some env) = add_secrets env.secrets env.variables []

-- `mergeSecretMaps`: of two names for a value, that of the first map
unfoldable pub merge_secret_maps : Vars → Vars → Vars
unfolding set
merge_secret_maps [] b = b
merge_secret_maps ((v, n) ∷ a) b = set v n (merge_secret_maps a b)

-- `containsSecretValue`
unfoldable pub contains_secret_value : Bytes → Vars → Bool
unfolding contains_text
contains_secret_value s [] = false
contains_secret_value s ((value, name) ∷ secrets) =
    let rest = contains_secret_value s secrets in
    if not (is_blank s) && contains_text s value then true else rest

-- longest first, ties in the order of bytes
abbrev pub goes_before : Bytes → Bytes → Bool
goes_before v w = if length v == length w then bytes_lt v w else ltb (length w) (length v)

unfoldable pub insert_value : Bytes × Bytes → Vars → Vars
unfolding bytes_lt
insert_value e [] = e ∷ []
insert_value (v, n) ((w, o) ∷ rest) =
    if goes_before w v then (w, o) ∷ insert_value (v, n) rest else (v, n) ∷ (w, o) ∷ rest

-- `secretValuesLongestFirst`, with the names
unfoldable pub longest_first : Vars → Vars
unfolding insert_value
longest_first [] = []
longest_first (e ∷ secrets) = insert_value e (longest_first secrets)

abbrev pub placeholder : Bytes → Bytes
placeholder name = codes "[secret:" ++ name ++ codes "]"

-- the loop of `redactSecretValues`
unfoldable pub redact_values : Bytes → Vars → Bytes
unfolding replace_all
redact_values s [] = s
redact_values s ((value, name) ∷ secrets) =
    redact_values (replace_all 0 value (placeholder name) s) secrets

-- `redactSecretValues`
unfoldable pub redact_secret_values : Vars → Bytes → Bytes
unfolding redact_values longest_first
redact_secret_values secrets s = if is_blank s then s else redact_values s (longest_first secrets)
