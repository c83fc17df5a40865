-- ===== src/Storage/Environments/Resolved.antt =====
-- What is put is what is read, with the values of its secrets from the keychain.
use auk.Base.{◌≡◌, ◌≢◌, true, ◌&&◌, [], ◌∷◌, Option, none, some, if◌then◌else◌}
use auk.Base.Text.{Bytes, is_blank, bytes_eq}
use auk.Core.Model.{KeyValue, Environment}
use auk.Core.Vars.{Vars, get, member, over}
use auk.Storage.Environments.{Failures, secret_account, is_given, value_or}

-- the last value that is given for a name
abbrev pub given : Environment → Bytes → Vars → Option Bytes
given e k [] = none
given e k ((name, value) ∷ values) =
    over (if is_given e name value && bytes_eq name k then some value else none) (given e k values)

-- the row that is read after values were given: a secret's newest readable value, or the row's own
abbrev row_read : Failures → Environment → Vars → Vars → KeyValue → KeyValue
row_read f e values keychain kv =
    if member kv.key e.secrets
    then record kv {
      value = value_or kv.value (
          if f.gets_secret (secret_account e kv.key)
          then over (get (secret_account e kv.key) keychain) (given e kv.key values)
          else none);
    }
    else kv

-- the last value for a name, of those that are not empty
abbrev pub last_given : Bytes → Vars → Option Bytes
last_given k [] = none
last_given k ((name, value) ∷ values) =
    over (if bytes_eq name k then (if is_blank value then none else some value) else none)
      (last_given k values)

-- the value of a secret: the newest that is given, or else the one in the keychain
abbrev pub secret_now : Environment → Vars → Vars → Bytes → Option Bytes
secret_now e values keychain k = over (get (secret_account e k) keychain) (last_given k values)

-- Where the row is a secret's, its account can be read, and the secret has a value.
abbrev pub HasValue : Failures → Environment → Vars → Vars → KeyValue → Type 0
HasValue g e values keychain kv =
    member kv.key e.secrets ≡ true
    → (g.gets_secret (secret_account e kv.key) ≡ true)
      × (secret_now e values keychain kv.key ≢ none)

-- the row with its secret's value
abbrev pub with_value : Environment → Vars → Vars → KeyValue → KeyValue
with_value e values keychain kv =
    if member kv.key e.secrets
    then record kv { value = value_or [] (secret_now e values keychain kv.key) }
    else kv
