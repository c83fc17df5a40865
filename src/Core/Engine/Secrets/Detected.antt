-- ===== src/Core/Engine/Secrets/Detected.antt =====
-- A secret's value inside a text is detected.
use auk.Base.{
  ◌≡◌, ◌≢◌, refl, inl, inr, Bool, true, false, not, ◌&&◌, List, [], ◌∷◌, ◌++◌, Option, none, some,
  if◌then◌else◌, arith, Bool-cases,
}
use mathlib.Core.List.{Memᴰ}
use mathlib.Core.Path.{sym, subst}
use auk.Base.Text.{
  Bytes, bytes_eq, bytes_eq_iff, bytes_eq_self, is_blank, strip_prefix, has_prefix, contains_text,
}
use auk.Core.Model.{KeyValue, Environment}
use auk.Core.Vars.{Vars, get, set, member}
use auk.Core.Vars.Laws.{get-set}
use auk.Core.Engine.Secrets.{secret_values, add_secret, add_secrets, contains_secret_value}

-- The text has the value of an enabled row in it, which is not empty and whose name is a secret.
pub record HasSecretValue (env : Environment) (text : Bytes) : Type 0 where
  pub row : KeyValue
  pub here : Memᴰ row env.variables
  pub enabled : row.enabled ≡ true
  pub secret : Memᴰ row.key env.secrets
  pub filled : row.value ≢ []
  pub before : Bytes
  pub behind : Bytes
  pub found : text ≡ before ++ (row.value ++ behind)

pub Mem-member : (k : Bytes) (js : List Bytes) → Memᴰ k js → member k js ≡ true
Mem-member k [] m = elim m [ ]
Mem-member k (j ∷ js) (Memᴰ.head e) = rw ((bytes_eq_iff j k).1 (sym e)) refl
Mem-member k (j ∷ js) (Memᴰ.tail m) = ground (arith, Mem-member k js m)

has_prefix-append : (v q : Bytes) → has_prefix (v ++ q) v ≡ true
unfolding strip_prefix
has_prefix-append [] q = refl
has_prefix-append (c ∷ v) q = ground (arith, has_prefix-append v q)

contains_text-append : (p v q : Bytes) → v ≢ [] → contains_text (p ++ (v ++ q)) v ≡ true
unfolding contains_text
contains_text-append p [] q ne = absurd (ne refl)
contains_text-append [] (c ∷ v) q ne = rw (has_prefix-append (c ∷ v) q) refl
contains_text-append (d ∷ p) (c ∷ v) q ne = ground (arith, contains_text-append p (c ∷ v) q ne)

abbrev is_some : Option Bytes → Bool
is_some none = false
is_some (some _) = true

contains_secret_value-has_key :
    (text v : Bytes) (secrets : Vars)
    → is_blank text ≡ false
    → contains_text text v ≡ true
    → is_some (get v secrets) ≡ true
    → contains_secret_value text secrets ≡ true
unfolding contains_secret_value get
contains_secret_value-has_key text v [] b c h = cc h
contains_secret_value-has_key text v ((w, n) ∷ secrets) b c h = elim (Bool-cases (bytes_eq w v)) [
  | inl same ↦ rw (b, (bytes_eq_iff w v).0 same, c) refl
  | inr other ↦ ground (arith, contains_secret_value-has_key text v secrets b c (rw other at h))
]

has_key-set :
    (v k n : Bytes) (m : Vars) → is_some (get v m) ≡ true → is_some (get v (set k n m)) ≡ true
has_key-set v k n m h =
    rw (get-set k v n m)
      (elim (Bool-cases (bytes_eq k v)) [ inl same ↦ rw same refl | inr other ↦ rw other h ])

has_key-set_self : (v n : Bytes) (m : Vars) → is_some (get v (set v n m)) ≡ true
has_key-set_self v n m = rw (get-set v v n m, bytes_eq_self v) refl

has_key-if :
    (v k n : Bytes) (b : Bool) (m : Vars)
    → is_some (get v m) ≡ true
    → is_some (get v (if b then set k n m else m)) ≡ true
has_key-if v k n true m h = has_key-set v k n m h
has_key-if v k n false m h = h

has_key-add_secrets :
    (v : Bytes) (secrets : List Bytes) (kvs : List KeyValue) (m : Vars)
    → is_some (get v m) ≡ true
    → is_some (get v (add_secrets secrets kvs m)) ≡ true
has_key-add_secrets v secrets [] m h = h
has_key-add_secrets v secrets (kv ∷ kvs) m h =
    has_key-add_secrets v secrets kvs (add_secret secrets kv m) (
      has_key-if v kv.value kv.key
        (kv.enabled && (member kv.key secrets && not (is_blank kv.value))) m h)

nonempty : (v : Bytes) → v ≢ [] → is_blank v ≡ false
nonempty [] h = absurd (h refl)
nonempty (c ∷ v) h = refl

has_key-add_secret :
    (secrets : List Bytes) (kv : KeyValue) (m : Vars)
    → kv.enabled ≡ true
    → member kv.key secrets ≡ true
    → is_blank kv.value ≡ false
    → is_some (get kv.value (add_secret secrets kv m)) ≡ true
has_key-add_secret secrets kv m on named filled =
    rw (on, named, filled) (has_key-set_self kv.value kv.key m)

add_secrets-has :
    (secrets : List Bytes) (kvs : List KeyValue) (m : Vars) (kv : KeyValue)
    → Memᴰ kv kvs
    → kv.enabled ≡ true
    → member kv.key secrets ≡ true
    → is_blank kv.value ≡ false
    → is_some (get kv.value (add_secrets secrets kvs m)) ≡ true
add_secrets-has secrets [] m kv here on named filled = elim here [ ]
add_secrets-has secrets (row ∷ kvs) m kv (Memᴰ.head e) on named filled =
    has_key-add_secrets kv.value secrets kvs (add_secret secrets row m) (
      subst (λ (x : KeyValue). is_some (get kv.value (add_secret secrets x m)) ≡ true) e
        (has_key-add_secret secrets kv m on named filled))
add_secrets-has secrets (row ∷ kvs) m kv (Memᴰ.tail here) on named filled =
    add_secrets-has secrets kvs (add_secret secrets row m) kv here on named filled

append-ne : (p v q : Bytes) → is_blank v ≡ false → is_blank (p ++ (v ++ q)) ≡ false
append-ne [] [] q h = cc h
append-ne [] (c ∷ v) q h = refl
append-ne (d ∷ p) v q h = refl

-- A text with a secret's value in it is detected.
pub HasSecretValue-contains :
    (env : Environment) (text : Bytes)
    → HasSecretValue env text
    → contains_secret_value text (secret_values (some env)) ≡ true
unfolding secret_values
HasSecretValue-contains env text h =
    let filled = nonempty h.row.value h.filled in
    rw h.found (
      contains_secret_value-has_key (h.before ++ (h.row.value ++ h.behind)) h.row.value
        (add_secrets env.secrets env.variables []) (append-ne h.before h.row.value h.behind filled)
        (contains_text-append h.before h.row.value h.behind h.filled)
        (add_secrets-has env.secrets env.variables [] h.row h.here h.enabled
          (Mem-member h.row.key env.secrets h.secret) filled))
