-- ===== src/JsonPath.antt =====
-- internal/jsonpath/jsonpath.go: dot and bracket paths over decoded JSON.
-- Go's `any` is `Json`; a float64 is its 64 bits. `json.Unmarshal`, `json.Marshal` and
-- `strconv.FormatFloat` are the parameters of `get`. Errors keep their kind, not their text.
pub mod Fuel
pub mod Grammar
mod Tests
use auk.Base.{
  ℕ, zero, suc, ◌<◌, Bool, true, false, ◌&&◌, ◌||◌, List, [], ◌∷◌, ◌++◌, Option, none, some, ltb,
  ◌==◌, if◌then◌else◌, length,
}
use auk.Base.Int.{ℤ, pos, negsuc, atoi}
use auk.Base.Text.{Bytes, codes, bytes_eq, trim_prefix, cut_byte}
use auk.Base.Text.Space.{trim_space}
use auk.Base.Result.{Result, ok, err, ◌>>=◌}

mutual
  pub data Json : Type 0 where
    null : Json
    bool : Bool → Json
    num : ℕ → Json
    str : Bytes → Json
    arr : Items → Json
    obj : Fields → Json

  pub data Items : Type 0 where
    nil : Items
    cons : Json → Items → Items

  pub data Fields : Type 0 where
    end : Fields
    field : Bytes → Json → Fields → Fields

pub data Token : Type 0 where
  key : Bytes → Token
  index : ℤ → Token

pub data PathError : Type 0 where
  invalid_json unterminated empty_path out_of_fuel : PathError
  invalid_index : Bytes → PathError
  not_object no_field : Bytes → PathError
  not_array : ℤ → PathError
  out_of_range : ℤ → ℕ → PathError

-- `errors.Is(err, ErrNotFound)`
unfoldable pub is_not_found : PathError → Bool
is_not_found (not_object _) = true
is_not_found (no_field _) = true
is_not_found (not_array _) = true
is_not_found (out_of_range _ _) = true
is_not_found _ = false

abbrev pub items_length : Items → ℕ
items_length nil = 0
items_length (cons _ xs) = suc (items_length xs)

-- `arr[t]`
abbrev pub item_at : Items → ℕ → Option Json
item_at nil i = none
item_at (cons x xs) zero = some x
item_at (cons x xs) (suc i) = item_at xs i

-- `m[t]`
unfoldable pub field_of : Bytes → Fields → Option Json
field_of k end = none
field_of k (field j v fs) = if bytes_eq j k then some v else field_of k fs

-- one round of the loop of `Get`
unfoldable pub step_token : Json → Token → Result PathError Json
unfolding field_of bytes_eq
step_token (obj fs) (key k) = elim (field_of k fs) [ none ↦ err (no_field k) | some v ↦ ok v ]
step_token _ (key k) = err (not_object k)
step_token (arr xs) (index (negsuc n)) = err (out_of_range (negsuc n) (items_length xs))
step_token (arr xs) (index (pos n)) = elim (item_at xs n) [
  | none ↦ err (out_of_range (pos n) (items_length xs))
  | some v ↦ ok v
]
step_token _ (index n) = err (not_array n)

unfoldable pub walk : Json → List Token → Result PathError Json
unfolding step_token
walk cur [] = ok cur
walk cur (t ∷ ts) = step_token cur t >>= λ next. walk next ts

abbrev pub flush : List Token → Bytes → List Token
flush tokens [] = tokens
flush tokens (c ∷ buf) = tokens ++ key (c ∷ buf) ∷ []

-- behind a `[`: the text up to `]` is an index
unfoldable pub bracket :
    (List Token → Bytes → Bytes → Result PathError (List Token))
    → List Token
    → Option (Bytes × Bytes)
    → Result PathError (List Token)
bracket rec tokens none = err unterminated
bracket rec tokens (some (text, rest)) = elim (atoi (trim_space text)) [
  | none ↦ err (invalid_index text)
  | some n ↦ rec (tokens ++ index n ∷ []) [] rest
]

-- the loop of `parse`
unfoldable pub scan : ℕ → List Token → Bytes → Bytes → Result PathError (List Token)
unfolding bracket cut_byte
scan fuel tokens buf [] = ok (flush tokens buf)
scan zero tokens buf (c ∷ s) = err out_of_fuel
scan (suc fuel) tokens buf (c ∷ s) =
    let dot = scan fuel (flush tokens buf) [] s in
    let plain = scan fuel tokens (buf ++ c ∷ []) s in
    if c == b'.'
    then dot
    else if c == b'['
    then bracket (scan fuel) (flush tokens buf) (cut_byte b']' s)
    else plain

abbrev pub nonempty : List Token → Result PathError (List Token)
nonempty [] = err empty_path
nonempty (t ∷ ts) = ok (t ∷ ts)

abbrev pub strip_root : Bytes → Bytes
strip_root path = trim_prefix (trim_prefix (trim_space path) (codes "$.")) (codes "$")

unfoldable pub parse : Bytes → Result PathError (List Token)
unfolding scan
parse path = scan (length (strip_root path)) [] [] (strip_root path) >>= nonempty

module _ (unmarshal : Bytes → Option Json) (format_float : ℕ → Bytes) (marshal : Json → Bytes) where
  -- `ValueToString`
  unfoldable pub value_to_string : Json → Bytes
  value_to_string (str s) = s
  value_to_string null = []
  value_to_string (num bits) = format_float bits
  value_to_string (bool true) = codes "true"
  value_to_string (bool false) = codes "false"
  value_to_string v = marshal v

  unfoldable pub get : Bytes → Bytes → Result PathError Bytes
  get text path = elim (unmarshal text) [
    | none ↦ err invalid_json
    | some doc ↦ parse path >>= λ tokens. walk doc tokens >>= λ v. ok (value_to_string v)
  ]
