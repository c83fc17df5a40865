-- ===== src/Core/PathParams/Absolute.antt =====
-- `applyPathParams` on an absolute URL: what is filled in, and that the host stays.
use auk.Base.{ℕ, ◌≡◌, ◌≢◌, ◌⊎◌, List, [], ◌∷◌, ◌++◌, none, some, All}
use mathlib.Core.List.{Memᴰ}
use auk.Base.Text.{Bytes, codes}
use auk.Base.Text.Split.{Lacks}
use auk.Core.Model.{KeyValue}
use auk.Core.PathParams.{path_param_name, value_for}
use auk.Core.PathParams.Escape.{IsInert, decode}

-- nothing, or a text that starts with this byte
abbrev pub StartsWith : ℕ → Bytes → Type 0
StartsWith c [] = Unit
StartsWith c (x ∷ s) = x ≡ c

-- The segment is `:name`, and is now the escaped form of the value that a row gives the name.
pub record IsReplaced (params : List KeyValue) (seg seg' : Bytes) : Type 0 where
  pub name : Bytes
  pub placeholder : seg ≡ b':' ∷ name
  pub row : KeyValue
  pub here : Memᴰ row params
  pub named : row.key ≡ name
  pub has_value : row.value ≢ []
  pub inert : All IsInert seg'
  pub decodes : decode seg' ≡ some row.value

-- The segment is no placeholder, or its name has no value.
abbrev pub HasNoValue : List KeyValue → Bytes → Type 0
HasNoValue params seg =
    (path_param_name seg ≡ none)
    ⊎ ((name : Bytes) × (path_param_name seg ≡ some name)
        × ((value_for name params ≡ none) ⊎ (value_for name params ≡ some [])))

abbrev pub IsFilled : List KeyValue → Bytes → Bytes → Type 0
IsFilled params seg seg' = IsReplaced params seg seg' ⊎ ((seg' ≡ seg) × HasNoValue params seg)

-- as many segments, each filled in
abbrev pub EachFilled : List KeyValue → List Bytes → List Bytes → Type 0
EachFilled params [] [] = Unit
EachFilled params [] (t ∷ ts) = ⊥
EachFilled params (s ∷ ss) [] = ⊥
EachFilled params (s ∷ ss) (t ∷ ts) = IsFilled params s t × EachFilled params ss ts

abbrev RowOf : List KeyValue → Bytes → Bytes → Type 0
RowOf params name v = (row : KeyValue) × Memᴰ row params × (row.key ≡ name) × (row.value ≡ v)

-- the URL of these parts
abbrev pub absolute_url : Bytes → Bytes → Bytes → Bytes → Bytes
absolute_url scheme host path query = scheme ++ (codes "://" ++ (host ++ (path ++ query)))

-- a scheme, a host with what belongs to it, a path and a query
pub record IsAbsolute (scheme host path query : Bytes) : Type 0 where
  pub scheme_plain : All (λ x. (x ≢ b':') × (x ≢ b'?')) scheme
  pub host_plain : All (λ x. (x ≢ b'/') × (x ≢ b'?')) host
  pub path_start : StartsWith b'/' path
  pub path_plain : Lacks b'?' path
  pub query_start : StartsWith b'?' query
