-- ===== src/Core/PathParams/Segments.antt =====
-- `applyPathParams` changes whole segments of the path and nothing else.
use auk.Base.{
  ℕ, ◌<◌, ◌≡◌, ◌≢◌, sym, inl, inr, refl, true, List, [], ◌∷◌, ◌++◌, Option, none, some, arith,
  Bool-cases, Option-cases, All, ◌==◌, not, ◌&&◌,
}
use auk.Base.Text.{Bytes, bytes_eq, split, join, onto_first}
use auk.Base.Text.Split.{Lacks, split-Lacks, split-join}
use auk.Core.Model.{ProtocolKind, KeyValue}
use auk.Core.PathParams.{
  path_param_name, value_for, latest, filled, placed, substitute, substitute_all, split_at,
  split_authority, fill_path, has_path_params, apply_path_params, is_empty, escape_path_segment,
}
use auk.Core.PathParams.Cut.{cut_whole}
use auk.Core.PathParams.Escape.{IsInert, escape_path_segment-IsInert}

-- The values are byte texts.
abbrev pub IsBytes : KeyValue → Type 0
IsBytes p = All (λ c. c < 256) p.value

inert-Lacks : (s : Bytes) → All IsInert s → Lacks b'/' s
inert-Lacks [] h = tt
inert-Lacks (c ∷ s) (h, hs) = (ground arith, inert-Lacks s hs)

abbrev pub AllIn : Option Bytes → Type 0
AllIn none = Unit
AllIn (some v) = All (λ c. c < 256) v

latest-AllIn :
    (p : KeyValue) (name : Bytes) (o : Option Bytes) → IsBytes p → AllIn o → AllIn (latest p name o)
latest-AllIn p name (some v) h k = k
latest-AllIn p name none h k = elim (Bool-cases (bytes_eq p.key name && not (is_empty p.key))) [
  | inl on ↦ rw on h
  | inr off ↦ rw off tt
]

pub value_for-AllIn :
    (name : Bytes) (params : List KeyValue) → All IsBytes params → AllIn (value_for name params)
unfolding value_for
value_for-AllIn name [] h = tt
value_for-AllIn name (p ∷ params) (h, hs) =
    latest-AllIn p name (value_for name params) h (value_for-AllIn name params hs)

filled-Lacks :
    (seg : Bytes) (o : Option Bytes) → Lacks b'/' seg → AllIn o → Lacks b'/' (filled seg o)
filled-Lacks seg none h k = h
filled-Lacks seg (some v) h k = elim (Bool-cases (is_empty v)) [
  | inl gone ↦ rw gone h
  | inr there ↦ rw there (inert-Lacks (escape_path_segment v) (escape_path_segment-IsInert v k))
]

placed-Lacks :
    (params : List KeyValue) (seg : Bytes) (o : Option Bytes)
    → All IsBytes params
    → Lacks b'/' seg
    → Lacks b'/' (placed params seg o)
placed-Lacks params seg none h k = k
placed-Lacks params seg (some name) h k =
    filled-Lacks seg (value_for name params) k (value_for-AllIn name params h)

substitute-Lacks :
    (params : List KeyValue) (seg : Bytes)
    → All IsBytes params
    → Lacks b'/' seg
    → Lacks b'/' (substitute params seg)
unfolding substitute
substitute-Lacks params seg h k = placed-Lacks params seg (path_param_name seg) h k

substitute_all-Lacks :
    (params : List KeyValue) (segs : List Bytes)
    → All IsBytes params
    → All (Lacks b'/') segs
    → All (Lacks b'/') (substitute_all params segs)
substitute_all-Lacks params [] h k = tt
substitute_all-Lacks params (seg ∷ segs) h (k, ks) =
    (substitute-Lacks params seg h k, substitute_all-Lacks params segs h ks)

-- Substituted segments come apart again.
split_filled :
    (params : List KeyValue) (segs : List Bytes)
    → All IsBytes params
    → All (Lacks b'/') segs
    → segs ≢ []
    → split b'/' (join b'/' (substitute_all params segs)) ≡ substitute_all params segs
split_filled params [] h k ne = absurd (ne refl)
split_filled params (seg ∷ segs) h k ne =
    split-join b'/' (substitute params seg) (substitute_all params segs)
      (substitute_all-Lacks params (seg ∷ segs) h k)

-- The result has the head and the query of the cut URL, and in between a path whose segments are those
-- of its path, each of them substituted.
abbrev pub Fills : List KeyValue → Bytes → Bytes × Bytes → Bytes → Bytes → Type 0
Fills params url (head, path) query result =
    (path' : Bytes) × (url ≡ (head ++ path) ++ query)
    × (result ≡ (head ++ path') ++ query)
    × (split b'/' path' ≡ substitute_all params (split b'/' path))

substitute_none : (segs : List Bytes) → substitute_all [] segs ≡ segs
unfolding substitute value_for
substitute_none [] = refl
substitute_none (seg ∷ segs) = elim (Option-cases (path_param_name seg)) [
  | inl plain ↦ rw (plain, substitute_none segs) refl
  | inr (name, e) ↦ rw (e, substitute_none segs) refl
]

onto_first-ne_nil : (c : ℕ) (parts : List Bytes) → onto_first c parts ≢ []
onto_first-ne_nil c [] e = cc e
onto_first-ne_nil c (p ∷ ps) e = cc e

split-ne_nil : (sep : ℕ) (s : Bytes) → split sep s ≢ []
unfolding split
split-ne_nil sep [] e = cc e
split-ne_nil sep (c ∷ s) e = elim (Bool-cases (c == sep)) [
  | inl here ↦ cc (rw here at e)
  | inr other ↦ onto_first-ne_nil c (split sep s) (rw other at e)
]

fill_path-Fills :
    (params : List KeyValue) (url : Bytes) (cut : Bytes × Bytes) (query : Bytes)
    → All IsBytes params
    → url ≡ (cut.0 ++ cut.1) ++ query
    → Fills params url cut query (fill_path params url cut query)
unfolding split substitute path_param_name
fill_path-Fills params url (head, []) query h e = ([], e, e, refl)
fill_path-Fills params url (head, c ∷ path) query h e = (
  join b'/' (substitute_all params (split b'/' (c ∷ path))),
  e,
  refl,
  split_filled params (split b'/' (c ∷ path)) h (split-Lacks b'/' (c ∷ path))
      (split-ne_nil b'/' (c ∷ path)),
)

same-Fills :
    (url : Bytes) (cut : Bytes × Bytes) (query : Bytes)
    → url ≡ (cut.0 ++ cut.1) ++ query
    → Fills [] url cut query url
same-Fills url (head, path) query e = (path, e, e, sym (substitute_none (split b'/' path)))

-- On HTTP and GraphQL, the substitution leaves the head that `split_authority` cuts off and the query
-- as they are, and the path between keeps its segments, each of them substituted by itself.
pub apply_path_params-Fills :
    (protocol : ProtocolKind) (url : Bytes) (params : List KeyValue)
    → has_path_params protocol ≡ true
    → All IsBytes params
    → Fills params url
        (split_authority (split_at b'?' url).0)
        (split_at b'?' url).1
        (apply_path_params protocol url params)
unfolding apply_path_params
apply_path_params-Fills protocol url [] on h =
    rw on
      (same-Fills url (split_authority (split_at b'?' url).0) (split_at b'?' url).1 (cut_whole url))
apply_path_params-Fills protocol url (p ∷ params) on h = rw on (
    fill_path-Fills (p ∷ params) url (split_authority (split_at b'?' url).0) (split_at b'?' url).1 h
      (cut_whole url))
