-- ===== src/Core/Engine/Request/Edits.antt =====
-- Edits of the redacted request are edits of the real one.
use auk.Base.{
  ◌≡◌, ◌≢◌, refl, inl, inr, List, [], ◌∷◌, ◌++◌, Option, none, some, if◌then◌else◌, Bool-cases,
}
use auk.Base.Text.{Bytes, bytes_eq, bytes_eq_iff, bytes_eq_self}
use auk.Core.Model.{KeyValue}
use auk.Core.Engine.Request.{
  Body, ResolvedRequest, map_headers, map_body, redact_by, merge_header, merge_headers, merge_body,
  merge_script_edits,
}

-- What a script may change: the URL, the body's text, the values of headers that are there, by
-- place, and headers of its own behind those.
pub record Edits : Type 0 where
  pub url : Option Bytes
  pub text : Option Bytes
  pub values : List (Option Bytes)
  pub extra : List KeyValue

abbrev pub or_kept : Bytes → Option Bytes → Bytes
or_kept old none = old
or_kept old (some new) = new

abbrev pub edit_headers : List (Option Bytes) → List KeyValue → List KeyValue
edit_headers [] headers = headers
edit_headers (v ∷ values) [] = []
edit_headers (v ∷ values) (h ∷ headers) =
    record h { value = or_kept h.value v } ∷ edit_headers values headers

abbrev pub edit_body : Option Bytes → Option Body → Option Body
edit_body text none = none
edit_body text (some b) = some (record b { text = or_kept b.text text })

abbrev pub edit : {A : Type 0} → Edits → ResolvedRequest A → ResolvedRequest A
edit e r = record r {
  url = or_kept r.url e.url;
  headers = edit_headers e.values r.headers ++ e.extra;
  body = edit_body e.text r.body;
}

-- A new text is another than what the script saw.
abbrev pub IsNew : Bytes → Option Bytes → Type 0
IsNew seen none = Unit
IsNew seen (some new) = new ≢ seen

abbrev pub AllNew : List (Option Bytes) → List KeyValue → Type 0
AllNew [] headers = Unit
AllNew (v ∷ values) [] = Unit
AllNew (v ∷ values) (h ∷ headers) = IsNew h.value v × AllNew values headers

abbrev pub NewText : Option Bytes → Option Body → Type 0
NewText text none = Unit
NewText text (some b) = IsNew b.text text

restored :
    (f : Bytes → Bytes) (old : Bytes) (v : Option Bytes)
    → IsNew (f old) v
    → (if bytes_eq (or_kept (f old) v) (f old) then old else or_kept (f old) v) ≡ or_kept old v
restored f old none h = rw (bytes_eq_self (f old)) refl
restored f old (some new) h = elim (Bool-cases (bytes_eq new (f old))) [
  | inl same ↦ absurd (h ((bytes_eq_iff new (f old)).0 same))
  | inr other ↦ rw other refl
]

extra_kept :
    (f : Bytes → Bytes) (headers extra : List KeyValue)
    → merge_headers headers (map_headers f headers) (map_headers f headers ++ extra)
      ≡ headers ++ extra
unfolding merge_headers merge_header
extra_kept f [] [] = refl
extra_kept f [] (h ∷ extra) = refl
extra_kept f (h ∷ headers) extra =
    rw (bytes_eq_self (f h.key), bytes_eq_self (f h.value), extra_kept f headers extra) refl

headers_edited :
    (f : Bytes → Bytes) (values : List (Option Bytes)) (headers extra : List KeyValue)
    → AllNew values (map_headers f headers)
    → merge_headers headers
        (map_headers f headers)
        (edit_headers values (map_headers f headers) ++ extra)
      ≡ edit_headers values headers ++ extra
unfolding merge_headers merge_header
headers_edited f [] headers extra h = extra_kept f headers extra
headers_edited f (v ∷ values) [] [] h = refl
headers_edited f (v ∷ values) [] (e ∷ extra) h = refl
headers_edited f (v ∷ values) (k ∷ headers) extra (new, h) =
    rw (bytes_eq_self (f k.key), restored f k.value v new, headers_edited f values headers extra h)
      refl

body_edited :
    (f : Bytes → Bytes) (text : Option Bytes) (body : Option Body)
    → NewText text (map_body f body)
    → merge_body body (map_body f body) (edit_body text (map_body f body)) ≡ edit_body text body
body_edited f text none h = refl
body_edited f text (some b) h = rw (restored f b.text text h) refl

-- Whatever the redaction of texts: a script's edits of the redacted request, folded back, are the same
-- edits of the real request. So without edits the real request goes out as it was, and what the
-- script has not touched keeps its real value beside what it has. Each new text is another than what
-- the script saw in its place.
pub merge_script_edits_lem :
    {A : Type 0} (f : Bytes → Bytes) (e : Edits) (real : ResolvedRequest A)
    → IsNew (f real.url) e.url
    → AllNew e.values (map_headers f real.headers)
    → NewText e.text (map_body f real.body)
    → merge_script_edits real (redact_by f real) (edit e (redact_by f real)) ≡ edit e real
unfolding merge_script_edits
merge_script_edits_lem f e real new_url new_values new_text =
    rw
      (
        restored f real.url e.url new_url,
        headers_edited f e.values real.headers e.extra new_values,
        body_edited f e.text real.body new_text,
      )
      refl
