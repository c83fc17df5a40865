-- ===== src/License/Canonical.antt =====
-- internal/license/model.go: the bytes that a licence's signature covers.
-- Times enter by their RFC 3339 text and counts by their decimal text; both printers belong to
-- Go's library and are parameters.
pub mod Injective
use auk.Base.{
  ℕ, ◌/◌, ◌%◌, Bool, true, false, not, ◌&&◌, ◌||◌, List, [], ◌∷◌, ◌++◌, Option, none, some, ◌==◌,
  if◌then◌else◌, length,
}
use auk.Base.Int.{ℤ}
use auk.Base.Text.{Bytes, codes}
use auk.License.Time.{Instant}

pub record License : Type 0 where
  pub license_key : Bytes
  pub email : Bytes
  pub name : Bytes
  pub plan : Bytes
  pub machine_id : Bytes
  pub max_machines : ℤ
  pub machine_count : ℤ
  pub issued_at : Instant
  pub expires_updates_at : Instant

pub record SignedLicense : Type 0 where
  pub license : License
  pub alg : Bytes
  pub signature : Bytes

-- `canonicalTag`
abbrev pub canonical_tag : Bytes
canonical_tag = codes "AUK-LICENSE-v1\n"

-- `binary.BigEndian.PutUint32(n[:], uint32(len))`
unfoldable pub put_uint32 : ℕ → Bytes
put_uint32 len = (len / 16777216 % 256) ∷ (len / 65536 % 256) ∷ (len / 256 % 256) ∷ (len % 256) ∷ []

-- `writeField`
unfoldable pub write_field : Bytes → Bytes
unfolding put_uint32
write_field s = put_uint32 (length s) ++ s

abbrev pub write_fields : List Bytes → Bytes
write_fields [] = []
write_fields (s ∷ fields) = write_field s ++ write_fields fields

module _ (itoa : ℤ → Bytes) (rfc3339 : Instant → Bytes) where
  -- the fields, in their fixed order
  abbrev pub fields_of : License → List Bytes
  fields_of l =
      l.license_key
      ∷ l.email
      ∷ l.name
      ∷ l.plan
      ∷ l.machine_id
      ∷ itoa l.max_machines
      ∷ itoa l.machine_count
      ∷ rfc3339 l.issued_at
      ∷ rfc3339 l.expires_updates_at
      ∷ []

  unfoldable pub canonical_bytes : License → Bytes
  unfolding write_field
  canonical_bytes l = canonical_tag ++ write_fields (fields_of l)

  -- `verifyWith`, for a base64 decoder and the check of Ed25519 under the public key
  unfoldable pub verify_with :
      (Bytes → Option Bytes) → (Bytes → Bytes → Bool) → SignedLicense → Bool
  unfolding canonical_bytes
  verify_with decode checks sl = elim (decode sl.signature) [
    | none ↦ false
    | some sig ↦ length sig == 64 && checks (canonical_bytes sl.license) sig
  ]

abbrev is_empty : Bytes → Bool
is_empty [] = true
is_empty (_ ∷ _) = false

-- `looksLikeLicense`
abbrev pub looks_like_license : SignedLicense → Bool
looks_like_license sl =
    not (is_empty sl.signature)
    && (not (is_empty sl.license.license_key) || not (is_empty sl.license.email))

abbrev pub only_license : Option SignedLicense → Option SignedLicense
only_license none = none
only_license (some sl) = if looks_like_license sl then some sl else none

-- `tryParseSignedLicense`, for a JSON reader and a base64 decoder
unfoldable pub try_parse_signed_license :
    (Bytes → Option SignedLicense) → (Bytes → Option Bytes) → Bytes → Option SignedLicense
try_parse_signed_license unmarshal decode s = elim (only_license (unmarshal s)) [
  | some sl ↦ some sl
  | none ↦ elim (decode s) [ none ↦ none | some raw ↦ only_license (unmarshal raw) ]
]
