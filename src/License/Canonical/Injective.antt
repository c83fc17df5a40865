-- ===== src/License/Canonical/Injective.antt =====
-- No two licences share their signed bytes: the length in front of a field tells where it ends.
use auk.Base.{ℕ, ◌/◌, ◌%◌, ◌<◌, ◌≡◌, refl, List, [], ◌∷◌, ◌++◌, arith, length, All}
use auk.Base.Int.{ℤ}
use auk.Base.Text.{Bytes}
use auk.License.Time.{Instant}
use auk.License.Canonical.{
  License, canonical_tag, write_field, write_fields, fields_of, canonical_bytes,
}

-- The length fits its four bytes.
abbrev pub FitsUint32 : Bytes → Type 0
FitsUint32 s = length s < 4294967296

-- Texts of the same length split their concatenations alike.
append-split : (s t x y : Bytes) → length s ≡ length t → s ++ x ≡ t ++ y → (s ≡ t) × (x ≡ y)
append-split [] [] x y l e = (refl, e)
append-split [] (c ∷ t) x y l e = absurd (omega arith)
append-split (c ∷ s) [] x y l e = absurd (omega arith)
append-split (c ∷ s) (d ∷ t) x y l e =
    let (same, rest) = append-split s t x y (omega arith) cc in (cc, rest)

put_uint32-digits :
    (m n : ℕ)
    → m < 4294967296
    → n < 4294967296
    → m / 16777216 % 256 ≡ n / 16777216 % 256
    → m / 65536 % 256 ≡ n / 65536 % 256
    → m / 256 % 256 ≡ n / 256 % 256
    → m % 256 ≡ n % 256
    → m ≡ n
put_uint32-digits m n h k a b c d = omega arith

write_field-injective :
    (s t x y : Bytes)
    → FitsUint32 s
    → FitsUint32 t
    → write_field s ++ x ≡ write_field t ++ y
    → (s ≡ t) × (x ≡ y)
unfolding write_field
write_field-injective s t x y h k e =
    append-split s t x y (put_uint32-digits (length s) (length t) h k (cc) (cc) (cc) (cc)) (cc)

write_fields-injective :
    (ss ts : List Bytes)
    → length ss ≡ length ts
    → All FitsUint32 ss
    → All FitsUint32 ts
    → write_fields ss ≡ write_fields ts
    → ss ≡ ts
write_fields-injective [] [] l h k e = refl
write_fields-injective [] (t ∷ ts) l h k e = absurd (omega arith)
write_fields-injective (s ∷ ss) [] l h k e = absurd (omega arith)
write_fields-injective (s ∷ ss) (t ∷ ts) l h k e =
    let (same, rest) = write_field-injective s t (write_fields ss) (write_fields ts) h.0 k.0 e in
    let later = write_fields-injective ss ts (omega arith) h.1 k.1 rest in cc

tag_cancels : (x y : Bytes) → canonical_tag ++ x ≡ canonical_tag ++ y → x ≡ y
tag_cancels x y e = (append-split canonical_tag canonical_tag x y refl e).1

module _ (itoa : ℤ → Bytes) (rfc3339 : Instant → Bytes) where
  -- The licences agree in every field, the counts and the dates as printed.
  pub record SignsSame (l m : License) : Type 0 where
    pub license_key : l.license_key ≡ m.license_key
    pub email : l.email ≡ m.email
    pub name : l.name ≡ m.name
    pub plan : l.plan ≡ m.plan
    pub machine_id : l.machine_id ≡ m.machine_id
    pub max_machines : itoa l.max_machines ≡ itoa m.max_machines
    pub machine_count : itoa l.machine_count ≡ itoa m.machine_count
    pub issued_at : rfc3339 l.issued_at ≡ rfc3339 m.issued_at
    pub expires_updates_at : rfc3339 l.expires_updates_at ≡ rfc3339 m.expires_updates_at

  same_fields :
      (l m : License) → fields_of itoa rfc3339 l ≡ fields_of itoa rfc3339 m → SignsSame l m
  same_fields l m e = record {
    license_key = cc e;
    email = cc e;
    name = cc e;
    plan = cc e;
    machine_id = cc e;
    max_machines = cc e;
    machine_count = cc e;
    issued_at = cc e;
    expires_updates_at = cc e;
  }

  -- Two licences with the same signed bytes agree in all nine fields: the key, the email, the name, the
  -- plan and the machine; both counts and both dates as printed. No field is as long as 2^32 bytes.
  pub canonical_bytes-injective :
      (l m : License)
      → All FitsUint32 (fields_of itoa rfc3339 l)
      → All FitsUint32 (fields_of itoa rfc3339 m)
      → canonical_bytes itoa rfc3339 l ≡ canonical_bytes itoa rfc3339 m
      → SignsSame l m
  unfolding canonical_bytes
  canonical_bytes-injective l m h k e = same_fields l m (
      write_fields-injective (fields_of itoa rfc3339 l) (fields_of itoa rfc3339 m) refl h k
        (tag_cancels _ _ e))
