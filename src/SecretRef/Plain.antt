-- ===== src/SecretRef/Plain.antt =====
-- What is no reference is left alone, and what is one is never passed on as it is.
use auk.Base.{◌≡◌, refl, inl, inr, true, false, some, Bool-cases, Option-cases}
use auk.Base.Text.{Bytes, is_blank}
use auk.Base.Result.{ok}
use auk.SecretRef.{Resolver, Registry, lookup, scheme_of, is_ref, resolved_by, resolve}

-- A value that is no reference of a registered scheme is its own resolution.
pub resolve-plain :
    (registry : Registry) (value : Bytes)
    → is_ref registry value ≡ false
    → resolve registry value ≡ ok value
unfolding is_ref resolve
resolve-plain registry value h = elim (Bool-cases (is_blank (scheme_of value))) [
  | inl blank ↦ rw blank refl
  | inr named ↦ elim (Option-cases (lookup (scheme_of value) registry)) [
    | inl unknown ↦ rw (named, unknown) refl
    | inr (r, known) ↦ cc (rw (named, known) at h)
  ]
]

-- Of a reference, the resolution is what the resolver of its scheme says.
pub resolve-known :
    (registry : Registry) (value : Bytes)
    → is_ref registry value ≡ true
    → (r : Resolver) × ((lookup (scheme_of value) registry ≡ some r)
        × (resolve registry value ≡ resolved_by (scheme_of value) value (some r)))
unfolding is_ref resolve
resolve-known registry value h = elim (Bool-cases (is_blank (scheme_of value))) [
  | inl blank ↦ cc (rw blank at h)
  | inr named ↦ elim (Option-cases (lookup (scheme_of value) registry)) [
    | inl unknown ↦ cc (rw (named, unknown) at h)
    | inr (r, known) ↦ (r, (known, rw (named, known) refl))
  ]
]
