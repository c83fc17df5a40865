-- ===== src/SecretRef/Tests.antt =====
-- Schemes of values, and a value that is no reference.
use auk.Base.{◌≡◌, refl, [], ◌∷◌, none}
use auk.Base.Text.{codes, bytes_eq, strip_prefix}
use auk.Base.Result.{ok}
use auk.SecretRef.{Registry, lookup, before_sep, scheme_of, resolve}

abbrev vaults : Registry
vaults = record { scheme = codes "op"; unavailable = none; resolves = λ ref. ok (codes "s3") } ∷ []

reference_resolved : resolve vaults (codes "op://v/i") ≡ ok (codes "s3")
unfolding resolve lookup scheme_of before_sep strip_prefix bytes_eq
reference_resolved = refl

url_kept : resolve vaults (codes "https://h") ≡ ok (codes "https://h")
unfolding resolve lookup scheme_of before_sep strip_prefix bytes_eq
url_kept = refl
