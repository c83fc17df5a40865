-- ===== src/License/Tests.antt =====
-- The trial and the licence at concrete instants.
use auk.Base.{
  ◌+◌, ◌*◌, ◌≤◌, ◌≡◌, ◌⊎◌, ◌↔◌, refl, inl, inr, Bool, true, [], ◌∷◌, Option, none, some, arith,
}
use auk.Base.Int.{ℤ, pos}
use auk.Base.Text.{Bytes, codes, bytes_eq}
use auk.Base.Text.Space.{trim_space}
use auk.License.Time.{Instant, day}
use auk.License.Trial.{Trial, Stores, trial_start, last_seen_at, reconcile, standing, resolve}
use auk.License.Trial.Clock.{resolve_le, resolve-expired_iff, seen_by}
use auk.License.Trial.Runs.{
  Launch, kept, file_lost, keychain_lost, both, launched, after, lose, days_never_grow,
}
use auk.License.Canonical.{License, SignedLicense}
use auk.License.Canonical.Injective.{SignsSame, canonical_bytes-injective}
use auk.License.Status.{licensed, license_invalid}
use auk.License.Manager.{
  Stored, World, Faults, status, resolve_licensed, activate, store_verified, save,
}
use auk.License.Manager.Offline.{IsGenuine, resolve_licensed_iff, status_genuine}
use auk.License.Manager.Activate.{
  Activates, KeepsLicense, activate-Activates, activate-KeepsLicense,
}

abbrev launch_day : Instant
launch_day = 700000 * day

abbrev no_stores : Stores
no_stores = record { file = none; keychain = none }

abbrev tenth : Trial
tenth = record { start = launch_day; last_seen = launch_day + 10 * day }

abbrev survivor : Stores
survivor = record { file = none; keychain = some tenth }

first_launch : (resolve both launch_day no_stores).0.days_remaining ≡ 14
unfolding resolve reconcile standing trial_start last_seen_at
first_launch = refl

rolled_back : (resolve both launch_day survivor).0.days_remaining ≡ 4
unfolding resolve reconcile standing trial_start last_seen_at
rolled_back = refl

resolve_le_example :
    (resolve both launch_day survivor).0.days_remaining ≤ (standing tenth).days_remaining
resolve_le_example = resolve_le both launch_day survivor tenth (inr refl) (omega arith)

resolve-expired_iff_example : ((resolve both (launch_day + 60 * day) survivor).0.expired ≡ true) ↔ (
    (trial_start (launch_day + 60 * day) survivor + 14 * day ≤ launch_day + 60 * day)
    ⊎ (trial_start (launch_day + 60 * day) survivor + 14 * day
        ≤ seen_by (launch_day + 60 * day) survivor))
resolve-expired_iff_example = resolve-expired_iff both (launch_day + 60 * day) survivor

abbrev launch_one : Launch
launch_one = record { loss = kept; now = launch_day + 5 * day }

abbrev launch_two : Launch
launch_two = record { loss = file_lost; now = launch_day + 9 * day }

abbrev launch_three : Launch
launch_three = record { loss = keychain_lost; now = launch_day }

days_never_grow_example :
    (resolve both launch_day (
      lose keychain_lost
        (after (launched no_stores launch_one) (launch_two ∷ [])))).0.days_remaining
    ≤ (resolve both (launch_day + 5 * day) (lose kept no_stores)).0.days_remaining
days_never_grow_example =
    days_never_grow no_stores launch_one (launch_two ∷ []) both launch_three (omega arith)
      (omega arith)

abbrev itoa : ℤ → Bytes
itoa n = codes "3"

abbrev rfc3339 : Instant → Bytes
rfc3339 t = codes "2026-01-01T00:00:00Z"

abbrev lic : License
lic = record {
  license_key = codes "K";
  email = codes "a@b";
  name = codes "A";
  plan = codes "personal";
  machine_id = codes "M";
  max_machines = pos 3;
  machine_count = pos 1;
  issued_at = launch_day;
  expires_updates_at = launch_day + 365 * day;
}

abbrev signed : SignedLicense
signed = record { license = lic; alg = codes "ed25519"; signature = codes "c2ln" }

canonical_bytes-injective_example : SignsSame itoa rfc3339 lic lic
canonical_bytes-injective_example =
    canonical_bytes-injective itoa rfc3339 lic lic (omega arith) (omega arith) refl

-- A check that accepts the one signature above.
abbrev verify : SignedLicense → Bool
verify sl = bytes_eq sl.signature (codes "c2ln")

abbrev stored : Stored
stored = record { signed = signed; activated_at = launch_day; last_validated_at = launch_day }

abbrev world : World
world = record { keychain = some stored; file = none; trial = no_stores }

abbrev empty_world : World
empty_world = record { keychain = none; file = none; trial = no_stores }

abbrev sound : Faults
sound = record {
  keychain_reads = true;
  keychain_writes = true;
  keychain_deletes = true;
  file_reads = true;
  file_writes = true;
  file_removes = true;
  trial_writes = both;
}

abbrev pasted : Bytes → Option SignedLicense
pasted text = some signed

abbrev server : Bytes → Bytes → Option SignedLicense
server key machine = none

resolve_licensed_iff_example :
    (((resolve_licensed verify rfc3339 stored (codes "M") launch_day).state ≡ licensed)
      ↔ IsGenuine verify stored (codes "M"))
    × (((resolve_licensed verify rfc3339 stored (codes "M") launch_day).state ≡ license_invalid)
        ↔ (¬ IsGenuine verify stored (codes "M")))
resolve_licensed_iff_example = resolve_licensed_iff verify rfc3339 stored (codes "M") launch_day

status_genuine_example :
    ((status verify rfc3339 sound (some (codes "M")) (launch_day + 9000 * day) world).0.state
      ≡ licensed)
    × ((status verify rfc3339 sound (some (codes "M")) (launch_day + 9000 * day) world).1.trial
        ≡ no_stores)
unfolding bytes_eq
status_genuine_example =
    status_genuine verify rfc3339 sound (codes "M") (launch_day + 9000 * day) world stored
      (inl (refl, refl)) (refl, refl)

activate-Activates_example : Activates verify rfc3339 (some (codes "M")) launch_day (
    activate verify rfc3339 pasted server sound
      (codes "{}")
      (some (codes "M"))
      launch_day
      empty_world)
unfolding activate trim_space bytes_eq store_verified save
activate-Activates_example =
    activate-Activates verify rfc3339 pasted server sound (codes "{}") (some (codes "M")) launch_day
      empty_world refl refl

activate-KeepsLicense_example :
    KeepsLicense sound world
      (activate verify rfc3339 pasted server sound
        (codes "{}")
        (some (codes "N"))
        launch_day
        world).world
unfolding activate trim_space bytes_eq store_verified save
activate-KeepsLicense_example =
    activate-KeepsLicense verify rfc3339 pasted server sound (codes "{}") (some (codes "N"))
      launch_day world (λ e. cc)
