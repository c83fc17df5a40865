-- ===== src/License/Manager.antt =====
-- internal/license/manager.go and license_store.go: activation, status and deactivation.
-- The signature check, the RFC 3339 printer, the reader of pasted licences and the activation
-- server are parameters. A cell of a store that cannot be decoded is `none`. `Faults` says which
-- accesses of the operating system fail during one call.
pub mod Offline
pub mod Activate
use auk.Base.{
  ℕ, ◌<◌, Bool, true, false, not, ◌&&◌, List, [], ◌∷◌, ◌++◌, Option, none, some, ltb, ◌==◌,
  if◌then◌else◌,
}
use auk.Base.Int.{ℤ, pos}
use auk.Base.Text.{Bytes, bytes_eq}
use auk.Base.Text.Space.{trim_space}
use auk.License.Time.{Instant, before}
use auk.License.Trial.{Stores, Writes, TrialState, resolve}
use auk.License.Canonical.{License, SignedLicense}
use auk.License.Status.{
  State, trial, licensed, trial_expired, license_invalid, Message, no_message, bad_signature,
  other_machine, updates_ended, Status, grace_term, grace_state,
}

-- `storedLicense`
pub record Stored : Type 0 where
  pub signed : SignedLicense
  pub activated_at : Instant
  pub last_validated_at : Instant

pub record World : Type 0 where
  pub keychain : Option Stored
  pub file : Option Stored
  pub trial : Stores

pub record Faults : Type 0 where
  pub keychain_reads : Bool
  pub keychain_writes : Bool
  pub keychain_deletes : Bool
  pub file_reads : Bool
  pub file_writes : Bool
  pub file_removes : Bool
  pub trial_writes : Writes

abbrev pub readable : Bool → Option Stored → Option Stored
readable passes cell = if passes then cell else none

-- `licenseStore.load`; the file mirror fills the keychain again
unfoldable pub load : Faults → World → Option Stored × World
load f w = elim (readable f.keychain_reads w.keychain) [
  | some st ↦ (some st, w)
  | none ↦ elim (readable f.file_reads w.file) [
    | none ↦ (none, w)
    | some st ↦ (some st, if f.keychain_writes then record w { keychain = some st } else w)
  ]
]

-- `licenseStore.save`; false when the keychain refuses
unfoldable pub save : Faults → Stored → World → Bool × World
save f st w =
    if f.keychain_writes
    then (true, record w { keychain = some st; file = if f.file_writes then some st else w.file })
    else (false, w)

-- `licenseStore.clear`
unfoldable pub clear : Faults → World → Bool × World
clear f w =
    if f.keychain_deletes
    then (
      f.file_removes,
      record w { keychain = none; file = if f.file_removes then none else w.file },
    )
    else (false, w)

abbrev pub blank : State → ℕ → Bytes → Status
blank state days machine = record {
  state = state;
  days_remaining = days;
  email = [];
  name = [];
  plan = [];
  machine_count = pos 0;
  max_machines = pos 0;
  machine_id = machine;
  updates_expired = false;
  updates_expire_at = [];
  in_grace = false;
  grace_days_remaining = 0;
  message = no_message;
}

-- the status of a licence before its checks
abbrev pub identified : License → State → Message → Bytes → Status
identified lic state message machine =
    let b = blank state 0 machine in
    record b {
      email = lic.email;
      name = lic.name;
      plan = lic.plan;
      machine_count = lic.machine_count;
      max_machines = lic.max_machines;
      message = message;
    }

-- `machineID, _ := m.fp.MachineID()`: an unidentified machine has the empty id
abbrev pub machine_or_empty : Option Bytes → Bytes
machine_or_empty none = []
machine_or_empty (some id) = id

abbrev pub is_blank : Bytes → Bool
is_blank [] = true
is_blank (_ ∷ _) = false

module _ (verify : SignedLicense → Bool) (rfc3339 : Instant → Bytes) where
  abbrev pub with_updates : Instant → License → Status → Status
  with_updates now lic st =
      if lic.expires_updates_at == 0
      then st
      else if before lic.expires_updates_at now
      then record st {
        updates_expire_at = rfc3339 lic.expires_updates_at;
        updates_expired = true;
        message = updates_ended;
      }
      else record st { updates_expire_at = rfc3339 lic.expires_updates_at }

  abbrev pub with_grace : Instant → Instant → Status → Status
  with_grace now last_validated st =
      let grace = grace_state last_validated now grace_term in
      record st { in_grace = grace.0; grace_days_remaining = grace.1 }

  -- `resolveLicensedLocked`
  unfoldable pub resolve_licensed : Stored → Bytes → Instant → Status
  resolve_licensed stored machine now =
      let lic = stored.signed.license in
      if not (verify stored.signed)
      then identified lic license_invalid bad_signature machine
      else if not (bytes_eq lic.machine_id machine)
      then identified lic license_invalid other_machine machine
      else with_grace now stored.last_validated_at
          (with_updates now lic (identified lic licensed no_message machine))

  -- the trial branch of `statusLocked`
  abbrev pub trial_status : Bytes → TrialState → Status
  trial_status machine ts =
      if ts.expired then blank trial_expired 0 machine else blank trial ts.days_remaining machine

  abbrev pub status_of : Faults → Option Bytes → Instant → Option Stored × World → Status × World
  status_of f machine now (some stored, w) =
      (resolve_licensed stored (machine_or_empty machine) now, w)
  status_of f machine now (none, w) =
      let r = resolve f.trial_writes now w.trial in
      (trial_status (machine_or_empty machine) r.0, record w { trial = r.1 })

  -- `statusLocked`
  unfoldable pub status : Faults → Option Bytes → Instant → World → Status × World
  status f machine now w = status_of f machine now (load f w)

  pub data ActivateError : Type 0 where
    empty_input no_machine refused bad_license wrong_machine not_saved : ActivateError

  pub record Activation : Type 0 where
    pub shown : Status
    pub failure : Option ActivateError
    pub world : World

  -- the current status, beside an error or none
  abbrev pub report : Option ActivateError → Status × World → Activation
  report e (st, w) = record { shown = st; failure = e; world = w }

  abbrev pub saved : Faults → Option Bytes → Instant → Bool × World → Activation
  saved f machine now (true, w) = report none (status f machine now w)
  saved f machine now (false, w) = report (some not_saved) (status f machine now w)

  -- `storeVerifiedLocked`
  unfoldable pub store_verified : Faults → SignedLicense → Bytes → Instant → World → Activation
  store_verified f sl machine now w =
      if not (verify sl)
      then report (some bad_license) (status f (some machine) now w)
      else if not (bytes_eq sl.license.machine_id machine)
      then report (some wrong_machine) (status f (some machine) now w)
      else saved f (some machine) now
          (save f (record { signed = sl; activated_at = now; last_validated_at = now }) w)

  module _ (pasted : Bytes → Option SignedLicense)
      (server : Bytes → Bytes → Option SignedLicense) where
    abbrev pub from_server : Faults → Bytes → Instant → World → Option SignedLicense → Activation
    from_server f machine now w none = report (some refused) (status f (some machine) now w)
    from_server f machine now w (some sl) = store_verified f sl machine now w

    abbrev pub from_input :
        Faults → Bytes → Bytes → Instant → World → Option SignedLicense → Activation
    from_input f input machine now w (some sl) = store_verified f sl machine now w
    from_input f input machine now w none = from_server f machine now w (server input machine)

    abbrev pub on_machine : Faults → Bytes → Option Bytes → Instant → World → Activation
    on_machine f input none now w = report (some no_machine) (status f none now w)
    on_machine f input (some machine) now w = from_input f input machine now w (pasted input)

    -- `Activate`
    unfoldable pub activate : Faults → Bytes → Option Bytes → Instant → World → Activation
    activate f raw machine now w =
        if is_blank (trim_space raw)
        then report (some empty_input) (status f machine now w)
        else on_machine f (trim_space raw) machine now w

-- the seat that `Deactivate` asks the server to release: key and machine
abbrev pub seat_of : Bool → Option Stored → Option (Bytes × Bytes)
seat_of can_release none = none
seat_of can_release (some st) =
    if can_release then some (st.signed.license.license_key, st.signed.license.machine_id) else none

-- `Deactivate`: whether it succeeds, the seat asked to be released, and the stores
unfoldable pub deactivate : Faults → Bool → World → Bool × Option (Bytes × Bytes) × World
deactivate f can_release w =
    let loaded = load f w in
    let cleared = clear f loaded.1 in (cleared.0, seat_of can_release loaded.0, cleared.1)
