-- ===== src/License/Manager/Offline.antt =====
-- A genuine licence of this machine stays licensed, at every instant.
use auk.Base.{
  ◌≡◌, ◌↔◌, ◌⊎◌, refl, inl, inr, Bool, true, Option, none, some, arith, if◌then◌else◌, Bool-cases,
}
use auk.Base.Text.{Bytes, bytes_eq, bytes_eq_iff}
use auk.License.Time.{Instant}
use auk.License.Trial.{resolve}
use auk.License.Canonical.{SignedLicense}
use auk.License.Status.{trial, licensed, trial_expired, license_invalid}
use auk.License.Manager.{
  Stored, World, Faults, readable, load, clear, resolve_licensed, status_of, status, deactivate,
}

-- What the two gates ask of a stored licence.
abbrev pub IsGenuine : (SignedLicense → Bool) → Stored → Bytes → Type 0
IsGenuine verify st machine = (verify st.signed ≡ true) × (st.signed.license.machine_id ≡ machine)

-- The licence that `load` finds: the keychain's, or else the file's.
abbrev pub Finds : Faults → World → Stored → Type 0
Finds f w st =
    ((f.keychain_reads ≡ true) × (w.keychain ≡ some st))
    ⊎ ((readable f.keychain_reads w.keychain ≡ none) × (f.file_reads ≡ true) × (w.file ≡ some st))

module _ (verify : SignedLicense → Bool) (rfc3339 : Instant → Bytes) where
  resolve_licensed-genuine :
      (st : Stored) (machine : Bytes) (now : Instant)
      → IsGenuine verify st machine
      → (resolve_licensed verify rfc3339 st machine now).state ≡ licensed
  unfolding resolve_licensed
  resolve_licensed-genuine st machine now (v, b) =
      ground (arith, bytes_eq_iff st.signed.license.machine_id machine)

  resolve_licensed-else :
      (st : Stored) (machine : Bytes) (now : Instant)
      → ¬ IsGenuine verify st machine
      → (resolve_licensed verify rfc3339 st machine now).state ≡ license_invalid
  unfolding resolve_licensed
  resolve_licensed-else st machine now h = elim (Bool-cases (verify st.signed)) [
    | inr bad ↦ rw bad
    | inl good ↦ elim (Bool-cases (bytes_eq st.signed.license.machine_id machine)) [
      | inr other ↦ rw (good, other)
      | inl same ↦ absurd (h (good, (bytes_eq_iff _ _).0 same))
    ]
  ]

  IsGenuine-or_not :
      (st : Stored) (machine : Bytes)
      → IsGenuine verify st machine ⊎ (¬ IsGenuine verify st machine)
  IsGenuine-or_not st machine = elim (Bool-cases (verify st.signed)) [
    | inr bad ↦ inr (λ g. cc (bad, g.0))
    | inl good ↦ elim (Bool-cases (bytes_eq st.signed.license.machine_id machine)) [
      | inl same ↦ inl (good, (bytes_eq_iff _ _).0 same)
      | inr other ↦ inr (λ g. cc (other, (bytes_eq_iff st.signed.license.machine_id machine).1 g.1))
    ]
  ]

  licensed_only :
      (st : Stored) (machine : Bytes) (now : Instant)
      → (resolve_licensed verify rfc3339 st machine now).state ≡ licensed
      → IsGenuine verify st machine
  licensed_only st machine now e = elim (IsGenuine-or_not st machine) [
    | inl g ↦ g
    | inr n ↦ cc (e, resolve_licensed-else st machine now n)
  ]

  invalid_only :
      (st : Stored) (machine : Bytes) (now : Instant)
      → (resolve_licensed verify rfc3339 st machine now).state ≡ license_invalid
      → ¬ IsGenuine verify st machine
  invalid_only st machine now e g = cc (e, resolve_licensed-genuine st machine now g)

  -- A stored licence is shown as licensed exactly when its signature checks and it is bound to this
  -- machine, and as invalid exactly otherwise. The time of day, the end of the updates and the last
  -- online check have no part in it.
  pub resolve_licensed_iff :
      (st : Stored) (machine : Bytes) (now : Instant)
      → (((resolve_licensed verify rfc3339 st machine now).state ≡ licensed)
          ↔ IsGenuine verify st machine)
        × (((resolve_licensed verify rfc3339 st machine now).state ≡ license_invalid)
            ↔ (¬ IsGenuine verify st machine))
  resolve_licensed_iff st machine now = (
    (licensed_only st machine now, resolve_licensed-genuine st machine now),
    (invalid_only st machine now, resolve_licensed-else st machine now),
  )

  load-Finds :
      (f : Faults) (w : World) (st : Stored)
      → Finds f w st
      → (w' : World) × (load f w ≡ (some st, w')) × (w'.trial ≡ w.trial) × (w'.file ≡ w.file)
  unfolding load
  load-Finds f w st (inl (reads, here)) = (w, rw (reads, here), refl, refl)
  load-Finds f w st (inr (missing, reads, here)) = (
    if f.keychain_writes then record w { keychain = some st } else w,
    ground arith,
    ground arith,
    ground arith,
  )

  -- Offline forever: where the keychain, or else the file, yields a genuine licence of this machine, the
  -- status is licensed at every instant, and the trial's record is not touched.
  pub status_genuine :
      (f : Faults) (machine : Bytes) (now : Instant) (w : World) (st : Stored)
      → Finds f w st
      → IsGenuine verify st machine
      → ((status verify rfc3339 f (some machine) now w).0.state ≡ licensed)
        × ((status verify rfc3339 f (some machine) now w).1.trial ≡ w.trial)
  unfolding status
  status_genuine f machine now w st h g =
      let (w', found, same, _) = load-Finds f w st h in
      rw found (resolve_licensed-genuine st machine now g, same)

  trial_status_ne :
      (f : Faults) (machine : Option Bytes) (now : Instant) (w : World)
      → ((status_of verify rfc3339 f machine now (none, w)).0.state ≡ trial)
        ⊎ ((status_of verify rfc3339 f machine now (none, w)).0.state ≡ trial_expired)
  trial_status_ne f machine now w =
      elim (Bool-cases (resolve f.trial_writes now w.trial).0.expired) [
        | inl over ↦ inr (rw over)
        | inr left ↦ inl (rw left)
      ]

  load_empty : (f : Faults) (w : World) → w.keychain ≡ none → w.file ≡ none → load f w ≡ (none, w)
  unfolding load
  load_empty f w h k = ground arith

  clear_empties :
      (f : Faults) (w : World)
      → (clear f w).0 ≡ true
      → ((clear f w).1.keychain ≡ none) × ((clear f w).1.file ≡ none)
  unfolding clear
  clear_empties f w h = ground arith

  deactivate_clears :
      (f : Faults) (can_release : Bool) (w : World)
      → (deactivate f can_release w).0 ≡ true
      → ((deactivate f can_release w).2.keychain ≡ none)
        × ((deactivate f can_release w).2.file ≡ none)
  unfolding deactivate
  deactivate_clears f can_release w h = clear_empties f (load f w).1 h

  -- A deactivation that succeeds leaves no licence: from then on the status is that of the trial,
  -- running or expired, at every instant and on every machine.
  pub status-deactivate :
      (f g : Faults) (can_release : Bool) (machine : Option Bytes) (now : Instant) (w : World)
      → (deactivate f can_release w).0 ≡ true
      → ((status verify rfc3339 g machine now (deactivate f can_release w).2).0.state ≡ trial)
        ⊎ ((status verify rfc3339 g machine now (deactivate f can_release w).2).0.state
            ≡ trial_expired)
  unfolding status
  status-deactivate f g can_release machine now w h =
      let (no_keychain, no_file) = deactivate_clears f can_release w h in
      let left = (deactivate f can_release w).2 in
      rw (load_empty g left no_keychain no_file) (trial_status_ne g machine now left)
