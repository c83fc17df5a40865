-- ===== src/License/Manager/Activate.antt =====
-- What an activation stores, and what a failed one leaves alone.
use auk.Base.{
  ◌≡◌, ◌≢◌, ◌⊎◌, refl, ap, inl, inr, Bool, true, false, Option, none, some, arith, if◌then◌else◌,
  Bool-cases,
}
use auk.Base.Text.{Bytes, bytes_eq, bytes_eq_iff}
use auk.Base.Text.Space.{trim_space}
use auk.License.Time.{Instant}
use auk.License.Canonical.{SignedLicense}
use auk.License.Status.{licensed}
use auk.License.Manager.{
  Stored, World, Faults, load, save, status_of, status, Activation, report, store_verified,
  from_input, on_machine, is_blank, activate,
}
use auk.License.Manager.Offline.{IsGenuine, status_genuine}

-- The keychain gave no licence, and holds now the one of the file.
abbrev pub Refilled : Faults → World → World → Type 0
Refilled f w w' =
    ((f.keychain_reads ≡ false) ⊎ (w.keychain ≡ none)) × (w.file ≢ none) × (w'.keychain ≡ w.file)

-- The licence cells are as before, but that the keychain may have been refilled.
abbrev pub KeepsLicense : Faults → World → World → Type 0
KeepsLicense f w w' = (w'.file ≡ w.file) × ((w'.keychain ≡ w.keychain) ⊎ Refilled f w w')

module _ (verify : SignedLicense → Bool) (rfc3339 : Instant → Bytes) where
  -- The keychain has a genuine licence of this machine, activated at this instant, and it is shown.
  pub record Activates (machine : Option Bytes) (now : Instant) (a : Activation verify rfc3339)
      : Type 0 where
    pub stored : Stored
    pub id : Bytes
    pub identified : machine ≡ some id
    pub kept : a.world.keychain ≡ some stored
    pub genuine : IsGenuine verify stored id
    pub stamped : stored.activated_at ≡ now
    pub shows : a.shown.state ≡ licensed

  load-KeepsLicense : (f : Faults) (w : World) → KeepsLicense f w (load f w).1
  unfolding load
  load-KeepsLicense f w = ground arith

  status_of-KeepsLicense :
      (f : Faults) (machine : Option Bytes) (now : Instant) (w : World) (r : Option Stored × World)
      → KeepsLicense f w r.1
      → KeepsLicense f w (status_of verify rfc3339 f machine now r).1
  status_of-KeepsLicense f machine now w (some st, w') h = h
  status_of-KeepsLicense f machine now w (none, w') h = h

  status-KeepsLicense :
      (f : Faults) (machine : Option Bytes) (now : Instant) (w : World)
      → KeepsLicense f w (status verify rfc3339 f machine now w).1
  unfolding status
  status-KeepsLicense f machine now w =
      status_of-KeepsLicense f machine now w (load f w) (load-KeepsLicense f w)

  status_kept :
      (f : Faults) (machine : Bytes) (now : Instant) (w : World) (st : Stored)
      → f.keychain_reads ≡ true
      → w.keychain ≡ some st
      → (status verify rfc3339 f (some machine) now w).1 ≡ w
  unfolding status load
  status_kept f machine now w st reads here = rw (reads, here)

  abbrev fresh : SignedLicense → Instant → Stored
  fresh sl now = record { signed = sl; activated_at = now; last_validated_at = now }

  abbrev stocked : Faults → Stored → World → World
  stocked f st w = record w { keychain = some st; file = if f.file_writes then some st else w.file }

  -- The three tests that a stored licence has passed.
  store_verified_passes :
      (f : Faults) (sl : SignedLicense) (machine : Bytes) (now : Instant) (w : World)
      → (store_verified verify rfc3339 f sl machine now w).failure ≡ none
      → (verify sl ≡ true)
        × (bytes_eq sl.license.machine_id machine ≡ true)
        × (f.keychain_writes ≡ true)
  unfolding store_verified save
  store_verified_passes f sl machine now w e = ground arith

  store_verified_stores :
      (f : Faults) (sl : SignedLicense) (machine : Bytes) (now : Instant) (w : World)
      → verify sl ≡ true
      → bytes_eq sl.license.machine_id machine ≡ true
      → f.keychain_writes ≡ true
      → store_verified verify rfc3339 f sl machine now w
        ≡ report verify rfc3339 none
            (status verify rfc3339 f (some machine) now (stocked f (fresh sl now) w))
  unfolding store_verified save
  store_verified_stores f sl machine now w v b k = rw (v, b, k)

  stocked-Activates :
      (f : Faults) (sl : SignedLicense) (machine : Bytes) (now : Instant) (w : World)
      → f.keychain_reads ≡ true
      → verify sl ≡ true
      → sl.license.machine_id ≡ machine
      → Activates (some machine) now (
          report verify rfc3339 none
            (status verify rfc3339 f (some machine) now (stocked f (fresh sl now) w)))
  stocked-Activates f sl machine now w reads v b =
      let st = fresh sl now in
      let w' = stocked f st w in
      record {
        stored = st;
        id = machine;
        identified = refl;
        kept = ap (λ (x : World). x.keychain) (status_kept f machine now w' st reads refl);
        genuine = (v, b);
        stamped = refl;
        shows = (status_genuine verify rfc3339 f machine now w' st (inl (reads, refl)) (v, b)).0;
      }

  store_verified-Activates :
      (f : Faults) (sl : SignedLicense) (machine : Bytes) (now : Instant) (w : World)
      → f.keychain_reads ≡ true
      → (store_verified verify rfc3339 f sl machine now w).failure ≡ none
      → Activates (some machine) now (store_verified verify rfc3339 f sl machine now w)
  store_verified-Activates f sl machine now w reads e =
      let (v, b, k) = store_verified_passes f sl machine now w e in
      rw (store_verified_stores f sl machine now w v b k)
        (stocked-Activates f sl machine now w reads v ((bytes_eq_iff _ _).0 b))

  store_verified-KeepsLicense :
      (f : Faults) (sl : SignedLicense) (machine : Bytes) (now : Instant) (w : World)
      → (store_verified verify rfc3339 f sl machine now w).failure ≢ none
      → KeepsLicense f w (store_verified verify rfc3339 f sl machine now w).world
  unfolding store_verified save
  store_verified-KeepsLicense f sl machine now w e =
      let kept = status-KeepsLicense f (some machine) now w in ground arith

  module _ (pasted : Bytes → Option SignedLicense)
      (server : Bytes → Bytes → Option SignedLicense) where
    from_input-Activates :
        (f : Faults) (input machine : Bytes) (now : Instant) (w : World)
        (o s : Option SignedLicense)
        → f.keychain_reads ≡ true
        → server input machine ≡ s
        → (from_input verify rfc3339 pasted server f input machine now w o).failure ≡ none
        → Activates
            (some machine)
            now
            (from_input verify rfc3339 pasted server f input machine now w o)
    from_input-Activates f input machine now w (some sl) s reads q e =
        store_verified-Activates f sl machine now w reads e
    from_input-Activates f input machine now w none none reads q e = cc
    from_input-Activates f input machine now w none (some sl) reads q e =
        rw q (store_verified-Activates f sl machine now w reads (rw q at e))

    on_machine-Activates :
        (f : Faults) (input : Bytes) (machine : Option Bytes) (now : Instant) (w : World)
        → f.keychain_reads ≡ true
        → (on_machine verify rfc3339 pasted server f input machine now w).failure ≡ none
        → Activates machine now (on_machine verify rfc3339 pasted server f input machine now w)
    on_machine-Activates f input none now w reads e = cc
    on_machine-Activates f input (some machine) now w reads e =
        from_input-Activates f input machine now w (pasted input) (server input machine) reads refl
          e

    -- An activation that reports no error has put into the keychain a licence whose signature checks and
    -- which is bound to this very machine, and the status that it returns is licensed; whether the
    -- licence was pasted or came from the server. The keychain can be read in this call.
    pub activate-Activates :
        (f : Faults) (raw : Bytes) (machine : Option Bytes) (now : Instant) (w : World)
        → f.keychain_reads ≡ true
        → (activate verify rfc3339 pasted server f raw machine now w).failure ≡ none
        → Activates machine now (activate verify rfc3339 pasted server f raw machine now w)
    unfolding activate
    activate-Activates f raw machine now w reads e = elim (Bool-cases (is_blank (trim_space raw))) [
      | inl blank ↦ cc
      | inr typed ↦
          rw typed (on_machine-Activates f (trim_space raw) machine now w reads (rw typed at e))
    ]

    from_input-KeepsLicense :
        (f : Faults) (input machine : Bytes) (now : Instant) (w : World)
        (o s : Option SignedLicense)
        → server input machine ≡ s
        → (from_input verify rfc3339 pasted server f input machine now w o).failure ≢ none
        → KeepsLicense f w (from_input verify rfc3339 pasted server f input machine now w o).world
    from_input-KeepsLicense f input machine now w (some sl) s q e =
        store_verified-KeepsLicense f sl machine now w e
    from_input-KeepsLicense f input machine now w none none q e =
        rw q (status-KeepsLicense f (some machine) now w)
    from_input-KeepsLicense f input machine now w none (some sl) q e =
        rw q (store_verified-KeepsLicense f sl machine now w (rw q at e))

    on_machine-KeepsLicense :
        (f : Faults) (input : Bytes) (machine : Option Bytes) (now : Instant) (w : World)
        → (on_machine verify rfc3339 pasted server f input machine now w).failure ≢ none
        → KeepsLicense f w (on_machine verify rfc3339 pasted server f input machine now w).world
    on_machine-KeepsLicense f input none now w e = status-KeepsLicense f none now w
    on_machine-KeepsLicense f input (some machine) now w e =
        from_input-KeepsLicense f input machine now w (pasted input) (server input machine) refl e

    -- An activation that reports an error leaves the licence file and the keychain as they are, but
    -- that a keychain which was empty or could not be read may hold the licence of the file now.
    pub activate-KeepsLicense :
        (f : Faults) (raw : Bytes) (machine : Option Bytes) (now : Instant) (w : World)
        → (activate verify rfc3339 pasted server f raw machine now w).failure ≢ none
        → KeepsLicense f w (activate verify rfc3339 pasted server f raw machine now w).world
    unfolding activate
    activate-KeepsLicense f raw machine now w e = elim (Bool-cases (is_blank (trim_space raw))) [
      | inl blank ↦ rw blank (status-KeepsLicense f machine now w)
      | inr typed ↦
          rw typed (on_machine-KeepsLicense f (trim_space raw) machine now w (rw typed at e))
    ]
