-- ===== src/License/Trial/Clock.antt =====
-- One resolve: whatever the clock and one of the stores say, a record that survives in the other
-- store is not exceeded.
use auk.Base.{◌+◌, ◌*◌, ◌≤◌, ◌≡◌, ◌≢◌, ◌⊎◌, ◌↔◌, true, Option, none, some, arith, inl, inr}
use auk.License.Time.{Instant, day}
use auk.License.Trial.{
  Trial, Stores, Writes, earliest, trial_start, raised, last_seen_at, reconcile, standing, resolve,
}

-- The record is in one of the stores.
abbrev pub Holds : Stores → Trial → Type 0
Holds s r = (s.file ≡ some r) ⊎ (s.keychain ≡ some r)

earliest-some :
    (a : Instant) (r : Trial)
    → r.start ≢ 0
    → (earliest a (some r) ≤ r.start) × (earliest a (some r) ≢ 0)
unfolding earliest
earliest-some a r h = ground arith

earliest_le : (a : Instant) (o : Option Trial) → a ≢ 0 → (earliest a o ≤ a) × (earliest a o ≢ 0)
unfolding earliest
earliest_le a none h = ground arith
earliest_le a (some r) h = ground arith

pub trial_start-le :
    (now : Instant) (s : Stores) (r : Trial) → Holds s r → r.start ≢ 0 → trial_start now s ≤ r.start
unfolding trial_start
trial_start-le now s r (inl e) h =
    let (le, ne) = earliest-some 0 r h in
    let (le', ne') = earliest_le (earliest 0 (some r)) s.keychain ne in ground (arith, e)
trial_start-le now s r (inr e) h =
    let (le, ne) = earliest-some (earliest 0 s.file) r h in ground (arith, e)

raised_le : (a : Instant) (o : Option Trial) → a ≤ raised a o
unfolding raised
raised_le a none = ground arith
raised_le a (some r) = ground arith

raised-some : (a : Instant) (r : Trial) → r.last_seen ≤ raised a (some r)
unfolding raised
raised-some a r = ground arith

high_le :
    (now start : Instant) (s : Stores)
    → raised (raised start s.file) s.keychain ≤ last_seen_at now start s
unfolding last_seen_at
high_le now start s = ground arith

pub last_seen_at-ge :
    (now start : Instant) (s : Stores) (r : Trial)
    → Holds s r
    → r.last_seen ≤ last_seen_at now start s
last_seen_at-ge now start s r (inl e) =
    let top = high_le now start s in
    let first = raised-some start r in
    let rest = raised_le (raised start s.file) s.keychain in ground (arith, e)
last_seen_at-ge now start s r (inr e) =
    let top = high_le now start s in
    let first = raised-some (raised start s.file) r in ground (arith, e)

pub trial_start-ne_zero : (now : Instant) (s : Stores) → now ≢ 0 → trial_start now s ≢ 0
unfolding trial_start
trial_start-ne_zero now s h = ground arith

-- An earlier start and a later mark leave fewer days.
pub standing_le :
    (r r' : Trial)
    → r'.start ≤ r.start
    → r.last_seen ≤ r'.last_seen
    → (standing r').days_remaining ≤ (standing r).days_remaining
unfolding standing
standing_le r r' h k = ground arith

-- No day is left exactly when the trial is expired.
standing-expired_iff :
    (r : Trial) → ((standing r).expired ≡ true) ↔ ((standing r).days_remaining ≡ 0)
unfolding standing
standing-expired_iff r = ground arith

-- A resolve never gives more days than a record that one of the two stores holds, whatever the
-- clock reads, whatever the other store holds, and whichever of the writes get through. The record's
-- start is not the zero instant.
pub resolve_le :
    (w : Writes) (now : Instant) (s : Stores) (r : Trial)
    → Holds s r
    → r.start ≢ 0
    → (resolve w now s).0.days_remaining ≤ (standing r).days_remaining
unfolding resolve reconcile
resolve_le w now s r h k =
    standing_le r (reconcile now s) (trial_start-le now s r h k)
      (last_seen_at-ge now (trial_start now s) s r h)

-- The latest instant that the stores have seen, the trial's start included.
abbrev pub seen_by : Instant → Stores → Instant
seen_by now s = raised (raised (trial_start now s) s.file) s.keychain

standing_expires : (r : Trial) → ((standing r).expired ≡ true) ↔ (r.start + 14 * day ≤ r.last_seen)
unfolding standing
standing_expires r = ground arith

high_start : (now start : Instant) (s : Stores) → start ≤ raised (raised start s.file) s.keychain
high_start now start s =
    let first = raised_le start s.file in
    let rest = raised_le (raised start s.file) s.keychain in omega arith

last_seen_at_iff :
    (now start : Instant) (s : Stores)
    → (start + 14 * day ≤ last_seen_at now start s)
      ↔ ((start + 14 * day ≤ now) ⊎ (start + 14 * day ≤ raised (raised start s.file) s.keychain))
unfolding last_seen_at
last_seen_at_iff now start s = let above = high_start now start s in ground arith

-- The trial is expired exactly when 14 days have passed from its start to the clock, or to the latest instant
-- that a store has recorded. The bound on how far one resolve moves the mark makes no difference.
pub resolve-expired_iff :
    (w : Writes) (now : Instant) (s : Stores)
    → ((resolve w now s).0.expired ≡ true)
      ↔ ((trial_start now s + 14 * day ≤ now) ⊎ (trial_start now s + 14 * day ≤ seen_by now s))
unfolding resolve
resolve-expired_iff w now s =
    let start = trial_start now s in
    let (to, from) = standing_expires (reconcile now s) in
    let (to', from') = last_seen_at_iff now start s in
    (λ h. to' (unfold reconcile in to h), λ h. from (unfold reconcile in from' h))
