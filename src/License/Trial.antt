-- ===== src/License/Trial.antt =====
-- internal/license/trial.go: the trial clock, kept in a file and in the keychain.
-- A record that cannot be read, or is not there, is `none`. The float64 arithmetic on whole days is
-- exact over the 14 days of a trial, so days are counted on nanoseconds.
pub mod Clock
pub mod Runs
use auk.Base.{
  ℕ, ◌+◌, ◌-◌, ◌*◌, ◌/◌, ◌<◌, Bool, true, false, ◌||◌, Option, none, some, ltb, leb, ◌==◌,
  if◌then◌else◌,
}
use auk.License.Time.{Instant, day, sub_time, before}

-- `trialRecord`
pub record Trial : Type 0 where
  pub start : Instant
  pub last_seen : Instant

-- `trialState`
pub record TrialState : Type 0 where
  pub start : Instant
  pub days_remaining : ℕ
  pub expired : Bool

-- the two stores
pub record Stores : Type 0 where
  pub file : Option Trial
  pub keychain : Option Trial

-- which of the two writes get through
pub record Writes : Type 0 where
  pub file : Bool
  pub keychain : Bool

abbrev pub trial_days : ℕ
trial_days = 14

abbrev pub max_forward_step : ℕ
max_forward_step = 45 * day

-- one round of the loop over both stores
unfoldable pub earliest : Instant → Option Trial → Instant
earliest start none = start
earliest start (some r) =
    if r.start == 0 then start else if start == 0 || before r.start start then r.start else start

unfoldable pub trial_start : Instant → Stores → Instant
unfolding earliest
trial_start now s =
    let found = earliest (earliest 0 s.file) s.keychain in if found == 0 then now else found

unfoldable pub raised : Instant → Option Trial → Instant
raised high none = high
raised high (some r) = if before high r.last_seen then r.last_seen else high

unfoldable pub last_seen_at : Instant → Instant → Stores → Instant
unfolding raised
last_seen_at now start s =
    let high = raised (raised start s.file) s.keychain in
    let capped = if before (high + max_forward_step) now then high + max_forward_step else now in
    let seen = if before high capped then capped else high in
    if before seen start then start else seen

unfoldable pub reconcile : Instant → Stores → Trial
reconcile now s =
    let start = trial_start now s in record { start = start; last_seen = last_seen_at now start s }

unfoldable pub standing : Trial → TrialState
standing r =
    let elapsed = sub_time r.last_seen r.start in
    let term = trial_days * day in
    if leb term elapsed
    then record { start = r.start; days_remaining = 0; expired = true }
    else record {
      start = r.start;
      days_remaining = (term - elapsed + (day - 1)) / day;
      expired = false;
    }

abbrev pub written : Bool → Trial → Option Trial → Option Trial
written passes r old = if passes then some r else old

-- `resolve`: the standing, and the stores with the reconciled record written back
unfoldable pub resolve : Writes → Instant → Stores → TrialState × Stores
unfolding reconcile standing
resolve w now s =
    let r = reconcile now s in
    (
      standing r,
      record { file = written w.file r s.file; keychain = written w.keychain r s.keychain },
    )
