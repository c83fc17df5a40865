-- ===== src/License/Status.antt =====
-- internal/license/status.go: what the app shows, and the grace of the online check.
-- Whole days are counted on nanoseconds: the float64 quotient of hours has the same whole part for the 30
-- days of the grace.
use auk.Base.{ℕ, ◌+◌, ◌*◌, ◌/◌, Bool, true, false, ◌==◌, leb, ltb, if◌then◌else◌}
use auk.Base.Int.{ℤ}
use auk.Base.Text.{Bytes}
use auk.License.Time.{Instant, day, sub_time}

pub data State : Type 0 where
  trial licensed trial_expired license_invalid : State

-- which of the three messages a status carries
pub data Message : Type 0 where
  no_message bad_signature other_machine updates_ended : Message

pub record Status : Type 0 where
  pub state : State
  pub days_remaining : ℕ
  pub email : Bytes
  pub name : Bytes
  pub plan : Bytes
  pub machine_count : ℤ
  pub max_machines : ℤ
  pub machine_id : Bytes
  pub updates_expired : Bool
  pub updates_expire_at : Bytes
  pub in_grace : Bool
  pub grace_days_remaining : ℕ
  pub message : Message

-- `GraceDays` days
abbrev pub grace_term : ℕ
grace_term = 30 * day

-- `graceState`
unfoldable pub grace_state : Instant → Instant → ℕ → Bool × ℕ
grace_state last_validated now grace =
    let deadline = last_validated + grace in
    let days = sub_time deadline now / day in
    if last_validated == 0
    then (true, grace / day)
    else if leb deadline now
    then (false, 0)
    else (true, if ltb days 1 then 1 else days)
