-- ===== src/License/Time.antt =====
-- Instants and durations, as internal/license uses them.
use auk.Base.{ℕ, ◌-◌, Bool, ltb, leb, if◌then◌else◌}

abbrev pub Instant : Type 0
Instant = ℕ

-- 24 hours
abbrev pub day : ℕ
day = 86400000000000

-- the largest `time.Duration`
abbrev pub max_duration : ℕ
max_duration = 9223372036854775807

-- `a.Sub(b)`, which saturates; a negative difference is 0 here
abbrev pub sub_time : Instant → Instant → ℕ
sub_time a b = if leb (a - b) max_duration then a - b else max_duration

-- `a.Before(b)`; `a.After(b)` is `before b a`
abbrev pub before : Instant → Instant → Bool
before a b = ltb a b

-- the later of two instants
abbrev pub later : Instant → Instant → Instant
later a b = if before a b then b else a
