-- ===== src/License.antt =====
-- internal/license: the trial, the signed licence, and what the app shows of them.
-- An instant is the number of nanoseconds since Go's zero time, so 0 is `time.Time{}`; a positive
-- `time.Duration` is its number of nanoseconds.
pub mod Time
pub mod Trial
pub mod Canonical
pub mod Status
pub mod Manager
mod Tests
