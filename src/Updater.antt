-- ===== src/Updater.antt =====
-- internal/updater: which release is newer than the running build.
pub mod Version
mod Tests
