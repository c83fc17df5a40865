-- ===== src/Storage.antt =====
-- internal/storage: the order keys of sibling rows and their healing at load, and the file store's
-- folders, requests and environments.
pub mod OrderKey
pub mod Heal
mod Tests
pub mod Environments
pub mod Tree
