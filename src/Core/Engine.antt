-- ===== src/Core/Engine.antt =====
-- internal/core/engine.go: the layers of variables, secrets and scripts, and the path of a send.
pub mod RunVars
pub mod Layers
pub mod Secrets
pub mod Request
pub mod Writes
pub mod Run
mod Tests
