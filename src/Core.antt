-- ===== src/Core.antt =====
-- internal/core: the request engine's own pieces.
pub mod Model
pub mod Vars
pub mod Engine
pub mod Chaining
pub mod PathParams
