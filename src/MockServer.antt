-- ===== src/MockServer.antt =====
-- internal/mockserver: a local server that replays recorded responses.
pub mod Path
pub mod Route
