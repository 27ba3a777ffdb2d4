-- ===== src/Server.antt =====
-- Sessions, the world and its rooms (server/game/Server, server/game/World, server/game/Room).
pub mod Session
pub mod World
pub mod Settings
pub mod Tests
