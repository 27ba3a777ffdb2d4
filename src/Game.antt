-- ===== src/Game.antt =====
-- The game server's core: players, their tables and the rooms (server/game/Player, server/game/Room,
-- server/game/AI), over a store of Player objects that point to one another.
pub mod Types
pub mod Store
pub mod Spec
pub mod Player
pub mod Room
pub mod Fixture
mod Tests
mod RoundTests
