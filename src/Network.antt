-- ===== src/Network.antt =====
-- The network side of the server (server/shared/Networking, server/game/Server/WorldSocket.cpp).
pub mod MessageBuffer
pub mod Socket
pub mod Framing
pub mod Messages
pub mod Malformed
pub mod Writing
pub mod PacketLog
pub mod Tests
