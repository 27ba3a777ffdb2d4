-- ===== src/Packets.antt =====
-- Packets on the wire: ByteBuffer and WorldPacket (server/shared/Packets), the headers of a packet
-- (server/game/Server) and the MessageBuffer in which a packet is gathered (server/shared/Networking).
pub mod Bytes
pub mod Bits
pub mod ByteBuffer
mod Tests
