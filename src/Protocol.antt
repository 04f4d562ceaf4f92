-- ===== src/Protocol.antt =====
-- Flakkari/Protocol: packets and what is put into them.
pub mod Commands
pub mod Packet
pub mod PacketFactory
