-- ===== src/Network.antt =====
-- Flakkari/Network: addresses, sockets, buffers and queues.
pub mod Address
pub mod Socket
pub mod Buffer
pub mod IoMultiplexer
pub mod PacketQueue
