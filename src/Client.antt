-- ===== src/Client.antt =====
-- Flakkari/Client.
pub mod UdpClient
