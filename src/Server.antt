-- ===== src/Server.antt =====
-- Flakkari/Server: clients, games and the server that connects them.
pub mod Client
mod Tests
pub mod ClientManager
pub mod ResourceManager
pub mod Game
pub mod GameManager
pub mod CommandManager
pub mod UdpServer
pub mod GameDownloader
