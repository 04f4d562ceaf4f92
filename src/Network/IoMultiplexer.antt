-- ===== src/Network/IoMultiplexer.antt =====
-- Network/IOMultiplexer.hpp and IOMultiplexer.cpp: the descriptors that each of the three ways to wait
-- keeps.
pub mod Descriptors
pub mod Pselect
pub mod Ppoll
pub mod Wsa
