-- ===== src/Rocks.antt =====
-- src/rocks: the server that takes rocks packets. The web frameworks are parameters.
pub mod Packet
pub mod Service
pub mod Incoming
pub mod Queue
pub mod Helper
