-- ===== src/Diode.antt =====
-- src/send and src/receive together, over a link that keeps the packets and their order.
pub mod Packets
pub mod Clients
pub mod Streams
pub mod Files
pub mod Servers
