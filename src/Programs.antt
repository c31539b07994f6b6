-- ===== src/Programs.antt =====
-- src/bin: the programs of the two sides of the diode, from their command lines to their threads.
pub mod DiodeSend
pub mod DiodeReceive
pub mod Agreement
pub mod DiodeConfig
pub mod Oneshot
pub mod FloodTest
