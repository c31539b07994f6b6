-- ===== src/Send.antt =====
-- src/send: the errors of the sender; each worker is a child.
pub mod Client
pub mod Server
pub mod Servers
pub mod Pipeline
pub mod Udp
pub mod Start
use lidi_4d8d19daa.Common.{ℕ, String, IoError}
use lidi_4d8d19daa.Protocol

-- `Receive` keeps no payload: a `RecvError` has no content.
pub data Error : Type 0 where
  io : IoError → Error
  send_block : Error
  send_udp : Error
  receive : Error
  protocol : Protocol.Error → Error
  diode : String → Error
  other : String → Error
