-- ===== src/Receive.antt =====
-- src/receive: the errors of the receiver and the messages between its workers; each worker is a
-- child.
pub mod Reblock
pub mod Decode
pub mod Dispatch
pub mod Client
pub mod Udp
pub mod Clients
pub mod Start
use lidi_4d8d19daa.Common.{ℕ, List, String, IoError}
use lidi_4d8d19daa.Extern.{Extern}
use lidi_4d8d19daa.Protocol

-- `RecvTimeoutError`
pub data RecvTimeout : Type 0 where
  timeout : RecvTimeout
  disconnected : RecvTimeout

pub data Error : Type 0 where
  io : IoError → Error
  send_packets : Error
  send_block_packets : Error
  send_block : Error
  send_clients : Error
  receive : Error
  receive_timeout : RecvTimeout → Error
  protocol : Protocol.Error → Error
  other : String → Error

-- `Reassembled`: what the reblock worker sends to the decoding workers.
pub data Reassembled (x : Extern) : Type 0 where
  lost : Reassembled x
  reassembled : ℕ → List x.Packet → Reassembled x
