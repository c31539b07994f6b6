-- ===== src/Aux.antt =====
-- src/aux: the programs that carry files and UDP datagrams over the streams of the diode, and the
-- two ways to connect to it. Socket addresses and paths are text.
pub mod Stream
pub mod File
pub mod Udp
use lidi_4d8d19daa.Common.{Option, String}

pub data DiodeSend : Type 0 where
  tcp : String → DiodeSend
  unix : String → DiodeSend

pub record DiodeReceive : Type 0 where
  pub from_tcp : Option String
  pub from_unix : Option String
