-- ===== src/Udp.antt =====
-- src/udp.rs: datagrams received one by one or in batches.
pub mod Send
pub mod Receive
use lidi_4d8d19daa.Common.{ℕ, List}

pub data Datagrams : Type 0 where
  single : List ℕ → Datagrams
  multiple : List (List ℕ) → Datagrams
