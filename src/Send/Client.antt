-- ===== src/Send/Client.antt =====
-- src/send/client.rs: a client's stream is cut into blocks. The blocks are what the worker sends
-- to the ordering worker; that channel cannot be disconnected, since `Sender` holds both its ends.
-- The hash is only logged.
pub mod Stream
pub mod Owned
pub mod Sized
use Prim.Native.Nat.{min}
use lidi_4d8d19daa.Common.{
  ℕ, zero, suc, ◌+◌, ◌-◌, ◌^◌, List, [], ◌∷◌, ◌++◌, Option, none, some, Bool, true, false, not,
  ◌&&◌, ◌||◌, Result, ok, err, panic, ltb, leb, ◌==◌, if◌then◌else◌, length, take, drop, IoError,
}
use lidi_4d8d19daa.Common.Reader.{Wait, ready, fault, read_size}
use lidi_4d8d19daa.Extern.{Extern}
use lidi_4d8d19daa.Protocol
use lidi_4d8d19daa.Protocol.Raptorq.{RaptorQ}
use lidi_4d8d19daa.Protocol.Block.{Block, BlockType, start, chunk, end, new, max_data_len}
use lidi_4d8d19daa.Send.{Error, io, protocol}

-- Where the worker stands when the environment has made all its choices.
pub data Status : Type 0 where
  waiting : Status
  finished : Status
  failed : Error → Status
  panicked : Status

pub record Run : Type 0 where
  pub blocks : List Block
  pub status : Status

abbrev pub stop : Status → Run
stop s = record { blocks = []; status = s }

-- `sender.to_ordering.send(Some(Block::new(…)?))?`, and what follows it.
abbrev pub emit : Result Protocol.Error Block → Run → Run
emit (ok b) rest = record { blocks = b ∷ rest.blocks; status = rest.status }
emit (err e) rest = stop (failed (protocol e))
emit panic rest = stop panicked

module _ (x : Extern) (flush : Bool) (r : RaptorQ x) (id : ℕ) where
  -- The loop: `filled` is `buffer[..cursor]`, `stream` what the client has still to give.
  unfoldable pub loop : List Wait → List ℕ → List ℕ → Run
  loop [] stream filled = stop waiting
  loop (fault e ∷ ws) stream filled = stop (failed (io e))
  loop (ready n ∷ ws) stream filled =
      let capacity : ℕ = max_data_len x r in
      let size : ℕ = read_size (capacity - length filled) n in
      let read : ℕ = length (take size stream) in
      let buffer : List ℕ = filled ++ take size stream in
      let more : Run = loop ws (drop size stream) buffer in
      let next : Run = emit (new x chunk r id (some buffer)) (loop ws (drop size stream) []) in
      if ltb 0 read && not (flush || leb capacity (length buffer))
      then more
      else if read == 0
      then emit (new x end r id (some buffer)) (stop finished)
      else next

  -- `client::start`. A buffer of more than `isize::MAX` bytes panics.
  unfoldable pub start_client : List Wait → List ℕ → Run
  unfolding loop
  start_client ws stream =
      let rest : Run =
        if ltb (max_data_len x r) (2 ^ 63) then loop ws stream [] else stop panicked in
      emit (new x start r id none) rest
