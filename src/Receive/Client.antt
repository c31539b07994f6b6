-- ===== src/Receive/Client.antt =====
-- src/receive/client.rs: a client worker writes the payloads of one transfer to its client. Bytes
-- count as written when `BufWriter::write_all` has accepted them. The hash is only logged.
pub mod Delivery
pub mod Failure
use lidi_4d8d19daa.Common.{
  ℕ, ◌^◌, List, [], ◌∷◌, ◌++◌, Option, none, some, Bool, true, false, Result, ok, err, panic, ltb,
  if◌then◌else◌, IoError,
}
use lidi_4d8d19daa.Extern.{Extern}
use lidi_4d8d19daa.Protocol
use lidi_4d8d19daa.Protocol.Raptorq.{RaptorQ}
use lidi_4d8d19daa.Protocol.Block.{
  Block, BlockType, heartbeat, start, chunk, abort, end, block_type, payload, max_data_len,
}
use lidi_4d8d19daa.Receive.{
  Error, io, receive, receive_timeout, protocol, other, RecvTimeout, timeout, disconnected,
}

-- What the worker meets in one round: a block, with the error of writing or flushing its payload
-- and the error of the last flush of the client; the abort timeout; or the end of the queue.
pub data Arrival : Type 0 where
  arrived : Block → (on_write : Option IoError) → (on_close : Option IoError) → Arrival
  timed_out : Arrival
  hung_up : Arrival

pub data Status : Type 0 where
  waiting : Status
  finished : Status
  failed : Error → Status
  panicked : Status

-- The bytes written, and the flag that `client_end` was called with.
pub record Served : Type 0 where
  pub written : List ℕ
  pub ended : Option Bool
  pub status : Status

abbrev pub stop : Status → Served
stop s = record { written = []; ended = none; status = s }

abbrev pub ends : Bool → Served
ends success = record { written = []; ended = some success; status = finished }

-- `match block_type { … }`, and what follows in the next round.
unfoldable pub close_round : BlockType → Option IoError → Served → Served
close_round abort none rest = ends false
close_round abort (some e) rest = stop (failed (other "failed to retrieve client inner"))
close_round end none rest = ends true
close_round end (some e) rest = stop (failed (io e))
close_round heartbeat on_close rest = rest
close_round start on_close rest = rest
close_round chunk on_close rest = rest

-- `client.write_all(payload)?; if flush { client.flush()? }`, for a payload that is not empty.
unfoldable pub write_round : List ℕ → Option IoError → Served → Served
write_round [] on_write rest = rest
write_round (byte ∷ bytes) (some e) rest = stop (failed (io e))
write_round (byte ∷ bytes) none rest = record rest { written = (byte ∷ bytes) ++ rest.written }

-- `let payload = block.payload();`
unfoldable pub read_payload : Result Protocol.Error (List ℕ) → (List ℕ → Served) → Served
read_payload (ok bytes) k = k bytes
read_payload (err e) k = stop (failed (protocol e))
read_payload panic k = stop panicked

-- `let block_type = block.block_type()?;`
unfoldable pub read_type : Result Protocol.Error BlockType → (BlockType → Served) → Served
read_type (ok t) k = k t
read_type (err e) k = stop (failed (protocol e))
read_type panic k = stop panicked

-- The loop. Without `abort_timeout` the worker waits without a limit.
unfoldable pub loop : Bool → List Arrival → Served
unfolding close_round write_round read_payload read_type
loop abort_timeout [] = stop waiting
loop abort_timeout (timed_out ∷ later) =
    let rest : Served = loop abort_timeout later in
    if abort_timeout then stop (failed (receive_timeout timeout)) else rest
loop abort_timeout (hung_up ∷ later) =
    stop (failed (if abort_timeout then receive_timeout disconnected else receive))
loop abort_timeout (arrived b on_write on_close ∷ later) = read_type (block_type b) λ t.
    read_payload (payload b)
      λ bytes. write_round bytes on_write (close_round t on_close (loop abort_timeout later))

-- `client::start`, for the result of `client_new`. A buffer beyond `isize::MAX` bytes panics.
unfoldable pub start_client :
    (x : Extern) → RaptorQ x → Option IoError → Bool → List Arrival → Served
unfolding loop
start_client x r (some e) abort_timeout later = stop (failed (io e))
start_client x r none abort_timeout later =
    if ltb (max_data_len x r) (2 ^ 63) then loop abort_timeout later else stop panicked
