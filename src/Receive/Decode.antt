-- ===== src/Receive/Decode.antt =====
-- src/receive/decode.rs: the decoding workers, interleaved in any order. A worker that has decoded
-- a block waits until `block_to_dispatch` is the number of the block. The channels cannot be
-- disconnected: `Receiver` holds both their ends. A step is one access to shared state.
pub mod Stall
pub mod Order
pub mod Feed
use lidi_4d8d19daa.Common.{ℕ, ◌+◌, ◌%◌, ◌<◌, ◌≡◌, List, [], ◌∷◌, ◌++◌, Option, none, some, length}
use lidi_4d8d19daa.Extern.{Extern}
use lidi_4d8d19daa.Protocol.Raptorq.{RaptorQ, decode}
use lidi_4d8d19daa.Protocol.Block.{Block, deserialize}
use lidi_4d8d19daa.Receive.{Reassembled, lost, reassembled}

pub record State (x : Extern) : Type 0 where
  pub for_decode : List (Reassembled x)
  pub held : List (ℕ × Block)  -- decoded blocks whose workers wait for their turn
  pub block_to_dispatch : ℕ
  pub dispatched : List (Option Block)  -- all that was sent to the dispatch worker

-- What the decoding workers do, `nb` of them, and what the reblock worker sends them.
pub data Step (x : Extern) (r : RaptorQ x) (nb : ℕ) (s : State x) : State x → Type 0 where
  arrive :
      (message : Reassembled x)
      → Step x r nb s (record s { for_decode = s.for_decode ++ message ∷ [] })
  fail :
      (id : ℕ) (packets : List x.Packet) (rest : List (Reassembled x))
      → s.for_decode ≡ reassembled id packets ∷ rest
      → length s.held < nb
      → decode x r id packets ≡ none
      → Step x r nb s (record s { for_decode = rest; dispatched = s.dispatched ++ none ∷ [] })
  pass_on :
      (rest : List (Reassembled x))
      → s.for_decode ≡ lost ∷ rest
      → length s.held < nb
      → Step x r nb s (record s { for_decode = rest; dispatched = s.dispatched ++ none ∷ [] })
  take_block :
      (id : ℕ) (packets : List x.Packet) (bytes : List ℕ) (rest : List (Reassembled x))
      → s.for_decode ≡ reassembled id packets ∷ rest
      → length s.held < nb
      → decode x r id packets ≡ some bytes
      → Step x r nb s
          (record s { for_decode = rest; held = s.held ++ (id, deserialize bytes) ∷ [] })
  release :
      (n : ℕ × Block) (before after : List (ℕ × Block))
      → s.held ≡ before ++ n ∷ after
      → n.0 ≡ s.block_to_dispatch
      → Step x r nb s (record s {
        held = before ++ after;
        block_to_dispatch = (s.block_to_dispatch + 1) % 256;
        dispatched = s.dispatched ++ some n.1 ∷ [];
      })

-- What can follow a state as long as the reblock worker does not start again, which is the only
-- other write to `block_to_dispatch`.
pub data Later (x : Extern) (r : RaptorQ x) (nb : ℕ) (s : State x) : State x → Type 0 where
  now : Later x r nb s s
  and_then : {t u : State x} → Later x r nb s t → Step x r nb t u → Later x r nb s u
