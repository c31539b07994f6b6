-- ===== src/Send/Pipeline.antt =====
-- The workers behind the clients, interleaved in any order: src/send/ordering.rs,
-- src/send/encoding.rs and the loop of src/send/udp.rs, over the bounded channels of `Sender::new`
-- (src/send/mod.rs). The channels cannot be disconnected, since `Sender` holds both ends. A step is
-- one access to a channel, with the local work that follows it: between the receipt of a message
-- and a send that blocks, a worker has the message in hand. `release` is more, since the encoding
-- worker has the mutex of `block_to_send` from its test to the change. An error of the UDP socket
-- ends the UDP worker.
pub mod Numbering
pub mod Invariant
pub mod Order
pub mod Stop
pub mod Stalled
use lidi_4d8d19daa.Common.{
  ℕ, suc, ◌+◌, ◌-◌, ◌%◌, ◌<◌, ◌≡◌, List, [], ◌∷◌, ◌++◌, Option, none, some, length,
}
use lidi_4d8d19daa.Extern.{Extern}
use lidi_4d8d19daa.Protocol.Raptorq.{RaptorQ, encode}
use lidi_4d8d19daa.Protocol.Block.{Block, serialized}

-- The loop of `udp::start`: before the first `None`, counting the others down, after `return`, after
-- an error of `udp.send`.
pub data Udp : Type 0 where
  running : Udp
  draining : ℕ → Udp
  returned : Udp
  failed : Udp

-- The loop of `ordering::start`: at `recv`, with a block in hand at `to_encoding.send`, at
-- `to_send.send(None)`, after `return`.
pub data Ordering : Type 0 where
  waiting : Ordering
  holding : Block → Ordering
  stopping : Ordering
  stopped : Ordering

abbrev pub in_hand : Ordering → List Block
in_hand (holding b) = b ∷ []
in_hand _ = []

abbrev pub Numbered : Type 0
Numbered = ℕ × Block

pub record Pipeline (x : Extern) : Type 0 where
  pub fed : List Block  -- all blocks that were ever sent to the ordering worker
  pub to_ordering : List (Option Block)
  pub ordering : Ordering
  pub next_id : ℕ  -- `id` of the ordering worker
  pub to_encoding : List (Option Numbered)
  pub held : List Numbered  -- blocks of encoding workers that wait for `block_to_send`
  pub encoders_stopping : ℕ  -- encoding workers at `to_send.send(None)`
  pub encoders_done : ℕ  -- encoding workers that have returned
  pub block_to_send : ℕ
  pub to_send : List (Option (List x.Packet))
  pub udp : Udp
  pub sent : List (List x.Packet)  -- what `udp.send` was given

abbrev pub init_pipeline : (x : Extern) → Pipeline x
init_pipeline x = record {
  fed = [];
  to_ordering = [];
  ordering = waiting;
  next_id = 0;
  to_encoding = [];
  held = [];
  encoders_stopping = 0;
  encoders_done = 0;
  block_to_send = 0;
  to_send = [];
  udp = running;
  sent = [];
}

abbrev pub encoded : (x : Extern) → RaptorQ x → Numbered → List x.Packet
encoded x r (id, b) = encode x r id (serialized b)

-- `nb` is `nb_encode_threads`.
pub data Step (x : Extern) (r : RaptorQ x) (nb : ℕ) (s : Pipeline x) : Pipeline x → Type 0 where
  -- a client, a server or the heartbeat worker
  feed :
      (b : Block)
      → length s.to_ordering < nb
      → Step x r nb s
          (record s { fed = s.fed ++ b ∷ []; to_ordering = s.to_ordering ++ some b ∷ [] })
  -- a server worker that was told to stop
  feed_stop :
      length s.to_ordering < nb
      → Step x r nb s (record s { to_ordering = s.to_ordering ++ none ∷ [] })
  -- `sender.for_ordering.recv()?`
  order_take :
      (b : Block) (rest : List (Option Block))
      → s.to_ordering ≡ some b ∷ rest
      → s.ordering ≡ waiting
      → Step x r nb s (record s { to_ordering = rest; ordering = holding b })
  -- `sender.to_encoding.send(Some((id, block)))?; id = id.wrapping_add(1)`
  order_put :
      (b : Block)
      → s.ordering ≡ holding b
      → length s.to_encoding < nb
      → Step x r nb s (record s {
        ordering = waiting;
        next_id = (s.next_id + 1) % 256;
        to_encoding = s.to_encoding ++ some (s.next_id, b) ∷ [];
      })
  order_stop :
      (rest : List (Option Block))
      → s.to_ordering ≡ none ∷ rest
      → s.ordering ≡ waiting
      → Step x r nb s (record s { to_ordering = rest; ordering = stopping })
  -- `sender.to_send.send(None)?; return Ok(())`
  order_return :
      s.ordering ≡ stopping
      → length s.to_send < nb
      → Step x r nb s (record s { ordering = stopped; to_send = s.to_send ++ none ∷ [] })
  -- an idle encoding worker receives a block and encodes it
  take_block :
      (n : Numbered) (rest : List (Option Numbered))
      → s.to_encoding ≡ some n ∷ rest
      → length s.held + s.encoders_stopping + s.encoders_done < nb
      → Step x r nb s (record s { to_encoding = rest; held = s.held ++ n ∷ [] })
  take_stop :
      (rest : List (Option Numbered))
      → s.to_encoding ≡ none ∷ rest
      → length s.held + s.encoders_stopping + s.encoders_done < nb
      → Step x r nb s (record s { to_encoding = rest; encoders_stopping = s.encoders_stopping + 1 })
  encoder_return :
      (others : ℕ)
      → s.encoders_stopping ≡ suc others
      → length s.to_send < nb
      → Step x r nb s (record s {
        encoders_stopping = others;
        encoders_done = s.encoders_done + 1;
        to_send = s.to_send ++ none ∷ [];
      })
  -- an encoding worker whose number has come up sends its packets
  release :
      (n : Numbered) (before after : List Numbered)
      → s.held ≡ before ++ n ∷ after
      → n.0 ≡ s.block_to_send
      → length s.to_send < nb
      → Step x r nb s (record s {
        held = before ++ after;
        block_to_send = (s.block_to_send + 1) % 256;
        to_send = s.to_send ++ some (encoded x r n) ∷ [];
      })
  udp_send :
      (packets : List x.Packet) (rest : List (Option (List x.Packet)))
      → s.to_send ≡ some packets ∷ rest
      → s.udp ≡ running
      → Step x r nb s (record s { to_send = rest; sent = s.sent ++ packets ∷ [] })
  -- `let mut count = nb_encode_threads - 1`, an 8-bit difference
  udp_stop :
      (rest : List (Option (List x.Packet)))
      → s.to_send ≡ none ∷ rest
      → s.udp ≡ running
      → Step x r nb s (record s { to_send = rest; udp = draining ((nb + 256 - 1) % 256) })
  drain_send :
      (packets : List x.Packet) (rest : List (Option (List x.Packet))) (count : ℕ)
      → s.to_send ≡ some packets ∷ rest
      → s.udp ≡ draining (suc count)
      → Step x r nb s (record s { to_send = rest; sent = s.sent ++ packets ∷ [] })
  -- `udp.send(packets)?` with an error, which ends the worker
  udp_fail :
      (packets : List x.Packet) (rest : List (Option (List x.Packet)))
      → s.to_send ≡ some packets ∷ rest
      → s.udp ≡ running
      → Step x r nb s (record s { to_send = rest; udp = failed; sent = s.sent ++ packets ∷ [] })
  drain_fail :
      (packets : List x.Packet) (rest : List (Option (List x.Packet))) (count : ℕ)
      → s.to_send ≡ some packets ∷ rest
      → s.udp ≡ draining (suc count)
      → Step x r nb s (record s { to_send = rest; udp = failed; sent = s.sent ++ packets ∷ [] })
  drain_stop :
      (rest : List (Option (List x.Packet))) (count : ℕ)
      → s.to_send ≡ none ∷ rest
      → s.udp ≡ draining (suc count)
      → Step x r nb s (record s { to_send = rest; udp = draining count })
  drain_end : s.udp ≡ draining 0 → Step x r nb s (record s { udp = returned })

pub data Reach (x : Extern) (r : RaptorQ x) (nb : ℕ) : Pipeline x → Type 0 where
  here : Reach x r nb (init_pipeline x)
  then_step : {s t : Pipeline x} → Reach x r nb s → Step x r nb s t → Reach x r nb t

-- What can follow a state.
pub data Later (x : Extern) (r : RaptorQ x) (nb : ℕ) (s : Pipeline x) : Pipeline x → Type 0 where
  now : Later x r nb s s
  and_then : {t u : Pipeline x} → Later x r nb s t → Step x r nb t u → Later x r nb s u
