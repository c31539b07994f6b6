-- ===== src/Receive/Client/Delivery.antt =====
-- What a client worker writes of a transfer.
use lidi_4d8d19daa.Common.{
  ℕ, suc, lt→ltb, ◌^◌, ◌≤◌, ◌<◌, ◌≡◌, refl, ◌∙◌, List, [], ◌∷◌, ◌++◌, none, some, Bool, true, false,
  ltb, arith, append-nil, length,
}
use lidi_4d8d19daa.Common.Reader.{Wait, AllReady}
use lidi_4d8d19daa.Extern.{Extern}
use lidi_4d8d19daa.Protocol.Raptorq.{RaptorQ}
use lidi_4d8d19daa.Protocol.Block.{Block, start, chunk, abort, end, max_data_len}
use lidi_4d8d19daa.Send.Client as Sender
use lidi_4d8d19daa.Send.Client.Stream.{
  IsBlock, Transfer, last, next, start_client-Transfer, max_data_len-eq,
}
use lidi_4d8d19daa.Receive.Client.{
  Arrival, arrived, Served, finished, ends, close_round, write_round, read_payload, read_type, loop,
  start_client,
}

-- Blocks that arrive with no error on the side of the client.
abbrev pub arrivals : List Block → List Arrival
arrivals [] = []
arrivals (b ∷ bs) = arrived b none none ∷ arrivals bs

write_round_lem :
    (bytes more : List ℕ) (rest : Served)
    → rest ≡ record { written = more; ended = rest.ended; status = rest.status }
    → write_round bytes none rest
      ≡ record { written = bytes ++ more; ended = rest.ended; status = rest.status }
unfolding write_round
write_round_lem [] more rest e = e
write_round_lem (byte ∷ bytes) more rest e = ground arith

abbrev delivered : Bool → List ℕ → Served
delivered success bytes = record { written = bytes; ended = some success; status = finished }

loop-end :
    (limit : Bool) (id : ℕ) (b : Block) (bytes : List ℕ) (later : List Arrival)
    → IsBlock end id bytes b
    → loop limit (arrived b none none ∷ later) ≡ delivered true bytes
unfolding loop read_type read_payload close_round
loop-end limit id b bytes later v =
    rw (v.typed, v.carried) (write_round_lem bytes [] (ends true) refl ∙ rw (append-nil bytes))

loop-abort :
    (limit : Bool) (id : ℕ) (b : Block) (bytes : List ℕ) (later : List Arrival)
    → IsBlock abort id bytes b
    → loop limit (arrived b none none ∷ later) ≡ delivered false bytes
unfolding loop read_type read_payload close_round
loop-abort limit id b bytes later v =
    rw (v.typed, v.carried) (write_round_lem bytes [] (ends false) refl ∙ rw (append-nil bytes))

loop-chunk :
    (limit success : Bool) (id : ℕ) (b : Block) (bytes more : List ℕ) (later : List Arrival)
    → IsBlock chunk id bytes b
    → loop limit later ≡ delivered success more
    → loop limit (arrived b none none ∷ later) ≡ delivered success (bytes ++ more)
unfolding loop read_type read_payload close_round
loop-chunk limit success id b bytes more later v e =
    rw (v.typed, v.carried, e) (write_round_lem bytes more (delivered success more) refl)

pub loop-start :
    (limit : Bool) (id : ℕ) (b : Block) (later : List Arrival)
    → IsBlock start id [] b
    → loop limit (arrived b none none ∷ later) ≡ loop limit later
unfolding loop read_type read_payload close_round write_round
loop-start limit id b later v = rw (v.typed, v.carried)

loop-Transfer :
    (limit : Bool) (id : ℕ) {bs : List Block} {bytes : List ℕ} (later : List Arrival)
    → Transfer id bs bytes
    → loop limit (arrivals bs) ≡ delivered true bytes
loop-Transfer limit id later (last {b} {bytes} v) = loop-end limit id b bytes [] v
loop-Transfer limit id later (next {b} {bs} {front} {back} v tail e) =
    rw e (loop-chunk limit true id b front back (arrivals bs) v (loop-Transfer limit id later tail))

-- A start block and a whole transfer are written to the client.
pub start_client-delivers :
    (x : Extern) (r : RaptorQ x) (limit : Bool) (id : ℕ) (b : Block) (bs : List Block)
    (stream : List ℕ)
    → 10 ≤ r.transfer_length
    → r.transfer_length < 2 ^ 32
    → IsBlock start id [] b
    → Transfer id bs stream
    → start_client x r none limit (arrivals (b ∷ bs))
      ≡ record { written = stream; ended = some true; status = finished }
unfolding start_client
start_client-delivers x r limit id b bs stream room small first tail =
    let size = max_data_len-eq x r room small in
    let fits : ltb (max_data_len x r) (2 ^ 63) ≡ true = lt→ltb _ _ (omega (arith, size)) in
    rw fits (loop-start limit id b (arrivals bs) first ∙ loop-Transfer limit id [] tail)

-- The blocks that the sender's worker makes of a client's stream, handed in order to a receiver's
-- worker whose client accepts every write, let it write exactly the stream and end the client
-- with success, whatever the reads, the flushing and the abort timeout.
pub start_client-start_client :
    (x : Extern) (flush limit : Bool) (r : RaptorQ x) (id : ℕ) (ws : List Wait) (stream : List ℕ)
    → id < 2 ^ 32
    → 10 ≤ r.transfer_length
    → r.transfer_length < 2 ^ 32
    → AllReady (suc (length stream)) ws
    → start_client x r none limit (arrivals (Sender.start_client x flush r id ws stream).blocks)
      ≡ record { written = stream; ended = some true; status = finished }
start_client-start_client x flush limit r id ws stream known room small a =
    let (b, bs, e, first, tail, done) =
      start_client-Transfer x flush r id ws stream known room small a in
    rw e (start_client-delivers x r limit id b bs stream room small first tail)

-- Data blocks of one client and then its abort block, without data.
pub data Aborted (id : ℕ) : List Block → List ℕ → Type 0 where
  cut : {b : Block} → IsBlock abort id [] b → Aborted id (b ∷ []) []
  before :
      {b : Block} {bs : List Block} {front back bytes : List ℕ}
      → IsBlock chunk id front b
      → Aborted id bs back
      → bytes ≡ front ++ back
      → Aborted id (b ∷ bs) bytes

-- The data blocks before an abort block are written, in order and nothing else, and the client is
-- ended without success, when it accepts every write.
pub loop-Aborted :
    (limit : Bool) (id : ℕ) {bs : List Block} {bytes : List ℕ}
    → Aborted id bs bytes
    → loop limit (arrivals bs) ≡ record { written = bytes; ended = some false; status = finished }
loop-Aborted limit id (cut {b} v) = loop-abort limit id b [] [] v
loop-Aborted limit id (before {b} {bs} {front} {back} v tail e) =
    rw e (loop-chunk limit false id b front back (arrivals bs) v (loop-Aborted limit id tail))
