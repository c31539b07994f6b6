-- ===== src/Receive/Client/Failure.antt =====
-- What a client worker writes of a client whose connection to the sender fails.
use lidi_4d8d19daa.Common.{
  ℕ, ◌^◌, ◌≤◌, ◌<◌, ◌≡◌, refl, ◌∙◌, List, [], ◌∷◌, ◌++◌, none, some, Bool, true, false, ltb, lt→ltb,
  arith,
}
use lidi_4d8d19daa.Extern.{Extern}
use lidi_4d8d19daa.Protocol.Raptorq.{RaptorQ}
use lidi_4d8d19daa.Protocol.Block.{Block, abort, max_data_len}
use lidi_4d8d19daa.Send.{Error}
use lidi_4d8d19daa.Send.Client as Sender
use lidi_4d8d19daa.Send.Client.Stream.{IsBlock, max_data_len-eq}
use lidi_4d8d19daa.Send.Server.{Incoming, serve_client}
use lidi_4d8d19daa.Send.Server.Cut.{Chunks, none_left, chunk_then, serve_client-failed}
use lidi_4d8d19daa.Receive.Client.{finished, start_client}
use lidi_4d8d19daa.Receive.Client.Delivery.{
  arrivals, loop-start, Aborted, cut, before, loop-Aborted,
}

Chunks-Aborted :
    (id : ℕ) (c : Block) {bs : List Block} {bytes : List ℕ}
    → Chunks id bs bytes
    → IsBlock abort id [] c
    → Aborted id (bs ++ c ∷ []) bytes
Chunks-Aborted id c none_left v = cut v
Chunks-Aborted id c (chunk_then first rest) v = before first (Chunks-Aborted id c rest v) refl

-- What the server worker sends of a client whose connection fails, handed in order to a receiver's
-- worker whose client accepts every write, lets it write a first part of the stream and end the
-- client without success.
pub start_client-serve_client :
    (x : Extern) (flush limit : Bool) (r : RaptorQ x) (id : ℕ) (client : Incoming) (e : Error)
    → id < 2 ^ 32
    → 10 ≤ r.transfer_length
    → r.transfer_length < 2 ^ 32
    → (Sender.start_client x flush r id client.reads client.stream).status ≡ Sender.failed e
    → (front : List ℕ) × (back : List ℕ) × (front ++ back ≡ client.stream)
      × (start_client x r none limit (arrivals (serve_client x flush r id client).blocks)
          ≡ record { written = front; ended = some false; status = finished })
unfolding start_client
start_client-serve_client x flush limit r id client e known room small failing =
    let (b, bs, c, front, back, made, first, chunks, last, whole) =
      serve_client-failed x flush r id client e known room small failing in
    let size = max_data_len-eq x r room small in
    let fits : ltb (max_data_len x r) (2 ^ 63) ≡ true = lt→ltb _ _ (omega (arith, size)) in
    (
      front,
      back,
      whole,
      rw (fits, made)
          (loop-start limit id b (arrivals (bs ++ c ∷ [])) first
            ∙ loop-Aborted limit id (Chunks-Aborted id c chunks last)),
    )
