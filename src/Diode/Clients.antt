-- ===== src/Diode/Clients.antt =====
-- From a client of the sender to the client of the receiver, among other clients.
use lidi_4d8d19daa.Common.{
  ℕ, suc, ◌^◌, ◌≤◌, ◌<◌, ◌≡◌, sym, ap, ◌∙◌, List, [], ◌∷◌, none, some, Bool, true, ok, length,
}
use mathlib.Core.Path.{subst}
use lidi_4d8d19daa.Common.Reader.{Wait, AllReady}
use lidi_4d8d19daa.Extern.{Extern}
use lidi_4d8d19daa.Protocol.Raptorq.{RaptorQ}
use lidi_4d8d19daa.Protocol.Block.{Block, start}
use lidi_4d8d19daa.Send.Client as Sender
use lidi_4d8d19daa.Send.Client.Stream.{IsBlock, Transfer, start_client-Transfer}
use lidi_4d8d19daa.Receive.Client.{finished, start_client}
use lidi_4d8d19daa.Receive.Client.Delivery.{arrivals, start_client-start_client}
use lidi_4d8d19daa.Receive.Dispatch.{State, Queues, Action, opens, run}
use lidi_4d8d19daa.Receive.Dispatch.Owners.{Inv}
use lidi_4d8d19daa.Receive.Dispatch.Interleaved.{
  Received, Mixed, IsServed, blocks, events, deliveries, interleaved_transfer,
}

-- The blocks of one sending client reach the dispatch worker in order but mixed with blocks of other
-- clients, heartbeats and blocks of unknown type. The client worker that gets the queue opened for
-- it, and whose client accepts every write, writes exactly the stream of the sending client and
-- ends its client with success, whatever the other clients send.
pub client_to_client :
    (x : Extern) (flush limit : Bool) (r : RaptorQ x) (id : ℕ) (ws : List Wait) (stream : List ℕ)
    (qs : Queues) (received : Received) (s : State) (b : Block) (own : List Block)
    → id < 2 ^ 32
    → 10 ≤ r.transfer_length
    → r.transfer_length < 2 ^ 32
    → AllReady (suc (length stream)) ws
    → Inv s
    → (Sender.start_client x flush r id ws stream).blocks ≡ b ∷ own
    → Mixed id (blocks received) own
    → IsServed s.next_queue ((qs, b) ∷ received)
    → (t : State) × (actions : List Action) × (run x r s (events ((qs, b) ∷ received))
        ≡ ok (t, opens id s.next_queue ∷ actions))
      × (start_client x r none limit (arrivals (deliveries s.next_queue actions))
          ≡ record { written = stream; ended = some true; status = finished })
client_to_client x flush limit r id ws stream qs received s b own known room small a v sent mixed
      served =
    let (c, bs, e, first, tail, done) =
      start_client-Transfer x flush r id ws stream known room small a in
    let same_first : c ≡ b = cc (sym e ∙ sent) in
    let same_rest : bs ≡ own = cc (sym e ∙ sent) in
    let (t, actions, ran, put) =
      interleaved_transfer x r id qs b received s own stream v
        (subst (IsBlock start id []) same_first first) mixed
        (subst (λ l. Transfer id l stream) same_rest tail) served in
    (
      t,
      actions,
      ran,
      ap (λ l. start_client x r none limit (arrivals l)) (put ∙ sym sent)
          ∙ start_client-start_client x flush limit r id ws stream known room small a,
    )
