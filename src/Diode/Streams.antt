-- ===== src/Diode/Streams.antt =====
-- Every worker of src/send and src/receive on the way of one client's stream: the client worker, the
-- ordering, encoding and UDP workers of the sender, and the reblock, decoding, dispatch and client
-- workers of the receiver.
use lidi_4d8d19daa.Common.{
  ℕ, suc, refl, ◌^◌, ◌≤◌, ◌<◌, ◌≡◌, sym, ap, ◌∙◌, List, [], ◌∷◌, ◌++◌, none, some, Option, Bool,
  true, ok, length, map, concat, All,
}
use mathlib.Core.Path.{subst}
use mathlib.Core.List.{map-append}
use lidi_4d8d19daa.Common.Reader.{Wait, AllReady}
use lidi_4d8d19daa.Extern.{Extern, ExternLaws}
use lidi_4d8d19daa.Protocol.Raptorq.{RaptorQ, min_nb_packets}
use lidi_4d8d19daa.Protocol.Block.{Block, start}
use lidi_4d8d19daa.Send.Client as Sender
use lidi_4d8d19daa.Send.Client.Stream.{IsBlock, Transfer, start_client-Transfer}
use lidi_4d8d19daa.Send.Pipeline.{Pipeline, Reach}
use lidi_4d8d19daa.Receive.{Reassembled}
use lidi_4d8d19daa.Receive.Reblock as Reblock
use lidi_4d8d19daa.Receive.Reblock.Collect.{singles}
use lidi_4d8d19daa.Receive.Decode as Decode
use lidi_4d8d19daa.Receive.Decode.Feed.{Fed, Fed-dispatched}
use lidi_4d8d19daa.Receive.Client.{finished, start_client}
use lidi_4d8d19daa.Receive.Client.Delivery.{arrivals, start_client-delivers}
use lidi_4d8d19daa.Receive.Dispatch.{State, Queues, Action, opens, init_state, run}
use lidi_4d8d19daa.Receive.Dispatch.Owners.{init-Inv}
use lidi_4d8d19daa.Receive.Dispatch.Ended.{run-Inv, run-append}
use lidi_4d8d19daa.Receive.Dispatch.Interleaved.{
  Received, Mixed, IsServed, blocks, events, deliveries, interleaved_transfer,
}
use lidi_4d8d19daa.Diode.Packets.{AgreeOn, IsFull, same_sizes, run-AllDecode}

events_lem :
    (received : Received)
    → map (λ (e : Queues × Option Block). e.1) (events received) ≡ map some (blocks received)
events_lem [] = refl
events_lem (e ∷ received) = ap (◌∷◌ (some e.1)) (events_lem received)

-- A sender that has sent all blocks it was given, a reblock worker that gets all packets, in order
-- and each in a datagram of its own, and decoding workers that have sent on a message for each block.
module _ (x : Extern) (laws : ExternLaws x) (mtu block repair min_repair : ℕ) (s r : RaptorQ x)
    (agree : AgreeOn x mtu block repair min_repair s r) where
  -- What reaches the dispatch worker is exactly the blocks handed to the sender, in order.
  pub dispatched-fed :
      (nb nb' : ℕ) (p : Pipeline x) (t : Reblock.State x) (outs : List (Reassembled x))
      (d : Decode.State x)
      → nb ≤ 255
      → Reach x s nb p
      → All (IsFull x laws mtu block repair min_repair s r agree) p.fed
      → length p.sent ≡ length p.fed
      → Reblock.run (min_nb_packets x r) (Reblock.init_state x) (singles x (concat p.sent))
        ≡ ok (t, outs)
      → nb' ≤ 255
      → 0 < nb'
      → Fed x r nb' 0 d outs
      → length d.dispatched ≡ length p.fed
      → d.dispatched ≡ map some p.fed
  dispatched-fed nb nb' p t outs d few reach full all ran few' pos fed ended =
      Fed-dispatched x r nb' 0 p.fed few' pos fed
        (run-AllDecode x laws mtu block repair min_repair s r agree nb nb' p t outs few reach full
          all ran)
        ended

  -- What `client_to_client` says, with the blocks that have come through all other workers.
  pub stream_to_client :
      (flush limit : Bool) (id : ℕ) (ws : List Wait) (stream : List ℕ) (qs : Queues)
      (earlier later : Received) (b : Block) (own : List Block) (nb nb' : ℕ) (p : Pipeline x)
      (t : Reblock.State x) (outs : List (Reassembled x)) (d : Decode.State x) (before : State)
      (done : List Action)
      → id < 2 ^ 32
      → 10 ≤ s.transfer_length
      → s.transfer_length < 2 ^ 32
      → AllReady (suc (length stream)) ws
      → (Sender.start_client x flush s id ws stream).blocks ≡ b ∷ own
      → Mixed id (blocks later) own
      → p.fed ≡ blocks (earlier ++ (qs, b) ∷ later)
      → nb ≤ 255
      → Reach x s nb p
      → All (IsFull x laws mtu block repair min_repair s r agree) p.fed
      → length p.sent ≡ length p.fed
      → Reblock.run (min_nb_packets x r) (Reblock.init_state x) (singles x (concat p.sent))
        ≡ ok (t, outs)
      → nb' ≤ 255
      → 0 < nb'
      → Fed x r nb' 0 d outs
      → length d.dispatched ≡ length p.fed
      → run x r init_state (events earlier) ≡ ok (before, done)
      → IsServed before.next_queue ((qs, b) ∷ later)
      → (map (λ (e : Queues × Option Block). e.1) (events (earlier ++ (qs, b) ∷ later))
          ≡ d.dispatched)
        × (after : State) × (actions : List Action) × (run x r init_state
              (events (earlier ++ (qs, b) ∷ later))
            ≡ ok (after, done ++ opens id before.next_queue ∷ actions))
        × (start_client x r none limit (arrivals (deliveries before.next_queue actions))
            ≡ record { written = stream; ended = some true; status = finished })
  stream_to_client flush limit id ws stream qs earlier later b own nb nb' p t outs d before done
        known room small a sent mixed whole few reach full all ran few' pos fed ended first served =
      let (c, bs, e, head, tail, finish) =
        start_client-Transfer x flush s id ws stream known room small a in
      let same_first : c ≡ b = cc (sym e ∙ sent) in
      let same_rest : bs ≡ own = cc (sym e ∙ sent) in
      let head' = subst (IsBlock start id []) same_first head in
      let tail' = subst (λ l. Transfer id l stream) same_rest tail in
      let v = run-Inv x r init_state before (events earlier) done init-Inv first in
      let (after, actions, rest, put) =
        interleaved_transfer x r id qs b later before own stream v head' mixed tail' served in
      let sizes = same_sizes x laws mtu block repair min_repair s r agree in
      (
        events_lem (earlier ++ (qs, b) ∷ later)
            ∙ ap (map some) (sym whole)
            ∙ sym (dispatched-fed nb nb' p t outs d few reach full all ran few' pos fed ended),
        after,
        actions,
        ap (run x r init_state) (map-append _ earlier ((qs, b) ∷ later))
            ∙ run-append x r (events earlier) (events ((qs, b) ∷ later)) init_state before after
                done _ first rest,
        ap (λ l. start_client x r none limit (arrivals l)) put
            ∙ start_client-delivers x r limit id b own stream (rw (← sizes) room)
                (rw (← sizes) small) head' tail',
      )
