-- ===== src/Send/Pipeline/Order.antt =====
-- The order in which the packets of the blocks leave.
use lidi_4d8d19daa.Common.{
  ℕ, ◌+◌, ◌≤◌, ◌≡◌, sym, ap, List, [], ◌∷◌, ◌++◌, length, length-append, append_assoc, map, arith,
}
use mathlib.Core.List.{map-append}
use lidi_4d8d19daa.Extern.{Extern}
use lidi_4d8d19daa.Protocol.Raptorq.{RaptorQ}
use lidi_4d8d19daa.Send.Pipeline.{
  Pipeline, in_hand, encoded, Step, Reach, here, then_step, feed, feed_stop, order_take, order_put,
  order_stop, order_return, take_block, take_stop, encoder_return, release, udp_send, udp_stop,
  udp_fail, drain_fail, drain_send, drain_stop, drain_end,
}
use lidi_4d8d19daa.Send.Pipeline.Numbering.{number, somes, number-append}
use lidi_4d8d19daa.Send.Pipeline.Invariant.{Inv, init-Inv, Step-Inv}

module _ (x : Extern) (r : RaptorQ x) (nb : ℕ) (few : nb ≤ 255) where
  Step-held : {s t : Pipeline x} → Step x r nb s t → length s.held ≤ nb → length t.held ≤ nb
  Step-held {s} (take_block n rest e h) k = omega (arith, length-append s.held (n ∷ []))
  Step-held {s} (release n before after e due h) k =
      omega (arith, length-append before (n ∷ after), length-append before after, ap length e)
  Step-held (feed b h) k = k
  Step-held (feed_stop h) k = k
  Step-held (order_take b rest e idle) k = k
  Step-held (order_put b busy h) k = k
  Step-held (order_stop rest e idle) k = k
  Step-held (order_return e h) k = k
  Step-held (take_stop rest e h) k = k
  Step-held (encoder_return others e h) k = k
  Step-held (udp_send packets rest e run) k = k
  Step-held (udp_fail packets rest e run) k = k
  Step-held (drain_fail packets rest count e run) k = k
  Step-held (udp_stop rest e run) k = k
  Step-held (drain_send packets rest count e run) k = k
  Step-held (drain_stop rest count e run) k = k
  Step-held (drain_end run) k = k

  pub Reach-held : {s : Pipeline x} → Reach x r nb s → length s.held ≤ nb
  Reach-held here = omega arith
  Reach-held (then_step reach step) = Step-held step (Reach-held reach)

  pub Reach-Inv : {s : Pipeline x} → Reach x r nb s → Inv x r s
  Reach-Inv here = init-Inv x r nb few
  Reach-Inv (then_step reach step) = Step-Inv x r nb few step (Reach-held reach) (Reach-Inv reach)

  -- In every state that any interleaving of at most 255 encoding workers can reach, what the UDP
  -- worker was given is a prefix of the encodings of the blocks, numbered modulo 256 in the order
  -- in which they were handed to the ordering worker: none is lost, doubled or overtaken.
  pub sent_in_order :
      {s : Pipeline x}
      → Reach x r nb s
      → (rest : List (List x.Packet)) × (s.sent ++ rest ≡ map (encoded x r) (number 0 s.fed))
  sent_in_order {s} reach =
      let v = Reach-Inv reach in
      let unsent = in_hand s.ordering ++ somes s.to_ordering in
      let queued = number (0 + length v.numbered) unsent in
      (
        somes s.to_send ++ map (encoded x r) ((s.held ++ somes s.to_encoding) ++ queued),
        rw (← v.all_fed, number-append 0 v.numbered unsent, ← v.in_order)
            (rw (append_assoc v.done, map-append (encoded x r) v.done, ← v.passed)
              (sym (append_assoc s.sent (somes s.to_send) _))),
      )
