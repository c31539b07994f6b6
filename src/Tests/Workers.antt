-- ===== src/Tests/Workers.antt =====
-- The decoding workers and the UDP workers of both sides.
use Prim.Native.Nat.{min}
use lidi_4d8d19daa.Common.{
  ℕ, ◌≡◌, ◌<◌, refl, List, [], ◌∷◌, ◌++◌, none, some, Option, ok, panic, length, take, map, All,
  concat, arith,
}
use lidi_4d8d19daa.Protocol.Raptorq.{RaptorQ, decode}
use lidi_4d8d19daa.Protocol.Block.{Block, deserialize}
use lidi_4d8d19daa.Udp.Receive.{Answer, count, new}
use lidi_4d8d19daa.Udp.Receive.Batches.{datagrams, Holds}
use lidi_4d8d19daa.Udp.Send as UdpSend
use lidi_4d8d19daa.Udp.Send.{chunks}
use lidi_4d8d19daa.Sockets.{Setup, setsockopt_buffer_size, getsockopt_buffer_size}
use lidi_4d8d19daa.Receive.{Reassembled}
use lidi_4d8d19daa.Receive.Decode.{State, Step, take_block, release}
use lidi_4d8d19daa.Receive.Decode.Order.{
  IsWork, InTurn, begin, arrives, works, work_left, dispatched_in_order,
}
use lidi_4d8d19daa.Receive.Reblock as Reblock
use lidi_4d8d19daa.Receive.Reblock.{received, init_state, run}
use lidi_4d8d19daa.Receive.Reblock.Run.{IsComplete}
use lidi_4d8d19daa.Receive.Udp as Receive
use lidi_4d8d19daa.Receive.Udp.Passed.{DeliverEach, start-IsComplete, batch_of_none}
use lidi_4d8d19daa.Send.Udp as Send
use lidi_4d8d19daa.Send.Udp.{Message}
use lidi_4d8d19daa.Send.Udp.Stopping.{
  AllAnswered, before_stop, status_after, stops, start-before_stop,
}
use lidi_4d8d19daa.Tests.Toy.{toy, toy_laws}

abbrev sized : RaptorQ toy
sized = record {
  max_packet_size = 16;
  symbol_count = 1;
  transfer_length = 16;
  plan = 1;
  config = 16;
  nb_repair_packets = 0;
  min_nb_repair_packets = 0;
}

-- The blocks 255 and 0, the first of them sent on and the second still waiting.
abbrev first : Block
first = record { content = 4 ∷ [] }

abbrev second : Block
second = record { content = 5 ∷ [] }

first_decodes : decode toy sized 255 ((255, 4 ∷ []) ∷ []) ≡ some (4 ∷ [])
unfolding decode
first_decodes = refl

second_decodes : decode toy sized 0 ((0, 5 ∷ []) ∷ []) ≡ some (5 ∷ [])
unfolding decode
second_decodes = refl

abbrev released : State toy
released = record {
  for_decode = [];
  held = (0, second) ∷ [];
  block_to_dispatch = 0;
  dispatched = some first ∷ [];
}

in_turn : InTurn toy sized 2 255 released (first ∷ second ∷ [])
unfolding deserialize
in_turn =
    works
      (works
        (works
          (arrives ((0, 5 ∷ []) ∷ []) (5 ∷ [])
            (arrives ((255, 4 ∷ []) ∷ []) (4 ∷ []) begin first_decodes) second_decodes)
          (take_block 255 ((255, 4 ∷ []) ∷ []) (4 ∷ []) _ refl (omega arith) first_decodes) tt)
        (take_block 0 ((0, 5 ∷ []) ∷ []) (5 ∷ []) [] refl (omega arith) second_decodes) tt)
      (release (255, first) [] ((0, second) ∷ []) refl refl) tt

dispatched_in_order_example :
    ((rest : List (Option Block)) × (released.dispatched ++ rest ≡ some first ∷ some second ∷ []))
    × ((t : State toy) (step : Step toy sized 2 released t)
        → IsWork toy sized 2 step
        → work_left toy sized 2 255 (omega arith) t
          < work_left toy sized 2 255 (omega arith) released)
    × (1 < 2 → (t : State toy) × (step : Step toy sized 2 released t) × IsWork toy sized 2 step)
dispatched_in_order_example =
    dispatched_in_order toy sized 2 255 (omega arith) (omega arith) in_turn

abbrev set_up_well : Setup
set_up_well = record {
  bound = ok tt;
  blocking = ok tt;
  set_result = count 0;
  get_result = count 0;
  get_size = 4096;
}

receiver_set_up : Receive.set_up 3 3 set_up_well ≡ ok tt
unfolding Receive.set_up Receive.buffer_size Receive.i32_try_from setsockopt_buffer_size
    getsockopt_buffer_size
receiver_set_up = refl

sender_set_up : Send.set_up 3 3 set_up_well ≡ ok tt
unfolding Send.set_up Send.buffer_size setsockopt_buffer_size getsockopt_buffer_size
sender_set_up = refl

-- Batches of at most two datagrams, in buffers of three bytes; one datagram is cut.
abbrev answers : List Answer
answers =
    record { returned = count 2; entries = (2, 5 ∷ 1 ∷ 0 ∷ []) ∷ (3, 5 ∷ 2 ∷ 3 ∷ []) ∷ [] }
    ∷ record { returned = count 1; entries = (2, 5 ∷ 9 ∷ 0 ∷ []) ∷ (3, 5 ∷ 2 ∷ 3 ∷ []) ∷ [] }
    ∷ []

abbrev delivered : List (List (List ℕ))
delivered = ((5 ∷ 1 ∷ []) ∷ (5 ∷ 2 ∷ 3 ∷ 4 ∷ []) ∷ []) ∷ ((5 ∷ 9 ∷ []) ∷ []) ∷ []

holds :
    (datagram buffer : List ℕ) (len : ℕ)
    → length buffer ≡ 3
    → len ≡ min (length datagram) 3
    → take (min (length datagram) 3) buffer ≡ take 3 datagram
    → Holds 3 (len, buffer) datagram
holds datagram buffer len sized counted filled = record {
  sized = sized;
  counted = counted;
  filled = filled;
}

answers_deliver : DeliverEach (new 3 (some 2)) answers delivered
unfolding new
answers_deliver = (
  (
    omega arith,
    omega arith,
    refl,
    refl,
    (
      holds (5 ∷ 1 ∷ []) (5 ∷ 1 ∷ 0 ∷ []) 2 refl refl refl,
      (holds (5 ∷ 2 ∷ 3 ∷ 4 ∷ []) (5 ∷ 2 ∷ 3 ∷ []) 3 refl refl refl, tt),
    ),
  ),
  (
    (
      omega arith,
      omega arith,
      refl,
      refl,
      (holds (5 ∷ 9 ∷ []) (5 ∷ 9 ∷ 0 ∷ []) 2 refl refl refl, tt),
    ),
    tt,
  ),
)

start-IsComplete_example :
    ((Receive.start 3 3 (some 2) set_up_well answers).status ≡ Receive.running)
    × (concat (map datagrams (Receive.start 3 3 (some 2) set_up_well answers).passed)
        ≡ map (take 3) (concat delivered))
    × (t : Reblock.State toy) × (outs : List (Reassembled toy)) × (run 2
          (init_state toy)
          (map received (Receive.start 3 3 (some 2) set_up_well answers).passed)
        ≡ ok (t, outs))
    × All (IsComplete toy 2) outs
start-IsComplete_example =
    start-IsComplete toy toy_laws 2 3 3 (some 2) set_up_well answers delivered (omega arith)
      receiver_set_up answers_deliver (refl, (refl, (refl, tt)))

abbrev no_datagram : Answer
no_datagram = record { returned = count 0; entries = [] }

batch_of_none_example :
    run 2
      (init_state toy)
      (map received (Receive.start 3 3 (some 0) set_up_well (no_datagram ∷ answers)).passed)
    ≡ panic
batch_of_none_example = batch_of_none toy 2 3 3 set_up_well no_datagram answers receiver_set_up refl

-- Two encoding workers; what follows the second stop mark is not sent.
abbrev messages : List (Message toy)
messages =
    (some ((1, 5 ∷ []) ∷ (1, 6 ∷ []) ∷ (1, []) ∷ []), some 2 ∷ some 1 ∷ [])
    ∷ (none, [])
    ∷ (some ((2, 7 ∷ []) ∷ []), some 1 ∷ [])
    ∷ (none, [])
    ∷ (some ((3, []) ∷ []), some 1 ∷ [])
    ∷ []

messages_answered : AllAnswered toy (UdpSend.new (some 2)) messages
unfolding UdpSend.new chunks
messages_answered = (
  (omega arith, (omega arith, (omega arith, (omega arith, tt))), (refl, (refl, tt))),
  (
    (omega arith, (omega arith, tt), (refl, tt)),
    ((omega arith, (omega arith, tt), (refl, tt)), tt),
  ),
)

start-before_stop_example :
    (concat (Send.start toy 3 3 (some 2) 2 set_up_well messages).made
      ≡ map toy.serialize_packet (before_stop 2 messages))
    × ((Send.start toy 3 3 (some 2) 2 set_up_well messages).status
        ≡ status_after 2 (stops messages))
start-before_stop_example =
    start-before_stop toy 3 3 (some 2) 2 set_up_well messages (omega arith) (omega arith)
      sender_set_up messages_answered
