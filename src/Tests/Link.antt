-- ===== src/Tests/Link.antt =====
-- The sender and the receiver together, on one block of seven symbols and on one short stream.
use lidi_4d8d19daa.Common.{
  ℕ, ◌≡◌, refl, List, [], ◌∷◌, ◌++◌, false, some, ok, map, replicate, length-replicate, concat,
  arith,
}
use lidi_4d8d19daa.Common.Reader.{Wait, ready}
use lidi_4d8d19daa.Protocol.{u16_try_from}
use lidi_4d8d19daa.Protocol.Raptorq.{RaptorQ, new, packet_size, repair_count, min_nb_packets}
use lidi_4d8d19daa.Protocol.Block.{
  Block, heartbeat, start, chunk, block_type, client_id, max_data_len,
}
use lidi_4d8d19daa.Protocol.Block as Block
use lidi_4d8d19daa.Send.Client as Sender
use lidi_4d8d19daa.Send.Client.{loop}
use lidi_4d8d19daa.Send.Pipeline.{
  Pipeline, Reach, here, then_step, feed, order_take, order_put, take_block, release, udp_send,
  encoded, init_pipeline,
}
use lidi_4d8d19daa.Send.Pipeline.Numbering.{number}
use lidi_4d8d19daa.Receive.{Reassembled}
use lidi_4d8d19daa.Receive.Reblock as Reblock
use lidi_4d8d19daa.Receive.Reblock.Collect.{singles}
use lidi_4d8d19daa.Receive.Dispatch.{Queues}
use lidi_4d8d19daa.Diode.Packets.{decoded, AgreeOn, decoded-sent}
use lidi_4d8d19daa.Tests.Toy.{toy, toy_laws}

-- MTU 48, 112 bytes, 40 and 20 percent.
abbrev pub sender : RaptorQ toy
sender = record {
  max_packet_size = 16;
  symbol_count = 7;
  transfer_length = 112;
  plan = 7;
  config = 16;
  nb_repair_packets = 2;
  min_nb_repair_packets = 0;
}

abbrev pub receiver : RaptorQ toy
receiver = record sender { min_nb_repair_packets = 1 }

sender-new : new toy 48 112 40 0 ≡ ok sender
unfolding new packet_size repair_count u16_try_from
sender-new = refl

receiver-new : new toy 48 112 40 20 ≡ ok receiver
unfolding new packet_size repair_count u16_try_from
receiver-new = refl

pub agreement : AgreeOn toy 48 112 40 20 sender receiver
agreement = record {
  sender = sender-new;
  receiver = receiver-new;
  block_fits = omega arith;
  not_empty = omega arith;
  sum_fits = omega arith;
  enough = omega arith;
}

abbrev block : Block
block = record { content = replicate 112 7 }

abbrev sent_state : Pipeline toy
sent_state = record (init_pipeline toy) {
  fed = block ∷ [];
  next_id = 1;
  block_to_send = 1;
  sent = encoded toy sender (0, block) ∷ [];
}

sent_reached : Reach toy sender 1 sent_state
sent_reached =
    then_step
      (then_step
        (then_step
          (then_step
            (then_step (then_step here (feed block (omega arith))) (order_take block [] refl refl))
            (order_put block refl (omega arith)))
          (take_block (0, block) [] refl (omega arith)))
        (release (0, block) [] [] refl refl (omega arith)))
      (udp_send (encoded toy sender (0, block)) [] refl refl)

decoded-sent_example :
    (front : List Block) × (back : List Block) × (front ++ back ≡ block ∷ [])
    × (t : Reblock.State toy) × (outs : List (Reassembled toy)) × (Reblock.run
          (min_nb_packets toy receiver)
          (Reblock.init_state toy)
          (singles toy (concat sent_state.sent))
        ≡ ok (t, outs))
    × (map (decoded toy receiver) outs ≡ map some front)
    × (sent_state.sent ≡ map (encoded toy sender) (number 0 front))
decoded-sent_example =
    decoded-sent toy toy_laws 48 112 40 20 sender receiver agreement 1 sent_state (omega arith)
      sent_reached (length-replicate {A = ℕ} 112 7, tt)

abbrev pub small : RaptorQ toy
small = record {
  max_packet_size = 16;
  symbol_count = 1;
  transfer_length = 16;
  plan = 1;
  config = 16;
  nb_repair_packets = 0;
  min_nb_repair_packets = 0;
}

abbrev pub reads : List Wait
reads =
    ready 3
    ∷ ready 9
    ∷ ready 0
    ∷ ready 5
    ∷ ready 5
    ∷ ready 5
    ∷ ready 5
    ∷ ready 5
    ∷ ready 5
    ∷ ready 5
    ∷ []

abbrev pub stream : List ℕ
stream = 1 ∷ 2 ∷ 3 ∷ 4 ∷ 5 ∷ 6 ∷ 7 ∷ 8 ∷ 9 ∷ []

abbrev first_block : Block
first_block = record {
  content = 3 ∷ 0 ∷ 0 ∷ 0 ∷ 1 ∷ 0 ∷ 0 ∷ 0 ∷ 0 ∷ 0 ∷ 0 ∷ 0 ∷ 0 ∷ 0 ∷ 0 ∷ 0 ∷ [];
}

abbrev second_block : Block
second_block = record {
  content = 3 ∷ 0 ∷ 0 ∷ 0 ∷ 2 ∷ 7 ∷ 0 ∷ 0 ∷ 0 ∷ 1 ∷ 2 ∷ 3 ∷ 4 ∷ 5 ∷ 6 ∷ 7 ∷ [];
}

abbrev last_block : Block
last_block = record { content = 3 ∷ 0 ∷ 0 ∷ 0 ∷ 4 ∷ 2 ∷ 0 ∷ 0 ∷ 0 ∷ 8 ∷ 9 ∷ 0 ∷ 0 ∷ 0 ∷ 0 ∷ 0 ∷ [] }

client_sends :
    (Sender.start_client toy false small 3 reads stream).blocks
    ≡ first_block ∷ second_block ∷ last_block ∷ []
unfolding Sender.start_client loop Block.new max_data_len
client_sends = refl

abbrev pub open_queues : Queues
open_queues = record { closed = λ q. false; drained = λ q. false }
