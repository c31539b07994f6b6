-- ===== src/Tests/Sender.antt =====
-- A client of the sender, also one whose connection fails, and the pipeline behind it with one encoding worker.
use lidi_4d8d19daa.Common.{
  ℕ, ◌+◌, ◌≤◌, length, ◌≡◌, refl, List, [], ◌∷◌, ◌++◌, false, none, some, map, arith,
}
use lidi_4d8d19daa.Common.Reader.{Wait, ready}
use lidi_4d8d19daa.Protocol.Raptorq.{RaptorQ}
use lidi_4d8d19daa.Protocol.Block.{Block, start}
use lidi_4d8d19daa.Send.Client.{start_client, finished}
use lidi_4d8d19daa.Send.Client.Stream.{IsBlock, Transfer, start_client-Transfer}
use lidi_4d8d19daa.Send.Pipeline.{
  Pipeline, Reach, Later, here, then_step, feed, feed_stop, order_take, order_put, encoded,
  init_pipeline, returned,
}
use lidi_4d8d19daa.Send.Pipeline.{now, and_then, take_block, release, udp_fail}
use lidi_4d8d19daa.Send.Pipeline as Sending
use lidi_4d8d19daa.Send.Pipeline.Stalled.{failed-fed}
use lidi_4d8d19daa.Send.Pipeline.Numbering.{number}
use lidi_4d8d19daa.Send.Pipeline.Order.{sent_in_order}
use lidi_4d8d19daa.Send.Pipeline.Stop.{encoders_never_stop, stop_overtakes}
use lidi_4d8d19daa.Send.Server.{Incoming, serve_client}
use lidi_4d8d19daa.Send.Server.Cut.{Chunks, serve_client-failed}
use lidi_4d8d19daa.Send.{io}
use lidi_4d8d19daa.Protocol.Block.{abort, new, max_data_len}
use lidi_4d8d19daa.Send.Client.{loop, failed}
use lidi_4d8d19daa.Common.{unexpected_eof, true}
use lidi_4d8d19daa.Common.Reader.{fault}
use lidi_4d8d19daa.Receive.Client as Receiver
use lidi_4d8d19daa.Receive.Client.Delivery.{arrivals}
use lidi_4d8d19daa.Receive.Client.Failure.{start_client-serve_client}
use lidi_4d8d19daa.Tests.Toy.{toy}

abbrev small : RaptorQ toy
small = record {
  max_packet_size = 16;
  symbol_count = 1;
  transfer_length = 16;
  plan = 1;
  config = 16;
  nb_repair_packets = 0;
  min_nb_repair_packets = 0;
}

-- Nine bytes through blocks of seven.
abbrev nine : List ℕ
nine = 1 ∷ 2 ∷ 3 ∷ 4 ∷ 5 ∷ 6 ∷ 7 ∷ 8 ∷ 9 ∷ []

abbrev waits : List Wait
waits =
    ready 3
    ∷ ready 9
    ∷ ready 0
    ∷ ready 5
    ∷ ready 5
    ∷ ready 5
    ∷ ready 5
    ∷ ready 5
    ∷ ready 5
    ∷ ready 5
    ∷ []

start_client-Transfer_example :
    (b : Block) × (bs : List Block) × ((start_client toy false small 3 waits nine).blocks ≡ b ∷ bs)
    × IsBlock start 3 [] b
    × Transfer 3 bs nine
    × ((start_client toy false small 3 waits nine).status ≡ finished)
start_client-Transfer_example =
    start_client-Transfer toy false small 3 waits nine (omega arith) (omega arith) (omega arith)
      (omega arith)

abbrev block : Block
block = record { content = 7 ∷ [] }

abbrev fed_state : Pipeline toy
fed_state = record (init_pipeline toy) { fed = block ∷ []; to_ordering = some block ∷ [] }

abbrev ordered_state : Pipeline toy
ordered_state = record (init_pipeline toy) {
  fed = block ∷ [];
  next_id = 1;
  to_encoding = some (0, block) ∷ [];
}

ordered : Reach toy small 1 ordered_state
ordered =
    then_step
      (then_step (then_step here (feed block (omega arith))) (order_take block [] refl refl))
      (order_put block refl (omega arith))

abbrev stopping_state : Pipeline toy
stopping_state = record ordered_state { to_ordering = none ∷ [] }

stopping : Reach toy small 1 stopping_state
stopping = then_step ordered (feed_stop (omega arith))

sent_in_order_example :
    (rest : List (List toy.Packet)) × (stopping_state.sent ++ rest
      ≡ map (encoded toy small) (number 0 (block ∷ [])))
sent_in_order_example = sent_in_order toy small 1 (omega arith) stopping

encoders_never_stop_example : stopping_state.encoders_done ≡ 0
encoders_never_stop_example = encoders_never_stop toy small 1 stopping

stop_overtakes_example :
    (t : Pipeline toy) × Reach toy small 1 t
    × (t.udp ≡ returned)
    × (t.sent ≡ [])
    × (t.held ≡ [])
    × (t.to_encoding ≡ some (0, block) ∷ [])
    × ((u : Pipeline toy) → Later toy small 1 t u → u.sent ≡ [])
stop_overtakes_example = stop_overtakes toy small [] stopping refl refl refl refl

-- The connection fails at the fourth read.
abbrev cut_off : Incoming
cut_off = record { reads = ready 3 ∷ ready 9 ∷ ready 0 ∷ fault unexpected_eof ∷ []; stream = nine }

cut_off_fails :
    (start_client toy false small 3 cut_off.reads cut_off.stream).status
    ≡ failed (io unexpected_eof)
unfolding start_client loop new max_data_len
cut_off_fails = refl

serve_client-failed_example :
    (b : Block) × (bs : List Block) × (c : Block) × (front : List ℕ) × (back : List ℕ)
    × (serve_client toy false small 3 cut_off
        ≡ record { blocks = b ∷ (bs ++ c ∷ []); status = finished })
    × IsBlock start 3 [] b
    × Chunks 3 bs front
    × IsBlock abort 3 [] c
    × (front ++ back ≡ nine)
serve_client-failed_example =
    serve_client-failed toy false small 3 cut_off (io unexpected_eof) (omega arith) (omega arith)
      (omega arith) cut_off_fails

start_client-serve_client_example :
    (front : List ℕ) × (back : List ℕ) × (front ++ back ≡ nine)
    × (Receiver.start_client toy small none true
          (arrivals (serve_client toy false small 3 cut_off).blocks)
        ≡ record { written = front; ended = some false; status = Receiver.finished })
start_client-serve_client_example =
    start_client-serve_client toy false true small 3 cut_off (io unexpected_eof) (omega arith)
      (omega arith) (omega arith) cut_off_fails

-- The first block is given to the UDP socket, which fails; another one is still accepted.
abbrev failed_state : Pipeline toy
failed_state = record (init_pipeline toy) {
  fed = block ∷ [];
  next_id = 1;
  block_to_send = 1;
  udp = Sending.failed;
  sent = encoded toy small (0, block) ∷ [];
}

failed_reached : Reach toy small 1 failed_state
failed_reached =
    then_step
      (then_step (then_step ordered (take_block (0, block) [] refl (omega arith)))
        (release (0, block) [] [] refl refl (omega arith)))
      (udp_fail (encoded toy small (0, block)) [] refl refl)

abbrev accepting_state : Pipeline toy
accepting_state = record failed_state { fed = block ∷ block ∷ []; to_ordering = some block ∷ [] }

failed-fed_example :
    (accepting_state.sent ≡ failed_state.sent)
    × (length accepting_state.fed ≤ length failed_state.sent + 4 + 1)
failed-fed_example =
    failed-fed toy small 1 (omega arith) failed_reached refl
      (and_then now (feed block (omega arith)))
