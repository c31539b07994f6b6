-- ===== src/Tests/Streams.antt =====
-- One short stream through every worker of the sender and of the receiver, after a heartbeat.
use lidi_4d8d19daa.Common.{
  ℕ, ◌<◌, ◌+◌, ◌%◌, ◌≡◌, refl, List, [], ◌∷◌, ◌++◌, Option, some, none, true, false, ok, map,
  replicate, concat, arith, All,
}
use lidi_4d8d19daa.Protocol.Raptorq.{decode, encode, min_nb_packets}
use lidi_4d8d19daa.Protocol.Block.{
  Block, heartbeat, max_data_len, block_type, client_id, deserialize, serialized,
}
use lidi_4d8d19daa.Protocol.Block as Block
use lidi_4d8d19daa.Send.Client as Sender
use lidi_4d8d19daa.Send.Client.{loop}
use lidi_4d8d19daa.Send.Pipeline.{take_block, release}
use lidi_4d8d19daa.Send.Pipeline.{
  Pipeline, Reach, here, then_step, feed, order_take, order_put, udp_send, encoded, init_pipeline,
}
use lidi_4d8d19daa.Send.Pipeline.Numbering.{number}
use lidi_4d8d19daa.Receive.{Reassembled, reassembled}
use lidi_4d8d19daa.Receive.Reblock as Reblock
use lidi_4d8d19daa.Receive.Reblock.Collect.{singles}
use lidi_4d8d19daa.Receive.Reblock.Link.{first_packets, run-InTurn}
use lidi_4d8d19daa.Receive.Decode as Decode
use lidi_4d8d19daa.Receive.Decode.Feed.{Fed, started, handed_over, worked}
use lidi_4d8d19daa.Receive.Client.{finished, start_client}
use lidi_4d8d19daa.Receive.Client.Delivery.{arrivals}
use lidi_4d8d19daa.Receive.Dispatch.{
  State, Queues, Action, opens, init_state, round, dispatch_typed, dispatch_block, run,
}
use lidi_4d8d19daa.Receive.Dispatch.Interleaved.{events, deliveries}
use lidi_4d8d19daa.Diode.Packets.{IsFull, positive, encoded-InTurn}
use lidi_4d8d19daa.Diode.Servers.{client_of_server}
use lidi_4d8d19daa.Send.Server.{Incoming}
use lidi_4d8d19daa.Send.Servers as Servers
use lidi_4d8d19daa.Send.Servers.{Client, Phase, serving, closing, over}
use lidi_4d8d19daa.Send.Servers.Order.{sent_blocks}
use lidi_4d8d19daa.Protocol.Block.{new_client_id}
use lidi_4d8d19daa.Protocol.Block.Owner.{is_of, of_client}
use lidi_4d8d19daa.Tests.Toy.{toy, toy_laws}
use lidi_4d8d19daa.Tests.Link.{sender, receiver, agreement, open_queues, reads, stream}

abbrev heartbeat_block : Block
heartbeat_block = record { content = 0 ∷ 0 ∷ 0 ∷ 0 ∷ 0 ∷ 0 ∷ 0 ∷ 0 ∷ 0 ∷ replicate 103 0 }

abbrev start_block : Block
start_block = record { content = 0 ∷ 0 ∷ 0 ∷ 0 ∷ 1 ∷ 0 ∷ 0 ∷ 0 ∷ 0 ∷ replicate 103 0 }

abbrev end_block : Block
end_block = record {
  content = 0 ∷ 0 ∷ 0 ∷ 0 ∷ 4 ∷ 9 ∷ 0 ∷ 0 ∷ 0 ∷ 1 ∷ 2 ∷ 3 ∷ 4 ∷ 5 ∷ 6 ∷ 7 ∷ 8 ∷ 9 ∷ replicate 94 0;
}

abbrev pub incoming : Incoming
incoming = record { reads = reads; stream = stream }

abbrev pub client : Phase → Client
client phase = record { client_id = 0; incoming = incoming; phase = phase }

client_run :
    Servers.run_of toy false sender 0 incoming
    ≡ record { blocks = start_block ∷ end_block ∷ []; status = Sender.finished }
unfolding Sender.start_client loop Block.new max_data_len
client_run = refl

heartbeat_made : Block.new toy heartbeat sender 0 none ≡ ok heartbeat_block
unfolding Block.new
heartbeat_made = refl

abbrev pub served_state : Servers.State
served_state = record (Servers.init_state 1) {
  asked = some incoming ∷ [];
  taken = some incoming ∷ [];
  counter = 1;
  clients = client over ∷ [];
  to_ordering = some heartbeat_block ∷ some start_block ∷ some end_block ∷ [];
}

pub served_reached : Servers.Reach toy false sender 1 true 1 served_state
unfolding Sender.start_client loop Block.new max_data_len new_client_id
served_reached =
    Servers.then_step
      (Servers.then_step
        (Servers.then_step
          (Servers.then_step
            (Servers.then_step
              (Servers.then_step
                (Servers.then_step
                  (Servers.then_step
                    (Servers.then_step Servers.here (Servers.ask (some incoming) (omega arith)))
                    (Servers.take_client incoming [] 0 refl refl))
                  (Servers.wait incoming [] [] 0 refl refl))
                (Servers.begin_client incoming [] [] refl))
              (Servers.beat heartbeat_block refl heartbeat_made))
            (Servers.send_block (client (serving (start_block ∷ end_block ∷ []))) start_block
              (end_block ∷ []) [] [] refl refl))
          (Servers.send_block (client (serving (end_block ∷ []))) end_block [] [] [] refl refl))
        (Servers.signal (client (serving [])) [] [] refl refl tt))
      (Servers.go_round (client (closing [])) [] [] refl refl refl)

abbrev fed_blocks : List Block
fed_blocks = heartbeat_block ∷ start_block ∷ end_block ∷ []

abbrev packets : ℕ → Block → List toy.Packet
packets i b = encoded toy sender (i, b)

-- A pipeline in which no block is on its way.
abbrev idle : List Block → ℕ → List (List toy.Packet) → Pipeline toy
idle fed i sent = record (init_pipeline toy) {
  fed = fed;
  next_id = i;
  block_to_send = i;
  sent = sent;
}

-- A block that goes through the pipeline alone.
through :
    (fed : List Block) (i : ℕ) (sent : List (List toy.Packet)) (b : Block)
    → Reach toy sender 1 (idle fed i sent)
    → Reach toy sender 1 (idle (fed ++ b ∷ []) ((i + 1) % 256) (sent ++ packets i b ∷ []))
through fed i sent b reached =
    then_step
      (then_step
        (then_step
          (then_step
            (then_step (then_step reached (feed b (omega arith))) (order_take b [] refl refl))
            (order_put b refl (omega arith)))
          (take_block (i, b) [] refl (omega arith)))
        (release (i, b) [] [] refl refl (omega arith)))
      (udp_send (packets i b) [] refl refl)

abbrev sent_state : Pipeline toy
sent_state =
    idle fed_blocks 3 (packets 0 heartbeat_block ∷ packets 1 start_block ∷ packets 2 end_block ∷ [])

sent_reached : Reach toy sender 1 sent_state
sent_reached =
    through _ 2 _ end_block (through _ 1 _ start_block (through [] 0 [] heartbeat_block here))

abbrev Full : Type 0
Full = All (IsFull toy toy_laws 48 112 40 20 sender receiver agreement) fed_blocks

full : Full
full = (refl, (refl, (refl, tt)))

abbrev min_positive : 0 < min_nb_packets toy receiver
min_positive = positive toy toy_laws 48 112 40 20 sender receiver agreement

abbrev regrouped : List (Reassembled toy)
regrouped =
    first_packets toy toy_laws (min_nb_packets toy receiver) min_positive 0
      (map (encoded toy sender) (number 0 fed_blocks))

reblocked :
    (t : Reblock.State toy) × (Reblock.run
        (min_nb_packets toy receiver)
        (Reblock.init_state toy)
        (singles toy (concat sent_state.sent))
      ≡ ok (t, regrouped))
reblocked =
    run-InTurn toy toy_laws (min_nb_packets toy receiver) min_positive
      (map (encoded toy sender) (number 0 fed_blocks)) (Reblock.init_state toy) 0 refl (omega arith)
      (encoded-InTurn toy toy_laws 48 112 40 20 sender receiver agreement 0 fed_blocks full)

abbrev decoding : List (Option Block) → ℕ → Decode.State toy
decoding dispatched i = record {
  for_decode = [];
  held = [];
  block_to_dispatch = i;
  dispatched = dispatched;
}

-- A message that a single decoding worker decodes and sends on.
decodes :
    (dispatched : List (Option Block)) (i : ℕ) (ms : List (Reassembled toy)) (b : Block)
    (packets : List toy.Packet)
    → decode toy receiver i packets ≡ some b.content
    → Fed toy receiver 1 0 (decoding dispatched i) ms
    → Fed toy receiver 1 0
        (decoding (dispatched ++ some b ∷ []) ((i + 1) % 256))
        (ms ++ reassembled i packets ∷ [])
unfolding deserialize
decodes dispatched i ms b packets d fed =
    worked
      (worked (handed_over (reassembled i packets) fed)
        (Decode.take_block i packets b.content [] refl (omega arith) d) tt)
      (Decode.release (i, b) [] [] refl refl) tt

abbrev decoded_state : Decode.State toy
decoded_state = decoding (some heartbeat_block ∷ some start_block ∷ some end_block ∷ []) 3

all_decoded : Fed toy receiver 1 0 decoded_state regrouped
unfolding decode encode serialized min_nb_packets
all_decoded =
    decodes _ 2 _ end_block _ refl
      (decodes _ 1 _ start_block _ refl (decodes [] 0 [] heartbeat_block _ refl started))

first_run :
    run toy receiver init_state (events ((open_queues, heartbeat_block) ∷ [])) ≡ ok (init_state, [])
unfolding run round dispatch_block block_type client_id dispatch_typed
first_run = refl

own_blocks : (of_client 0 (heartbeat_block ∷ []) ≡ []) × (is_of 0 start_block ≡ true)
unfolding block_type client_id
own_blocks = (refl, refl)

all_sent : fed_blocks ≡ sent_blocks served_state
unfolding sent_blocks
all_sent = refl

client_of_server_example :
    (map
        (λ (e : Queues × Option Block). e.1)
        (events (
          (open_queues, heartbeat_block)
          ∷ (open_queues, start_block)
          ∷ (open_queues, end_block)
          ∷ []))
      ≡ decoded_state.dispatched)
    × (after : State) × (actions : List Action) × (run toy receiver init_state (
          events (
            (open_queues, heartbeat_block)
            ∷ (open_queues, start_block)
            ∷ (open_queues, end_block)
            ∷ []))
        ≡ ok (after, opens 0 0 ∷ actions))
    × (start_client toy receiver none true (arrivals (deliveries 0 actions))
        ≡ record { written = stream; ended = some true; status = finished })
client_of_server_example =
    client_of_server toy toy_laws 48 112 40 20 sender receiver agreement false true true 1 1 1
      served_state [] [] (client over) sent_state reblocked.0 regrouped decoded_state open_queues
      ((open_queues, heartbeat_block) ∷ []) ((open_queues, end_block) ∷ []) start_block init_state
      [] (omega arith) (omega arith) served_reached (omega arith) refl refl (omega arith)
      (omega arith) sent_reached all_sent refl reblocked.1 (omega arith) (omega arith) all_decoded
      refl refl own_blocks.0 own_blocks.1 first_run (refl, (refl, tt))
