-- ===== src/Tests/Receiving.antt =====
-- The decoding workers, the dispatch worker and a client worker of the receiver.
use lidi_4d8d19daa.Common.{
  ℕ, ◌≡◌, ◌≢◌, refl, List, [], ◌∷◌, true, false, none, some, Option, ok, All, arith,
}
use lidi_4d8d19daa.Common.Reader.{Wait, ready}
use lidi_4d8d19daa.Protocol.Raptorq.{RaptorQ, decode}
use lidi_4d8d19daa.Protocol.Block.{Block, chunk, abort, block_type, client_id, payload}
use lidi_4d8d19daa.Send.Client as Sender
use lidi_4d8d19daa.Send.Client.Stream.{IsBlock}
use lidi_4d8d19daa.Receive.{reassembled}
use lidi_4d8d19daa.Receive.Decode.{State, Later}
use lidi_4d8d19daa.Receive.Decode.Stall.{failed_block_stalls}
use lidi_4d8d19daa.Receive.Client.{finished, start_client}
use lidi_4d8d19daa.Receive.Client.Delivery.{arrivals, start_client-start_client}
use lidi_4d8d19daa.Receive.Dispatch as Dispatch
use lidi_4d8d19daa.Receive.Dispatch.{
  Queues, Action, opens, delivers, dispatch_block, lookup, init_state, run,
}
use lidi_4d8d19daa.Receive.Dispatch.Owners.{Inv}
use lidi_4d8d19daa.Receive.Dispatch.Silence.{IsSilent}
use lidi_4d8d19daa.Receive.Dispatch.Routing.{IsRouted, dispatch_block_contained}
use lidi_4d8d19daa.Receive.Dispatch.Ended.{ended-IsSilent}
use lidi_4d8d19daa.Tests.Toy.{toy}

abbrev sized : RaptorQ toy
sized = record {
  max_packet_size = 16;
  symbol_count = 1;
  transfer_length = 16;
  plan = 1;
  config = 16;
  nb_repair_packets = 0;
  min_nb_repair_packets = 0;
}

-- A packet of the wrong number, so that the block is not decoded, and a good one behind it.
abbrev decoding : State toy
decoding = record {
  for_decode = reassembled 0 ((7, 1 ∷ []) ∷ []) ∷ reassembled 1 ((1, 4 ∷ []) ∷ []) ∷ [];
  held = [];
  block_to_dispatch = 0;
  dispatched = [];
}

not_decoded : decode toy sized 0 ((7, 1 ∷ []) ∷ []) ≡ none
unfolding decode
not_decoded = refl

decoded : decode toy sized 1 ((1, 4 ∷ []) ∷ []) ≡ some (4 ∷ [])
unfolding decode
decoded = refl

failed_block_stalls_example :
    (t : State toy) × Later toy sized 1 decoding t
    × (t.dispatched ≡ none ∷ [])
    × ((u : State toy) → Later toy sized 1 t u → u.dispatched ≡ t.dispatched)
failed_block_stalls_example =
    failed_block_stalls toy sized decoding 0 ((7, 1 ∷ []) ∷ []) ((1, 4 ∷ []) ∷ []) 1 (4 ∷ []) []
      refl refl refl not_decoded decoded (λ e. absurd (omega (arith, e)))

abbrev message : List ℕ
message = 1 ∷ 2 ∷ 3 ∷ 4 ∷ 5 ∷ 6 ∷ 7 ∷ 8 ∷ 9 ∷ []

abbrev reads : List Wait
reads =
    ready 3
    ∷ ready 9
    ∷ ready 0
    ∷ ready 5
    ∷ ready 5
    ∷ ready 5
    ∷ ready 5
    ∷ ready 5
    ∷ ready 5
    ∷ ready 5
    ∷ []

start_client-start_client_example :
    start_client toy sized none true
      (arrivals (Sender.start_client toy true sized 3 reads message).blocks)
    ≡ record { written = message; ended = some true; status = finished }
start_client-start_client_example =
    start_client-start_client toy true true sized 3 reads message (omega arith) (omega arith)
      (omega arith) (omega arith)

abbrev data_block : Block
data_block = record { content = 3 ∷ 0 ∷ 0 ∷ 0 ∷ 2 ∷ 2 ∷ 0 ∷ 0 ∷ 0 ∷ 8 ∷ 9 ∷ [] }

abbrev abort_block : Block
abort_block = record { content = 3 ∷ 0 ∷ 0 ∷ 0 ∷ 3 ∷ 0 ∷ 0 ∷ 0 ∷ 0 ∷ [] }

data_block-IsBlock : IsBlock chunk 3 (8 ∷ 9 ∷ []) data_block
unfolding block_type client_id payload
data_block-IsBlock = record { typed = refl; owned = refl; carried = refl }

abort_block-IsBlock : IsBlock abort 3 [] abort_block
unfolding block_type client_id payload
abort_block-IsBlock = record { typed = refl; owned = refl; carried = refl }

abbrev open_queues : Queues
open_queues = record { closed = λ q. false; drained = λ q. false }

abbrev two_active : Dispatch.State
two_active = record { active = (3, 0) ∷ (5, 1) ∷ []; ended = []; next_queue = 2 }

abbrev one_active : Dispatch.State
one_active = record { active = (5, 1) ∷ []; ended = (3, 0) ∷ []; next_queue = 2 }

abort_dispatched :
    dispatch_block open_queues two_active abort_block ≡ ok (one_active, delivers 0 abort_block ∷ [])
unfolding dispatch_block block_type client_id lookup
abort_dispatched = refl

dispatch_block_contained_example :
    All (IsRouted two_active 3 abort_block) (delivers 0 abort_block ∷ [])
    × ((j : ℕ) → j ≢ 3 → lookup j one_active.active ≡ lookup j two_active.active)
dispatch_block_contained_example =
    dispatch_block_contained open_queues two_active one_active abort_block 3
      (delivers 0 abort_block ∷ []) abort_block-IsBlock.owned abort_dispatched

-- The abort block closes the first transfer; a late block of its client is dropped, and a start
-- block of another client opens a third queue.
abbrev late_block : Block
late_block = data_block

abbrev start_block : Block
start_block = record { content = 4 ∷ 0 ∷ 0 ∷ 0 ∷ 1 ∷ 0 ∷ 0 ∷ 0 ∷ 0 ∷ [] }

abbrev later_blocks : List (Queues × Option Block)
later_blocks = (open_queues, some late_block) ∷ (open_queues, some start_block) ∷ []

abbrev later_state : Dispatch.State
later_state = record { active = (4, 2) ∷ (5, 1) ∷ []; ended = (3, 0) ∷ []; next_queue = 3 }

abbrev later_actions : List Action
later_actions = opens 4 2 ∷ delivers 2 start_block ∷ []

abort_round :
    Dispatch.round toy sized open_queues two_active (some abort_block)
    ≡ ok (one_active, delivers 0 abort_block ∷ [])
unfolding Dispatch.round dispatch_block block_type client_id lookup
abort_round = refl

later_run : run toy sized one_active later_blocks ≡ ok (later_state, later_actions)
unfolding run dispatch_block block_type client_id lookup
later_run = refl

two_active-Inv : Inv two_active
two_active-Inv = record {
  distinct = (((λ e. absurd (omega (arith, e))), tt), (tt, tt));
  below = (omega arith, (omega arith, tt));
}

two_active_lookup : lookup 3 two_active.active ≡ some 0
unfolding lookup
two_active_lookup = refl

ended-IsSilent_example : All (IsSilent 0) later_actions
ended-IsSilent_example =
    ended-IsSilent toy sized open_queues two_active one_active later_state abort_block 3 0 abort
      (delivers 0 abort_block ∷ []) later_actions later_blocks two_active-Inv two_active_lookup
      abort_block-IsBlock.typed refl abort_block-IsBlock.owned abort_round later_run
