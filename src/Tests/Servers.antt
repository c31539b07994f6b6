-- ===== src/Tests/Servers.antt =====
-- One server worker that has served a client, and two of which one was told to stop.
use lidi_4d8d19daa.Common.{
  ℕ, ◌+◌, ◌≤◌, ◌≡◌, ◌⊎◌, refl, List, [], ◌∷◌, ◌++◌, Option, none, some, true, false, length, arith,
}
use lidi_4d8d19daa.Protocol.Block.Owner.{of_client}
use lidi_4d8d19daa.Send.Server.{Incoming}
use lidi_4d8d19daa.Send.Servers.{
  Client, State, Step, Reach, over, ask, take_client, take_stop, init_state, here, then_step,
}
use lidi_4d8d19daa.Send.Servers.Sent.{total, pending}
use lidi_4d8d19daa.Send.Servers.Order.{sent_blocks, sent_for_each}
use lidi_4d8d19daa.Send.Servers.Counts.{served, stops}
use lidi_4d8d19daa.Send.Servers.Permits.{IsUnblocked, clients_and_stops}
use lidi_4d8d19daa.Tests.Toy.{toy}
use lidi_4d8d19daa.Tests.Link.{sender}
use lidi_4d8d19daa.Tests.Streams.{incoming, client, served_state, served_reached}

sent_for_each_example :
    (of_client 0 (sent_blocks served_state) ++ pending toy false sender (client over)
      ≡ total toy false sender 0 incoming)
    × ((client over).client_id ≡ length {A = Client} [])
    × ((id : ℕ) → 1 ≤ id → of_client id (sent_blocks served_state) ≡ [])
sent_for_each_example =
    sent_for_each toy false sender (omega arith) (omega arith) 1 true 1 served_state [] []
      (client over) served_reached (omega arith) refl

abbrev stopped_state : State
stopped_state = record (init_state 2) {
  asked = none ∷ some incoming ∷ [];
  taken = none ∷ some incoming ∷ [];
  idle = 0;
  holding = incoming ∷ [];
  stopping = 1 ∷ [];
}

stopped_reached : Reach toy false sender 1 false 2 stopped_state
stopped_reached =
    then_step
      (then_step (then_step (then_step here (ask none (omega arith))) (take_stop [] 1 refl refl))
        (ask (some incoming) (omega arith)))
      (take_client incoming [] 0 refl refl)

clients_and_stops_example :
    (stopped_state.taken ++ stopped_state.for_server ≡ stopped_state.asked)
    × (served stopped_state.clients ≤ 2)
    × IsUnblocked toy false sender 1 false 2 stopped_state
    × ((message : Option Incoming) (rest : List (Option Incoming))
        → stopped_state.for_server ≡ message ∷ rest
        → ((t : State) × Step toy false sender 1 false stopped_state t
            × (t.taken ≡ stopped_state.taken ++ message ∷ []))
          ⊎ (stopped_state.idle ≡ 0))
    × (length stopped_state.stopping + stopped_state.returned ≡ stops stopped_state.taken)
clients_and_stops_example =
    clients_and_stops toy false sender 1 false 2 stopped_state stopped_reached
