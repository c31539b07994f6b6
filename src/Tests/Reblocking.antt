-- ===== src/Tests/Reblocking.antt =====
-- The reblock worker, in a block of two packets that stays incomplete until a timeout.
use lidi_4d8d19daa.Common.{◌≡◌, refl, List, [], ◌∷◌, ◌++◌, ok, panic, All, arith}
use lidi_4d8d19daa.Udp.{single, multiple}
use lidi_4d8d19daa.Receive.{Reassembled}
use lidi_4d8d19daa.Receive.Reblock.{
  State, Event, timeout, received, init_state, first_datagram, run,
}
use lidi_4d8d19daa.Receive.Reblock.Run.{IsComplete, run-IsComplete, init-Inv}
use lidi_4d8d19daa.Receive.Reblock.Drain.{Consecutive}
use lidi_4d8d19daa.Receive.Reblock.Order.{run-Consecutive}
use lidi_4d8d19daa.Receive.Reblock.Readable.{IsReadable}
use lidi_4d8d19daa.Receive.Reblock.Unreadable.{unreadable_panics}
use lidi_4d8d19daa.Tests.Toy.{toy, toy_laws}

abbrev events : List Event
events =
    received (single (5 ∷ 1 ∷ []))
    ∷ timeout
    ∷ received (multiple ((6 ∷ 1 ∷ []) ∷ (6 ∷ 2 ∷ []) ∷ []))
    ∷ []

events-IsReadable : All (IsReadable toy) events
events-IsReadable = (refl, (tt, ((refl, (refl, tt)), tt)))

run-IsComplete_example :
    (t : State toy) × (outs : List (Reassembled toy)) × (run 2 (init_state toy) events
      ≡ ok (t, outs))
    × All (IsComplete toy 2) outs
run-IsComplete_example = run-IsComplete toy toy_laws 2 (omega arith) events events-IsReadable

-- Packets of the blocks 6 and 5, the later block first, and one packet of block 5 repeated.
run-Consecutive_example :
    (t : State toy) × (outs : List (Reassembled toy)) × (run 2 (init_state toy) (
        received (single (5 ∷ 1 ∷ []))
        ∷ received (multiple ((6 ∷ 1 ∷ []) ∷ (6 ∷ 2 ∷ []) ∷ []))
        ∷ received (single (5 ∷ 1 ∷ []))
        ∷ [])
      ≡ ok (t, outs))
    × Consecutive toy 2 5 outs t.cur_id
unfolding first_datagram
run-Consecutive_example =
    run-Consecutive toy toy_laws 2 (omega arith) (init_state toy) (single (5 ∷ 1 ∷ [])) (5 ∷ 1 ∷ [])
      (received (multiple ((6 ∷ 1 ∷ []) ∷ (6 ∷ 2 ∷ []) ∷ [])) ∷ received (single (5 ∷ 1 ∷ [])) ∷ [])
      (init-Inv toy toy_laws 2 (omega arith)) refl refl
      ((6 ∷ 1 ∷ [], refl), ((5 ∷ 1 ∷ [], refl), tt)) (refl, ((refl, (refl, tt)), (refl, tt)))

-- A whole block, then an empty datagram in a batch.
unreadable_panics_example :
    run 2 (init_state toy) (events ++ received (multiple ((7 ∷ 1 ∷ []) ∷ [] ∷ [])) ∷ timeout ∷ [])
    ≡ panic
unreadable_panics_example =
    unreadable_panics toy toy_laws 2 (omega arith) events (timeout ∷ [])
      (multiple ((7 ∷ 1 ∷ []) ∷ [] ∷ [])) ((7 ∷ 1 ∷ []) ∷ []) [] [] events-IsReadable refl refl
