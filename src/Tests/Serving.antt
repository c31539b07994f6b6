-- ===== src/Tests/Serving.antt =====
-- Two workers that serve transfers, the first of three transfers being served.
use lidi_4d8d19daa.Common.{◌+◌, ◌≤◌, ◌≡◌, ◌⊎◌, refl, List, [], ◌∷◌, ◌++◌, length}
use lidi_4d8d19daa.Receive.Clients.{
  Transfer, State, Step, Reach, arrive, take_transfer, wait, here, then_step,
}
use lidi_4d8d19daa.Receive.Clients.Permits.{IsUnblocked, max_clients_served}

abbrev busy : State
busy = record {
  arrived = (7, 0) ∷ (8, 1) ∷ (9, 2) ∷ [];
  for_clients = (9, 2) ∷ [];
  taken = (7, 0) ∷ (8, 1) ∷ [];
  idle = 0;
  holding = (8, 1) ∷ [];
  multiplex_control = 1;
  serving = (7, 0) ∷ [];
  closing = 0;
}

busy_reached : Reach 2 busy
busy_reached =
    then_step
      (then_step
        (then_step
          (then_step (then_step (then_step here (arrive (7, 0))) (arrive (8, 1))) (arrive (9, 2)))
          (take_transfer (7, 0) ((8, 1) ∷ (9, 2) ∷ []) 1 refl refl))
        (take_transfer (8, 1) ((9, 2) ∷ []) 0 refl refl))
      (wait (7, 0) [] ((8, 1) ∷ []) 1 refl refl)

max_clients_served_example :
    (busy.taken ++ busy.for_clients ≡ busy.arrived)
    × (1 ≤ 2)
    × IsUnblocked busy
    × ((t : Transfer) (rest : List Transfer)
        → busy.for_clients ≡ t ∷ rest
        → ((u : State) × Step busy u × (u.taken ≡ busy.taken ++ t ∷ []))
          ⊎ (length busy.holding + length busy.serving + busy.closing ≡ 2))
max_clients_served_example = max_clients_served 2 busy busy_reached
