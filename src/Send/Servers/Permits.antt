-- ===== src/Send/Servers/Permits.antt =====
-- Who serves, who waits and who has stopped among the server workers.
use lidi_4d8d19daa.Common.{
  ℕ, suc, ◌+◌, ◌≤◌, ◌≡◌, refl, ◌⊎◌, inl, inr, List, [], ◌∷◌, ◌++◌, Option, none, some, Bool, length,
  length-remove, zero_or_suc, predecessor, arith,
}
use lidi_4d8d19daa.Extern.{Extern}
use lidi_4d8d19daa.Protocol.Raptorq.{RaptorQ}
use lidi_4d8d19daa.Send.Server.{Incoming}
use lidi_4d8d19daa.Send.Servers.{
  Phase, serving, closing, over, Client, State, Step, take_client, take_stop, wait, Reach,
}
use lidi_4d8d19daa.Send.Servers.Counts.{permit_of, worker_of, count_of, served, stops, Reach-Inv}

module _ (x : Extern) (flush : Bool) (r : RaptorQ x) (nb : ℕ) (beats : Bool) (max_clients : ℕ) where
  served-le-workers : (cs : List Client) → served cs ≤ count_of worker_of cs
  served-le-workers [] = omega arith
  served-le-workers (c ∷ cs) = omega (arith, phase_le c.phase, served-le-workers cs)
    where
      phase_le : (p : Phase) → permit_of p ≤ worker_of p
      phase_le (serving left) = omega arith
      phase_le (closing left) = omega arith
      phase_le over = omega arith

  -- A worker that holds a client gets a permit.
  abbrev pub IsUnblocked : State → Type 0
  IsUnblocked s =
      (client : Incoming) (before after : List Incoming)
      → s.holding ≡ before ++ client ∷ after
      → (t : State) × Step x flush r nb beats s t × (t.admitted ≡ s.admitted ++ client ∷ [])

  -- In every state that the server workers can reach: the clients and stops are received in the
  -- order in which `new_client` and `stop` sent them; at most `max_clients` clients are served at
  -- once; a worker that has received a client gets a permit of the semaphore without waiting for
  -- another worker; a message that waits can be received unless all workers are busy or have
  -- returned; and every stop that was received ends exactly one of the workers.
  pub clients_and_stops :
      (s : State)
      → Reach x flush r nb beats max_clients s
      → (s.taken ++ s.for_server ≡ s.asked)
        × (served s.clients ≤ max_clients)
        × IsUnblocked s
        × ((message : Option Incoming) (rest : List (Option Incoming))
            → s.for_server ≡ message ∷ rest
            → ((t : State) × Step x flush r nb beats s t × (t.taken ≡ s.taken ++ message ∷ []))
              ⊎ (s.idle ≡ 0))
        × (length s.stopping + s.returned ≡ stops s.taken)
  clients_and_stops s reach =
      let v = Reach-Inv x flush r nb beats max_clients reach in
      (
        v.in_order,
        omega (arith, v.permits),
        λ client before after e.
            let (permits, some_left) = predecessor s.multiplex_control (
              omega (
                arith,
                v.workers,
                v.permits,
                length-remove s.holding before after client e,
                served-le-workers s.clients,
              )) in
            (_, wait client before after permits e some_left, refl),
        λ message rest e. elim (zero_or_suc s.idle) [
          | inl none_idle ↦ inr none_idle
          | inr (others, idle) ↦ inl (receive_next s message rest others e idle)
        ],
        v.stopped,
      )
    where
      receive_next :
          (s : State) (message : Option Incoming) (rest : List (Option Incoming)) (others : ℕ)
          → s.for_server ≡ message ∷ rest
          → s.idle ≡ suc others
          → (t : State) × Step x flush r nb beats s t × (t.taken ≡ s.taken ++ message ∷ [])
      receive_next s none rest others e idle = (_, take_stop rest others e idle, refl)
      receive_next s (some client) rest others e idle =
          (_, take_client client rest others e idle, refl)
