-- ===== src/Receive/Clients/Permits.antt =====
-- Who serves, who waits and who is idle among the workers that serve transfers.
use lidi_4d8d19daa.Common.{
  ℕ, suc, ◌+◌, ◌≤◌, ◌≡◌, refl, ap, ◌∙◌, ◌⊎◌, inl, inr, List, [], ◌∷◌, ◌++◌, append_assoc, length,
  length-append, length-remove, zero_or_suc, predecessor, arith,
}
use lidi_4d8d19daa.Receive.Clients.{
  Transfer, State, Step, arrive, take_transfer, wait, signal, yield_now, Reach, here, then_step,
}

record Inv (max_clients : ℕ) (s : State) : Type 0 where
  in_order : s.taken ++ s.for_clients ≡ s.arrived
  workers : s.idle + length s.holding + length s.serving + s.closing ≡ max_clients
  permits : s.multiplex_control + length s.serving ≡ max_clients

Step-Inv : {n : ℕ} {s t : State} → Step s t → Inv n s → Inv n t
Step-Inv {n} {s} (arrive t) v = record {
  in_order = rw (← append_assoc s.taken s.for_clients (t ∷ []), v.in_order) refl;
  workers = v.workers;
  permits = v.permits;
}
Step-Inv {n} {s} (take_transfer t rest others e idle) v = record {
  in_order = append_assoc s.taken (t ∷ []) rest ∙ (rw e at v.in_order);
  workers = omega (arith, v.workers, idle, length-append s.holding (t ∷ []));
  permits = v.permits;
}
Step-Inv {n} {s} (wait t before after permits e some_left) v = record {
  in_order = v.in_order;
  workers = omega (
    arith,
    v.workers,
    ap length e,
    length-append before (t ∷ after),
    length-append before after,
    length-append s.serving (t ∷ []),
  );
  permits = omega (arith, v.permits, some_left, length-append s.serving (t ∷ []));
}
Step-Inv {n} {s} (signal t before after e) v =
    let shorter = length-remove s.serving before after t e in
    record {
      in_order = v.in_order;
      workers = omega (arith, v.workers, shorter);
      permits = omega (arith, v.permits, shorter);
    }
Step-Inv {n} {s} (yield_now others e) v = record {
  in_order = v.in_order;
  workers = omega (arith, v.workers, e);
  permits = v.permits;
}

Reach-Inv : {n : ℕ} {s : State} → Reach n s → Inv n s
Reach-Inv here = record { in_order = refl; workers = omega arith; permits = omega arith }
Reach-Inv (then_step reach step) = Step-Inv step (Reach-Inv reach)

-- A worker can go on, and none has to wait for another one: the next transfer is received or there
-- is no idle worker, and every worker that holds a transfer gets a permit.
abbrev pub IsUnblocked : State → Type 0
IsUnblocked s =
    (t : Transfer) (before after : List Transfer)
    → s.holding ≡ before ++ t ∷ after
    → (u : State) × Step s u × (length u.serving ≡ suc (length s.serving))

-- In every state that the workers can reach: the transfers are received in the order in which the
-- dispatch worker sent them, at most `max_clients` are served at once, every worker that has
-- received one gets a permit of the semaphore without waiting for another worker, and a transfer
-- that waits to be received can be received unless all workers are busy.
pub max_clients_served :
    (max_clients : ℕ) (s : State)
    → Reach max_clients s
    → (s.taken ++ s.for_clients ≡ s.arrived)
      × (length s.serving ≤ max_clients)
      × IsUnblocked s
      × ((t : Transfer) (rest : List Transfer)
          → s.for_clients ≡ t ∷ rest
          → ((u : State) × Step s u × (u.taken ≡ s.taken ++ t ∷ []))
            ⊎ (length s.holding + length s.serving + s.closing ≡ max_clients))
max_clients_served n s reach =
    let v = Reach-Inv reach in
    (
      v.in_order,
      omega (arith, v.permits),
      λ t before after e.
          let (permits, some_left) =
            predecessor s.multiplex_control (
              omega (arith, v.workers, v.permits, ap length e, length-append before (t ∷ after))) in
          (
            _,
            wait t before after permits e some_left,
            omega (arith, length-append s.serving (t ∷ [])),
          ),
      λ t rest e. elim (zero_or_suc s.idle) [
        | inl busy ↦ inr (omega (arith, v.workers, busy))
        | inr (others, idle) ↦ inl (_, take_transfer t rest others e idle, refl)
      ],
    )
