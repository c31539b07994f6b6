-- ===== src/Receive/Clients.antt =====
-- src/receive/clients.rs: the workers that serve transfers, `max_clients` of them, with a semaphore
-- of as many permits. They are interleaved in any order; a step is one access to shared state. The
-- channel cannot be disconnected, since `Receiver` holds both its ends.
pub mod Permits
use lidi_4d8d19daa.Common.{ℕ, suc, ◌+◌, ◌≡◌, List, [], ◌∷◌, ◌++◌}

-- A transfer: the client's number and the queue of its blocks.
abbrev pub Transfer : Type 0
Transfer = ℕ × ℕ

pub record State : Type 0 where
  pub arrived : List Transfer  -- all that the dispatch worker ever sent to `to_clients`
  pub for_clients : List Transfer
  pub taken : List Transfer  -- all that was received, in order
  pub idle : ℕ  -- workers that are about to receive
  pub holding : List Transfer  -- of workers that wait for the semaphore
  pub multiplex_control : ℕ  -- the permits that are left
  pub serving : List Transfer  -- of workers inside `client::start`
  pub closing : ℕ  -- workers that have given their permit back

abbrev pub init_state : ℕ → State
init_state max_clients = record {
  arrived = [];
  for_clients = [];
  taken = [];
  idle = max_clients;
  holding = [];
  multiplex_control = max_clients;
  serving = [];
  closing = 0;
}

pub data Step (s : State) : State → Type 0 where
  arrive :
      (t : Transfer)
      → Step s (record s { arrived = s.arrived ++ t ∷ []; for_clients = s.for_clients ++ t ∷ [] })
  -- `receiver.for_clients.recv()?`
  take_transfer :
      (t : Transfer) (rest : List Transfer) (others : ℕ)
      → s.for_clients ≡ t ∷ rest
      → s.idle ≡ suc others
      → Step s (record s {
        for_clients = rest;
        taken = s.taken ++ t ∷ [];
        idle = others;
        holding = s.holding ++ t ∷ [];
      })
  -- `receiver.multiplex_control.wait()`
  wait :
      (t : Transfer) (before after : List Transfer) (permits : ℕ)
      → s.holding ≡ before ++ t ∷ after
      → s.multiplex_control ≡ suc permits
      → Step s (record s {
        holding = before ++ after;
        multiplex_control = permits;
        serving = s.serving ++ t ∷ [];
      })
  -- `client::start` returns, and `receiver.multiplex_control.signal()`
  signal :
      (t : Transfer) (before after : List Transfer)
      → s.serving ≡ before ++ t ∷ after
      → Step s (record s {
        multiplex_control = s.multiplex_control + 1;
        serving = before ++ after;
        closing = s.closing + 1;
      })
  -- the error is logged, and the worker goes round
  yield_now :
      (others : ℕ)
      → s.closing ≡ suc others
      → Step s (record s { idle = s.idle + 1; closing = others })

pub data Reach (max_clients : ℕ) : State → Type 0 where
  here : Reach max_clients (init_state max_clients)
  then_step : {s t : State} → Reach max_clients s → Step s t → Reach max_clients t
