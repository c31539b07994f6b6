-- ===== src/Send/Servers.antt =====
-- src/send/server.rs and `new_client` and `stop` of src/send/mod.rs: the server workers,
-- `max_clients` of them, with a semaphore of as many permits, and the heartbeat worker. They are
-- interleaved in any order; a step is one access to shared state. `to_ordering` is all that was sent
-- to the ordering worker: when a send has to wait is in Send/Pipeline. A worker whose client gives
-- nothing more stays where it is and keeps its permit; so does one that panics, which in the release
-- profile ends the process.
pub mod Numbers
pub mod Sent
pub mod Order
pub mod Sized
pub mod Counts
pub mod Permits
use lidi_4d8d19daa.Common.{
  ℕ, zero, suc, ◌+◌, ◌<◌, ◌≡◌, List, [], ◌∷◌, ◌++◌, Option, none, some, Bool, true, ok, length,
}
use lidi_4d8d19daa.Extern.{Extern}
use lidi_4d8d19daa.Protocol.Raptorq.{RaptorQ}
use lidi_4d8d19daa.Protocol.Block.{Block, heartbeat, abort, new, new_client_id}
use lidi_4d8d19daa.Send.{Error}
use lidi_4d8d19daa.Send.Client.{
  Run, Status, waiting, finished, failed, panicked, emit, stop, start_client,
}
use lidi_4d8d19daa.Send.Server.{Incoming}

-- The blocks that a worker still has to send: inside `client::start`, or after the permit was given
-- back.
pub data Phase : Type 0 where
  serving : List Block → Phase
  closing : List Block → Phase
  over : Phase

pub record Client : Type 0 where
  pub client_id : ℕ
  pub incoming : Incoming
  pub phase : Phase

pub record State : Type 0 where
  pub asked : List (Option Incoming)  -- all that was sent to `to_server`; `none` is a stop
  pub for_server : List (Option Incoming)
  pub taken : List (Option Incoming)  -- all that was received, in order
  pub idle : ℕ  -- workers that are about to receive
  pub holding : List Incoming  -- of workers that wait for the semaphore
  pub multiplex_control : ℕ  -- the permits that are left
  pub admitted : List Incoming  -- of workers that have a permit and no client number yet
  pub counter : ℕ  -- `CLIENT_ID_COUNTER`
  pub clients : List Client  -- all that were given a number, in that order
  pub stopping : List ℕ  -- what is left to send by workers that were told to stop
  pub returned : ℕ  -- workers that returned after a stop
  pub gone : ℕ  -- workers that returned with an error
  pub to_ordering : List (Option Block)

abbrev pub init_state : ℕ → State
init_state max_clients = record {
  asked = [];
  for_server = [];
  taken = [];
  idle = max_clients;
  holding = [];
  multiplex_control = max_clients;
  admitted = [];
  counter = 0;
  clients = [];
  stopping = [];
  returned = 0;
  gone = 0;
  to_ordering = [];
}

module _ (x : Extern) (flush : Bool) (r : RaptorQ x) where
  abbrev pub run_of : ℕ → Incoming → Run
  run_of client_id client = start_client x flush r client_id client.reads client.stream

  -- What follows `client::start` when it has returned.
  abbrev pub close_run : ℕ → Status → Run
  close_run client_id (failed e) = emit (new x abort r client_id none) (stop finished)
  close_run client_id finished = stop finished
  close_run client_id waiting = stop finished
  close_run client_id panicked = stop finished

  -- `client::start` has returned.
  abbrev pub IsBack : Status → Type 0
  IsBack finished = Unit {0}
  IsBack (failed e) = Unit {0}
  IsBack waiting = ⊥
  IsBack panicked = ⊥

  abbrev pub status_of : Client → Status
  status_of c = (run_of c.client_id c.incoming).status

  -- `nb` is `nb_encode_threads`, and `beats` says whether there is a heartbeat interval.
  pub data Step (nb : ℕ) (beats : Bool) (s : State) : State → Type 0 where
    -- `new_client` and `stop`: the channel holds one message
    ask :
        (message : Option Incoming)
        → length s.for_server < 1
        → Step nb beats s (record s {
          asked = s.asked ++ message ∷ [];
          for_server = s.for_server ++ message ∷ [];
        })
    -- `sender.for_server.recv()?`
    take_client :
        (client : Incoming) (rest : List (Option Incoming)) (others : ℕ)
        → s.for_server ≡ some client ∷ rest
        → s.idle ≡ suc others
        → Step nb beats s (record s {
          for_server = rest;
          taken = s.taken ++ some client ∷ [];
          idle = others;
          holding = s.holding ++ client ∷ [];
        })
    take_stop :
        (rest : List (Option Incoming)) (others : ℕ)
        → s.for_server ≡ none ∷ rest
        → s.idle ≡ suc others
        → Step nb beats s (record s {
          for_server = rest;
          taken = s.taken ++ none ∷ [];
          idle = others;
          stopping = s.stopping ++ nb ∷ [];
        })
    send_stop :
        (left : ℕ) (before after : List ℕ)
        → s.stopping ≡ before ++ suc left ∷ after
        → Step nb beats s (record s {
          stopping = before ++ left ∷ after;
          to_ordering = s.to_ordering ++ none ∷ [];
        })
    return_stopped :
        (before after : List ℕ)
        → s.stopping ≡ before ++ zero ∷ after
        → Step nb beats s (record s { stopping = before ++ after; returned = s.returned + 1 })
    -- `sender.multiplex_control.wait()`
    wait :
        (client : Incoming) (before after : List Incoming) (permits : ℕ)
        → s.holding ≡ before ++ client ∷ after
        → s.multiplex_control ≡ suc permits
        → Step nb beats s (record s {
          holding = before ++ after;
          multiplex_control = permits;
          admitted = s.admitted ++ client ∷ [];
        })
    -- `let client_id = protocol::new_client_id();`, and `client::start` begins
    begin_client :
        (client : Incoming) (before after : List Incoming)
        → s.admitted ≡ before ++ client ∷ after
        → Step nb beats s (record s {
          admitted = before ++ after;
          counter = (new_client_id s.counter).1;
          clients =
              s.clients
              ++ record {
                client_id = (new_client_id s.counter).0;
                incoming = client;
                phase = serving (run_of (new_client_id s.counter).0 client).blocks;
              }
                ∷ [];
        })
    -- `sender.to_ordering.send(Some(…))` in `client::start`
    send_block :
        (c : Client) (b : Block) (left : List Block) (before after : List Client)
        → s.clients ≡ before ++ c ∷ after
        → c.phase ≡ serving (b ∷ left)
        → Step nb beats s (record s {
          clients = before ++ record c { phase = serving left } ∷ after;
          to_ordering = s.to_ordering ++ some b ∷ [];
        })
    -- `sender.multiplex_control.signal()`
    signal :
        (c : Client) (before after : List Client)
        → s.clients ≡ before ++ c ∷ after
        → c.phase ≡ serving []
        → IsBack (status_of c)
        → Step nb beats s (record s {
          multiplex_control = s.multiplex_control + 1;
          clients =
              before
              ++ record c { phase = closing (close_run c.client_id (status_of c)).blocks } ∷ after;
        })
    -- the abort block of a client that failed
    send_abort :
        (c : Client) (b : Block) (left : List Block) (before after : List Client)
        → s.clients ≡ before ++ c ∷ after
        → c.phase ≡ closing (b ∷ left)
        → Step nb beats s (record s {
          clients = before ++ record c { phase = closing left } ∷ after;
          to_ordering = s.to_ordering ++ some b ∷ [];
        })
    go_round :
        (c : Client) (before after : List Client)
        → s.clients ≡ before ++ c ∷ after
        → c.phase ≡ closing []
        → (close_run c.client_id (status_of c)).status ≡ finished
        → Step nb beats s
            (record s { idle = s.idle + 1; clients = before ++ record c { phase = over } ∷ after })
    -- the `?` of the abort block
    fail :
        (c : Client) (before after : List Client) (e : Error)
        → s.clients ≡ before ++ c ∷ after
        → c.phase ≡ closing []
        → (close_run c.client_id (status_of c)).status ≡ failed e
        → Step nb beats s
            (record s { gone = s.gone + 1; clients = before ++ record c { phase = over } ∷ after })
    -- the heartbeat worker
    beat :
        (b : Block)
        → beats ≡ true
        → new x heartbeat r 0 none ≡ ok b
        → Step nb beats s (record s { to_ordering = s.to_ordering ++ some b ∷ [] })

  pub data Reach (nb : ℕ) (beats : Bool) (max_clients : ℕ) : State → Type 0 where
    here : Reach nb beats max_clients (init_state max_clients)
    then_step :
        {s t : State}
        → Reach nb beats max_clients s
        → Step nb beats s t
        → Reach nb beats max_clients t
