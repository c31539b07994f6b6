-- ===== src/Send/Server.antt =====
-- src/send/server.rs and src/send/heartbeat.rs: a server worker takes clients one after the other,
-- and the heartbeat worker sends blocks of its own. What they send goes to the ordering worker.
pub mod Cut
use lidi_4d8d19daa.Common.{
  ℕ, zero, suc, List, [], ◌∷◌, ◌++◌, Option, none, some, Bool, true, false, Result, ok, err, panic,
  map, replicate, String,
}
use lidi_4d8d19daa.Common.Reader.{Wait}
use lidi_4d8d19daa.Extern.{Extern}
use lidi_4d8d19daa.Protocol.Raptorq.{RaptorQ}
use lidi_4d8d19daa.Protocol.Block.{Block, heartbeat, abort, new, new_client_id}
use lidi_4d8d19daa.Send.{Error, other}
use lidi_4d8d19daa.Send.Client.{
  Run, Status, waiting, finished, failed, panicked, emit, stop, start_client,
}

-- A client's stream, with what its reads will give.
pub record Incoming : Type 0 where
  pub reads : List Wait
  pub stream : List ℕ

-- All that was sent to the ordering worker; `finished` is the return after a stop.
pub record Served : Type 0 where
  pub sent : List (Option Block)
  pub status : Status

module _ (x : Extern) (flush : Bool) (r : RaptorQ x) where
  -- One client: a worker that fails is followed by an abort block. The error is only logged.
  unfoldable pub serve_client : ℕ → Incoming → Run
  serve_client client_id client =
      let run : Run = start_client x flush r client_id client.reads client.stream in
      let aborted : Run = emit (new x abort r client_id none) (stop finished) in
      elim run.status [
        | waiting ↦ run
        | panicked ↦ run
        | finished ↦ run
        | failed e ↦ record { blocks = run.blocks ++ aborted.blocks; status = aborted.status }
      ]

  -- The loop, over what arrives for the worker: clients, or a stop. The counter of the client
  -- numbers is shared, but each number is taken by one access.
  unfoldable pub serve : ℕ → ℕ → List (Option Incoming) → Served
  unfolding serve_client
  serve nb_encode_threads counter [] = record { sent = []; status = waiting }
  serve nb_encode_threads counter (none ∷ arrivals) = record {
    sent = replicate nb_encode_threads none;
    status = finished;
  }
  serve nb_encode_threads counter (some client ∷ arrivals) =
      let (client_id, counter) = new_client_id counter in
      let run : Run = serve_client client_id client in
      let rest : Served = serve nb_encode_threads counter arrivals in
      elim run.status [
        | finished ↦ record { sent = map some run.blocks ++ rest.sent; status = rest.status }
        | waiting ↦ record { sent = map some run.blocks; status = waiting }
        | panicked ↦ record { sent = map some run.blocks; status = panicked }
        | failed e ↦ record { sent = map some run.blocks; status = failed e }
      ]

  -- The heartbeat worker for a number of its rounds; without an interval it fails at once.
  unfoldable pub beat : Bool → ℕ → Run
  beat false rounds = stop (failed (other "no heartbeat duration but heartbeat enabled"))
  beat true zero = stop waiting
  beat true (suc rounds) = emit (new x heartbeat r 0 none) (beat true rounds)
