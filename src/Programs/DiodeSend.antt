-- ===== src/Programs/DiodeSend.antt =====
-- src/bin/diode-send.rs and src/bin/diode-oneshot-send.rs. A command line is a record of what clap
-- makes of it; the logger, the listeners and the threads of the listeners answer as the environment
-- chooses.
use lidi_4d8d19daa.Common.{
  ℕ, List, [], ◌∷◌, ◌++◌, Option, none, some, Bool, Result, ok, err, panic, if◌then◌else◌, String,
  IoError,
}
use lidi_4d8d19daa.Extern.{Extern}
use lidi_4d8d19daa.Protocol
use lidi_4d8d19daa.Protocol.Raptorq.{RaptorQ, new}
use lidi_4d8d19daa.Send.{Error}
use lidi_4d8d19daa.Send.Start as Start
use lidi_4d8d19daa.Send.Start.{Config, Sender, Worker, new_client, start}
use lidi_4d8d19daa.Threads.{Progress}

pub record Listeners : Type 0 where
  pub from_tcp : Option String
  pub from_unix : Option String

-- `Args` of diode-send, without the log options.
pub record Args : Type 0 where
  pub from : Listeners
  pub max_clients : ℕ
  pub encode_threads : ℕ
  pub heartbeat : Option ℕ
  pub flush : Bool
  pub to : String
  pub to_bind : String
  pub to_mtu : ℕ
  pub batch : Option ℕ
  pub block : ℕ
  pub repair : ℕ
  pub cpu_affinity : Bool
  pub hash : Bool

pub data Client (S : Type 0) : Type 0 where
  tcp : S → Client S
  unix : S → Client S

-- What the environment answers, in the order of the calls; `true` is a success.
pub record Environment : Type 0 where
  pub logger : Bool
  pub semaphore : Bool
  pub tcp_bound : Bool
  pub unix_exists : Bool
  pub unix_bound : Bool
  pub tcp_spawned : Bool
  pub unix_spawned : Bool
  pub core_ids : Option (List ℕ)
  pub spawned : ℕ → Option IoError

-- Why `main` returns before it starts a thread.
pub data Refusal : Type 0 where
  no_logger : Refusal
  bad_parameters : Protocol.Error → Refusal
  no_sender : Error → Refusal
  not_bound : Refusal
  already_exists : Refusal

-- What becomes of `main`; `aborted` is a panic.
pub data Main (x : Extern) : Type 0 where
  refused : Refusal → Main x
  aborted : Main x
  started : Sender x → List String → Progress Worker → Main x

-- `tcp_listener` and `unix_listener`: the address to listen at, or why not.
unfoldable pub tcp_listener : Environment → Option String → Result Refusal (Option String)
tcp_listener env none = ok none
tcp_listener env (some from_tcp) = if env.tcp_bound then ok (some from_tcp) else err not_bound

unfoldable pub unix_listener : Environment → Option String → Result Refusal (Option String)
unix_listener env none = ok none
unix_listener env (some from_unix) =
    if env.unix_exists
    then err already_exists
    else if env.unix_bound
    then ok (some from_unix)
    else err not_bound

-- `.expect("thread spawn")` for a listener that there is.
unfoldable pub spawn_listener : Bool → Option String → Option (List String)
spawn_listener spawned none = some []
spawn_listener spawned (some address) = if spawned then some (address ∷ []) else none

abbrev pub config : Args → Config
config args = record {
  max_clients = args.max_clients;
  flush = args.flush;
  nb_encode_threads = args.encode_threads;
  heartbeat_interval = args.heartbeat;
  to = args.to;
  to_bind = args.to_bind;
  to_mtu = args.to_mtu;
  batch_send = args.batch;
  cpu_affinity = args.cpu_affinity;
  hash = args.hash;
}

module _ (x : Extern) where
  -- The `thread::scope` of `main`.
  unfoldable pub scope : Environment → Sender x → Option String → Option String → Main x
  unfolding spawn_listener
  scope env sender tcp_address unix_address = elim (spawn_listener env.tcp_spawned tcp_address) [
    | none ↦ aborted
    | some tcp_server ↦ elim (spawn_listener env.unix_spawned unix_address) [
      | none ↦ aborted
      | some unix_server ↦
          started sender (tcp_server ++ unix_server) (start sender.config env.core_ids env.spawned)
    ]
  ]

  -- `main` after `RaptorQ::new`.
  unfoldable pub serve : Args → Environment → RaptorQ x → Main x
  unfolding tcp_listener unix_listener scope
  serve args env raptorq = elim (Start.new x (config args) raptorq env.semaphore) [
    | err e ↦ refused (no_sender e)
    | panic ↦ aborted
    | ok sender ↦ elim (tcp_listener env args.from.from_tcp) [
      | err e ↦ refused e
      | panic ↦ aborted
      | ok tcp_address ↦ elim (unix_listener env args.from.from_unix) [
        | err e ↦ refused e
        | panic ↦ aborted
        | ok unix_address ↦ scope env sender tcp_address unix_address
      ]
    ]
  ]

  unfoldable pub main : Args → Environment → Main x
  unfolding serve
  main args env =
      let run : Main x = elim (new x args.to_mtu args.block args.repair 0) [
        | err e ↦ refused (bad_parameters e)
        | panic ↦ aborted
        | ok raptorq ↦ serve args env raptorq
      ] in
      if env.logger then run else refused no_logger

-- The loops over `listener.incoming()`: each item is an error of `accept`, or a client with whether
-- it could be queued. What is left are the clients that were queued.
module _ {S : Type 0} (client : S → Client S) where
  unfoldable pub listener_loop : List (Option (S × Bool)) → List (Client S)
  unfolding new_client
  listener_loop [] = []
  listener_loop (none ∷ incoming) = []
  listener_loop (some (socket, queued) ∷ incoming) =
      let rest : List (Client S) = listener_loop incoming in
      elim (new_client queued) [ ok done ↦ client socket ∷ rest | err e ↦ rest | panic ↦ [] ]
