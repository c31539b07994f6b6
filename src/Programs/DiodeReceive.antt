-- ===== src/Programs/DiodeReceive.antt =====
-- src/bin/diode-receive.rs and src/bin/diode-oneshot-receive.rs. A command line is a record of what
-- clap makes of it; the logger, the semaphore, the sockets and the threads answer as the environment
-- chooses.
use lidi_4d8d19daa.Common.{
  ℕ, List, Option, none, some, Bool, Result, ok, err, panic, if◌then◌else◌, String, IoError,
}
use lidi_4d8d19daa.Extern.{Extern}
use lidi_4d8d19daa.Protocol
use lidi_4d8d19daa.Protocol.Raptorq.{RaptorQ, new}
use lidi_4d8d19daa.Receive.{Error}
use lidi_4d8d19daa.Receive.Start as Start
use lidi_4d8d19daa.Receive.Start.{Config, Receiver, Worker, start}
use lidi_4d8d19daa.Threads.{Progress}

pub record Clients : Type 0 where
  pub to_tcp : Option String
  pub to_unix : Option String

-- `Args` of diode-receive, without the log options.
pub record Args : Type 0 where
  pub from : String
  pub from_mtu : ℕ
  pub batch : Option ℕ
  pub reset_timeout : ℕ
  pub decode_threads : ℕ
  pub max_clients : ℕ
  pub flush : Bool
  pub abort_timeout : Option ℕ
  pub to : Clients
  pub block : ℕ
  pub repair : ℕ
  pub min_repair : ℕ
  pub heartbeat : Option ℕ
  pub cpu_affinity : Bool
  pub hash : Bool

pub data Client : Type 0 where
  tcp : String → Client
  unix : String → Client

-- `Client::try_from`, by what `connect` answers.
unfoldable pub try_from : Result IoError (Unit {0}) → Clients → Result IoError Client
try_from connected clients = elim clients.to_tcp [
  | some to_tcp ↦ elim connected [ ok done ↦ ok (tcp to_tcp) | err e ↦ err e | panic ↦ panic ]
  | none ↦ elim clients.to_unix [
    | some to_unix ↦ elim connected [ ok done ↦ ok (unix to_unix) | err e ↦ err e | panic ↦ panic ]
    | none ↦ panic
  ]
]

pub record Environment : Type 0 where
  pub logger : Bool
  pub semaphore : Bool
  pub core_ids : Option (List ℕ)
  pub spawned : ℕ → Option IoError

-- Why `main` returns before it starts a thread.
pub data Refusal : Type 0 where
  no_logger : Refusal
  bad_parameters : Protocol.Error → Refusal
  no_receiver : Error → Refusal

-- What becomes of `main`; `aborted` is a panic.
pub data Main (x : Extern) : Type 0 where
  refused : Refusal → Main x
  aborted : Main x
  started : Receiver x → Progress Worker → Main x

abbrev pub config : Args → Config
config args = record {
  from = args.from;
  from_mtu = args.from_mtu;
  batch_receive = args.batch;
  reset_timeout = args.reset_timeout;
  nb_decode_threads = args.decode_threads;
  max_clients = args.max_clients;
  flush = args.flush;
  abort_timeout = args.abort_timeout;
  heartbeat_interval = args.heartbeat;
  cpu_affinity = args.cpu_affinity;
  hash = args.hash;
}

module _ (x : Extern) where
  -- `main` after `RaptorQ::new`.
  unfoldable pub serve : Args → Environment → RaptorQ x → Main x
  serve args env raptorq = elim (Start.new x (config args) raptorq env.semaphore) [
    | err e ↦ refused (no_receiver e)
    | panic ↦ aborted
    | ok receiver ↦ started receiver (start receiver.config env.core_ids env.spawned)
  ]

  unfoldable pub main : Args → Environment → Main x
  unfolding serve
  main args env =
      let run : Main x = elim (new x args.from_mtu args.block args.repair args.min_repair) [
        | err e ↦ refused (bad_parameters e)
        | panic ↦ aborted
        | ok raptorq ↦ serve args env raptorq
      ] in
      if env.logger then run else refused no_logger
