-- ===== src/Programs/Oneshot.antt =====
-- src/bin/diode-oneshot-send.rs and src/bin/diode-oneshot-receive.rs: one transfer, from the standard
-- input of one program to the standard output of the other.
pub mod Agreement
use lidi_4d8d19daa.Common.{
  ℕ, List, Option, none, some, Bool, true, false, ok, err, panic, if◌then◌else◌, String, IoError,
}
use lidi_4d8d19daa.Extern.{Extern}
use lidi_4d8d19daa.Protocol
use lidi_4d8d19daa.Protocol.Raptorq.{RaptorQ, new}
use lidi_4d8d19daa.Send
use lidi_4d8d19daa.Send.Start as SendStart
use lidi_4d8d19daa.Send.Start.{Sender, new_client, stop}
use lidi_4d8d19daa.Receive
use lidi_4d8d19daa.Receive.Start as ReceiveStart
use lidi_4d8d19daa.Receive.Start.{Receiver}
use lidi_4d8d19daa.Threads.{Progress}

-- `Args` of diode-oneshot-send, without the log level.
pub record SendArgs : Type 0 where
  pub encode_threads : ℕ
  pub flush : Bool
  pub to : String
  pub to_bind : String
  pub to_mtu : ℕ
  pub batch : Option ℕ
  pub block : ℕ
  pub repair : ℕ
  pub cpu_affinity : Bool
  pub hash : Bool

-- `Args` of diode-oneshot-receive, without the log level.
pub record ReceiveArgs : Type 0 where
  pub from : String
  pub from_mtu : ℕ
  pub batch : Option ℕ
  pub reset_timeout : ℕ
  pub decode_threads : ℕ
  pub flush : Bool
  pub abort_timeout : Option ℕ
  pub block : ℕ
  pub repair : ℕ
  pub min_repair : ℕ
  pub cpu_affinity : Bool
  pub hash : Bool

-- `queued` and `stop_queued`: whether the channel to the server worker takes the client and the stop
-- mark.
pub record Environment : Type 0 where
  pub logger : Bool → Bool  -- whether the logger is set up, by its flag `stderr_only`
  pub semaphore : Bool
  pub core_ids : Option (List ℕ)
  pub spawned : ℕ → Option IoError
  pub queued : Bool
  pub stop_queued : Bool

-- Why a `main` returns before it starts a thread.
pub data Refusal : Type 0 where
  no_logger : Refusal
  bad_parameters : Protocol.Error → Refusal
  no_sender : Send.Error → Refusal
  no_receiver : Receive.Error → Refusal

-- What the closure `client_new` of a receiver gives to write to.
pub data Output : Type 0 where
  stdout : Output

-- The closures of a receiver: what it writes to, and the code with which the process exits when a
-- client ends.
pub record Closures : Type 0 where
  pub client_new : Output
  pub client_end : Bool → ℕ

-- The threads of the sender, the code that it exits with at once, and whether the server worker is
-- told to stop.
pub data Main (x : Extern) : Type 0 where
  refused : Refusal → Main x
  aborted : Main x
  sending : Sender x → Progress SendStart.Worker → Option ℕ → Bool → Main x
  receiving : Receiver x → Closures → Progress ReceiveStart.Worker → Main x

abbrev pub send_config : SendArgs → SendStart.Config
send_config args = record {
  max_clients = 1;
  flush = args.flush;
  nb_encode_threads = args.encode_threads;
  heartbeat_interval = none;
  to = args.to;
  to_bind = args.to_bind;
  to_mtu = args.to_mtu;
  batch_send = args.batch;
  cpu_affinity = args.cpu_affinity;
  hash = args.hash;
}

abbrev pub receive_config : ReceiveArgs → ReceiveStart.Config
receive_config args = record {
  from = args.from;
  from_mtu = args.from_mtu;
  max_clients = 1;
  flush = args.flush;
  reset_timeout = args.reset_timeout;
  nb_decode_threads = args.decode_threads;
  abort_timeout = args.abort_timeout;
  heartbeat_interval = none;
  batch_receive = args.batch;
  cpu_affinity = args.cpu_affinity;
  hash = args.hash;
}

-- `|_, ok| { … }`: the code that the receiver exits with when its client ends.
unfoldable pub client_end : Bool → ℕ
client_end true = 0
client_end false = 1

module _ (x : Extern) where
  -- The `thread::scope` of diode-oneshot-send.
  unfoldable pub scope : Environment → Sender x → Main x
  unfolding new_client stop
  scope env sender =
      sending sender (SendStart.start sender.config env.core_ids env.spawned)
        (elim (new_client env.queued) [ ok done ↦ none | err e ↦ some 1 | panic ↦ none ])
        (elim (stop env.stop_queued) [ ok done ↦ true | err e ↦ false | panic ↦ false ])

  unfoldable pub serve_send : SendArgs → Environment → RaptorQ x → Main x
  unfolding scope
  serve_send args env raptorq = elim (SendStart.new x (send_config args) raptorq env.semaphore) [
    | err e ↦ refused (no_sender e)
    | panic ↦ aborted
    | ok sender ↦ scope env sender
  ]

  unfoldable pub main_send : SendArgs → Environment → Main x
  unfolding serve_send
  main_send args env =
      let run : Main x = elim (new x args.to_mtu args.block args.repair 0) [
        | err e ↦ refused (bad_parameters e)
        | panic ↦ aborted
        | ok raptorq ↦ serve_send args env raptorq
      ] in
      if env.logger false then run else refused no_logger

  unfoldable pub serve_receive : ReceiveArgs → Environment → RaptorQ x → Main x
  unfolding client_end
  serve_receive args env raptorq =
      elim (ReceiveStart.new x (receive_config args) raptorq env.semaphore) [
        | err e ↦ refused (no_receiver e)
        | panic ↦ aborted
        | ok receiver ↦
            receiving receiver (record { client_new = stdout; client_end = client_end })
              (ReceiveStart.start receiver.config env.core_ids env.spawned)
      ]

  unfoldable pub main_receive : ReceiveArgs → Environment → Main x
  unfolding serve_receive
  main_receive args env =
      let run : Main x = elim (new x args.from_mtu args.block args.repair args.min_repair) [
        | err e ↦ refused (bad_parameters e)
        | panic ↦ aborted
        | ok raptorq ↦ serve_receive args env raptorq
      ] in
      if env.logger true then run else refused no_logger
