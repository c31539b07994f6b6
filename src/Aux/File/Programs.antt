-- ===== src/Aux/File/Programs.antt =====
-- `send_file` and `send_files` of src/aux/file/send.rs, `receive_files` and the accept loops of
-- src/aux/file/receive.rs, and src/bin/diode-send-file.rs and src/bin/diode-receive-file.rs. What the
-- network and the file system answer is the environment's choice. The arguments are those after
-- parsing.
pub mod Received
use lidi_4d8d19daa.Common.{
  ℕ, suc, ◌+◌, List, [], ◌∷◌, Option, none, some, Bool, true, false, not, ◌&&◌, Result, ok, err,
  panic, ◌>>=◌, leb, ◌==◌, if◌then◌else◌, String, IoError,
}
use lidi_4d8d19daa.Common.Reader.{Wait}
use lidi_4d8d19daa.Aux.{DiodeSend, tcp, unix, DiodeReceive}
use lidi_4d8d19daa.Aux.File.{Library, Config, Error, failed, other}
use lidi_4d8d19daa.Aux.File.Send.{Source, Sent, waiting, done, stopped, send_file_aux}
use lidi_4d8d19daa.Aux.File.Receive as Receive
use lidi_4d8d19daa.Aux.File.Receive.{Directory, receive_file}

-- `file::Config<D>`: `config` has the fields that a transfer reads.
pub record FileConfig (D : Type 0) : Type 0 where
  pub diode : D
  pub config : Config
  pub max_files : ℕ

-- What is answered to the sending program at its `n`-th file.
pub record World : Type 0 where
  pub connect : ℕ → DiodeSend → Option IoError
  pub source : ℕ → String → Source
  pub reads : ℕ → List Wait

-- A connection that an accept loop gets: the stream that comes over it, how it can be read, and what
-- the output directory shows to its thread.
pub record Connection : Type 0 where
  pub directory : Directory
  pub reads : List Wait
  pub stream : List ℕ

pub data Ended : Type 0 where
  accepting : Ended
  returned : Ended
  broken : Error → Ended

pub record Accepted : Type 0 where
  pub received : List Receive.Received
  pub ended : Ended

module _ (lib : Library) where
  -- Both arms connect and call `send_file_aux`.
  unfoldable pub send_file : World → ℕ → FileConfig DiodeSend → String → Sent
  unfolding send_file_aux
  send_file w n c file = elim (w.connect n c.diode) [
    | some e ↦ record { bytes = []; progress = stopped (failed e) }
    | none ↦ send_file_aux lib c.config (w.source n file) (w.reads n)
  ]

  -- The streams, up to the first error.
  unfoldable pub send_files : World → ℕ → FileConfig DiodeSend → List String → List Sent
  unfolding send_file
  send_files w n c [] = []
  send_files w n c (file ∷ files) =
      let one : Sent = send_file w n c file in
      elim one.progress [
        | done total ↦ one ∷ send_files w (suc n) c files
        | waiting ↦ one ∷ []
        | stopped e ↦ one ∷ []
      ]

  -- `config.max_files != 0 && count >= config.max_files`
  abbrev pub is_over : ℕ → ℕ → Bool
  is_over max_files count = not (max_files == 0) && leb max_files count

  -- `receive_tcp_loop` and `receive_unix_loop`, over the answers of `accept`. The counter is raised
  -- before a client is accepted, and a transfer that fails is only logged.
  unfoldable pub accept_loop :
      FileConfig DiodeReceive → ℕ → List (Result IoError Connection) → Accepted
  unfolding receive_file
  accept_loop c count [] = record {
    received = [];
    ended = if is_over c.max_files count then returned else accepting;
  }
  accept_loop c count (ok client ∷ more) =
      let rest : Accepted = accept_loop c (count + 1) more in
      let one : Receive.Received =
        receive_file lib c.config client.directory client.reads client.stream in
      if is_over c.max_files count
      then record { received = []; ended = returned }
      else record rest { received = one ∷ rest.received }
  accept_loop c count (err e ∷ more) = record {
    received = [];
    ended = if is_over c.max_files count then returned else broken (failed e);
  }
  accept_loop c count (panic ∷ more) = record {
    received = [];
    ended = if is_over c.max_files count then returned else accepting;
  }

pub data Listener : Type 0 where
  unix_listener : String → Listener
  tcp_listener : String → Listener

-- What the system answers to `receive_files`: `is_dir`, `exists`, and the errors of binding and of
-- starting a thread.
pub record System : Type 0 where
  pub is_dir : Bool
  pub exists : String → Bool
  pub bind : Listener → Option IoError
  pub spawn : Listener → Option IoError

-- The threads that run an accept loop; the scope waits for them, also after an error.
pub record Listening : Type 0 where
  pub threads : List Listener
  pub result : Result Error (Unit {0})

-- Binding and starting the thread, and what follows.
unfoldable pub listen : System → Listener → Listening → Listening
listen sys l rest = elim (sys.bind l) [
  | some e ↦ record { threads = []; result = err (failed e) }
  | none ↦ elim (sys.spawn l) [
    | some e ↦ record { threads = []; result = err (failed e) }
    | none ↦ record rest { threads = l ∷ rest.threads }
  ]
]

unfoldable pub listen_tcp : System → Option String → Listening
unfolding listen
listen_tcp sys none = record { threads = []; result = ok tt }
listen_tcp sys (some from_tcp) =
    listen sys (tcp_listener from_tcp) (record { threads = []; result = ok tt })

unfoldable pub listen_unix : System → Option String → Listening → Listening
unfolding listen
listen_unix sys none rest = rest
listen_unix sys (some from_unix) rest =
    if sys.exists from_unix
    then record { threads = []; result = err (other "Unix socket path already exists") }
    else listen sys (unix_listener from_unix) rest

unfoldable pub receive_files : System → FileConfig DiodeReceive → Listening
unfolding listen_unix listen_tcp
receive_files sys c =
    if sys.is_dir
    then listen_unix sys c.diode.from_unix (listen_tcp sys c.diode.from_tcp)
    else record { threads = []; result = err (other "output_directory is not a directory") }

-- The arguments of diode-send-file and of diode-receive-file.
pub record SendArgs : Type 0 where
  pub to_tcp : Option String
  pub to_unix : Option String
  pub buffer_size : ℕ
  pub hash : Bool
  pub files : List String

pub record ReceiveArgs : Type 0 where
  pub from_tcp : Option String
  pub from_unix : Option String
  pub buffer_size : ℕ
  pub hash : Bool
  pub max_files : ℕ

-- `unreachable!()` when there is none: the parser asks for exactly one.
unfoldable pub destination : SendArgs → Result Error DiodeSend
destination args = elim args.to_tcp [
  | some to_tcp ↦ ok (tcp to_tcp)
  | none ↦ elim args.to_unix [ some to_unix ↦ ok (unix to_unix) | none ↦ panic ]
]

-- `main` of diode-send-file, by whether the logger could be set up.
unfoldable pub main_send : Library → World → Bool → SendArgs → Result Error (List Sent)
unfolding destination send_files
main_send lib w logger args =
    let send : DiodeSend → Result Error (List Sent) = λ diode. ok (
      send_files lib w 0
        (record {
          diode = diode;
          config = record { buffer_size = args.buffer_size; hash = args.hash };
          max_files = 0;
        })
        args.files) in
    if logger then destination args >>= send else ok []

abbrev pub receive_config : ReceiveArgs → FileConfig DiodeReceive
receive_config args = record {
  diode = record { from_tcp = args.from_tcp; from_unix = args.from_unix };
  config = record { buffer_size = args.buffer_size; hash = args.hash };
  max_files = args.max_files;
}

-- `main` of diode-receive-file, likewise; `none` without a logger.
unfoldable pub main_receive : System → Bool → ReceiveArgs → Option Listening
unfolding receive_files
main_receive sys logger args =
    if logger then some (receive_files sys (receive_config args)) else none
