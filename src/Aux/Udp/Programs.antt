-- ===== src/Aux/Udp/Programs.antt =====
-- `send` of src/aux/udp/send.rs, `receive` and the accept loops of src/aux/udp/receive.rs, and
-- src/bin/diode-send-udp.rs and src/bin/diode-receive-udp.rs. What the network answers is the
-- environment's choice.
pub mod Passed
pub mod Fuel
use lidi_4d8d19daa.Common.{
  ℕ, suc, List, [], ◌∷◌, Option, none, some, Bool, Result, ok, err, panic, ◌>>=◌, if◌then◌else◌,
  length, String, IoError,
}
use lidi_4d8d19daa.Aux.{DiodeSend, tcp, unix, DiodeReceive}
use lidi_4d8d19daa.Aux.Udp.{
  Sent, Status, stopped, running, panicked, Received, send_udp_aux, receive_udp,
}

-- `udp::Error`; `udp::protocol::Error` has only I/O errors.
pub data Error : Type 0 where
  io : IoError → Error
  diode : IoError → Error
  other : String → Error

-- `udp::Config<D>`
pub record UdpConfig (D : Type 0) : Type 0 where
  pub diode : D
  pub buffer_size : ℕ

-- What is answered to the sending program: to `connect`, to `bind` and to `recv_from`.
pub record World : Type 0 where
  pub connect : DiodeSend → Option IoError
  pub bind : Option IoError
  pub datagrams : List (Result IoError (List ℕ))

-- `send`: both arms connect and call `send_udp_aux`, which binds first.
unfoldable pub send : World → UdpConfig DiodeSend → Sent
unfolding send_udp_aux
send w c = elim (w.connect c.diode) [
  | some e ↦ record { bytes = []; error = some e }
  | none ↦ elim w.bind [
    | some e ↦ record { bytes = []; error = some e }
    | none ↦ send_udp_aux w.datagrams
  ]
]

-- A connection that an accept loop gets: the answer to `bind`, and the bytes that come over it until
-- it is closed.
pub record Connection : Type 0 where
  pub bind : Option IoError
  pub stream : List ℕ

-- `receive_udp`: a round reads 8 bytes at least, so the fuel is enough.
unfoldable pub receive_connection : ℕ → Connection → Received
unfolding receive_udp
receive_connection buffer_size client = elim client.bind [
  | some e ↦ record { datagrams = []; status = stopped e }
  | none ↦ receive_udp (suc (length client.stream)) buffer_size client.stream
]

pub data Ended : Type 0 where
  accepting : Ended
  broken : Error → Ended
  aborted : Ended

pub record Served : Type 0 where
  pub received : List Received
  pub ended : Ended

-- `match receive_udp(…)`: an error is only logged; a panic ends the program.
abbrev pub after_client : Received → Served → Served
after_client one rest = elim one.status [
  | stopped e ↦ record rest { received = one ∷ rest.received }
  | running ↦ record { received = one ∷ []; ended = accepting }
  | panicked ↦ record { received = one ∷ []; ended = aborted }
]

-- `receive_unix_loop` and `receive_tcp_loop`, over the answers of `accept`.
unfoldable pub accept_loop : ℕ → List (Result IoError Connection) → Served
unfolding receive_connection
accept_loop buffer_size [] = record { received = []; ended = accepting }
accept_loop buffer_size (ok client ∷ more) =
    after_client (receive_connection buffer_size client) (accept_loop buffer_size more)
accept_loop buffer_size (err e ∷ more) = record { received = []; ended = broken (io e) }
accept_loop buffer_size (panic ∷ more) = record { received = []; ended = aborted }

-- What the system answers to `receive`: `exists`, the errors of binding, and the clients of each
-- listener.
pub record System : Type 0 where
  pub exists : String → Bool
  pub bind_unix : String → Option IoError
  pub bind_tcp : String → Option IoError
  pub unix_clients : List (Result IoError Connection)
  pub tcp_clients : List (Result IoError Connection)

pub data Outcome : Type 0 where
  refused : Error → Outcome
  no_listener : Outcome
  served : Served → Outcome

unfoldable pub receive_tcp : System → ℕ → Option String → Outcome
unfolding accept_loop
receive_tcp sys buffer_size none = no_listener
receive_tcp sys buffer_size (some from_tcp) = elim (sys.bind_tcp from_tcp) [
  | some e ↦ refused (io e)
  | none ↦ served (accept_loop buffer_size sys.tcp_clients)
]

-- `receive`. The loop on the Unix socket never returns with success, so with a Unix socket there is
-- no TCP listener.
unfoldable pub receive : System → UdpConfig DiodeReceive → Outcome
unfolding receive_tcp
receive sys c = elim c.diode.from_unix [
  | none ↦ receive_tcp sys c.buffer_size c.diode.from_tcp
  | some from_unix ↦
      if sys.exists from_unix
      then refused (other "Unix socket path already exists")
      else elim (sys.bind_unix from_unix) [
        | some e ↦ refused (io e)
        | none ↦ served (accept_loop c.buffer_size sys.unix_clients)
      ]
]

-- The arguments of diode-send-udp and of diode-receive-udp; the addresses of the UDP sockets are
-- only passed to `bind` and `send_to`.
pub record SendArgs : Type 0 where
  pub to_tcp : Option String
  pub to_unix : Option String

pub record ReceiveArgs : Type 0 where
  pub from_tcp : Option String
  pub from_unix : Option String

-- `unreachable!()` when there is none: the parser asks for exactly one.
unfoldable pub destination : SendArgs → Result Error DiodeSend
destination args = elim args.to_tcp [
  | some to_tcp ↦ ok (tcp to_tcp)
  | none ↦ elim args.to_unix [ some to_unix ↦ ok (unix to_unix) | none ↦ panic ]
]

-- `u16::MAX as usize`
abbrev pub buffer_size : ℕ
buffer_size = 65535

-- `main` of diode-send-udp, by whether the logger could be set up; nothing is sent without it.
unfoldable pub main_send : World → Bool → SendArgs → Result Error (Option Sent)
unfolding destination send
main_send w logger args =
    let run : DiodeSend → Result Error (Option Sent) =
      λ diode. ok (some (send w (record { diode = diode; buffer_size = buffer_size }))) in
    if logger then destination args >>= run else ok none

-- `main` of diode-receive-udp, likewise.
unfoldable pub main_receive : System → Bool → ReceiveArgs → Option Outcome
unfolding receive
main_receive sys logger args =
    if logger
    then some (
        receive sys (record {
          diode = record { from_tcp = args.from_tcp; from_unix = args.from_unix };
          buffer_size = buffer_size;
        }))
    else none
