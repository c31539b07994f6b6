-- ===== src/Aux/Udp.antt =====
-- src/aux/udp: datagrams are carried over a stream of the diode, each behind a header with its
-- size. The stream accepts every write, and so does the socket of the receiving program.
pub mod RoundTrip
pub mod Programs
use lidi_4d8d19daa.Common.{
  ℕ, zero, suc, List, [], ◌∷◌, ◌++◌, Option, none, some, Result, ok, err, panic, ◌>>=◌, map_err,
  IoError, leb, if◌then◌else◌, length,
}
use lidi_4d8d19daa.Common.Bytes.{to_le_bytes, from_le_bytes}
use lidi_4d8d19daa.Aux.Stream.{read_exact}

-- `udp::protocol::Header`
pub record Header : Type 0 where
  pub size : ℕ

unfoldable pub serialize : Header → List ℕ
serialize h = to_le_bytes 8 h.size

unfoldable pub deserialize : List ℕ → Result IoError (Header × List ℕ)
deserialize stream = do
  (size, stream) ← read_exact 8 stream
  ok (record { size = from_le_bytes size }, stream)

pub record Sent : Type 0 where
  pub bytes : List ℕ  -- all that was written to the diode
  pub error : Option IoError  -- `none`: waiting for a datagram

-- `send_udp_aux`, over the answers of `recv_from`: what it put into the buffer, or its error.
unfoldable pub send_udp_aux : List (Result IoError (List ℕ)) → Sent
unfolding serialize
send_udp_aux [] = record { bytes = []; error = none }
send_udp_aux (ok datagram ∷ more) =
    let rest : Sent = send_udp_aux more in
    record rest {
      bytes = serialize (record { size = length datagram }) ++ (datagram ++ rest.bytes);
    }
send_udp_aux (err e ∷ more) = record { bytes = []; error = some e }
send_udp_aux (panic ∷ more) = record { bytes = []; error = none }

-- How `receive_udp` stands: `running` has no fuel left.
pub data Status : Type 0 where
  running : Status
  stopped : IoError → Status
  panicked : Status

pub record Received : Type 0 where
  pub datagrams : List (List ℕ)  -- all that was sent by `send_to`
  pub status : Status

-- One round: the header, then `&mut buffer[0..header.size]`, which panics past the buffer.
unfoldable pub receive_one : ℕ → List ℕ → Result IoError (List ℕ × List ℕ)
unfolding deserialize
receive_one buffer_size stream = do
  (header, stream) ← deserialize stream
  if leb header.size buffer_size then read_exact header.size stream else panic

unfoldable pub receive_udp : ℕ → ℕ → List ℕ → Received
unfolding receive_one
receive_udp zero buffer_size stream = record { datagrams = []; status = running }
receive_udp (suc fuel) buffer_size stream = elim (receive_one buffer_size stream) [
  | err e ↦ record { datagrams = []; status = stopped e }
  | panic ↦ record { datagrams = []; status = panicked }
  | ok (datagram, rest) ↦
      let more : Received = receive_udp fuel buffer_size rest in
      record more { datagrams = datagram ∷ more.datagrams }
]
