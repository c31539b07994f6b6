-- ===== src/Receive/Udp.antt =====
-- src/receive/udp.rs: the worker that passes the datagrams of the diode link to the reblock worker.
-- The channel to the reblock worker cannot be disconnected, since `Receiver` holds both its ends.
pub mod Passed
use lidi_4d8d19daa.Common.{
  ℕ, ◌^◌, List, [], ◌∷◌, Option, Result, ok, err, panic, ◌>>=◌, map_err, IoError, ltb,
  if◌then◌else◌, String,
}
use lidi_4d8d19daa.Udp.{Datagrams}
use lidi_4d8d19daa.Udp.Receive.{Receive, Answer, new, recv}
use lidi_4d8d19daa.Sockets.{Setup, mul_i32, setsockopt_buffer_size, getsockopt_buffer_size}
use lidi_4d8d19daa.Receive.{Error, io, other}
use lidi_4d8d19daa.Receive.Reblock.{window_width}

-- `i32::try_from(nb_packets).map_err(…)`
unfoldable pub i32_try_from : ℕ → Result Error ℕ
i32_try_from nb_packets =
    if ltb nb_packets (2 ^ 31) then ok nb_packets else err (other "nb_packets")

-- The size of the receive buffer that the worker asks for.
unfoldable pub buffer_size : ℕ → ℕ → Result Error ℕ
unfolding i32_try_from
buffer_size nb_packets from_mtu = do
  packets ← i32_try_from nb_packets
  ok (mul_i32 (mul_i32 window_width packets) from_mtu)

-- Everything before the loop; a buffer that stays too small is only logged.
unfoldable pub set_up : ℕ → ℕ → Setup → Result Error (Unit {0})
unfolding buffer_size setsockopt_buffer_size getsockopt_buffer_size
set_up nb_packets from_mtu s = do
  bound ← map_err io s.bound
  blocking ← map_err io s.blocking
  size ← buffer_size nb_packets from_mtu
  set ← map_err io (setsockopt_buffer_size s.set_result)
  sock_buffer_size ← map_err io (getsockopt_buffer_size s.get_result s.get_size)
  ok tt

pub data Status : Type 0 where
  running : Status
  failed : Error → Status
  panicked : Status

-- What was sent to the reblock worker, and what became of the worker.
pub record Ran : Type 0 where
  pub passed : List Datagrams
  pub status : Status

unfoldable pub loop : Receive → List Answer → Ran
unfolding recv
loop udp [] = record { passed = []; status = running }
loop udp (a ∷ answers) =
    let rest : Ran = loop udp answers in
    elim (recv udp a) [
      | ok datagrams ↦ record { passed = datagrams ∷ rest.passed; status = rest.status }
      | err e ↦ record { passed = []; status = failed (io e) }
      | panic ↦ record { passed = []; status = panicked }
    ]

-- `start`, for the number of packets of a block and the MTU and the batch size of the configuration.
unfoldable pub start : ℕ → ℕ → Option ℕ → Setup → List Answer → Ran
unfolding set_up new loop
start nb_packets from_mtu batch_receive s answers = elim (set_up nb_packets from_mtu s) [
  | ok done ↦ loop (new from_mtu batch_receive) answers
  | err e ↦ record { passed = []; status = failed e }
  | panic ↦ record { passed = []; status = panicked }
]
