-- ===== src/Send/Udp.antt =====
-- src/send/udp.rs: the worker that sends the packets of the encoding workers on the diode link. The
-- channel that it receives from cannot be disconnected, since `Sender` holds both its ends.
pub mod Stopping
use lidi_4d8d19daa.Common.{
  ℕ, zero, suc, ◌+◌, ◌-◌, ◌%◌, ◌^◌, List, [], ◌∷◌, ◌++◌, Option, none, some, Result, ok, err, panic,
  ◌>>=◌, map_err, ltb, if◌then◌else◌,
}
use lidi_4d8d19daa.Extern.{Extern}
use lidi_4d8d19daa.Udp.Send.{SendM, Calls, done, waiting, stopped, panicked, new, send}
use lidi_4d8d19daa.Sockets.{Setup, mul_i32, setsockopt_buffer_size, getsockopt_buffer_size}
use lidi_4d8d19daa.Send.{Error, io, other}

-- The size of the send buffer that the worker asks for.
unfoldable pub buffer_size : ℕ → ℕ → Result Error ℕ
buffer_size nb_packets to_mtu =
    if ltb nb_packets (2 ^ 31) then ok (mul_i32 nb_packets to_mtu) else err (other "nb_packets")

-- Everything before the loop but `udp::Send::new`; a buffer that stays too small is only logged.
unfoldable pub set_up : ℕ → ℕ → Setup → Result Error (Unit {0})
unfolding buffer_size setsockopt_buffer_size getsockopt_buffer_size
set_up nb_packets to_mtu s = do
  bound ← map_err io s.bound
  blocking ← map_err io s.blocking
  size ← buffer_size nb_packets to_mtu
  set ← map_err io (setsockopt_buffer_size s.set_result)
  sock_buffer_size ← map_err io (getsockopt_buffer_size s.get_result s.get_size)
  ok tt

-- The worker waits for a message, waits in a call of the kernel, has returned or has panicked.
pub data Status : Type 0 where
  receiving : Status
  sending : Status
  returned : Status
  failed : Error → Status
  aborted : Status

-- The calls that were made, each with its datagrams, and what became of the worker.
pub record Ran : Type 0 where
  pub made : List (List (List ℕ))
  pub status : Status

module _ (x : Extern) where
  -- What the worker receives, with the kernel's answers to the calls that send it.
  abbrev pub Message : Type 0
  Message = Option (List x.Packet) × List (Option ℕ)

  -- `udp.send(packets)?`, and what follows it.
  unfoldable pub and_then : Calls → Ran → Ran
  and_then calls rest = elim calls.outcome [
    | done ↦ record { made = calls.made ++ rest.made; status = rest.status }
    | waiting ↦ record { made = calls.made; status = sending }
    | stopped e ↦ record { made = calls.made; status = failed (io e) }
    | panicked ↦ record { made = calls.made; status = aborted }
  ]

  -- `while 0 < count { … } return Ok(())`
  unfoldable pub drain : SendM → ℕ → List Message → Ran
  unfolding send and_then
  drain udp zero messages = record { made = []; status = returned }
  drain udp (suc count) [] = record { made = []; status = receiving }
  drain udp (suc count) ((some packets, answers) ∷ messages) =
      and_then (send x udp packets answers) (drain udp (suc count) messages)
  drain udp (suc count) ((none, answers) ∷ messages) = drain udp count messages

  -- The loop, for `nb_encode_threads`; `nb_encode_threads - 1` is an 8-bit difference.
  unfoldable pub loop : SendM → ℕ → List Message → Ran
  unfolding send and_then drain
  loop udp nb [] = record { made = []; status = receiving }
  loop udp nb ((some packets, answers) ∷ messages) =
      and_then (send x udp packets answers) (loop udp nb messages)
  loop udp nb ((none, answers) ∷ messages) = drain udp ((nb + 256 - 1) % 256) messages

  -- `start`, for the number of packets of a block and the configuration.
  unfoldable pub start : ℕ → ℕ → Option ℕ → ℕ → Setup → List Message → Ran
  unfolding set_up new loop
  start nb_packets to_mtu batch_send nb s messages = elim (set_up nb_packets to_mtu s) [
    | ok set ↦ loop (new batch_send) nb messages
    | err e ↦ record { made = []; status = failed e }
    | panic ↦ record { made = []; status = aborted }
  ]
