-- ===== src/Udp/Receive.antt =====
-- `Receive` of src/udp.rs: datagrams are received one by one with `recvmsg`, or in batches with
-- `recvmmsg`. What the kernel answers and leaves in the buffers is the environment's choice.
pub mod Batches
use lidi_4d8d19daa.Common.{
  ℕ, List, [], ◌∷◌, Option, none, some, Result, ok, err, panic, ◌>>=◌, IoError, failed,
  invalid_data, leb, ◌==◌, if◌then◌else◌, length, take,
}
use lidi_4d8d19daa.Udp.{Datagrams, single, multiple}

-- The result of a system call, an `int` or `ssize_t`.
pub data Returned : Type 0 where
  minus_one : Returned
  less : Returned
  count : ℕ → Returned

-- `ReceiveMsg` and `ReceiveMmsg`, by the sizes of their buffers.
pub data Receive : Type 0 where
  msg : (udp_packet_size : ℕ) → Receive
  mmsg : (udp_packet_size : ℕ) → (batch_size : ℕ) → Receive

-- `Receive::new`: `None | Some(1)` and `Some(n)`.
unfoldable pub new : ℕ → Option ℕ → Receive
new udp_packet_size none = msg udp_packet_size
new udp_packet_size (some n) = if n == 1 then msg udp_packet_size else mmsg udp_packet_size n

-- What a call leaves: its result, and each entry's `msg_len` and buffer. `recvmsg` has one entry,
-- whose `msg_len` is not used.
pub record Answer : Type 0 where
  pub returned : Returned
  pub entries : List (ℕ × List ℕ)

-- `buffer[0..len].to_vec()`
abbrev pub slice : ℕ → List ℕ → Result IoError (List ℕ)
slice len buffer = if leb len (length buffer) then ok (take len buffer) else panic

-- `ReceiveMsg::recv`
unfoldable pub recv_msg : Returned → List (ℕ × List ℕ) → Result IoError Datagrams
recv_msg minus_one entries = err failed
recv_msg less entries = err failed
recv_msg (count size) [] = panic
recv_msg (count size) ((msg_len, buffer) ∷ entries) = slice size buffer >>= λ d. ok (single d)

-- The `try_fold` over `buffers[0..nb_msg]`.
unfoldable pub slices : List (ℕ × List ℕ) → Result IoError (List (List ℕ))
slices [] = ok []
slices ((msg_len, buffer) ∷ entries) = do
  datagram ← slice msg_len buffer
  rest ← slices entries
  ok (datagram ∷ rest)

-- `ReceiveMmsg::recv`
unfoldable pub recv_mmsg : Returned → List (ℕ × List ℕ) → Result IoError Datagrams
unfolding slices
recv_mmsg minus_one entries = err failed
recv_mmsg less entries = err invalid_data
recv_mmsg (count nb_msg) entries =
    let received = slices (take nb_msg entries) >>= (λ buffers. ok (multiple buffers)) in
    if leb nb_msg (length entries) then received else panic

-- `Receive::recv`
unfoldable pub recv : Receive → Answer → Result IoError Datagrams
unfolding recv_msg recv_mmsg
recv (msg size) a = recv_msg a.returned a.entries
recv (mmsg size batch) a = recv_mmsg a.returned a.entries
