-- ===== src/Sockets.antt =====
-- src/sock_utils.rs: the sizes of the kernel's socket buffers. What the system calls answer is the
-- environment's choice; the `try_from` of the size of a `c_int` cannot fail.
use lidi_4d8d19daa.Common.{ℕ, zero, suc, ◌*◌, ◌%◌, ◌^◌, Result, ok, err, IoError, failed}
use lidi_4d8d19daa.Udp.Receive.{Returned, minus_one, less, count}

-- `setsockopt_buffer_size`: the result 0 is a success.
unfoldable pub setsockopt_buffer_size : Returned → Result IoError (Unit {0})
setsockopt_buffer_size (count zero) = ok tt
setsockopt_buffer_size (count (suc n)) = err failed
setsockopt_buffer_size minus_one = err failed
setsockopt_buffer_size less = err failed

-- `getsockopt_buffer_size`, with the size that the kernel writes.
unfoldable pub getsockopt_buffer_size : Returned → ℕ → Result IoError ℕ
getsockopt_buffer_size (count zero) sz = ok sz
getsockopt_buffer_size (count (suc n)) sz = err failed
getsockopt_buffer_size minus_one sz = err failed
getsockopt_buffer_size less sz = err failed

-- A product of `i32`s, in two's complement.
abbrev pub mul_i32 : ℕ → ℕ → ℕ
mul_i32 a b = a * b % 2 ^ 32

-- What the kernel answers while a worker sets up its socket, in order.
pub record Setup : Type 0 where
  pub bound : Result IoError (Unit {0})
  pub blocking : Result IoError (Unit {0})
  pub set_result : Returned
  pub get_result : Returned
  pub get_size : ℕ
