-- ===== src/Aux/File/Receive.antt =====
-- src/aux/file/receive.rs: a file is received from the stream of the diode into the output
-- directory. The output file accepts every write.
use lidi_4d8d19daa.Common.{
  ℕ, ◌+◌, ◌-◌, List, [], ◌∷◌, ◌++◌, Option, none, some, Bool, not, ok, err, panic, ltb, leb, ◌==◌,
  if◌then◌else◌, length, take, drop, IoError,
}
use lidi_4d8d19daa.Common.Reader.{Wait, ready, fault, read_size}
use lidi_4d8d19daa.Aux.File.{
  Library, Config, Error, failed, diode, other, invalid_file_size, invalid_hash,
}
use lidi_4d8d19daa.Aux.File.Header.{Header, deserialize_header, deserialize_footer}
use lidi_4d8d19daa.Aux.File.Send.{on_hash}

-- `panicked` is a Rust panic.
pub data Progress : Type 0 where
  waiting : Progress
  done : ℕ → Progress
  stopped : Error → Progress
  panicked : Progress

-- The name and the mode of the created file, if one was, and what was written to it.
pub record Received : Type 0 where
  pub created : Option (List ℕ × ℕ)
  pub written : List ℕ
  pub progress : Progress

abbrev pub stop : Progress → Received
stop p = record { created = none; written = []; progress = p }

-- `file.write_all(buffer)?`, and what follows it.
abbrev pub stores : List ℕ → Received → Received
stores bytes rest = record rest { written = bytes ++ rest.written }

-- What the file system answers about the output directory: `Path::file_name`, `Path::exists` and
-- the error of opening the file or of setting its mode.
pub record Directory : Type 0 where
  pub base_name : List ℕ → Option (List ℕ)
  pub occupied : List ℕ → Bool
  pub open_error : List ℕ → Option IoError

module _ (lib : Library) (c : Config) where
  -- The footer, the size and the hash are checked in this order.
  unfoldable pub check_footer : List ℕ → ℕ → ℕ → Option lib.Hash → Progress
  check_footer stream file_length remaining hasher =
      let received : ℕ = file_length - remaining in
      elim (deserialize_footer stream) [
        | err e ↦ stopped (diode e)
        | panic ↦ panicked
        | ok (footer, rest) ↦
            if not (remaining == 0)
            then stopped (diode (invalid_file_size file_length received))
            else elim hasher [
              | none ↦ done received
              | some h ↦
                  if footer.hash == lib.finish h
                  then done received
                  else stopped (diode (invalid_hash (lib.finish h) footer.hash))
            ]
      ]

  -- The branch of the end of the stream, or of a file that is complete.
  unfoldable pub finish_receive : List ℕ → List ℕ → ℕ → ℕ → Option lib.Hash → Received
  unfolding check_footer
  finish_receive stream [] file_length remaining hasher =
      stop (check_footer stream file_length remaining hasher)
  finish_receive stream (byte ∷ bytes) file_length remaining hasher =
      stores (byte ∷ bytes) (
        stop
          (check_footer stream file_length remaining (on_hash (lib.write (byte ∷ bytes)) hasher)))

  -- `end - cursor`, the part of the buffer that is read into.
  abbrev pub window : ℕ → ℕ → ℕ
  window cursor remaining =
      if leb (c.buffer_size - cursor) remaining
      then c.buffer_size - cursor
      else cursor + remaining - cursor

  -- The loop: `filled` is `buffer[..cursor]`.
  unfoldable pub receive_loop : List Wait → List ℕ → List ℕ → ℕ → ℕ → Option lib.Hash → Received
  unfolding finish_receive
  receive_loop [] stream filled file_length remaining hasher = stop waiting
  receive_loop (fault e ∷ ws) stream filled file_length remaining hasher = stop (stopped (failed e))
  receive_loop (ready n ∷ ws) stream filled file_length remaining hasher =
      let size : ℕ = read_size (window (length filled) remaining) n in
      let got : List ℕ = take size stream in
      let left : ℕ = remaining - length got in
      let more : Received =
        receive_loop ws (drop size stream) (filled ++ got) file_length left hasher in
      let next : Received = stores (filled ++ got) (
        receive_loop ws (drop size stream) [] file_length left
          (on_hash (lib.hash_vec (filled ++ got)) hasher)) in
      if length got == 0
      then finish_receive stream filled file_length remaining hasher
      else if ltb (length filled + length got) c.buffer_size
      then more
      else next

  abbrev pub new_hasher : Option lib.Hash
  new_hasher = if c.hash then some lib.fresh else none

  -- What follows the header: the file must be new in the directory.
  unfoldable pub receive_body : Directory → List Wait → Header → List ℕ → Received
  unfolding receive_loop
  receive_body dir ws header stream = elim (dir.base_name header.file_name) [
    | none ↦ stop (stopped (other "unwrap of file_name failed"))
    | some name ↦
        if dir.occupied name
        then stop (stopped (other "already exists"))
        else elim (dir.open_error name) [
          | some e ↦ stop (stopped (failed e))
          | none ↦
              record (receive_loop ws stream [] header.file_length header.file_length new_hasher) {
                created = some (name, header.mode);
              }
        ]
  ]

  unfoldable pub receive_file : Directory → List Wait → List ℕ → Received
  unfolding receive_body
  receive_file dir ws stream = elim (deserialize_header lib stream) [
    | err e ↦ stop (stopped (diode e))
    | panic ↦ stop panicked
    | ok (header, rest) ↦ receive_body dir ws header rest
  ]
