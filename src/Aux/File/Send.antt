-- ===== src/Aux/File/Send.antt =====
-- src/aux/file/send.rs: a file is sent as a header, its content in buffers and a footer. The stream
-- of the diode accepts every write.
use lidi_4d8d19daa.Common.{
  ℕ, ◌+◌, ◌-◌, List, [], ◌∷◌, ◌++◌, Option, none, some, Bool, not, ltb, ◌==◌, if◌then◌else◌, length,
  take, drop, IoError,
}
use lidi_4d8d19daa.Common.Reader.{Wait, ready, fault, read_size}
use lidi_4d8d19daa.Aux.File.{Library, Config, Error, failed, other}
use lidi_4d8d19daa.Aux.File.Header.{serialize_header, serialize_footer}

-- `hasher.as_mut()`, for one of the hasher's operations.
abbrev pub on_hash {ℓ} : {A : Type ℓ} → (A → A) → Option A → Option A
on_hash f none = none
on_hash f (some h) = some (f h)

-- Where a transfer stands when the environment has made all its choices.
pub data Progress : Type 0 where
  waiting : Progress
  done : ℕ → Progress
  stopped : Error → Progress

pub record Sent : Type 0 where
  pub bytes : List ℕ
  pub progress : Progress

-- `diode.write_all(buffer)?`, and what follows it.
abbrev pub writes : List ℕ → Sent → Sent
writes bytes rest = record { bytes = bytes ++ rest.bytes; progress = rest.progress }

-- The file that is sent, as the file system shows it.
pub record Source : Type 0 where
  pub is_file : Bool
  pub open_error : Option IoError
  pub name : Option (List ℕ)  -- `file_name()`
  pub mode : ℕ
  pub metadata_length : ℕ
  pub content : List ℕ

module _ (lib : Library) (c : Config) where
  -- `hasher.as_mut().map_or(0, |hasher| hasher.finish_ext())`
  abbrev pub footer_hash : Option lib.Hash → ℕ
  footer_hash none = 0
  footer_hash (some h) = lib.finish h

  abbrev pub new_hasher : Option lib.Hash
  new_hasher = if c.hash then some lib.fresh else none

  -- The branch of the end of the file.
  unfoldable pub finish_send : List ℕ → Option lib.Hash → ℕ → Sent
  finish_send [] hasher total =
      writes (serialize_footer (record { hash = footer_hash hasher }))
        (record { bytes = []; progress = done total })
  finish_send (byte ∷ bytes) hasher total =
      let hasher : Option lib.Hash = on_hash (lib.write (byte ∷ bytes)) hasher in
      writes (byte ∷ bytes) (
        writes (serialize_footer (record { hash = footer_hash hasher }))
          (record { bytes = []; progress = done (total + length (byte ∷ bytes)) }))

  -- The loop: `filled` is `buffer[..cursor]`, `content` what is left of the file.
  unfoldable pub send_loop : List Wait → List ℕ → List ℕ → Option lib.Hash → ℕ → Sent
  unfolding finish_send
  send_loop [] content filled hasher total = record { bytes = []; progress = waiting }
  send_loop (fault e ∷ ws) content filled hasher total = record {
    bytes = [];
    progress = stopped (failed e);
  }
  send_loop (ready n ∷ ws) content filled hasher total =
      let size : ℕ = read_size (c.buffer_size - length filled) n in
      let got : List ℕ = take size content in
      let more : Sent = send_loop ws (drop size content) (filled ++ got) hasher total in
      let next : Sent = writes (filled ++ got) (
        send_loop ws (drop size content) [] (on_hash (lib.hash_vec (filled ++ got)) hasher)
          (total + c.buffer_size)) in
      if length got == 0
      then finish_send filled hasher total
      else if ltb (length filled + length got) c.buffer_size
      then more
      else next

  -- `send_file_aux`; the name is a `String`, so it must be UTF-8.
  unfoldable pub send_file_aux : Source → List Wait → Sent
  unfolding send_loop
  send_file_aux f ws =
      if not f.is_file
      then record { bytes = []; progress = stopped (other "not a file") }
      else elim f.open_error [
        | some e ↦ record { bytes = []; progress = stopped (failed e) }
        | none ↦ elim f.name [
          | none ↦ record { bytes = []; progress = stopped (other "unwrap of file_name failed") }
          | some name ↦
              if lib.is_utf8 name
              then writes
                  (serialize_header
                    (record { file_name = name; mode = f.mode; file_length = f.metadata_length }))
                  (send_loop ws f.content [] new_hasher 0)
              else record {
                bytes = [];
                progress = stopped (other "conversion from OsString to String failed");
              }
        ]
      ]
