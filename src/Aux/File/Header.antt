-- ===== src/Aux/File/Header.antt =====
-- `Header` and `Footer` of src/aux/file/protocol.rs.
use lidi_4d8d19daa.Common.{
  ℕ, ◌^◌, ◌<◌, ◌≡◌, List, ◌++◌, true, Result, ok, err, panic, ◌>>=◌, map_err, leb, if◌then◌else◌,
  length, append_assoc, arith, lt→leb,
}
use lidi_4d8d19daa.Common.Bytes.{to_le_bytes, from_le_bytes, from_le_bytes-to_le_bytes}
use lidi_4d8d19daa.Aux.Stream.{read_exact, read_exact-append}
use lidi_4d8d19daa.Aux.File.{ProtocolError, io, string_format, Library}

pub record Header : Type 0 where
  pub file_name : List ℕ
  pub mode : ℕ
  pub file_length : ℕ

pub record Footer : Type 0 where
  pub hash : ℕ

unfoldable pub serialize_header : Header → List ℕ
serialize_header h =
    to_le_bytes 8 (length h.file_name)
    ++ (h.file_name ++ (to_le_bytes 4 h.mode ++ to_le_bytes 8 h.file_length))

unfoldable pub serialize_footer : Footer → List ℕ
serialize_footer f = to_le_bytes 16 f.hash

-- A name of more than `isize::MAX` bytes panics when its buffer is allocated.
unfoldable pub deserialize_header : Library → List ℕ → Result ProtocolError (Header × List ℕ)
deserialize_header lib stream = do
  (file_name_len, stream) ← map_err io (read_exact 8 stream)
  let len = from_le_bytes file_name_len
  (file_name, stream) ← if leb (2 ^ 63) len then panic else map_err io (read_exact len stream)
  (mode, stream) ←
      if lib.is_utf8 file_name then map_err io (read_exact 4 stream) else err string_format
  (file_length, stream) ← map_err io (read_exact 8 stream)
  ok (
    record {
      file_name = file_name;
      mode = from_le_bytes mode;
      file_length = from_le_bytes file_length;
    },
    stream,
  )

unfoldable pub deserialize_footer : List ℕ → Result ProtocolError (Footer × List ℕ)
deserialize_footer stream = do
  (hash, stream) ← map_err io (read_exact 16 stream)
  ok (record { hash = from_le_bytes hash }, stream)

-- The values that the fields of a header can hold, with a name that is valid UTF-8.
pub record IsHeader (lib : Library) (h : Header) : Type 0 where
  pub named : lib.is_utf8 h.file_name ≡ true
  pub short_name : length h.file_name < 2 ^ 63
  pub mode_fits : h.mode < 2 ^ 32
  pub length_fits : h.file_length < 2 ^ 64

-- A written header is read back, and what follows it is left in the stream.
pub deserialize_header-serialize_header :
    (lib : Library) (h : Header) (rest : List ℕ)
    → IsHeader lib h
    → deserialize_header lib (serialize_header h ++ rest) ≡ ok (h, rest)
unfolding deserialize_header serialize_header
deserialize_header-serialize_header lib h rest v = simp append_assoc (
    rw (
      read_exact-append (to_le_bytes 8 (length h.file_name)),
      from_le_bytes-to_le_bytes 8 (length h.file_name) (let k = v.short_name in omega arith),
      lt→leb (2 ^ 63) (length h.file_name) v.short_name,
      read_exact-append h.file_name,
      v.named,
      read_exact-append (to_le_bytes 4 h.mode),
      read_exact-append (to_le_bytes 8 h.file_length),
      from_le_bytes-to_le_bytes 4 h.mode (let k = v.mode_fits in omega arith),
      from_le_bytes-to_le_bytes 8 h.file_length (let k = v.length_fits in omega arith),
    ))

-- A written footer with a hash of 128 bits is read back, and what follows it is left in the stream.
pub deserialize_footer-serialize_footer :
    (hash : ℕ) (rest : List ℕ)
    → hash < 2 ^ 128
    → deserialize_footer (serialize_footer (record { hash = hash }) ++ rest)
      ≡ ok (record { hash = hash }, rest)
unfolding deserialize_footer serialize_footer
deserialize_footer-serialize_footer hash rest h =
    rw (read_exact-append (to_le_bytes 16 hash), from_le_bytes-to_le_bytes 16 hash (omega arith))
