-- ===== src/Protocol/Block.antt =====
-- `BlockType`, `new_client_id` and `Block` of src/protocol.rs. A `Vec<u8>` is a list of bytes; an
-- index or a slice out of range panics. `usize` has 64 bits.
pub mod Format
pub mod Owner
use lidi_4d8d19daa.Common.{
  ℕ, zero, suc, ◌+◌, ◌-◌, ◌*◌, ◌%◌, ◌^◌, List, [], ◌∷◌, ◌++◌, Option, none, some, Result, ok, err,
  panic, ◌>>=◌, ltb, leb, ◌==◌, if◌then◌else◌, length, take, drop, replicate, get_elem?,
}
use lidi_4d8d19daa.Common.Bytes.{to_le_bytes, from_le_bytes}
use lidi_4d8d19daa.Extern.{Extern}
use lidi_4d8d19daa.Protocol.{Error, other, invalid_block_type}
use lidi_4d8d19daa.Protocol.Raptorq.{RaptorQ}

pub data BlockType : Type 0 where
  heartbeat start chunk abort end : BlockType

abbrev pub id_heartbeat : ℕ
id_heartbeat = 0x00

abbrev pub id_start : ℕ
id_start = 0x01

abbrev pub id_data : ℕ
id_data = 0x02

abbrev pub id_abort : ℕ
id_abort = 0x03

abbrev pub id_end : ℕ
id_end = 0x04

-- `BlockType::serialized`; `chunk` is `BlockType::Data`.
unfoldable pub serialized_type : BlockType → ℕ
serialized_type heartbeat = id_heartbeat
serialized_type start = id_start
serialized_type chunk = id_data
serialized_type abort = id_abort
serialized_type end = id_end

-- `CLIENT_ID_COUNTER.fetch_add(1)`: the old value, and the counter that wraps.
unfoldable pub new_client_id : ℕ → ℕ × ℕ
new_client_id counter = (counter, (counter + 1) % 2 ^ 32)

pub record Block : Type 0 where
  pub content : List ℕ

abbrev pub serialize_overhead : ℕ
serialize_overhead = 4 + 1 + 4

-- Indexed writes from the front; a write past the end panics.
pub overwrite : List ℕ → List ℕ → Result Error (List ℕ)
overwrite xs [] = ok xs
overwrite [] (v ∷ vs) = panic
overwrite (x ∷ xs) (v ∷ vs) = do rest ← overwrite xs vs; ok (v ∷ rest)

unfoldable pub u32_try_from : ℕ → Result Error ℕ
u32_try_from n = if ltb n (2 ^ 32) then ok n else err (other "data.len()")

-- `Vec::resize(len, 0)` of a shorter vector.
abbrev pub pad_to : ℕ → List ℕ → List ℕ
pad_to len xs = xs ++ replicate (len - length xs) 0

unfoldable pub block_type : Block → Result Error BlockType
block_type b = elim (get_elem? b.content 4) [
  | none ↦ err (invalid_block_type none)
  | some t ↦
      if t == id_heartbeat
      then ok heartbeat
      else if t == id_start
      then ok start
      else if t == id_data
      then ok chunk
      else if t == id_abort
      then ok abort
      else if t == id_end
      then ok end
      else err (invalid_block_type (some t))
]

-- The four bytes from `at` on, as `[v[at], v[at + 1], v[at + 2], v[at + 3]]`.
abbrev pub word_at : ℕ → List ℕ → Result Error ℕ
word_at at xs = if leb (at + 4) (length xs) then ok (from_le_bytes (take 4 (drop at xs))) else panic

unfoldable pub client_id : Block → Result Error ℕ
client_id b = word_at 0 b.content

unfoldable pub payload_len : Block → Result Error ℕ
payload_len b = word_at 5 b.content

-- `&self.0[9..(9 + len)]`
unfoldable pub payload : Block → Result Error (List ℕ)
unfolding payload_len
payload b = do
  len ← payload_len b
  if leb (serialize_overhead + len) (length b.content)
      then ok (take len (drop serialize_overhead b.content))
      else panic

unfoldable pub deserialize : List ℕ → Block
deserialize bytes = record { content = bytes }

unfoldable pub serialized : Block → List ℕ
serialized b = b.content

module _ (x : Extern) where
  -- The header, written over the first five bytes, or in front of the data and the padding up to
  -- the capacity of the vector.
  unfoldable pub new : BlockType → RaptorQ x → ℕ → Option (List ℕ) → Result Error Block
  unfolding serialized_type u32_try_from overwrite
  new t r id none = do
    content ← overwrite (replicate r.transfer_length 0) (to_le_bytes 4 id ++ serialized_type t ∷ [])
    ok (record { content = content })
  new t r id (some bytes) = do
    len ← u32_try_from (length bytes)
    let content = to_le_bytes 4 id ++ serialized_type t ∷ (to_le_bytes 4 len ++ bytes)
    ok (record { content = pad_to (x.vec_capacity r.transfer_length (length content)) content })

  unfoldable pub max_data_len : RaptorQ x → ℕ
  max_data_len r = (r.transfer_length + 2 ^ 64 - serialize_overhead) % 2 ^ 64
