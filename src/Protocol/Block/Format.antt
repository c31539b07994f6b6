-- ===== src/Protocol/Block/Format.antt =====
-- The layout of a block: `Block::new` and the accessors.
use lidi_4d8d19daa.Common.{
  ℕ, suc, ◌+◌, ◌-◌, ◌^◌, ◌≤◌, ◌<◌, ◌≡◌, ◌↔◌, refl, ap, List, [], ◌∷◌, ◌++◌, none, some, ok, panic,
  leb, if◌then◌else◌, length, take, drop, replicate, get_elem?, arith, lt→ltb, le→leb,
  length-append, length-replicate, take-append,
}
use mathlib.Core.Path.{subst}
use lidi_4d8d19daa.Common.Bytes.{to_le_bytes, from_le_bytes, from_le_bytes-to_le_bytes}
use lidi_4d8d19daa.Extern.{Extern, ExternLaws}
use lidi_4d8d19daa.Protocol.Raptorq.{RaptorQ}
use lidi_4d8d19daa.Protocol.Block.{
  Block, BlockType, heartbeat, start, chunk, abort, end, serialized_type, block_type, client_id,
  payload, payload_len, new, max_data_len, overwrite, u32_try_from,
}

-- The header of a block, then its data and its padding.
abbrev layout : BlockType → ℕ → ℕ → List ℕ → List ℕ
layout t id len tail = to_le_bytes 4 id ++ serialized_type t ∷ (to_le_bytes 4 len ++ tail)

block_type-layout :
    (t : BlockType) (id len : ℕ) (tail : List ℕ)
    → block_type (record { content = layout t id len tail }) ≡ ok t
unfolding block_type serialized_type
block_type-layout heartbeat id len tail = refl
block_type-layout start id len tail = refl
block_type-layout chunk id len tail = refl
block_type-layout abort id len tail = refl
block_type-layout end id len tail = refl

client_id-layout :
    (t : BlockType) (id len : ℕ) (tail : List ℕ)
    → id < 2 ^ 32
    → client_id (record { content = layout t id len tail }) ≡ ok id
unfolding client_id
client_id-layout t id len tail h =
    rw (le→leb 4 (length (layout t id len tail)) (omega arith))
      (ap ok (from_le_bytes-to_le_bytes 4 id (omega arith)))

payload_len-layout :
    (t : BlockType) (id len : ℕ) (tail : List ℕ)
    → len < 2 ^ 32
    → payload_len (record { content = layout t id len tail }) ≡ ok len
unfolding payload_len
payload_len-layout t id len tail h =
    rw (le→leb 9 (length (layout t id len tail)) (omega arith))
      (ap ok (from_le_bytes-to_le_bytes 4 len (omega arith)))

payload-layout :
    (t : BlockType) (id : ℕ) (bytes padding : List ℕ)
    → length bytes < 2 ^ 32
    → payload (record { content = layout t id (length bytes) (bytes ++ padding) }) ≡ ok bytes
unfolding payload
payload-layout t id bytes padding h =
    rw (payload_len-layout t id (length bytes) (bytes ++ padding) h) (
      rw
        (le→leb (9 + length bytes) (length (layout t id (length bytes) (bytes ++ padding)))
          (omega (arith, length-append bytes padding)))
        (ap ok (take-append bytes padding)))

zeroed : ℕ → List ℕ
zeroed n = replicate n 0

overwrite-zeroed-suc :
    (t : BlockType) (id k : ℕ)
    → overwrite
        (zeroed (suc (suc (suc (suc (suc (suc (suc (suc (suc k))))))))))
        (to_le_bytes 4 id ++ serialized_type t ∷ [])
      ≡ ok (layout t id 0 (zeroed k))
unfolding overwrite zeroed
overwrite-zeroed-suc t id k = refl

overwrite-zeroed :
    (t : BlockType) (id n : ℕ)
    → 9 ≤ n
    → overwrite (zeroed n) (to_le_bytes 4 id ++ serialized_type t ∷ [])
      ≡ ok (layout t id 0 (zeroed (n - 9)))
overwrite-zeroed t id n h =
    subst
      (λ m.
        overwrite (zeroed m) (to_le_bytes 4 id ++ serialized_type t ∷ [])
        ≡ ok (layout t id 0 (zeroed (n - 9))))
      (omega arith) (overwrite-zeroed-suc t id (n - 9))

-- The length of a block before its padding.
abbrev framed : List ℕ → ℕ
framed bytes = suc (suc (suc (suc (suc (suc (suc (suc (suc (length bytes)))))))))

module _ (x : Extern) (t : BlockType) (r : RaptorQ x) (id : ℕ) where
  new-layout :
      (bytes : List ℕ)
      → length bytes < 2 ^ 32
      → new x t r id (some bytes)
        ≡ ok (record {
          content = layout t id (length bytes) (
              bytes
              ++ replicate (x.vec_capacity r.transfer_length (framed bytes) - framed bytes) 0);
        })
  unfolding new u32_try_from
  new-layout bytes h = rw (lt→ltb (length bytes) (2 ^ 32) h) refl

  -- A block with data is built for every payload below 4 GiB, and its type, client and payload are
  -- read back from it, whatever the padding.
  pub accessors-new :
      (bytes : List ℕ)
      → id < 2 ^ 32
      → length bytes < 2 ^ 32
      → (b : Block) × (new x t r id (some bytes) ≡ ok b)
        × (block_type b ≡ ok t)
        × (client_id b ≡ ok id)
        × (payload b ≡ ok bytes)
  accessors-new bytes hid h = (
    _,
    new-layout bytes h,
    block_type-layout t id (length bytes) _,
    client_id-layout t id (length bytes) _ hid,
    payload-layout t id bytes _ h,
  )

  new-none :
      9 ≤ r.transfer_length
      → new x t r id none
        ≡ ok (record { content = layout t id 0 (replicate (r.transfer_length - 9) 0) })
  unfolding new zeroed
  new-none h = rw (overwrite-zeroed t id r.transfer_length h)

  -- A block without data is built whenever the block size has room for the header; its payload is
  -- empty and it has exactly the block size.
  pub accessors-new-none :
      id < 2 ^ 32
      → 9 ≤ r.transfer_length
      → (b : Block) × (new x t r id none ≡ ok b)
        × (block_type b ≡ ok t)
        × (client_id b ≡ ok id)
        × (payload b ≡ ok [])
        × (length b.content ≡ r.transfer_length)
  accessors-new-none hid h = (
    record { content = layout t id 0 (replicate (r.transfer_length - 9) 0) },
    new-none h,
    block_type-layout t id 0 _,
    client_id-layout t id 0 _ hid,
    payload-layout t id [] _ (omega arith),
    omega (arith, length-replicate {0} {A = ℕ} (r.transfer_length - 9) 0),
  )

  pub length-new-none :
      9 ≤ r.transfer_length
      → (b : Block) × (new x t r id none ≡ ok b) × (length b.content ≡ r.transfer_length)
  length-new-none h = (
    record { content = layout t id 0 (replicate (r.transfer_length - 9) 0) },
    new-none h,
    omega (arith, length-replicate {0} {A = ℕ} (r.transfer_length - 9) 0),
  )

  -- Data up to `max_data_len` gives a block of exactly the size that RaptorQ encodes.
  pub length-new :
      ExternLaws x
      → (bytes : List ℕ) → r.transfer_length < 2 ^ 32
      → 9 ≤ r.transfer_length
      → length bytes ≤ max_data_len x r
      → (b : Block) × (new x t r id (some bytes) ≡ ok b) × (length b.content ≡ r.transfer_length)
  unfolding max_data_len
  length-new laws bytes small room h = (
    _,
    new-layout bytes (omega arith),
    omega (
      arith,
      laws.vec_capacity_exact r.transfer_length (framed bytes) (omega arith),
      length-append bytes
          (replicate (x.vec_capacity r.transfer_length (framed bytes) - framed bytes) 0),
      length-replicate {0} {A = ℕ} (x.vec_capacity r.transfer_length (framed bytes) - framed bytes)
          0,
    ),
  )

-- A block is of type `t` exactly if its fifth byte is the code of `t`: the codes are distinct and
-- every other byte is refused.
pub block_type_iff :
    (b : Block) (t : BlockType)
    → (block_type b ≡ ok t) ↔ (get_elem? b.content 4 ≡ some (serialized_type t))
unfolding block_type serialized_type
block_type_iff b heartbeat = ground arith
block_type_iff b start = ground arith
block_type_iff b chunk = ground arith
block_type_iff b abort = ground arith
block_type_iff b end = ground arith

-- Reading the payload panics exactly for a block that is shorter than its header and the length
-- that the header declares.
pub payload-panic :
    (b : Block)
    → (payload b ≡ panic) ↔ (
        length b.content
        < 9 + (if leb 9 (length b.content) then from_le_bytes (take 4 (drop 5 b.content)) else 0))
unfolding payload payload_len
payload-panic b = ground arith
