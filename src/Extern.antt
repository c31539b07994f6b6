-- ===== src/Extern.antt =====
-- What the program calls and does not implement: the raptorq crate and the allocator.
-- A packet is opaque; a block number and a byte are natural numbers below 256.
use lidi_4d8d19daa.Common.{
  ℕ, ◌*◌, ◌≤◌, ◌<◌, ◌≡◌, Option, some, Bool, true, List, ◌++◌, length, take, All,
}

pub record Extern : Type 1 where
  -- `raptorq::EncodingPacket`, `SourceBlockEncodingPlan`, `ObjectTransmissionInformation`
  pub Packet : Type 0
  pub Plan : Type 0
  pub Oti : Type 0
  -- `SourceBlockEncodingPlan::generate(symbol_count)`
  -- It panics where `generates` is false: on more symbols than RFC 6330 has in a block.
  pub generates : ℕ → Bool
  pub generate : ℕ → Plan
  -- `ObjectTransmissionInformation::with_defaults(transfer_length, max_packet_size)`
  -- It panics where `accepts_defaults` is false: on sizes that no symbols fit.
  pub accepts_defaults : ℕ → ℕ → Bool
  pub with_defaults : ℕ → ℕ → Oti
  pub symbol_size : Oti → ℕ
  -- `SourceBlockEncoder::with_encoding_plan(id, config, data, plan)`, then `source_packets()` or
  -- `repair_packets(start, count)`
  pub source_packets : ℕ → Oti → List ℕ → Plan → List Packet
  pub repair_packets : ℕ → Oti → List ℕ → Plan → ℕ → ℕ → List Packet
  -- `SourceBlockDecoder::new(id, config, length).decode(packets)`
  pub decode_packets : ℕ → Oti → ℕ → List Packet → Option (List ℕ)
  pub source_block_number : Packet → ℕ
  pub serialize_packet : Packet → List ℕ
  -- `EncodingPacket::deserialize(bytes)` panics where `deserializes` is false: on fewer bytes than
  -- the header of a packet has.
  pub deserializes : List ℕ → Bool
  pub deserialize_packet : List ℕ → Packet
  -- The capacity of a `Vec<u8>` made by `with_capacity(c)` once it holds `n` bytes.
  pub vec_capacity : ℕ → ℕ → ℕ

-- What the documentation of raptorq promises, and the capacity that the allocator gives.
pub record ExternLaws (x : Extern) : Type 0 where
  pub deserialize-serialize : (p : x.Packet) → x.deserialize_packet (x.serialize_packet p) ≡ p
  pub deserializes-serialize : (p : x.Packet) → x.deserializes (x.serialize_packet p) ≡ true
  -- a `u8`
  pub number-lt : (p : x.Packet) → x.source_block_number p < 256
  pub source_number :
      (id : ℕ) (c : x.Oti) (bytes : List ℕ) (plan : x.Plan)
      → id < 256
      → All (λ p. x.source_block_number p ≡ id) (x.source_packets id c bytes plan)
  pub repair_number :
      (id : ℕ) (c : x.Oti) (bytes : List ℕ) (plan : x.Plan) (start count : ℕ)
      → id < 256
      → All (λ p. x.source_block_number p ≡ id) (x.repair_packets id c bytes plan start count)
  pub length-repair :
      (id : ℕ) (c : x.Oti) (bytes : List ℕ) (plan : x.Plan) (start count : ℕ)
      → length (x.repair_packets id c bytes plan start count) ≡ count
  -- One source packet for each symbol of the block.
  pub length-source :
      (id size count : ℕ) (bytes : List ℕ)
      → 0 < size
      → length bytes ≡ size * count
      → length (x.source_packets id (x.with_defaults (size * count) size) bytes (x.generate count))
        ≡ count
  -- A block decodes from its source packets, with repair packets or without.
  pub decode-source :
      (id size count start repairs kept : ℕ) (bytes : List ℕ)
      → length bytes ≡ size * count
      → (let c = x.with_defaults (size * count) size in
          let plan = x.generate count in
          x.decode_packets id c (size * count) (
            x.source_packets id c bytes plan
            ++ take kept (x.repair_packets id c bytes plan start repairs))
          ≡ some bytes)
  pub vec_capacity_exact : (c n : ℕ) → n ≤ c → x.vec_capacity c n ≡ c
