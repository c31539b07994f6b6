-- ===== src/Tests/Blocks.antt =====
-- The parameters of the default configuration, and small blocks.
use lidi_4d8d19daa.Common.{
  ℕ, ◌<◌, ◌≡◌, All, length, refl, List, [], ◌∷◌, some, ok, take, arith, replicate,
}
use lidi_4d8d19daa.Protocol.{u16_try_from}
use lidi_4d8d19daa.Protocol.Raptorq
use lidi_4d8d19daa.Protocol.Raptorq.{
  RaptorQ, packet_size, repair_count, min_nb_packets, nb_packets, encode, decode,
}
use lidi_4d8d19daa.Protocol.Raptorq.Sizes.{IsSized, new-IsSized, min_nb_packets_wraps}
use lidi_4d8d19daa.Protocol.Raptorq.Coding.{take-encode}
use lidi_4d8d19daa.Protocol.Block.{Block, chunk, block_type, client_id, payload, new}
use lidi_4d8d19daa.Protocol.Block.Format.{accessors-new}
use lidi_4d8d19daa.Tests.Toy.{toy, toy_laws}

-- MTU 1500, 734928 bytes, 2 percent and 1 percent.
abbrev default_receiver : RaptorQ toy
default_receiver = record {
  max_packet_size = 1464;
  symbol_count = 502;
  transfer_length = 734928;
  plan = 502;
  config = 1464;
  nb_repair_packets = 10;
  min_nb_repair_packets = 5;
}

abbrev default_sender : RaptorQ toy
default_sender = record default_receiver { min_nb_repair_packets = 0 }

default_receiver-new : Raptorq.new toy 1500 734928 2 1 ≡ ok default_receiver
unfolding Raptorq.new packet_size repair_count u16_try_from
default_receiver-new = refl

default_sender-new : Raptorq.new toy 1500 734928 2 0 ≡ ok default_sender
unfolding Raptorq.new packet_size repair_count u16_try_from
default_sender-new = refl

-- MTU 40 and a block of 56403 symbols.
abbrev wide_receiver : RaptorQ toy
wide_receiver = record {
  max_packet_size = 8;
  symbol_count = 56403;
  transfer_length = 451224;
  plan = 56403;
  config = 8;
  nb_repair_packets = 9588;
  min_nb_repair_packets = 9588;
}

wide_receiver-new : Raptorq.new toy 40 451224 17 17 ≡ ok wide_receiver
unfolding Raptorq.new packet_size repair_count u16_try_from
wide_receiver-new = refl

new-IsSized_example : IsSized toy default_receiver 734928
new-IsSized_example =
    new-IsSized toy 1500 734928 2 1 default_receiver (omega arith) default_receiver-new

min_nb_packets_wraps_example : min_nb_packets toy wide_receiver < 56403
min_nb_packets_wraps_example =
    min_nb_packets_wraps toy 40 451224 17 17 wide_receiver (omega arith) wide_receiver-new
      (omega arith)

-- Blocks of 4 packets of 16 bytes.
abbrev small : RaptorQ toy
small = record {
  max_packet_size = 16;
  symbol_count = 4;
  transfer_length = 64;
  plan = 4;
  config = 16;
  nb_repair_packets = 0;
  min_nb_repair_packets = 0;
}

small-new : Raptorq.new toy 48 64 2 1 ≡ ok small
unfolding Raptorq.new packet_size repair_count u16_try_from
small-new = refl

small-IsSized : IsSized toy small 64
small-IsSized = new-IsSized toy 48 64 2 1 small (omega arith) small-new

abbrev sevens : List ℕ
sevens = replicate 64 7

-- 40 percent of the size in repair packets.
abbrev repaired : RaptorQ toy
repaired = record {
  max_packet_size = 16;
  symbol_count = 10;
  transfer_length = 160;
  plan = 10;
  config = 16;
  nb_repair_packets = 2;
  min_nb_repair_packets = 0;
}

repaired-new : Raptorq.new toy 48 160 40 0 ≡ ok repaired
unfolding Raptorq.new packet_size repair_count u16_try_from
repaired-new = refl

take-encode_example :
    (length (encode toy repaired 9 (replicate 160 7)) ≡ 12)
    × All (λ p. toy.source_block_number p ≡ 9) (encode toy repaired 9 (replicate 160 7))
    × (decode toy repaired 9 (take 11 (encode toy repaired 9 (replicate 160 7)))
        ≡ some (replicate 160 7))
take-encode_example =
    take-encode toy toy_laws (new-IsSized toy 48 160 40 0 repaired (omega arith) repaired-new) 9 11
      (replicate 160 7) (omega arith) refl (omega arith)

accessors-new_example :
    (b : Block) × (new toy chunk small 258 (some (5 ∷ 6 ∷ [])) ≡ ok b)
    × (block_type b ≡ ok chunk)
    × (client_id b ≡ ok 258)
    × (payload b ≡ ok (5 ∷ 6 ∷ []))
accessors-new_example = accessors-new toy chunk small 258 (5 ∷ 6 ∷ []) (omega arith) (omega arith)
