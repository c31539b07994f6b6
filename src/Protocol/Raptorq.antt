-- ===== src/Protocol/Raptorq.antt =====
-- `RaptorQ` of src/protocol.rs: the sizes of packets and blocks that both sides of the diode
-- compute from the command line. `u16` and `u32` arithmetic wraps, as in the release profile.
pub mod Sizes
pub mod Coding
use lidi_4d8d19daa.Common.{
  ℕ, ◌+◌, ◌-◌, ◌*◌, ◌/◌, ◌%◌, ◌^◌, List, ◌++◌, Option, Result, ok, err, panic, ◌>>=◌, ltb, ◌==◌,
  if◌then◌else◌,
}
use lidi_4d8d19daa.Extern.{Extern}
use lidi_4d8d19daa.Protocol.{Error, u16_try_from}

abbrev pub packet_header_size : ℕ
packet_header_size = 20 + 8

abbrev pub raptorq_alignment : ℕ
raptorq_alignment = 8

abbrev pub raptorq_header_size : ℕ
raptorq_header_size = 4

pub record RaptorQ (x : Extern) : Type 0 where
  pub max_packet_size : ℕ
  pub symbol_count : ℕ
  pub transfer_length : ℕ
  pub plan : x.Plan
  pub config : x.Oti
  pub nb_repair_packets : ℕ
  pub min_nb_repair_packets : ℕ

abbrev pub sub16 : ℕ → ℕ → ℕ
sub16 a b = (a + 2 ^ 16 - b) % 2 ^ 16

-- The first two lines of `RaptorQ::new`.
unfoldable pub packet_size : ℕ → ℕ
packet_size mtu =
    let size : ℕ = sub16 (sub16 mtu packet_header_size) raptorq_header_size in
    size - size % raptorq_alignment

-- `u16::try_from(((transfer_length / 100) * percentage) / u32::from(max_packet_size))`
unfoldable pub repair_count : ℕ → ℕ → ℕ → ℕ
repair_count transfer_length percentage size = transfer_length / 100 * percentage % 2 ^ 32 / size

module _ (x : Extern) where
  -- `SourceBlockEncodingPlan::generate`
  unfoldable pub generate : ℕ → Result Error x.Plan
  generate symbol_count = if x.generates symbol_count then ok (x.generate symbol_count) else panic

  -- `ObjectTransmissionInformation::with_defaults`
  unfoldable pub with_defaults : ℕ → ℕ → Result Error x.Oti
  with_defaults transfer_length size =
      if x.accepts_defaults transfer_length size
      then ok (x.with_defaults transfer_length size)
      else panic

  -- The division by a packet size of 0 panics.
  unfoldable pub new : ℕ → ℕ → ℕ → ℕ → Result Error (RaptorQ x)
  unfolding u16_try_from generate with_defaults
  new mtu block_size repair_percentage min_repair_percentage =
      let size : ℕ = packet_size mtu in
      if size == 0 then panic else do
        symbol_count ← u16_try_from (block_size / size) "symbol_count"
        let transfer_length = size * symbol_count % 2 ^ 32
        plan ← generate symbol_count
        config ← with_defaults transfer_length size
        repairs ←
            u16_try_from (repair_count transfer_length repair_percentage size) "nb_repair_packets"
        min_repairs ←
            u16_try_from (repair_count transfer_length min_repair_percentage size)
              "min_nb_repair_packets"
        ok (record {
          max_packet_size = size;
          symbol_count = symbol_count;
          transfer_length = transfer_length;
          plan = plan;
          config = config;
          nb_repair_packets = if ltb repairs min_repairs then min_repairs else repairs;
          min_nb_repair_packets = min_repairs;
        })

  unfoldable pub block_size : RaptorQ x → ℕ
  block_size r = r.transfer_length

  -- A `u16` sum.
  unfoldable pub min_nb_packets : RaptorQ x → ℕ
  min_nb_packets r = (r.symbol_count + r.min_nb_repair_packets) % 2 ^ 16

  unfoldable pub nb_packets : RaptorQ x → ℕ
  nb_packets r = (r.symbol_count + r.nb_repair_packets) % 2 ^ 32

  unfoldable pub encode : RaptorQ x → ℕ → List ℕ → List x.Packet
  encode r block_id bytes =
      let packets = x.source_packets block_id r.config bytes r.plan in
      if ltb 0 r.nb_repair_packets
      then packets
        ++ x.repair_packets block_id r.config bytes r.plan (x.symbol_size r.config)
            r.nb_repair_packets
      else packets

  unfoldable pub decode : RaptorQ x → ℕ → List x.Packet → Option (List ℕ)
  decode r block_id packets = x.decode_packets block_id r.config r.transfer_length packets
