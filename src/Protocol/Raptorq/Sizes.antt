-- ===== src/Protocol/Raptorq/Sizes.antt =====
-- The sizes that `RaptorQ::new` computes.
use lidi_4d8d19daa.Common.{ℕ, ◌+◌, ◌*◌, ◌/◌, ◌%◌, ◌^◌, ◌≤◌, ◌<◌, ◌≡◌, ◌↔◌, true, ok, panic, arith}
use lidi_4d8d19daa.Extern.{Extern}
use lidi_4d8d19daa.Protocol.Raptorq.{RaptorQ, packet_size, new, min_nb_packets, nb_packets}

-- For an MTU that has room for the headers and one aligned symbol, the packet size is the largest
-- multiple of 8 that fits behind the 32 bytes of headers.
pub packet_size_fits :
    (mtu : ℕ)
    → 32 ≤ mtu
    → mtu < 2 ^ 16
    → (packet_size mtu % 8 ≡ 0) × (packet_size mtu + 32 ≤ mtu) × (mtu < packet_size mtu + 40)
unfolding packet_size
packet_size_fits mtu h k = omega arith

packet_size_aligned : (mtu : ℕ) → packet_size mtu % 8 ≡ 0
unfolding packet_size
packet_size_aligned mtu = omega arith

packet_size-lt : (mtu : ℕ) → packet_size mtu < 2 ^ 16
unfolding packet_size
packet_size-lt mtu = omega arith

-- What a successful `RaptorQ::new` establishes.
pub record IsSized (x : Extern) (r : RaptorQ x) (block : ℕ) : Type 0 where
  pub positive : 0 < r.max_packet_size
  pub aligned : r.max_packet_size % 8 ≡ 0
  pub narrow : r.max_packet_size < 2 ^ 16
  pub counted : r.symbol_count < 2 ^ 16
  pub product : r.transfer_length ≡ r.max_packet_size * r.symbol_count
  pub within : r.transfer_length ≤ block
  pub full : block < r.transfer_length + r.max_packet_size
  pub repaired : r.min_nb_repair_packets ≤ r.nb_repair_packets
  pub few_repairs : r.nb_repair_packets < 2 ^ 16
  pub plan_of : r.plan ≡ x.generate r.symbol_count
  pub config_of : r.config ≡ x.with_defaults r.transfer_length r.max_packet_size

division : (b d : ℕ) → 0 < d → (d * (b / d) ≤ b) × (b < d * (b / d) + d)
division b d h = (grind arith, grind arith)

module _ (x : Extern) where
  -- Whatever the parameters, a successful `new` gives an aligned packet size, a block that is a
  -- whole number of packets, at most the requested size and less than one packet below it, and at
  -- least the minimal number of repair packets.
  pub new-IsSized :
      (mtu block repair min_repair : ℕ) (r : RaptorQ x)
      → block < 2 ^ 32
      → new x mtu block repair min_repair ≡ ok r
      → IsSized x r block
  unfolding new
  new-IsSized mtu block repair min_repair r h e =
      ground (arith, packet_size-lt mtu, packet_size_aligned mtu, division block (packet_size mtu))

  pub new-counts :
      (mtu block repair min_repair : ℕ) (r : RaptorQ x)
      → new x mtu block repair min_repair ≡ ok r
      → (r.max_packet_size ≡ packet_size mtu) × (r.symbol_count ≡ block / packet_size mtu)
  unfolding new
  new-counts mtu block repair min_repair r e = ground arith

  -- Where raptorq takes the sizes, `new` panics exactly for the MTUs that leave no room for a symbol:
  -- a smaller MTU wraps around.
  pub new-panic :
      (mtu block repair min_repair : ℕ)
      → mtu < 2 ^ 16
      → x.generates (block / packet_size mtu) ≡ true
      → x.accepts_defaults (packet_size mtu * (block / packet_size mtu) % 2 ^ 32) (packet_size mtu)
        ≡ true
      → (new x mtu block repair min_repair ≡ panic) ↔ ((32 ≤ mtu) × (mtu < 40))
  unfolding new packet_size
  new-panic mtu block repair min_repair h g d = (λ e. ground arith, λ e. ground arith)

  -- The receiver waits for no more packets than the sender emits exactly if its minimal number of
  -- repair packets is at most what the sender computes from its own percentage: both compute the
  -- same packet size and symbol count.
  pub min_nb_packets-le-nb_packets :
      (mtu block repair min_repair : ℕ) (s r : RaptorQ x)
      → block < 2 ^ 32
      → new x mtu block repair 0 ≡ ok s
      → new x mtu block repair min_repair ≡ ok r
      → r.symbol_count + r.min_nb_repair_packets < 2 ^ 16
      → (s.transfer_length ≡ r.transfer_length)
        × ((min_nb_packets x r ≤ nb_packets x s) ↔ (r.min_nb_repair_packets ≤ s.nb_repair_packets))
  unfolding min_nb_packets nb_packets
  min_nb_packets-le-nb_packets mtu block repair min_repair s r h es er fit =
      let a = new-IsSized mtu block repair 0 s h es in
      let b = new-IsSized mtu block repair min_repair r h er in
      ground
        (arith, new-counts mtu block repair 0 s es, new-counts mtu block repair min_repair r er)

  -- The 16-bit sum wraps: the receiver then waits for fewer packets than the block has symbols.
  pub min_nb_packets_wraps :
      (mtu block repair min_repair : ℕ) (r : RaptorQ x)
      → block < 2 ^ 32
      → new x mtu block repair min_repair ≡ ok r
      → 2 ^ 16 ≤ r.symbol_count + r.min_nb_repair_packets
      → min_nb_packets x r < r.symbol_count
  unfolding min_nb_packets
  min_nb_packets_wraps mtu block repair min_repair r h e wide =
      let a = new-IsSized mtu block repair min_repair r h e in omega arith
