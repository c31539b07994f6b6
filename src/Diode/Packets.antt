-- ===== src/Diode/Packets.antt =====
-- From the blocks handed to the sender's pipeline to the blocks that the receiver decodes.
use lidi_4d8d19daa.Common.{
  ℕ, ◌+◌, ◌%◌, ◌^◌, ◌≤◌, ◌<◌, ◌≡◌, refl, sym, ap, ◌∙◌, List, [], ◌∷◌, ◌++◌, Option, none, some, ok,
  length, take, concat, map, All, arith, length-map, length-append, append-nil, nil_of_length,
}
use lidi_4d8d19daa.Extern.{Extern, ExternLaws}
use lidi_4d8d19daa.Protocol.Raptorq.{RaptorQ, new, encode, decode, nb_packets, min_nb_packets}
use lidi_4d8d19daa.Protocol.Raptorq.Sizes.{
  IsSized, new-IsSized, new-counts, min_nb_packets-le-nb_packets,
}
use lidi_4d8d19daa.Protocol.Raptorq.Coding.{encode_number, length-encode, decode-take-encode}
use lidi_4d8d19daa.Protocol.Block.{Block, serialized, deserialize}
use lidi_4d8d19daa.Send.Pipeline.{Pipeline, Reach, encoded}
use lidi_4d8d19daa.Send.Pipeline.Numbering.{number, length-number}
use mathlib.Core.Path.{subst}
use lidi_4d8d19daa.Receive.Decode.Feed.{DecodesTo, AllDecode}
use lidi_4d8d19daa.Send.Pipeline.Order.{sent_in_order}
use lidi_4d8d19daa.Receive.{Reassembled, lost, reassembled}
use lidi_4d8d19daa.Receive.Reblock.{State, init_state, wrapping_add, run}
use lidi_4d8d19daa.Receive.Reblock.Collect.{singles}
use lidi_4d8d19daa.Receive.Reblock.Link.{InTurn, first_packets, run-InTurn}

-- What a decoding worker makes of a message, `none` if it sends no block on.
abbrev pub decoded : (x : Extern) → RaptorQ x → Reassembled x → Option Block
decoded x r lost = none
decoded x r (reassembled id packets) = elim (decode x r id packets) [
  | none ↦ none
  | some bytes ↦ some (deserialize bytes)
]

-- The two ends agree on the MTU, the block size and the repair percentage.
pub record AgreeOn (x : Extern) (mtu block repair min_repair : ℕ) (s r : RaptorQ x) : Type 0 where
  pub sender : new x mtu block repair 0 ≡ ok s
  pub receiver : new x mtu block repair min_repair ≡ ok r
  pub block_fits : block < 2 ^ 32
  pub not_empty : 0 < r.symbol_count
  pub sum_fits : r.symbol_count + r.min_nb_repair_packets < 2 ^ 16
  pub enough : r.min_nb_repair_packets ≤ s.nb_repair_packets

module _ (x : Extern) (laws : ExternLaws x) (mtu block repair min_repair : ℕ) (s r : RaptorQ x)
    (agree : AgreeOn x mtu block repair min_repair s r) where
  s-IsSized : IsSized x s block
  s-IsSized = new-IsSized x mtu block repair 0 s agree.block_fits agree.sender

  r-IsSized : IsSized x r block
  r-IsSized = new-IsSized x mtu block repair min_repair r agree.block_fits agree.receiver

  enough_packets : (s.transfer_length ≡ r.transfer_length) × (min_nb_packets x r ≤ nb_packets x s)
  enough_packets =
      let (same, iff) =
        min_nb_packets-le-nb_packets x mtu block repair min_repair s r agree.block_fits agree.sender
          agree.receiver agree.sum_fits in
      (same, iff.1 agree.enough)

  pub same_sizes : s.transfer_length ≡ r.transfer_length
  same_sizes = enough_packets.0

  same_counts : (s.max_packet_size ≡ r.max_packet_size) × (s.symbol_count ≡ r.symbol_count)
  same_counts =
      let (p, c) = new-counts x mtu block repair 0 s agree.sender in
      let (p', c') = new-counts x mtu block repair min_repair r agree.receiver in
      (p ∙ sym p', c ∙ sym c')

  pub positive : 0 < min_nb_packets x r
  unfolding min_nb_packets
  positive = omega (arith, agree.not_empty, agree.sum_fits)

  symbols : s.symbol_count ≤ min_nb_packets x r
  unfolding min_nb_packets
  symbols = omega (arith, same_counts.1, agree.sum_fits)

  -- The receiver decodes with the configuration of the sender.
  decode_same : (id : ℕ) (packets : List x.Packet) → decode x r id packets ≡ decode x s id packets
  unfolding decode
  decode_same id packets =
      rw (s-IsSized.config_of, r-IsSized.config_of, enough_packets.0, same_counts.0) refl

  decoded_of :
      (id : ℕ) (packets : List x.Packet) (bytes : List ℕ)
      → decode x r id packets ≡ some bytes
      → decoded x r (reassembled id packets) ≡ some (deserialize bytes)
  decoded_of id packets bytes e = rw (e, decoded) refl

  -- A message with the first packets of a block decodes to the block.
  packets-DecodesTo :
      (nb i : ℕ) (b : Block)
      → length b.content ≡ s.transfer_length
      → DecodesTo x r nb i
          (reassembled (i % 256) (take (min_nb_packets x r) (encode x s (i % 256) (serialized b))))
          b
  unfolding serialized deserialize
  packets-DecodesTo nb i b e = (
    refl,
    (
      b.content,
      decode_same (i % 256) _
          ∙ decode-take-encode x laws s-IsSized (i % 256) (min_nb_packets x r) b.content e symbols,
      refl,
    ),
  )

  decode_lem :
      (id : ℕ) (b : Block)
      → length b.content ≡ s.transfer_length
      → decoded x r (reassembled id (take (min_nb_packets x r) (encode x s id (serialized b))))
        ≡ some b
  unfolding serialized deserialize
  decode_lem id b e =
      decoded_of id (take (min_nb_packets x r) (encode x s id b.content)) b.content (
        decode_same id _
        ∙ decode-take-encode x laws s-IsSized id (min_nb_packets x r) b.content e symbols)

  abbrev pub IsFull : Block → Type 0
  IsFull b = length b.content ≡ s.transfer_length

  pub encoded-InTurn :
      (i : ℕ) (bs : List Block)
      → All IsFull bs
      → InTurn x laws (min_nb_packets x r) positive (i % 256) (map (encoded x s) (number i bs))
  unfolding serialized
  encoded-InTurn i [] h = tt
  encoded-InTurn i (b ∷ bs) h =
      let step : wrapping_add (i % 256) 1 ≡ (i + 1) % 256 = omega arith in
      (
        omega (arith, length-encode x laws s-IsSized (i % 256) b.content h.0, enough_packets.1),
        encode_number x laws s (i % 256) b.content (omega arith),
        rw step (encoded-InTurn (i + 1) bs h.1),
      )

  decoded-first_packets :
      (i : ℕ) (bs : List Block)
      → All IsFull bs
      → map (decoded x r) (
          first_packets x laws
            (min_nb_packets x r)
            positive
            (i % 256)
            (map (encoded x s) (number i bs)))
        ≡ map some bs
  decoded-first_packets i [] h = refl
  decoded-first_packets i (b ∷ bs) h =
      let step : wrapping_add (i % 256) 1 ≡ (i + 1) % 256 = omega arith in
      rw (decode_lem (i % 256) b h.0, step, decoded-first_packets (i + 1) bs h.1) refl

  first_packets-AllDecode :
      (nb i : ℕ) (bs : List Block)
      → All IsFull bs
      → AllDecode x r nb i
          (first_packets x laws
            (min_nb_packets x r)
            positive
            (i % 256)
            (map (encoded x s) (number i bs)))
          bs
  first_packets-AllDecode nb i [] h = tt
  first_packets-AllDecode nb i (b ∷ bs) h =
      let step : wrapping_add (i % 256) 1 ≡ (i + 1) % 256 = omega arith in
      (packets-DecodesTo nb i b h.0, rw step (first_packets-AllDecode nb (i + 1) bs h.1))

  -- When all blocks were sent, what the reblock worker makes of the packets.
  pub run-AllDecode :
      (few nb : ℕ) (p : Pipeline x) (t : State x) (outs : List (Reassembled x))
      → few ≤ 255
      → Reach x s few p
      → All IsFull p.fed
      → length p.sent ≡ length p.fed
      → run (min_nb_packets x r) (init_state x) (singles x (concat p.sent)) ≡ ok (t, outs)
      → AllDecode x r nb 0 outs p.fed
  run-AllDecode few nb p t outs small reach full all ran =
      let (rest, e) = sent_in_order x s few small reach in
      let empty : rest ≡ [] = nil_of_length rest (
        omega (
          arith,
          ap length e,
          length-append p.sent rest,
          length-map (encoded x s) (number 0 p.fed),
          length-number 0 p.fed,
          all,
        )) in
      let same : p.sent ≡ map (encoded x s) (number 0 p.fed) =
        sym (append-nil p.sent) ∙ ap (◌++◌ p.sent) (sym empty) ∙ e in
      let (u, ran') =
        run-InTurn x laws (min_nb_packets x r) positive (map (encoded x s) (number 0 p.fed))
          (init_state x) 0 refl (omega arith) (encoded-InTurn 0 p.fed full) in
      let again =
        ap (λ l. run (min_nb_packets x r) (init_state x) (singles x (concat l))) same ∙ ran' in
      let outs_eq : outs
          ≡ first_packets x laws (min_nb_packets x r) positive (0 % 256)
              (map (encoded x s) (number 0 p.fed)) =
        cc (ran, again) in
      subst (λ l. AllDecode x r nb 0 l p.fed) (sym outs_eq)
        (first_packets-AllDecode nb 0 p.fed full)

  -- A prefix of numbered and encoded blocks comes from a prefix of the blocks.
  prefix_of_number :
      (i : ℕ) (bs : List Block) (sent rest : List (List x.Packet))
      → sent ++ rest ≡ map (encoded x s) (number i bs)
      → (front : List Block) × (back : List Block) × (front ++ back ≡ bs)
        × (sent ≡ map (encoded x s) (number i front))
  prefix_of_number i bs [] rest e = ([], bs, refl, refl)
  prefix_of_number i [] (p ∷ sent) rest e = cc
  prefix_of_number i (b ∷ bs) (p ∷ sent) rest e =
      let (front, back, joined, same) = prefix_of_number (i + 1) bs sent rest (cc e) in
      (b ∷ front, back, ap (◌∷◌ b) joined, cc (e, same))

  All-front : (front back bs : List Block) → front ++ back ≡ bs → All IsFull bs → All IsFull front
  All-front [] back bs e h = tt
  All-front (b ∷ front) back [] e h = cc
  All-front (b ∷ front) back (c ∷ bs) e h =
      let same : b ≡ c = cc e in (rw same h.0, All-front front back bs (cc e) h.1)

  -- In every state that the pipeline of a sender with at most 255 encoding workers can reach: the
  -- packets given to the UDP socket so far, if all arrive, in order and each in a datagram of its own,
  -- at a receiver that agrees on the parameters, are reassembled and decoded to exactly the first blocks that were
  -- handed to the sender, in order. Every block must have the size that `Block::new` gives it.
  pub decoded-sent :
      (nb : ℕ) (p : Pipeline x)
      → nb ≤ 255
      → Reach x s nb p
      → All IsFull p.fed
      → (front : List Block) × (back : List Block) × (front ++ back ≡ p.fed)
        × (t : State x) × (outs : List (Reassembled x)) × (run
              (min_nb_packets x r)
              (init_state x)
              (singles x (concat p.sent))
            ≡ ok (t, outs))
        × (map (decoded x r) outs ≡ map some front)
        × (p.sent ≡ map (encoded x s) (number 0 front))
  decoded-sent nb p few reach full =
      let (rest, e) = sent_in_order x s nb few reach in
      let (front, back, joined, same) = prefix_of_number 0 p.fed p.sent rest e in
      let h = All-front front back p.fed joined full in
      let (t, ran) =
        run-InTurn x laws (min_nb_packets x r) positive (map (encoded x s) (number 0 front))
          (init_state x) 0 refl (omega arith) (encoded-InTurn 0 front h) in
      (
        front,
        back,
        joined,
        t,
        _,
        ap (λ l. run (min_nb_packets x r) (init_state x) (singles x (concat l))) same ∙ ran,
        decoded-first_packets 0 front h,
        same,
      )
