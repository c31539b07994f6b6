-- ===== src/Protocol/Raptorq/Coding.antt =====
-- `RaptorQ::encode` and `RaptorQ::decode` over the documented behaviour of raptorq.
use lidi_4d8d19daa.Common.{
  ℕ, zero, suc, ◌+◌, ◌-◌, ◌*◌, ◌≤◌, ◌<◌, ◌≡◌, refl, ap, ◌∙◌, inl, inr, List, [], ◌∷◌, ◌++◌, some,
  arith, Bool-cases, ltb, length, take, All, All-append, length-append, append-nil,
}
use lidi_4d8d19daa.Extern.{Extern, ExternLaws}
use lidi_4d8d19daa.Protocol.Raptorq.{RaptorQ, encode, decode, nb_packets}
use lidi_4d8d19daa.Protocol.Raptorq.Sizes.{IsSized}

take-append_le {ℓ} :
    {A : Type ℓ} (xs ys : List A) (k : ℕ)
    → length xs ≤ k
    → take k (xs ++ ys) ≡ xs ++ take (k - length xs) ys
take-append_le [] ys k h = let e : k - 0 ≡ k = omega arith in rw e
take-append_le (x ∷ xs) ys zero h = elim h [ ]
take-append_le (x ∷ xs) ys (suc k) h =
    let e : suc k - suc (length xs) ≡ k - length xs = omega arith in
    rw e (ap (◌∷◌ x) (take-append_le xs ys k (omega arith)))

take-all {ℓ} : {A : Type ℓ} (xs : List A) (k : ℕ) → length xs ≤ k → take k xs ≡ xs
take-all [] zero h = refl
take-all [] (suc k) h = refl
take-all (x ∷ xs) zero h = elim h [ ]
take-all (x ∷ xs) (suc k) h = ap (◌∷◌ x) (take-all xs k (omega arith))

module _ (x : Extern) (laws : ExternLaws x) where
  -- Every packet of an encoded block carries the number of the block.
  pub encode_number :
      (r : RaptorQ x) (id : ℕ) (bytes : List ℕ)
      → id < 256
      → All (λ p. x.source_block_number p ≡ id) (encode x r id bytes)
  unfolding encode
  encode_number r id bytes h = elim (Bool-cases (ltb 0 r.nb_repair_packets)) [
    | inl e ↦ rw e (
        All-append _ _ _ (laws.source_number id _ bytes _ h)
          (laws.repair_number id _ bytes _ _ _ h))
    | inr e ↦ rw e (laws.source_number id _ bytes _ h)
  ]

  module _ {r : RaptorQ x} {block : ℕ} (sized : IsSized x r block) where
    source-config :
        (id : ℕ) (bytes : List ℕ)
        → x.source_packets id r.config bytes r.plan
          ≡ x.source_packets id
              (x.with_defaults (r.max_packet_size * r.symbol_count) r.max_packet_size)
              bytes
              (x.generate r.symbol_count)
    source-config id bytes = rw (sized.config_of, sized.plan_of, sized.product)

    length-source :
        (id : ℕ) (bytes : List ℕ)
        → length bytes ≡ r.transfer_length
        → length (x.source_packets id r.config bytes r.plan) ≡ r.symbol_count
    length-source id bytes e = rw (source-config id bytes) (
        laws.length-source id r.max_packet_size r.symbol_count bytes sized.positive
          (e ∙ sized.product))

    -- A block of the exact size is encoded into `nb_packets` packets.
    pub length-encode :
        (id : ℕ) (bytes : List ℕ)
        → length bytes ≡ r.transfer_length
        → length (encode x r id bytes) ≡ nb_packets x r
    unfolding encode nb_packets
    length-encode id bytes e = elim (Bool-cases (ltb 0 r.nb_repair_packets)) [
      | inl some_repairs ↦
          rw (some_repairs, length-append)
            (omega (
              arith,
              length-source id bytes e,
              laws.length-repair id r.config bytes r.plan (x.symbol_size r.config)
                  r.nb_repair_packets,
              sized.counted,
              sized.few_repairs,
            ))
      | inr no_repairs ↦ rw no_repairs (ground (arith, length-source id bytes e, sized.counted))
    ]

    decode-sources :
        (id start repairs kept : ℕ) (bytes : List ℕ)
        → length bytes ≡ r.transfer_length
        → decode x r id (
            x.source_packets id r.config bytes r.plan
            ++ take kept (x.repair_packets id r.config bytes r.plan start repairs))
          ≡ some bytes
    unfolding decode
    decode-sources id start repairs kept bytes e =
        rw (sized.config_of, sized.plan_of, sized.product)
          (laws.decode-source id r.max_packet_size r.symbol_count start repairs kept bytes
            (e ∙ sized.product))

    -- The first `k` packets, for every `k` that is at least the number of symbols.
    pub decode-take-encode :
        (id k : ℕ) (bytes : List ℕ)
        → length bytes ≡ r.transfer_length
        → r.symbol_count ≤ k
        → decode x r id (take k (encode x r id bytes)) ≡ some bytes
    unfolding encode
    decode-take-encode id k bytes e h = elim (Bool-cases (ltb 0 r.nb_repair_packets)) [
      | inl some_repairs ↦
          rw (some_repairs, take-append_le sources repairs k enough)
            (decode-sources id _ _ (k - length sources) bytes e)
      | inr no_repairs ↦
          rw (no_repairs, take-all sources k enough, ← append-nil sources)
            (decode-sources id 0 0 0 bytes e)
    ]
      where
        sources : List x.Packet
        sources = x.source_packets id r.config bytes r.plan

        repairs : List x.Packet
        repairs =
            x.repair_packets id r.config bytes r.plan (x.symbol_size r.config) r.nb_repair_packets

        enough : length sources ≤ k
        enough = omega (arith, length-source id bytes e)

    -- A block of the exact size is encoded into one packet for each of its symbols and for each of
    -- the repair packets, all with the number of the block, and the first `k` packets give the block
    -- back, for every `k` that is at least the number of symbols.
    pub take-encode :
        (id k : ℕ) (bytes : List ℕ)
        → id < 256
        → length bytes ≡ r.transfer_length
        → r.symbol_count ≤ k
        → (length (encode x r id bytes) ≡ r.symbol_count + r.nb_repair_packets)
          × All (λ p. x.source_block_number p ≡ id) (encode x r id bytes)
          × (decode x r id (take k (encode x r id bytes)) ≡ some bytes)
    unfolding nb_packets
    take-encode id k bytes h e enough = (
      omega (arith, length-encode id bytes e, sized.counted, sized.few_repairs),
      encode_number r id bytes h,
      decode-take-encode id k bytes e enough,
    )
