-- ===== src/Send/Client/Sized.antt =====
-- Every block of a client worker has the size that RaptorQ encodes, however its reads end.
use lidi_4d8d19daa.Common.{
  ℕ, ◌-◌, ◌^◌, ◌≤◌, ◌<◌, ◌≡◌, refl, List, [], ◌∷◌, ◌++◌, none, some, Bool, true, not, ◌&&◌, ◌||◌,
  Result, ok, err, panic, ltb, leb, ◌==◌, length, take, drop, length-append, length-take, All,
  arith, Bool-cases, lt→ltb, inl, inr,
}
use lidi_4d8d19daa.Common.Reader.{Wait, ready, fault, read_size}
use lidi_4d8d19daa.Extern.{Extern, ExternLaws}
use lidi_4d8d19daa.Protocol
use lidi_4d8d19daa.Protocol.Raptorq.{RaptorQ}
use lidi_4d8d19daa.Protocol.Block.{Block, BlockType, start, chunk, end, new, max_data_len}
use lidi_4d8d19daa.Protocol.Block.Format.{length-new, length-new-none}
use lidi_4d8d19daa.Send.Client.{Run, stop, emit, finished, loop, start_client}
use lidi_4d8d19daa.Send.Client.Stream.{max_data_len-eq}

module _ (x : Extern) (laws : ExternLaws x) (r : RaptorQ x) (large : 10 ≤ r.transfer_length)
    (small : r.transfer_length < 2 ^ 32) where
  abbrev pub IsSized : Block → Type 0
  IsSized b = length b.content ≡ r.transfer_length

  pub none-IsSized : (t : BlockType) (id : ℕ) (b : Block) → new x t r id none ≡ ok b → IsSized b
  none-IsSized t id b e =
      let (c, made, size) = length-new-none x t r id (omega (arith, large)) in
      let same : b ≡ c = cc (e, made) in rw same size

  some-IsSized :
      (t : BlockType) (id : ℕ) (bytes : List ℕ) (b : Block)
      → length bytes ≤ max_data_len x r
      → new x t r id (some bytes) ≡ ok b
      → IsSized b
  some-IsSized t id bytes b h e =
      let (c, made, size) = length-new x t r id laws bytes small (omega (arith, large)) h in
      let same : b ≡ c = cc (e, made) in rw same size

  pub emit-IsSized :
      (result : Result Protocol.Error Block) (rest : Run)
      → ((b : Block) → result ≡ ok b → IsSized b)
      → All IsSized rest.blocks
      → All IsSized (emit result rest).blocks
  emit-IsSized (ok b) rest f all = (f b refl, all)
  emit-IsSized (err e) rest f all = tt
  emit-IsSized panic rest f all = tt

  module _ (flush : Bool) (id : ℕ) where
    loop-IsSized :
        (ws : List Wait) (stream filled : List ℕ)
        → length filled < max_data_len x r
        → All IsSized (loop x flush r id ws stream filled).blocks
    unfolding loop
    loop-IsSized [] stream filled h = tt
    loop-IsSized (fault e ∷ ws) stream filled h = tt
    loop-IsSized (ready n ∷ ws) stream filled h =
        elim (Bool-cases
          (ltb 0 (length got) && not (flush || leb (max_data_len x r) (length (filled ++ got))))) [
            | inl more ↦ rw more (loop-IsSized ws rest (filled ++ got) (ground arith))
            | inr full ↦ rw full (elim (Bool-cases (length got == 0)) [
              | inl at_end ↦ rw at_end (
                  emit-IsSized (new x end r id (some (filled ++ got))) (stop finished)
                    (λ b e. some-IsSized end id (filled ++ got) b fits e) tt)
              | inr some_read ↦ rw some_read (
                  emit-IsSized (new x chunk r id (some (filled ++ got)))
                    (loop x flush r id ws rest [])
                    (λ b e. some-IsSized chunk id (filled ++ got) b fits e)
                    (loop-IsSized ws rest [] (omega arith)))
            ])
          ]
      where
        size : ℕ
        size = read_size (max_data_len x r - length filled) n

        got : List ℕ
        got = take size stream

        rest : List ℕ
        rest = drop size stream

        fits : length (filled ++ got) ≤ max_data_len x r
        fits = omega (arith, length-append filled got, length-take size stream)

    pub start_client-IsSized :
        (ws : List Wait) (stream : List ℕ)
        → All IsSized (start_client x flush r id ws stream).blocks
    unfolding start_client
    start_client-IsSized ws stream =
        let room = max_data_len-eq x r large small in
        let fits : ltb (max_data_len x r) (2 ^ 63) ≡ true = lt→ltb _ _ (omega (arith, room)) in
        rw fits (
          emit-IsSized (new x start r id none) (loop x flush r id ws stream [])
            (none-IsSized start id) (loop-IsSized ws stream [] (omega (arith, room))))
