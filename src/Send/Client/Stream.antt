-- ===== src/Send/Client/Stream.antt =====
-- The blocks of a transfer carry the client's stream.
use Prim.Native.Nat.{min}
use mathlib.Core.Path.{subst}
use lidi_4d8d19daa.Common.{
  ℕ, nil_of_length, suc, ◌+◌, ◌-◌, ◌^◌, ◌≤◌, ◌<◌, ◌≡◌, refl, sym, ap, ◌∙◌, List, [], ◌∷◌, ◌++◌,
  some, Bool, true, not, ◌&&◌, ◌||◌, ok, ltb, leb, ◌==◌, length, take, drop, arith, Bool-cases, inl,
  inr, append_assoc, take-append-drop, length-take, length-drop, length-append, lt→ltb,
}
use lidi_4d8d19daa.Common.Reader.{AllReady-mono, Wait, ready, fault, read_size, AllReady}
use lidi_4d8d19daa.Extern.{Extern}
use lidi_4d8d19daa.Protocol.Raptorq.{RaptorQ}
use lidi_4d8d19daa.Protocol.Block.{
  Block, BlockType, start, chunk, end, new, max_data_len, block_type, client_id, payload,
}
use lidi_4d8d19daa.Protocol.Block.Format.{accessors-new, accessors-new-none}
use lidi_4d8d19daa.Send.Client.{Run, stop, emit, finished, loop, start_client}

-- A block of one type, of one client, with one payload.
pub record IsBlock (t : BlockType) (id : ℕ) (bytes : List ℕ) (b : Block) : Type 0 where
  pub typed : block_type b ≡ ok t
  pub owned : client_id b ≡ ok id
  pub carried : payload b ≡ ok bytes

-- Data blocks and then one end block, whose payloads together are the bytes.
pub data Transfer (id : ℕ) : List Block → List ℕ → Type 0 where
  last : {b : Block} {bytes : List ℕ} → IsBlock end id bytes b → Transfer id (b ∷ []) bytes
  next :
      {b : Block} {bs : List Block} {front back bytes : List ℕ}
      → IsBlock chunk id front b
      → Transfer id bs back
      → bytes ≡ front ++ back
      → Transfer id (b ∷ bs) bytes

module _ (x : Extern) (flush : Bool) (r : RaptorQ x) (id : ℕ) (known : id < 2 ^ 32) where
  abbrev Delivered : Run → List ℕ → Type 0
  Delivered run bytes = (run.status ≡ finished) × Transfer id run.blocks bytes

  -- What an emitted block adds to a run.
  emit-end :
      (bytes : List ℕ)
      → length bytes < 2 ^ 32
      → (let run = emit (new x end r id (some bytes)) (stop finished) in
          (run.status ≡ finished) × Transfer id run.blocks bytes)
  emit-end bytes h =
      let (b, made, t, c, p) = accessors-new x end r id bytes known h in
      rw made (refl, last (record { typed = t; owned = c; carried = p }))

  emit-chunk :
      (bytes back : List ℕ) (rest : Run)
      → length bytes < 2 ^ 32
      → (rest.status ≡ finished) × Transfer id rest.blocks back
      → (let run = emit (new x chunk r id (some bytes)) rest in
          (run.status ≡ finished) × Transfer id run.blocks (bytes ++ back))
  emit-chunk bytes back rest h (done, tail) =
      let (b, made, t, c, p) = accessors-new x chunk r id bytes known h in
      rw made (done, next (record { typed = t; owned = c; carried = p }) tail refl)

  module _ (room : max_data_len x r < 2 ^ 32) where
    loop-Transfer :
        (ws : List Wait) (stream filled : List ℕ)
        → length filled < max_data_len x r
        → AllReady (suc (length stream)) ws
        → (let run = loop x flush r id ws stream filled in
            (run.status ≡ finished) × Transfer id run.blocks (filled ++ stream))
    unfolding loop
    loop-Transfer [] stream filled h a = absurd a
    loop-Transfer (fault e ∷ ws) stream filled h a = absurd a
    loop-Transfer (ready n ∷ ws) stream filled h a =
        elim (Bool-cases
          (ltb 0 (length got) && not (flush || leb (max_data_len x r) (length (filled ++ got))))) [
            | inl more ↦ rw more (
                subst (λ bytes. Delivered (loop x flush r id ws rest (filled ++ got)) bytes) whole
                  (loop-Transfer ws rest (filled ++ got) (room_left more) (
                    AllReady-mono (suc (length rest)) (length stream) ws (progress (some_more more))
                      a)))
            | inr full ↦ rw full (elim (Bool-cases (length got == 0)) [
              | inl at_end ↦ rw at_end (
                  subst (Delivered (emit (new x end r id (some (filled ++ got))) (stop finished)))
                    (ended at_end) (emit-end (filled ++ got) short))
              | inr some_read ↦ rw some_read (
                  subst
                    (Delivered (
                      emit (new x chunk r id (some (filled ++ got)))
                        (loop x flush r id ws rest [])))
                    whole
                    (emit-chunk (filled ++ got) rest (loop x flush r id ws rest []) short (
                      loop-Transfer ws rest [] (omega arith) (
                        AllReady-mono (suc (length rest)) (length stream) ws
                          (progress (ground arith)) a))))
            ])
          ]
      where
        size : ℕ
        size = read_size (max_data_len x r - length filled) n

        got : List ℕ
        got = take size stream

        rest : List ℕ
        rest = drop size stream

        got_length : length got ≡ min size (length stream)
        got_length = length-take size stream

        rest_length : length rest ≡ length stream - size
        rest_length = length-drop size stream

        joined : length (filled ++ got) ≡ length filled + length got
        joined = length-append filled got

        short : length (filled ++ got) < 2 ^ 32
        short = omega (arith, joined, got_length)

        progress : 0 < length got → suc (length rest) ≤ length stream
        progress some_got = omega (arith, got_length, rest_length)

        some_more :
            (ltb 0 (length got) && not (flush || leb (max_data_len x r) (length (filled ++ got))))
              ≡ true
            → 0 < length got
        some_more e = ground arith

        room_left :
            (ltb 0 (length got) && not (flush || leb (max_data_len x r) (length (filled ++ got))))
              ≡ true
            → length (filled ++ got) < max_data_len x r
        room_left e = ground arith

        ended : (length got == 0) ≡ true → filled ++ got ≡ filled ++ stream
        ended e = ap (◌++◌ filled) (
            nil_of_length got (ground arith)
            ∙ sym (nil_of_length stream (ground (arith, got_length))))

        whole : (filled ++ got) ++ drop size stream ≡ filled ++ stream
        whole =
            append_assoc filled got (drop size stream)
            ∙ ap (◌++◌ filled) (take-append-drop size stream)

pub max_data_len-eq :
    (x : Extern) (r : RaptorQ x)
    → 10 ≤ r.transfer_length
    → r.transfer_length < 2 ^ 32
    → max_data_len x r + 9 ≡ r.transfer_length
unfolding max_data_len
max_data_len-eq x r room small = omega arith

-- A client whose reads all succeed is transferred whole: the worker ends, and it sends one start
-- block and then data blocks and one end block whose payloads together are the stream, however the
-- reads cut it and with flushing or without. The block size must have room for a byte of data.
pub start_client-Transfer :
    (x : Extern) (flush : Bool) (r : RaptorQ x) (id : ℕ) (ws : List Wait) (stream : List ℕ)
    → id < 2 ^ 32
    → 10 ≤ r.transfer_length
    → r.transfer_length < 2 ^ 32
    → AllReady (suc (length stream)) ws
    → (b : Block) × (bs : List Block) × ((start_client x flush r id ws stream).blocks ≡ b ∷ bs)
      × IsBlock start id [] b
      × Transfer id bs stream
      × ((start_client x flush r id ws stream).status ≡ finished)
unfolding start_client
start_client-Transfer x flush r id ws stream known room small a =
    let size = max_data_len-eq x r room small in
    let fits : ltb (max_data_len x r) (2 ^ 63) ≡ true = lt→ltb _ _ (omega (arith, size)) in
    let (b, made, t, c, p, full) = accessors-new-none x start r id known (omega arith) in
    let (done, sent) =
      loop-Transfer x flush r id known (omega (arith, size)) ws stream [] (omega (arith, size)) a in
    (
      b,
      (loop x flush r id ws stream []).blocks,
      rw (made, fits),
      record { typed = t; owned = c; carried = p },
      sent,
      rw (made, fits) done,
    )
