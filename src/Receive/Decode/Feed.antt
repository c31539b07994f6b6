-- ===== src/Receive/Decode/Feed.antt =====
-- The decoding workers on the messages of the reblock worker: consecutive blocks that all decode.
use lidi_4d8d19daa.Common.{
  ℕ, suc, ◌+◌, ◌%◌, ◌≤◌, ◌<◌, ◌≡◌, refl, sym, ap, ◌∙◌, List, [], ◌∷◌, ◌++◌, some, length,
  length-map, length-append, append-nil, nil_of_length, map, arith,
}
use lidi_4d8d19daa.Extern.{Extern}
use lidi_4d8d19daa.Protocol.Raptorq.{RaptorQ, decode}
use lidi_4d8d19daa.Protocol.Block.{Block, deserialize}
use lidi_4d8d19daa.Receive.{Reassembled, lost, reassembled}
use lidi_4d8d19daa.Receive.Decode.{State, Step}
use lidi_4d8d19daa.Receive.Decode.Order.{IsWork, InTurn, begin, arrives, works, dispatched_in_order}

module _ (x : Extern) (r : RaptorQ x) (nb : ℕ) where
  -- What the workers can reach since the reblock worker started at the number `id`, when it has
  -- sent the messages, whatever they are.
  pub data Fed (id : ℕ) : State x → List (Reassembled x) → Type 0 where
    started :
        Fed id
          (record { for_decode = []; held = []; block_to_dispatch = id % 256; dispatched = [] })
          []
    handed_over :
        {s : State x} {ms : List (Reassembled x)} (message : Reassembled x)
        → Fed id s ms
        → Fed id (record s { for_decode = s.for_decode ++ message ∷ [] }) (ms ++ message ∷ [])
    worked :
        {s t : State x} {ms : List (Reassembled x)}
        → Fed id s ms
        → (step : Step x r nb s t) → IsWork x r nb step
        → Fed id t ms

  -- A message with a block of the number that decodes to the block.
  abbrev pub DecodesTo : ℕ → Reassembled x → Block → Type 0
  DecodesTo i lost b = ⊥
  DecodesTo i (reassembled j packets) b =
      (j ≡ i % 256)
      × ((bytes : List ℕ) × (decode x r j packets ≡ some bytes) × (deserialize bytes ≡ b))

  -- Messages with the blocks, in order, numbered from `i` on.
  abbrev pub AllDecode : ℕ → List (Reassembled x) → List Block → Type 0
  AllDecode i [] [] = Unit {0}
  AllDecode i [] (b ∷ bs) = ⊥
  AllDecode i (m ∷ ms) [] = ⊥
  AllDecode i (m ∷ ms) (b ∷ bs) = DecodesTo i m b × AllDecode (i + 1) ms bs

  AllDecode-snoc :
      (i : ℕ) (ms : List (Reassembled x)) (m : Reassembled x) (bs : List Block)
      → AllDecode i (ms ++ m ∷ []) bs
      → (front : List Block) × (b : Block) × (bs ≡ front ++ b ∷ [])
        × AllDecode i ms front
        × DecodesTo (i + length front) m b
  AllDecode-snoc i [] m [] h = absurd h
  AllDecode-snoc i [] m (b ∷ []) (here, rest) =
      ([], b, refl, tt, let e : i + 0 ≡ i = omega arith in rw e here)
  AllDecode-snoc i [] m (b ∷ c ∷ bs) (here, rest) = absurd rest
  AllDecode-snoc i (n ∷ ms) m [] h = absurd h
  AllDecode-snoc i (n ∷ ms) m (c ∷ bs) (here, rest) =
      let (front, b, e, before, last) = AllDecode-snoc (i + 1) ms m bs rest in
      (
        c ∷ front,
        b,
        ap (◌∷◌ c) e,
        (here, before),
        let same : i + suc (length front) ≡ i + 1 + length front = omega arith in rw same last,
      )

  Fed-nil : (i : ℕ) (bs : List Block) → AllDecode i [] bs → bs ≡ []
  Fed-nil i [] h = refl
  Fed-nil i (b ∷ bs) h = absurd h

  arrives_next :
      (id : ℕ) (s : State x) (front : List Block) (m : Reassembled x) (b : Block)
      → InTurn x r nb id s front
      → DecodesTo (id + length front) m b
      → InTurn x r nb id (record s { for_decode = s.for_decode ++ m ∷ [] }) (front ++ b ∷ [])
  arrives_next id s front lost b turn h = absurd h
  arrives_next id s front (reassembled j packets) b turn (e, (bytes, d, same)) =
      rw (e, ← same) (arrives packets bytes turn (rw e at d))

  pub Fed-InTurn :
      {id : ℕ} {s : State x} {ms : List (Reassembled x)} (bs : List Block)
      → Fed id s ms
      → AllDecode id ms bs
      → InTurn x r nb id s bs
  Fed-InTurn {id} bs started h = rw (Fed-nil id bs h) begin
  Fed-InTurn {id} bs (handed_over {s} {ms} message fed) h =
      let (front, b, e, before, last) = AllDecode-snoc id ms message bs h in
      rw e (arrives_next id s front message b (Fed-InTurn front fed before) last)
  Fed-InTurn bs (worked fed step work) h = works (Fed-InTurn bs fed h) step work

  -- When as many messages were sent to the dispatch worker as the decoding workers were sent, they
  -- are the blocks, in order.
  pub Fed-dispatched :
      (id : ℕ) {s : State x} {ms : List (Reassembled x)} (bs : List Block)
      → nb ≤ 255
      → 0 < nb
      → Fed id s ms
      → AllDecode id ms bs
      → length s.dispatched ≡ length bs
      → s.dispatched ≡ map some bs
  Fed-dispatched id {s} bs small pos fed h all =
      let ((rest, e), _, _) = dispatched_in_order x r nb id small pos (Fed-InTurn bs fed h) in
      let empty : rest ≡ [] =
        nil_of_length rest
          (omega (arith, ap length e, length-append s.dispatched rest, length-map some bs, all)) in
      sym (append-nil s.dispatched) ∙ ap (◌++◌ s.dispatched) (sym empty) ∙ e
