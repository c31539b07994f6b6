-- ===== src/Send/Server/Cut.antt =====
-- A client whose connection fails.
use lidi_4d8d19daa.Common.{
  ℕ, ◌-◌, ◌^◌, ◌≤◌, ◌<◌, ◌≡◌, ◌≢◌, refl, sym, ap, ◌∙◌, List, [], ◌∷◌, ◌++◌, none, some, Bool, true,
  not, ◌&&◌, ◌||◌, ok, ltb, leb, ◌==◌, length, take, drop, length-append, length-take,
  take-append-drop, append_assoc, arith, Bool-cases, lt→ltb, inl, inr,
}
use mathlib.Core.Path.{subst}
use lidi_4d8d19daa.Common.Reader.{Wait, ready, fault, read_size}
use lidi_4d8d19daa.Extern.{Extern}
use lidi_4d8d19daa.Protocol.Raptorq.{RaptorQ}
use lidi_4d8d19daa.Protocol.Block.{Block, start, chunk, abort, end, new, max_data_len}
use lidi_4d8d19daa.Protocol.Block.Format.{accessors-new, accessors-new-none}
use lidi_4d8d19daa.Send.{Error}
use lidi_4d8d19daa.Send.Client.{Run, Status, finished, failed, emit, stop, loop, start_client}
use lidi_4d8d19daa.Send.Client.Stream.{IsBlock, max_data_len-eq}
use lidi_4d8d19daa.Send.Server.{Incoming, serve_client}

-- Data blocks of one client, whose payloads together are the bytes.
pub data Chunks (id : ℕ) : List Block → List ℕ → Type 0 where
  none_left : Chunks id [] []
  chunk_then :
      {b : Block} {bs : List Block} {front back : List ℕ}
      → IsBlock chunk id front b
      → Chunks id bs back
      → Chunks id (b ∷ bs) (front ++ back)

module _ (x : Extern) (flush : Bool) (r : RaptorQ x) (id : ℕ) (known : id < 2 ^ 32) where
  -- The blocks carry a first part of the bytes.
  abbrev IsPart : Run → List ℕ → Type 0
  IsPart run bytes =
      (front : List ℕ) × (back : List ℕ) × Chunks id run.blocks front × (front ++ back ≡ bytes)

  IsPart-chunk :
      (bytes back : List ℕ) (rest : Run)
      → length bytes < 2 ^ 32
      → IsPart rest back
      → IsPart (emit (new x chunk r id (some bytes)) rest) (bytes ++ back)
  IsPart-chunk bytes back rest h (front, later, chunks, e) =
      let (b, made, t, c, p) = accessors-new x chunk r id bytes known h in
      rw made (
        bytes ++ front,
        later,
        chunk_then (record { typed = t; owned = c; carried = p }) chunks,
        append_assoc bytes front later ∙ ap (◌++◌ bytes) e,
      )

  end_fails_not :
      (bytes : List ℕ) (e : Error)
      → length bytes < 2 ^ 32
      → (emit (new x end r id (some bytes)) (stop finished)).status ≢ failed e
  end_fails_not bytes e h =
      let (b, made, t, c, p) = accessors-new x end r id bytes known h in rw made (λ k. cc)

  chunk_status :
      (bytes : List ℕ) (rest : Run)
      → length bytes < 2 ^ 32
      → (emit (new x chunk r id (some bytes)) rest).status ≡ rest.status
  chunk_status bytes rest h =
      let (b, made, t, c, p) = accessors-new x chunk r id bytes known h in rw made refl

  module _ (room : max_data_len x r < 2 ^ 32) where
    loop-IsPart :
        (ws : List Wait) (stream filled : List ℕ) (e : Error)
        → length filled < max_data_len x r
        → (loop x flush r id ws stream filled).status ≡ failed e
        → IsPart (loop x flush r id ws stream filled) (filled ++ stream)
    unfolding loop
    loop-IsPart [] stream filled e h = λ failing. cc
    loop-IsPart (fault f ∷ ws) stream filled e h =
        λ failing. ([], filled ++ stream, none_left, refl)
    loop-IsPart (ready n ∷ ws) stream filled e h =
        elim (Bool-cases
          (ltb 0 (length got) && not (flush || leb (max_data_len x r) (length (filled ++ got))))) [
            | inl more ↦ rw more (λ failing.
                subst (IsPart (loop x flush r id ws rest (filled ++ got))) whole
                  (loop-IsPart ws rest (filled ++ got) e (ground arith) failing))
            | inr full ↦ rw full (elim (Bool-cases (length got == 0)) [
              | inl at_end ↦
                  rw at_end (λ failing. absurd (end_fails_not (filled ++ got) e short failing))
              | inr some_read ↦ rw some_read (λ failing.
                  subst
                    (IsPart (
                      emit (new x chunk r id (some (filled ++ got)))
                        (loop x flush r id ws rest [])))
                    whole
                    (IsPart-chunk (filled ++ got) rest (loop x flush r id ws rest []) short (
                      loop-IsPart ws rest [] e (omega arith) (
                        sym (chunk_status (filled ++ got) (loop x flush r id ws rest []) short)
                        ∙ failing))))
            ])
          ]
      where
        size : ℕ
        size = read_size (max_data_len x r - length filled) n

        got : List ℕ
        got = take size stream

        rest : List ℕ
        rest = drop size stream

        short : length (filled ++ got) < 2 ^ 32
        short = omega (arith, length-append filled got, length-take size stream)

        whole : (filled ++ got) ++ rest ≡ filled ++ stream
        whole = append_assoc filled got rest ∙ ap (◌++◌ filled) (take-append-drop size stream)

start_client-loop :
    (x : Extern) (flush : Bool) (r : RaptorQ x) (id : ℕ) (ws : List Wait) (stream : List ℕ)
    (b : Block)
    → ltb (max_data_len x r) (2 ^ 63) ≡ true
    → new x start r id none ≡ ok b
    → start_client x flush r id ws stream ≡ record {
      blocks = b ∷ (loop x flush r id ws stream []).blocks;
      status = (loop x flush r id ws stream []).status;
    }
unfolding start_client
start_client-loop x flush r id ws stream b fits made = rw (fits, made) refl

serve_client-abort :
    (x : Extern) (flush : Bool) (r : RaptorQ x) (id : ℕ) (client : Incoming) (e : Error)
    (blocks : List Block) (c : Block)
    → start_client x flush r id client.reads client.stream
      ≡ record { blocks = blocks; status = failed e }
    → new x abort r id none ≡ ok c
    → serve_client x flush r id client ≡ record { blocks = blocks ++ c ∷ []; status = finished }
unfolding serve_client
serve_client-abort x flush r id client e blocks c begun made =
    rw (ap (λ k. k.status) begun, made, serve_client)
      (ap (λ (k : Run). record { blocks = k.blocks ++ c ∷ []; status = finished }) begun)

-- A client whose connection fails is sent as one start block, data blocks that together are a first
-- part of its stream, and one abort block, and serving it ends without an error.
pub serve_client-failed :
    (x : Extern) (flush : Bool) (r : RaptorQ x) (id : ℕ) (client : Incoming) (e : Error)
    → id < 2 ^ 32
    → 10 ≤ r.transfer_length
    → r.transfer_length < 2 ^ 32
    → (start_client x flush r id client.reads client.stream).status ≡ failed e
    → (b : Block) × (bs : List Block) × (c : Block) × (front : List ℕ) × (back : List ℕ)
      × (serve_client x flush r id client
          ≡ record { blocks = b ∷ (bs ++ c ∷ []); status = finished })
      × IsBlock start id [] b
      × Chunks id bs front
      × IsBlock abort id [] c
      × (front ++ back ≡ client.stream)
serve_client-failed x flush r id client e known room small failing =
    let size = max_data_len-eq x r room small in
    let fits : ltb (max_data_len x r) (2 ^ 63) ≡ true = lt→ltb _ _ (omega (arith, size)) in
    let (b, made, t, o, p, len) = accessors-new-none x start r id known (omega arith) in
    let (c, made', t', o', p', len') = accessors-new-none x abort r id known (omega arith) in
    let run : Run = loop x flush r id client.reads client.stream [] in
    let begun = start_client-loop x flush r id client.reads client.stream b fits made in
    let cut : run.status ≡ failed e = ap (λ k. k.status) (sym begun) ∙ failing in
    let (front, back, chunks, e') =
      loop-IsPart x flush r id known (omega (arith, size)) client.reads client.stream [] e
        (omega (arith, size)) cut in
    (
      b,
      (loop x flush r id client.reads client.stream []).blocks,
      c,
      front,
      back,
      serve_client-abort x flush r id client e (b ∷ run.blocks) c
          (begun ∙ ap (λ (k : Status). record { blocks = b ∷ run.blocks; status = k }) cut) made',
      record { typed = t; owned = o; carried = p },
      chunks,
      record { typed = t'; owned = o'; carried = p' },
      e',
    )
