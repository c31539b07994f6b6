-- ===== src/Send/Client/Owned.antt =====
-- Every block of a client worker is of its client, however its reads end.
use lidi_4d8d19daa.Common.{
  ℕ, ◌-◌, ◌^◌, ◌≤◌, ◌<◌, ◌≡◌, List, [], ◌∷◌, ◌++◌, none, some, Bool, true, false, not, ◌&&◌, ◌||◌,
  ltb, leb, ◌==◌, length, take, drop, length-append, length-take, All, arith, Bool-cases, lt→ltb,
  inl, inr, refl,
}
use lidi_4d8d19daa.Common.Reader.{Wait, ready, fault, read_size}
use lidi_4d8d19daa.Extern.{Extern}
use lidi_4d8d19daa.Protocol.Raptorq.{RaptorQ}
use lidi_4d8d19daa.Protocol.Block.{BlockType, start, chunk, end, new, max_data_len}
use lidi_4d8d19daa.Protocol.Block.Format.{accessors-new, accessors-new-none}
use lidi_4d8d19daa.Protocol.Block.Owner.{is_heartbeat, IsOwned}
use lidi_4d8d19daa.Send.Client.{Run, stop, emit, finished, loop, start_client}
use lidi_4d8d19daa.Send.Client.Stream.{max_data_len-eq}

module _ (x : Extern) (r : RaptorQ x) (id : ℕ) (known : id < 2 ^ 32) where
  abbrev AllOwned : Run → Type 0
  AllOwned run = All (IsOwned id) run.blocks

  emit-IsOwned :
      (t : BlockType) (bytes : List ℕ) (rest : Run)
      → is_heartbeat t ≡ false
      → length bytes < 2 ^ 32
      → AllOwned rest
      → AllOwned (emit (new x t r id (some bytes)) rest)
  emit-IsOwned t bytes rest quiet h all =
      let (b, made, typed, owned, p) = accessors-new x t r id bytes known h in
      rw made (record { kind = t; typed = typed; no_beat = quiet; owned = owned }, all)

  -- Blocks without data, which the worker makes of a start and of an abort.
  pub unfilled-IsOwned :
      (t : BlockType) (rest : Run)
      → is_heartbeat t ≡ false
      → 9 ≤ r.transfer_length
      → All (IsOwned id) rest.blocks
      → All (IsOwned id) (emit (new x t r id none) rest).blocks
  unfilled-IsOwned t rest quiet h all =
      let (b, made, typed, owned, p, len) = accessors-new-none x t r id known h in
      rw made (record { kind = t; typed = typed; no_beat = quiet; owned = owned }, all)

  module _ (flush : Bool) (room : max_data_len x r < 2 ^ 32) where
    loop-IsOwned :
        (ws : List Wait) (stream filled : List ℕ)
        → length filled < max_data_len x r
        → AllOwned (loop x flush r id ws stream filled)
    unfolding loop
    loop-IsOwned [] stream filled h = tt
    loop-IsOwned (fault e ∷ ws) stream filled h = tt
    loop-IsOwned (ready n ∷ ws) stream filled h =
        elim (Bool-cases
          (ltb 0 (length got) && not (flush || leb (max_data_len x r) (length (filled ++ got))))) [
            | inl more ↦ rw more (loop-IsOwned ws rest (filled ++ got) (ground arith))
            | inr full ↦ rw full (elim (Bool-cases (length got == 0)) [
              | inl at_end ↦
                  rw at_end (emit-IsOwned end (filled ++ got) (stop finished) refl short tt)
              | inr some_read ↦ rw some_read (
                  emit-IsOwned chunk (filled ++ got) (loop x flush r id ws rest []) refl short
                    (loop-IsOwned ws rest [] (omega arith)))
            ])
          ]
      where
        size : ℕ
        size = read_size (max_data_len x r - length filled) n

        got : List ℕ
        got = take size stream

        rest : List ℕ
        rest = drop size stream

        short : length (filled ++ got) < 2 ^ 32
        short = omega (arith, length-append filled got, length-take size stream)

pub start_client-IsOwned :
    (x : Extern) (flush : Bool) (r : RaptorQ x) (id : ℕ) (ws : List Wait) (stream : List ℕ)
    → id < 2 ^ 32
    → 10 ≤ r.transfer_length
    → r.transfer_length < 2 ^ 32
    → All (IsOwned id) (start_client x flush r id ws stream).blocks
unfolding start_client
start_client-IsOwned x flush r id ws stream known room small =
    let size = max_data_len-eq x r room small in
    let fits : ltb (max_data_len x r) (2 ^ 63) ≡ true = lt→ltb _ _ (omega (arith, size)) in
    rw fits (
      unfilled-IsOwned x r id known start (loop x flush r id ws stream []) refl (omega arith)
        (loop-IsOwned x r id known flush (omega (arith, size)) ws stream [] (omega (arith, size))))
