-- ===== src/Receive/Reblock/Run.antt =====
-- The reblock worker on every sequence of events.
use lidi_4d8d19daa.Common.{
  ℕ, zero, suc, ◌≤◌, ◌<◌, ◌≡◌, refl, sym, ◌∙◌, inl, inr, List, [], ◌∷◌, ◌++◌, Bool, true, false,
  not, Result, ok, ◌&&◌, if◌then◌else◌, length, All, All-append, arith,
}
use mathlib.Core.Bool.{false≢true}
use lidi_4d8d19daa.Extern.{Extern, ExternLaws}
use lidi_4d8d19daa.Udp.{Datagrams, single, multiple}
use lidi_4d8d19daa.Receive.{Reassembled, lost, reassembled}
use lidi_4d8d19daa.Receive.Reblock.{
  State, Endless, Event, timeout, received, init_state, any_below, is_empty, wrapping_add, restart,
  on_timeout, drain, run,
}
use lidi_4d8d19daa.Receive.Reblock.Readable.{
  IsNonempty, AllReadable-AllNonempty, number_of, put_datagrams, readable_round, readable_run,
  IsReadable, run-readable_run,
}
use lidi_4d8d19daa.Receive.Reblock.Window.{
  IsOpen, Inv, restart-Inv, restart-IsOpen, push_datagrams-Inv,
}
use lidi_4d8d19daa.Receive.Reblock.Drain.{Consecutive, drain-Drained}

any_below-false : (n : ℕ) (p : ℕ → Bool) → ((i : ℕ) → i < n → p i ≡ false) → any_below n p ≡ false
any_below-false zero p h = refl
any_below-false (suc n) p h =
    rw (h n (omega arith)) (any_below-false n p (λ i hi. h i (omega arith)))

module _ (x : Extern) (min : ℕ) where
  -- A block with at least the minimal number of packets, all with the number of the block.
  abbrev pub IsComplete : Reassembled x → Type 0
  IsComplete lost = ⊥
  IsComplete (reassembled id packets) =
      (min ≤ length packets) × All (λ p. x.source_block_number p ≡ id) packets

module _ (x : Extern) (laws : ExternLaws x) (min : ℕ) (pos : 0 < min) where
  Consecutive-IsComplete :
      (from to : ℕ) (outs : List (Reassembled x))
      → Consecutive x min from outs to
      → All (IsComplete x min) outs
  Consecutive-IsComplete from to [] c = tt
  Consecutive-IsComplete from to (lost ∷ outs) c = absurd c
  Consecutive-IsComplete from to (reassembled id packets ∷ outs) (e, h, own, c) =
      ((h, own), Consecutive-IsComplete (wrapping_add from 1) to outs c)

  -- The test of the timeout branch: an entry that is ignored and not empty. There is none.
  not_damaged :
      (s : State x)
      → Inv x s
      → any_below 256 (λ id. s.blocks_ignore id && not (is_empty (s.blocks_data id))) ≡ false
  not_damaged s v =
      any_below-false 256 (λ id. s.blocks_ignore id && not (is_empty (s.blocks_data id)))
        (λ i hi. ground (arith, v.clean i hi))

  abbrev pub Rounded : Result Endless (State x × List (Reassembled x)) → Type 0
  Rounded result =
      (t : State x) × (outs : List (Reassembled x)) × (result ≡ ok (t, outs))
      × Inv x t
      × All (IsComplete x min) outs

  pushed-Rounded :
      (s : State x) (datagrams : Datagrams)
      → Inv x s
      → IsOpen x s
      → Rounded (drain 257 min (put_datagrams s datagrams))
  pushed-Rounded s datagrams v w =
      let (v', w') = push_datagrams-Inv x laws s datagrams v w in
      let (t, outs, e, vt, wt, c, few, same) =
        drain-Drained x min 256 (put_datagrams s datagrams) pos v' w'
          (λ j h k. absurd (omega arith)) in
      (t, outs, e, vt, Consecutive-IsComplete (put_datagrams s datagrams).cur_id t.cur_id outs c)

  -- The state in which the datagrams of a round are stored, by the flag `reset`.
  abbrev pub prepared : Bool → State x → ℕ → State x
  prepared b s id = if b then restart s id else s

  pub prepared-Inv :
      (b : Bool) (s : State x) (id : ℕ)
      → s.reset ≡ b
      → id < 256
      → Inv x s
      → Inv x (prepared b s id) × IsOpen x (prepared b s id)
  prepared-Inv true s id e h v = (restart-Inv x s id h, restart-IsOpen x s id h)
  prepared-Inv false s id e h v =
      (v, elim v.windowed [ inl r ↦ absurd (false≢true (sym e ∙ r)) | inr w ↦ w ])

  round-timeout : (s : State x) → Inv x s → Rounded (ok (on_timeout s))
  unfolding on_timeout
  round-timeout s v = rw (not_damaged s v) (
    record s { reset = true },
    [],
    refl,
    record { current = v.current; clean = v.clean; owned = v.owned; windowed = inl refl },
    tt,
  )

  pub round-Rounded :
      (s : State x) (e : Event) → Inv x s → IsNonempty e → Rounded (readable_round min s e)
  unfolding readable_round
  round-Rounded s timeout v h = round-timeout s v
  round-Rounded s (received (multiple [])) v h = absurd h
  round-Rounded s (received (single d)) v h =
      let (v', w') = prepared-Inv s.reset s (number_of x d) refl (laws.number-lt _) v in
      pushed-Rounded (prepared s.reset s (number_of x d)) (single d) v' w'
  round-Rounded s (received (multiple (d ∷ ds))) v h =
      let (v', w') = prepared-Inv s.reset s (number_of x d) refl (laws.number-lt _) v in
      pushed-Rounded (prepared s.reset s (number_of x d)) (multiple (d ∷ ds)) v' w'

  pub init-Inv : Inv x (init_state x)
  init-Inv = record {
    current = omega arith;
    clean = λ i h e. refl;
    owned = λ i h. tt;
    windowed = inl refl;
  }

  pub run-Rounded :
      (s : State x) (es : List Event)
      → Inv x s
      → All IsNonempty es
      → Rounded (readable_run min s es)
  unfolding readable_run
  run-Rounded s [] v h = (s, [], refl, v, tt)
  run-Rounded s (e ∷ es) v (he, hes) =
      let (t, outs, first, vt, good) = round-Rounded s e v he in
      let (u, more, rest, vu, better) = run-Rounded t es vt hes in
      rw (first, rest)
        (u, outs ++ more, refl, vu, All-append (IsComplete x min) outs more good better)

  -- Where the minimal number of packets is positive, no batch is empty and every datagram has the
  -- header that `EncodingPacket::deserialize` reads, whatever datagrams and timeouts arrive, in
  -- whatever order: the worker never stops or panics, its inner loop ends, and every message to the
  -- decoding workers is a block with at least the minimal number of packets, all of that block. In
  -- particular it never reports a lost block, not after a timeout in the middle of a block either.
  pub run-IsComplete :
      (es : List Event)
      → All (IsReadable x) es
      → (t : State x) × (outs : List (Reassembled x)) × (run min (init_state x) es ≡ ok (t, outs))
        × All (IsComplete x min) outs
  run-IsComplete es h =
      let (t, outs, e, v, good) =
        run-Rounded (init_state x) es init-Inv (AllReadable-AllNonempty x es h) in
      (t, outs, run-readable_run min (init_state x) es h ∙ e, good)
