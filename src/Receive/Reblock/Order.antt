-- ===== src/Receive/Reblock/Order.antt =====
-- The order in which the reblock worker sends blocks on, while no timeout comes.
use lidi_4d8d19daa.Common.{
  ℕ, ◌<◌, ◌≡◌, refl, sym, ◌∙◌, inl, inr, List, [], ◌∷◌, ◌++◌, some, Bool, true, false, Result, ok,
  if◌then◌else◌, All, arith, Bool-cases,
}
use mathlib.Core.Path.{subst}
use lidi_4d8d19daa.Extern.{Extern, ExternLaws}
use lidi_4d8d19daa.Udp.{Datagrams, single, multiple}
use lidi_4d8d19daa.Receive.{Reassembled, lost, reassembled}
use lidi_4d8d19daa.Receive.Reblock.{
  State, Event, timeout, received, Endless, wrapping_add, first_datagram, restart, drain, run,
}
use lidi_4d8d19daa.Receive.Reblock.Readable.{
  number_of, put, put_all, put_datagrams, readable_round, readable_run, IsReadable,
  run-readable_run,
}
use lidi_4d8d19daa.Receive.Reblock.Window.{Inv, IsOpen, push_datagrams-Inv}
use lidi_4d8d19daa.Receive.Reblock.Drain.{Consecutive, drain-Drained}
use lidi_4d8d19daa.Receive.Reblock.Run.{prepared, prepared-Inv}

module _ (x : Extern) where
  push-keeps :
      (s : State x) (d : List ℕ) → ((put s d).reset ≡ s.reset) × ((put s d).cur_id ≡ s.cur_id)
  unfolding put
  push-keeps s d = elim (Bool-cases (s.blocks_ignore (number_of x d))) [
    | inl e ↦ rw e (refl, refl)
    | inr e ↦ rw e (refl, refl)
  ]

  push_all-keeps :
      (s : State x) (ds : List (List ℕ))
      → ((put_all s ds).reset ≡ s.reset) × ((put_all s ds).cur_id ≡ s.cur_id)
  unfolding put_all
  push_all-keeps s [] = (refl, refl)
  push_all-keeps s (d ∷ ds) =
      let (here, there) = push-keeps s d in
      let (reset, cur) = push_all-keeps (put s d) ds in (reset ∙ here, cur ∙ there)

  push_datagrams-keeps :
      (s : State x) (ds : Datagrams)
      → ((put_datagrams s ds).reset ≡ s.reset) × ((put_datagrams s ds).cur_id ≡ s.cur_id)
  unfolding put_datagrams
  push_datagrams-keeps s (single d) = push-keeps s d
  push_datagrams-keeps s (multiple ds) = push_all-keeps s ds

module _ (x : Extern) (laws : ExternLaws x) (min : ℕ) (pos : 0 < min) where
  Consecutive-append :
      (a b c : ℕ) (outs more : List (Reassembled x))
      → Consecutive x min a outs b
      → Consecutive x min b more c
      → Consecutive x min a (outs ++ more) c
  Consecutive-append a b c [] more e later = subst (λ n. Consecutive x min n more c) (sym e) later
  Consecutive-append a b c (lost ∷ outs) more first later = absurd first
  Consecutive-append a b c (reassembled id packets ∷ outs) more (e, h, own, rest) later =
      (e, h, own, Consecutive-append (wrapping_add a 1) b c outs more rest later)

  -- What a round or a run sends on when the worker stands at a block number.
  abbrev Follows : ℕ → Result Endless (State x × List (Reassembled x)) → Type 0
  Follows from result =
      (t : State x) × (outs : List (Reassembled x)) × (result ≡ ok (t, outs))
      × Inv x t
      × (t.reset ≡ false)
      × Consecutive x min from outs t.cur_id

  pushed-Follows :
      (s : State x) (ds : Datagrams)
      → Inv x s
      → IsOpen x s
      → s.reset ≡ false
      → Follows s.cur_id (drain 257 min (put_datagrams s ds))
  pushed-Follows s ds v w steady =
      let (v', w') = push_datagrams-Inv x laws s ds v w in
      let (reset, cur) = push_datagrams-keeps x s ds in
      let (t, outs, e, vt, wt, c, few, same) =
        drain-Drained x min 256 (put_datagrams s ds) pos v' w' (λ j h k. absurd (omega arith)) in
      (t, outs, e, vt, same ∙ reset ∙ steady, subst (λ n. Consecutive x min n outs t.cur_id) cur c)

  -- The number at which a round starts to collect.
  abbrev pub start_number : State x → List ℕ → ℕ
  start_number s d = if s.reset then number_of x d else s.cur_id

  prepared-Follows :
      (b : Bool) (s : State x) (id : ℕ) (ds : Datagrams)
      → s.reset ≡ b
      → id < 256
      → Inv x s
      → Follows
          (if b then id else s.cur_id)
          (drain 257 min (put_datagrams (prepared x laws min pos b s id) ds))
  prepared-Follows true s id ds e h v =
      let (v', w') = prepared-Inv x laws min pos true s id e h v in
      unfold restart in pushed-Follows (restart s id) ds v' w' refl
  prepared-Follows false s id ds e h v =
      let (v', w') = prepared-Inv x laws min pos false s id e h v in pushed-Follows s ds v' w' e

  -- A batch of datagrams, and its first one.
  round-Follows :
      (s : State x) (ds : Datagrams) (d : List ℕ)
      → first_datagram ds ≡ some d
      → Inv x s
      → Follows (start_number s d) (readable_round min s (received ds))
  unfolding readable_round
  round-Follows s ds d first v =
      rw (first, readable_round)
        (prepared-Follows s.reset s (number_of x d) ds refl (laws.number-lt _) v)

  -- Batches of datagrams, no timeouts.
  abbrev pub IsBatch : Event → Type 0
  IsBatch (received ds) = (d : List ℕ) × (first_datagram ds ≡ some d)
  IsBatch _ = ⊥

  run-Follows :
      (s : State x) (es : List Event)
      → Inv x s
      → s.reset ≡ false
      → All IsBatch es
      → Follows s.cur_id (readable_run min s es)
  unfolding readable_run
  run-Follows s [] v steady h = (s, [], refl, v, steady, refl)
  run-Follows s (received ds ∷ es) v steady ((d, first), h) =
      let (t, outs, e, vt, steady', c) = round-Follows s ds d first v in
      let (u, more, e', vu, steady'', c') = run-Follows t es vt steady' h in
      let from : start_number s d ≡ s.cur_id = rw steady refl in
      (
        u,
        outs ++ more,
        rw (e, e', readable_run) refl,
        vu,
        steady'',
        Consecutive-append s.cur_id t.cur_id u.cur_id outs more
            (subst (λ n. Consecutive x min n outs t.cur_id) from c) c',
      )
  run-Follows s (timeout ∷ es) v steady (h, more) = absurd h

  -- Where the minimal number of packets is positive and every datagram has the header that
  -- `EncodingPacket::deserialize` reads, after a reset and until the next timeout, whatever
  -- datagrams arrive, in whatever order, with whatever losses and repetitions: the blocks that the worker sends on have consecutive numbers,
  -- modulo 256, from the number of the first packet on, each with at least the minimal number of
  -- packets, all its own. No number is skipped or repeated.
  pub run-Consecutive :
      (s : State x) (ds : Datagrams) (d : List ℕ) (es : List Event)
      → Inv x s
      → s.reset ≡ true
      → first_datagram ds ≡ some d
      → All IsBatch es
      → All (IsReadable x) (received ds ∷ es)
      → (t : State x) × (outs : List (Reassembled x)) × (run min s (received ds ∷ es)
          ≡ ok (t, outs))
        × Consecutive x min (number_of x d) outs t.cur_id
  unfolding readable_run
  run-Consecutive s ds d es v fresh first h readable =
      let (t, outs, e, vt, steady, c) = round-Follows s ds d first v in
      let (u, more, e', vu, steady', c') = run-Follows t es vt steady h in
      let from : start_number s d ≡ number_of x d = rw fresh refl in
      (
        u,
        outs ++ more,
        run-readable_run min s (received ds ∷ es) readable ∙ rw (e, e', readable_run) refl,
        Consecutive-append (number_of x d) t.cur_id u.cur_id outs more
            (subst (λ n. Consecutive x min n outs t.cur_id) from c) c',
      )
