-- ===== src/Receive/Reblock/Link.antt =====
-- The reblock worker on packets that arrive in the order of their blocks.
use lidi_4d8d19daa.Common.{
  ℕ, ◌≤◌, ◌<◌, ◌≡◌, refl, sym, ap, ◌∙◌, List, [], ◌∷◌, ◌++◌, Bool, true, ok, bind_ok, if◌then◌else◌,
  length, take, concat, append_assoc, All, arith,
}
use mathlib.Core.Path.{subst}
use mathlib.Core.List.{map-append}
use lidi_4d8d19daa.Extern.{Extern, ExternLaws}
use lidi_4d8d19daa.Udp.{single}
use lidi_4d8d19daa.Receive.{Reassembled, reassembled}
use lidi_4d8d19daa.Receive.Reblock.{State, Event, received, wrapping_add, restart, drain, run}
use lidi_4d8d19daa.Receive.Reblock.Readable.{
  number_of, put_datagrams, readable_round, readable_run, IsReadable, run-readable_run,
}
use lidi_4d8d19daa.Receive.Reblock.Window.{restart-IsOpen, restart-Inv}
use lidi_4d8d19daa.Receive.Reblock.Collect.{
  arrival, singles, Collects, number_of_lem, run-block, run-cons,
}

module _ (x : Extern) (laws : ExternLaws x) (min : ℕ) (pos : 0 < min) where
  -- Packets of consecutive blocks from `id` on, enough of each.
  abbrev pub InTurn : ℕ → List (List x.Packet) → Type 0
  InTurn id [] = Unit {0}
  InTurn id (packets ∷ blocks) =
      (min ≤ length packets)
      × All (λ p. x.source_block_number p ≡ id) packets
      × InTurn (wrapping_add id 1) blocks

  -- Each block with the first packets of it.
  abbrev pub first_packets : ℕ → List (List x.Packet) → List (Reassembled x)
  first_packets id [] = []
  first_packets id (packets ∷ blocks) =
      reassembled id (take min packets) ∷ first_packets (wrapping_add id 1) blocks

  run-append :
      (es fs : List Event) (s t u : State x) (outs more : List (Reassembled x))
      → readable_run min s es ≡ ok (t, outs)
      → readable_run min t fs ≡ ok (u, more)
      → readable_run min s (es ++ fs) ≡ ok (u, outs ++ more)
  unfolding readable_run
  run-append [] fs s t u outs more first rest =
      let same : ◌≡◌ {A = State x × List (Reassembled x)} (s, []) (t, outs) = cc first in
      subst
        (λ (p : State x × List (Reassembled x)).
          readable_run min p.0 fs ≡ ok (u, more) → readable_run min s fs ≡ ok (u, p.1 ++ more))
        same (λ e. e) rest
  run-append (e ∷ es) fs s t u outs more first rest =
      let ((v, here), e1, e') = bind_ok (readable_round min s e) _ (t, outs) first in
      let ((w, later), e2, e3) = bind_ok (readable_run min v es) _ (t, outs) e' in
      let same : ◌≡◌ {A = State x × List (Reassembled x)} (w, here ++ later) (t, outs) = cc e3 in
      let tail = run-append es fs v w u later more e2 (
        subst (λ (p : State x × List (Reassembled x)). readable_run min p.0 fs ≡ ok (u, more))
          (sym same) rest) in
      run-cons x laws min pos s v u e (es ++ fs) here (later ++ more) e1 tail
      ∙ ap (λ (l : List (Reassembled x)). ok (u, l))
          (sym (append_assoc here later more)
            ∙ ap (λ (p : State x × List (Reassembled x)). p.1 ++ more) same)

  run-blocks :
      (blocks : List (List x.Packet)) (s : State x)
      → Collects x [] s
      → InTurn s.cur_id blocks
      → (t : State x) × (readable_run min s (singles x (concat blocks))
          ≡ ok (t, first_packets s.cur_id blocks))
  unfolding readable_run
  run-blocks [] s v h = (s, refl)
  run-blocks (packets ∷ blocks) s v (enough, own, rest) =
      let (t, ran, moved, v') = run-block x laws min pos [] packets s pos (omega arith) v own in
      let (u, rans) = run-blocks blocks t v' (rw moved rest) in
      (
        u,
        rw (map-append (arrival x) packets (concat blocks)) (
            run-append (singles x packets) (singles x (concat blocks)) s t u _ _ ran
              (rw moved at rans)),
      )

  restart-Collects : (s : State x) (id : ℕ) → id < 256 → Collects x [] (restart s id)
  restart-Collects s id h = record {
    inv = restart-Inv x s id h;
    steady = unfold restart in refl;
    open_from = restart-IsOpen x s id h;
    has = unfold restart in refl;
    others = unfold restart in λ i hi other. refl;
  }

  fresh :
      (b : Bool) (s : State x) (id : ℕ) → b ≡ true → (if b then restart s id else s) ≡ restart s id
  fresh b s id e = rw e refl

  -- After a reset the first datagram opens the window afresh.
  round-restart :
      (s : State x) (d : List ℕ) (id : ℕ)
      → s.reset ≡ true
      → number_of x d ≡ id
      → readable_round min s (received (single d))
        ≡ readable_round min (restart s id) (received (single d))
  unfolding readable_round restart
  round-restart s d id e same =
      ap (λ (r : State x). drain 257 min (put_datagrams r (single d)))
        (fresh s.reset s (number_of x d) e ∙ ap (restart s) same)

  run-round :
      (s t : State x) (e : Event) (es : List Event)
      → readable_round min s e ≡ readable_round min t e
      → readable_run min s (e ∷ es) ≡ readable_run min t (e ∷ es)
  unfolding readable_run
  run-round s t e es h = rw h refl

  -- `run-InTurn` for `readable_run`.
  in_turn :
      (blocks : List (List x.Packet)) (s : State x) (id : ℕ)
      → s.reset ≡ true
      → id < 256
      → InTurn id blocks
      → (t : State x) × (readable_run min s (singles x (concat blocks))
          ≡ ok (t, first_packets id blocks))
  unfolding readable_run
  in_turn [] s id e h turn = (s, refl)
  in_turn ([] ∷ blocks) s id e h turn = absurd (omega (arith, turn.0))
  in_turn ((p ∷ packets) ∷ blocks) s id e h turn =
      let same : number_of x (x.serialize_packet p) ≡ id =
        number_of_lem x laws min pos p ∙ turn.1.0 in
      let (t, ran) =
        run-blocks ((p ∷ packets) ∷ blocks) (restart s id) (restart-Collects s id h)
          (unfold restart in turn) in
      (
        t,
        run-round s (restart s id) (arrival x p) (singles x (packets ++ concat blocks))
              (round-restart s (x.serialize_packet p) id e same)
            ∙ ran
            ∙ unfold restart in refl,
      )

  singles-IsReadable : (packets : List x.Packet) → All (IsReadable x) (singles x packets)
  singles-IsReadable [] = tt
  singles-IsReadable (p ∷ packets) = (laws.deserializes-serialize p, singles-IsReadable packets)

  -- Packets that arrive after a reset in the order of their blocks, each in a datagram of its own,
  -- at least the minimal number of each of the consecutive blocks from `id` on: the worker sends
  -- on each block once, in order, with the packets that arrived first.
  pub run-InTurn :
      (blocks : List (List x.Packet)) (s : State x) (id : ℕ)
      → s.reset ≡ true
      → id < 256
      → InTurn id blocks
      → (t : State x) × (run min s (singles x (concat blocks)) ≡ ok (t, first_packets id blocks))
  run-InTurn blocks s id e h turn =
      let (t, ran) = in_turn blocks s id e h turn in
      (
        t,
        run-readable_run min s (singles x (concat blocks)) (singles-IsReadable (concat blocks))
            ∙ ran,
      )
