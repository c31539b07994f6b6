-- ===== src/Receive/Reblock/Drain.antt =====
-- The inner loop: it ends, sends complete blocks in the order of their numbers, and never finds
-- the entry at the far end of the window occupied.
use lidi_4d8d19daa.Common.{
  ℕ, zero, suc, ◌+◌, ◌≤◌, ◌<◌, ◌≡◌, refl, inl, inr, List, [], ◌∷◌, true, Result, ok, ltb, ◌==◌,
  length, All, arith, Bool-cases, lt→ltb, ltb→lt,
}
use lidi_4d8d19daa.Extern.{Extern}
use lidi_4d8d19daa.Receive.{Reassembled, lost, reassembled}
use lidi_4d8d19daa.Receive.Reblock.{
  State, Endless, is_empty, wrapping_add, window_width, take_current, drain,
}
use lidi_4d8d19daa.Receive.Reblock.Window.{IsOpen, Inv}

module _ (x : Extern) (min : ℕ) where
  -- Blocks with consecutive numbers from `from` up to `to`, each with enough packets, all its own.
  abbrev pub Consecutive : ℕ → List (Reassembled x) → ℕ → Type 0
  Consecutive from [] to = from ≡ to
  Consecutive from (lost ∷ outs) to = ⊥
  Consecutive from (reassembled id packets ∷ outs) to =
      (id ≡ from)
      × (min ≤ length packets)
      × All (λ p. x.source_block_number p ≡ id) packets
      × Consecutive (wrapping_add from 1) outs to

  -- The entries from the `n`-th after the current one on are empty.
  abbrev pub EmptyFrom : ℕ → State x → Type 0
  EmptyFrom n s = (j : ℕ) → n ≤ j → j < 256 → s.blocks_data (wrapping_add s.cur_id j) ≡ []

  abbrev pub next_state : State x → State x
  next_state s = record (take_current s) { cur_id = wrapping_add s.cur_id 1 }

  module _ (s : State x) (v : Inv x s) (w : IsOpen x s) where
    pub next-IsOpen : IsOpen x (next_state s)
    unfolding take_current
    next-IsOpen i hi = ground (arith, w i hi, v.current)

    pub next-Inv : Inv x (next_state s)
    next-Inv = record {
      current = unfold take_current in omega arith;
      clean = unfold take_current in λ i hi e. ground (arith, v.clean i hi, v.current);
      owned =
          unfold take_current in
          λ i hi. elim (Bool-cases (i == s.cur_id)) [
            | inl e ↦ rw e tt
            | inr e ↦ rw e (v.owned i hi)
          ];
      windowed = inr next-IsOpen;
    }

    next-EmptyFrom : (n : ℕ) → EmptyFrom (suc n) s → EmptyFrom n (next_state s)
    unfolding take_current
    next-EmptyFrom n empty j hj hk = ground (arith, empty (j + 1) (omega arith), v.current)

    -- The entry that enters the window is empty.
    pub far_empty :
        is_empty ((take_current s).blocks_data (wrapping_add s.cur_id window_width)) ≡ true
    unfolding take_current
    far_empty = ground (
      arith,
      v.current,
      w (wrapping_add s.cur_id window_width) (omega arith),
      v.clean (wrapping_add s.cur_id window_width) (omega arith),
    )

  -- What the inner loop returns.
  abbrev pub Drained : State x → Result Endless (State x × List (Reassembled x)) → Type 0
  Drained s result =
      (t : State x) × (outs : List (Reassembled x)) × (result ≡ ok (t, outs))
      × Inv x t
      × IsOpen x t
      × Consecutive s.cur_id outs t.cur_id
      × (length (t.blocks_data t.cur_id) < min)
      × (t.reset ≡ s.reset)

  -- With at least one packet to wait for, the loop ends within one round for each entry.
  pub drain-Drained :
      (n : ℕ) (s : State x)
      → 0 < min
      → Inv x s
      → IsOpen x s
      → EmptyFrom n s
      → Drained s (drain (suc n) min s)
  unfolding drain take_current
  drain-Drained zero s pos v w empty =
      let all_gone : length (s.blocks_data s.cur_id) < min =
        ground (arith, empty 0 (omega arith), v.current) in
      rw (lt→ltb _ _ all_gone) (s, [], refl, v, w, refl, all_gone, refl)
  drain-Drained (suc n) s pos v w empty =
      elim (Bool-cases (ltb (length (s.blocks_data s.cur_id)) min)) [
        | inl few ↦ rw few (s, [], refl, v, w, refl, ltb→lt _ _ few, refl)
        | inr enough ↦
            let (t, outs, e, v', w', c, few, same) =
              drain-Drained n (next_state s) pos (next-Inv s v w) (next-IsOpen s v w)
                (next-EmptyFrom s v w n empty) in
            rw (enough, far_empty s v w, e)
              (
                t,
                reassembled s.cur_id (s.blocks_data s.cur_id) ∷ outs,
                refl,
                v',
                w',
                (refl, ground arith, v.owned s.cur_id v.current, c),
                few,
                same,
              )
      ]
