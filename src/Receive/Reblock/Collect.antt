-- ===== src/Receive/Reblock/Collect.antt =====
-- The reblock worker while packets of the current block come in, up to the point where it sends it on.
use lidi_4d8d19daa.Common.{
  ℕ, suc, ◌+◌, ◌≤◌, ◌<◌, ◌≡◌, ◌≢◌, refl, sym, ap, ◌∙◌, inl, inr, List, [], ◌∷◌, ◌++◌, Bool, true,
  false, ok, if◌then◌else◌, ltb, length, length-append, take, take-append, map, append_assoc, All,
  arith, Bool-cases, lt→ltb, ltb→lt, ==_refl,
}
use mathlib.Core.Path.{subst}
use lidi_4d8d19daa.Extern.{Extern, ExternLaws}
use lidi_4d8d19daa.Udp.{single}
use lidi_4d8d19daa.Receive.{Reassembled, reassembled}
use lidi_4d8d19daa.Receive.Reblock.{
  State, Event, received, update, wrapping_add, window_width, restart, take_current, drain,
}
use lidi_4d8d19daa.Receive.Reblock.Readable.{
  number_of, put, put_datagrams, readable_round, readable_run,
}
use lidi_4d8d19daa.Receive.Reblock.Window.{offset, Inv, IsOpen, push-Inv}
use lidi_4d8d19daa.Receive.Reblock.Drain.{next_state, next-IsOpen, next-Inv, far_empty}

module _ (x : Extern) where
  abbrev pub arrival : x.Packet → Event
  arrival p = received (single (x.serialize_packet p))

  -- Each packet in a datagram of its own.
  abbrev pub singles : List x.Packet → List Event
  singles packets = map arrival packets

  -- The current block has some packets, and no other block has any.
  pub record Collects (packets : List x.Packet) (s : State x) : Type 0 where
    pub inv : Inv x s
    pub steady : s.reset ≡ false
    pub open_from : IsOpen x s
    pub has : s.blocks_data s.cur_id ≡ packets
    pub others : (i : ℕ) → i < 256 → i ≢ s.cur_id → s.blocks_data i ≡ []

module _ (x : Extern) (laws : ExternLaws x) (min : ℕ) (pos : 0 < min) where
  pub number_of_lem : (p : x.Packet) → number_of x (x.serialize_packet p) ≡ x.source_block_number p
  number_of_lem p = ap x.source_block_number (laws.deserialize-serialize p)

  stored : State x → x.Packet → State x
  stored s p = record s {
    blocks_data = update s.blocks_data s.cur_id (s.blocks_data s.cur_id ++ p ∷ []);
  }

  push-current :
      (s : State x) (p : x.Packet)
      → IsOpen x s
      → s.cur_id < 256
      → x.source_block_number p ≡ s.cur_id
      → put s (x.serialize_packet p) ≡ stored s p
  unfolding put stored
  push-current s p w h e =
      let accepted : s.blocks_ignore s.cur_id ≡ false = w s.cur_id h ∙ ground arith in
      rw (number_of_lem p ∙ e, accepted, laws.deserialize-serialize p) refl

  stored-Collects :
      (packets : List x.Packet) (s : State x) (p : x.Packet)
      → Collects x packets s
      → x.source_block_number p ≡ s.cur_id
      → Collects x (packets ++ p ∷ []) (stored s p)
  unfolding stored
  stored-Collects packets s p v e = record {
    inv =
        subst (Inv x) (push-current s p v.open_from v.inv.current e)
          (push-Inv x laws s (x.serialize_packet p) v.inv);
    steady = v.steady;
    open_from = v.open_from;
    has = rw (==_refl s.cur_id, v.has) refl;
    others = λ i hi other. ground (arith, v.others i hi);
  }

  push-late :
      (s : State x) (p : x.Packet)
      → IsOpen x s
      → window_width ≤ offset s.cur_id (x.source_block_number p)
      → put s (x.serialize_packet p) ≡ s
  unfolding put
  push-late s p w late =
      let ignored : s.blocks_ignore (x.source_block_number p) ≡ true =
        w (x.source_block_number p) (laws.number-lt p) ∙ ground arith in
      rw (number_of_lem p, ignored) refl

  drain-waits :
      (packets : List x.Packet) (s : State x) (fuel : ℕ)
      → Collects x packets s
      → length packets < min
      → drain (suc fuel) min s ≡ ok (s, [])
  unfolding drain
  drain-waits packets s fuel v few = rw (v.has, lt→ltb _ _ few) refl

  pub next-Collects :
      (packets : List x.Packet) (s : State x)
      → Collects x packets s
      → Collects x [] (next_state x min s)
  unfolding take_current
  next-Collects packets s v = record {
    inv = next-Inv x min s v.inv v.open_from;
    steady = v.steady;
    open_from = next-IsOpen x min s v.inv v.open_from;
    has = ground (arith, v.others (wrapping_add s.cur_id 1), v.inv.current);
    others = λ i hi other. ground (arith, v.others i hi);
  }

  drain-emits :
      (packets : List x.Packet) (s : State x) (fuel : ℕ)
      → Collects x packets s
      → min ≤ length packets
      → drain (suc (suc fuel)) min s ≡ ok (next_state x min s, reassembled s.cur_id packets ∷ [])
  unfolding drain take_current
  drain-emits packets s fuel v enough =
      let full : ltb (length (s.blocks_data s.cur_id)) min ≡ false = rw v.has (ground arith) in
      let waits = drain-waits [] (next_state x min s) fuel (next-Collects packets s v) pos in
      rw (full, far_empty x min s v.inv v.open_from, waits)
        (ap (λ q. ok (next_state x min s, reassembled s.cur_id q ∷ [])) v.has)

  ready : (b : Bool) (s : State x) (id : ℕ) → b ≡ false → (if b then restart s id else s) ≡ s
  ready b s id e = rw e refl

  round-steady :
      (s : State x) (d : List ℕ)
      → s.reset ≡ false
      → readable_round min s (received (single d)) ≡ drain 257 min (put s d)
  unfolding readable_round put_datagrams
  round-steady s d e =
      ap (λ (r : State x). drain 257 min (put r d)) (ready s.reset s (number_of x d) e)

  pub run-cons :
      (s t u : State x) (e : Event) (es : List Event) (outs more : List (Reassembled x))
      → readable_round min s e ≡ ok (t, outs)
      → readable_run min t es ≡ ok (u, more)
      → readable_run min s (e ∷ es) ≡ ok (u, outs ++ more)
  unfolding readable_run
  run-cons s t u e es outs more first rest = rw (first, rest) refl

  round-late :
      (packets : List x.Packet) (s : State x) (p : x.Packet)
      → length packets < min
      → Collects x packets s
      → window_width ≤ offset s.cur_id (x.source_block_number p)
      → readable_round min s (received (single (x.serialize_packet p))) ≡ ok (s, [])
  round-late packets s p few v late =
      round-steady s (x.serialize_packet p) v.steady
      ∙ ap (drain 257 min) (push-late s p v.open_from late)
      ∙ drain-waits packets s 256 v few

  -- Packets of a block that was sent on are dropped.
  run-late :
      (packets rest : List x.Packet) (s : State x)
      → length packets < min
      → Collects x packets s
      → All (λ p. window_width ≤ offset s.cur_id (x.source_block_number p)) rest
      → readable_run min s (singles x rest) ≡ ok (s, [])
  unfolding readable_run
  run-late packets [] s few v late = refl
  run-late packets (p ∷ rest) s few v late =
      run-cons s s s (arrival x p) (singles x rest) [] [] (round-late packets s p few v late.0)
        (run-late packets rest s few v late.1)

  round-stores :
      (packets : List x.Packet) (s : State x) (p : x.Packet)
      → length packets + 1 < min
      → Collects x packets s
      → x.source_block_number p ≡ s.cur_id
      → readable_round min s (received (single (x.serialize_packet p))) ≡ ok (stored s p, [])
  round-stores packets s p few v own =
      round-steady s (x.serialize_packet p) v.steady
      ∙ ap (drain 257 min) (push-current s p v.open_from v.inv.current own)
      ∙ drain-waits (packets ++ p ∷ []) (stored s p) 256 (stored-Collects packets s p v own)
          (omega (arith, length-append packets (p ∷ [])))

  round-emits :
      (packets : List x.Packet) (s : State x) (p : x.Packet)
      → min ≤ length packets + 1
      → Collects x packets s
      → x.source_block_number p ≡ s.cur_id
      → readable_round min s (received (single (x.serialize_packet p)))
        ≡ ok (next_state x min (stored s p), reassembled s.cur_id (packets ++ p ∷ []) ∷ [])
  unfolding stored
  round-emits packets s p enough v own =
      round-steady s (x.serialize_packet p) v.steady
      ∙ ap (drain 257 min) (push-current s p v.open_from v.inv.current own)
      ∙ drain-emits (packets ++ p ∷ []) (stored s p) 255 (stored-Collects packets s p v own)
          (omega (arith, length-append packets (p ∷ [])))

  take-filled :
      (packets more : List x.Packet) (p : x.Packet)
      → length packets + 1 ≡ min
      → take min (packets ++ p ∷ more) ≡ packets ++ p ∷ []
  take-filled packets more p e =
      rw (← append_assoc packets (p ∷ []) more, ← length_eq) (take-append (packets ++ p ∷ []) more)
    where
      length_eq : length (packets ++ p ∷ []) ≡ min
      length_eq = omega (arith, length-append packets (p ∷ []), e)

  passed :
      (id : ℕ) (packets : List x.Packet)
      → id < 256
      → All (λ p. x.source_block_number p ≡ id) packets
      → All (λ p. window_width ≤ offset (wrapping_add id 1) (x.source_block_number p)) packets
  passed id [] h own = tt
  passed id (p ∷ packets) h own = (omega (arith, own.0), passed id packets h own.1)

  -- What follows the packets that a block already has, past the point where it is sent on.
  pub run-block :
      (packets more : List x.Packet) (s : State x)
      → length packets < min
      → min ≤ length packets + length more
      → Collects x packets s
      → All (λ p. x.source_block_number p ≡ s.cur_id) more
      → (t : State x) × (readable_run min s (singles x more)
          ≡ ok (t, reassembled s.cur_id (take min (packets ++ more)) ∷ []))
        × (t.cur_id ≡ wrapping_add s.cur_id 1)
        × Collects x [] t
  unfolding stored
  run-block packets [] s few enough v own = absurd (omega arith)
  run-block packets (p ∷ more) s few enough v own =
      let w = stored-Collects packets s p v own.0 in
      let size = length-append packets (p ∷ []) in
      elim (Bool-cases (ltb (length packets + 1) min)) [
        | inl fewer ↦
            let h = ltb→lt _ _ fewer in
            let (t, ran, moved, v') =
              run-block (packets ++ p ∷ []) more (stored s p) (omega (arith, size))
                (omega (arith, size)) w own.1 in
            (
              t,
              run-cons s (stored s p) t (arrival x p) (singles x more) [] _
                    (round-stores packets s p h v own.0) ran
                  ∙ ap (λ l. ok (t, reassembled s.cur_id (take min l) ∷ []))
                      (append_assoc packets (p ∷ []) more),
              moved,
              v',
            )
        | inr full ↦
            let t : State x = next_state x min (stored s p) in
            let h : min ≤ length packets + 1 = ground arith in
            let v' = next-Collects (packets ++ p ∷ []) (stored s p) w in
            (
              t,
              run-cons s t t (arrival x p) (singles x more) _ [] (round-emits packets s p h v own.0)
                    (run-late [] more t pos v' (passed s.cur_id more v.inv.current own.1))
                  ∙ ap (λ l. ok (t, reassembled s.cur_id l ∷ []))
                      (sym (take-filled packets more p (omega arith))),
              refl,
              v',
            )
      ]
