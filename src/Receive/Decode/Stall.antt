-- ===== src/Receive/Decode/Stall.antt =====
-- What a block that does not decode does to the blocks behind it.
use lidi_4d8d19daa.Common.{
  ℕ, ◌≡◌, ◌≢◌, refl, ◌∙◌, List, [], ◌∷◌, ◌++◌, none, some, length, All, arith,
}
use lidi_4d8d19daa.Extern.{Extern}
use lidi_4d8d19daa.Protocol.Raptorq.{RaptorQ, decode}
use lidi_4d8d19daa.Protocol.Block.{Block, deserialize}
use lidi_4d8d19daa.Receive.{Reassembled, reassembled}
use lidi_4d8d19daa.Receive.Decode.{
  State, Step, arrive, fail, pass_on, take_block, release, Later, now, and_then,
}

module _ (x : Extern) (r : RaptorQ x) (nb : ℕ) where
  -- Every worker holds a block, and none of them is due.
  record IsStuck (s : State x) : Type 0 where
    busy : length s.held ≡ nb
    not_due : All (λ n. n.0 ≢ s.block_to_dispatch) s.held

  due_not_held :
      (due : ℕ) (n : ℕ × Block) (before after : List (ℕ × Block))
      → All (λ m. m.0 ≢ due) (before ++ n ∷ after)
      → n.0 ≢ due
  due_not_held due n [] after h = h.0
  due_not_held due n (m ∷ before) after h = due_not_held due n before after h.1

  IsStuck-Step :
      {s t : State x} → Step x r nb s t → IsStuck s → IsStuck t × (t.dispatched ≡ s.dispatched)
  IsStuck-Step (arrive message) v = (record { busy = v.busy; not_due = v.not_due }, refl)
  IsStuck-Step (fail id packets rest e h d) v = absurd (omega (arith, v.busy))
  IsStuck-Step (pass_on rest e h) v = absurd (omega (arith, v.busy))
  IsStuck-Step (take_block id packets bytes rest e h d) v = absurd (omega (arith, v.busy))
  IsStuck-Step {s} (release n before after e due) v =
      absurd (due_not_held s.block_to_dispatch n before after (rw e at v.not_due) due)

  IsStuck-Later :
      {s t : State x} → Later x r nb s t → IsStuck s → IsStuck t × (t.dispatched ≡ s.dispatched)
  IsStuck-Later now v = (v, refl)
  IsStuck-Later (and_then later step) v =
      let (v', e) = IsStuck-Later later v in let (v'', e') = IsStuck-Step step v' in (v'', e' ∙ e)

-- With one decoding worker: when the block that is due does not decode and the next block in the
-- queue does, the worker can come to wait for a turn that never comes. The failure is reported
-- once, and nothing more is sent to the dispatch worker, whatever arrives, until the reblock
-- worker starts again.
pub failed_block_stalls :
    (x : Extern) (r : RaptorQ x) (s : State x) (id : ℕ) (packets packets' : List x.Packet) (id' : ℕ)
    (bytes : List ℕ) (rest : List (Reassembled x))
    → s.held ≡ []
    → s.block_to_dispatch ≡ id
    → s.for_decode ≡ reassembled id packets ∷ reassembled id' packets' ∷ rest
    → decode x r id packets ≡ none
    → decode x r id' packets' ≡ some bytes
    → id' ≢ id
    → (t : State x) × Later x r 1 s t
      × (t.dispatched ≡ s.dispatched ++ none ∷ [])
      × ((u : State x) → Later x r 1 t u → u.dispatched ≡ t.dispatched)
failed_block_stalls x r s id packets packets' id' bytes rest idle due queued lost_one good other = (
  record s {
    for_decode = rest;
    held = s.held ++ (id', deserialize bytes) ∷ [];
    dispatched = s.dispatched ++ none ∷ [];
  },
  and_then
      (and_then now
        (fail id packets (reassembled id' packets' ∷ rest) queued (rw idle (omega arith)) lost_one))
      (take_block id' packets' bytes rest refl (rw idle (omega arith)) good),
  refl,
  λ u later. (IsStuck-Later x r 1 later stuck).1,
)
  where
    stuck : IsStuck x r 1 (record s {
      for_decode = rest;
      held = s.held ++ (id', deserialize bytes) ∷ [];
      dispatched = s.dispatched ++ none ∷ [];
    })
    stuck = record { busy = rw idle; not_due = rw idle ((λ same. other (same ∙ due)), tt) }
