-- ===== src/Send/Pipeline/Invariant.antt =====
-- Where the blocks of a reachable pipeline are, and what each step does to that.
use lidi_4d8d19daa.Common.{
  ℕ, suc, ◌+◌, ◌%◌, ◌≤◌, ◌≡◌, refl, sym, ap, ◌∙◌, List, [], ◌∷◌, ◌++◌, length, length-append,
  append_assoc, append-nil, map, arith,
}
use mathlib.Core.List.{map-append}
use lidi_4d8d19daa.Extern.{Extern}
use lidi_4d8d19daa.Protocol.Raptorq.{RaptorQ}
use lidi_4d8d19daa.Protocol.Block.{Block}
use lidi_4d8d19daa.Send.Pipeline.{
  Pipeline, Numbered, in_hand, encoded, init_pipeline, Step, feed, feed_stop, order_take, order_put,
  order_stop, order_return, take_block, take_stop, encoder_return, release, udp_send, udp_stop,
  udp_fail, drain_fail, drain_send, drain_stop, drain_end,
}
use lidi_4d8d19daa.Send.Pipeline.Numbering.{number, somes, somes-append, number-snoc, number-split}

-- Where the blocks are: `done` have been sent on, the rest of those that were numbered wait.
pub record Inv (x : Extern) (r : RaptorQ x) (s : Pipeline x) : Type 0 where
  pub numbered : List Block
  pub done : List Numbered
  pub all_fed : numbered ++ (in_hand s.ordering ++ somes s.to_ordering) ≡ s.fed
  pub in_order : done ++ (s.held ++ somes s.to_encoding) ≡ number 0 numbered
  pub passed : s.sent ++ somes s.to_send ≡ map (encoded x r) done
  pub next : s.next_id ≡ length numbered % 256
  pub due : s.block_to_send ≡ length done % 256

module _ (x : Extern) (r : RaptorQ x) (nb : ℕ) (few : nb ≤ 255) where
  pub init-Inv : Inv x r (init_pipeline x)
  init-Inv = record {
    numbered = [];
    done = [];
    all_fed = refl;
    in_order = refl;
    passed = refl;
    next = refl;
    due = refl;
  }

  -- The encoding worker whose number is due holds the oldest block.
  release_first :
      {s : Pipeline x} (v : Inv x r s) (n : Numbered) (before after : List Numbered)
      → s.held ≡ before ++ n ∷ after
      → length s.held ≤ 255
      → n.0 ≡ s.block_to_send
      → before ≡ []
  release_first v n [] after e h k = refl
  release_first {s} v n (m ∷ before) after e h k =
      absurd (omega (arith, place, v.due, k, size, held_size))
    where
      split : number 0 v.numbered ≡ (v.done ++ m ∷ before) ++ n ∷ (after ++ somes s.to_encoding)
      split = sym v.in_order ∙ rw e (simp append_assoc)

      place : n.0 ≡ (0 + length (v.done ++ m ∷ before)) % 256
      place = number-split 0 v.numbered (v.done ++ m ∷ before) _ n split

      size : length (v.done ++ m ∷ before) ≡ length v.done + suc (length before)
      size = length-append v.done (m ∷ before)

      held_size : length s.held ≡ suc (length before) + suc (length after)
      held_size = rw e (length-append (m ∷ before) (n ∷ after))

  number_next : {s : Pipeline x} (v : Inv x r s) → (0 + length v.numbered) % 256 ≡ s.next_id
  number_next v = omega (arith, v.next)

  pub Step-Inv : {s t : Pipeline x} → Step x r nb s t → length s.held ≤ nb → Inv x r s → Inv x r t
  Step-Inv {s} (feed b h) k v = record {
    numbered = v.numbered;
    done = v.done;
    all_fed =
        rw
          (
            somes-append,
            ← append_assoc (in_hand s.ordering) (somes s.to_ordering) (b ∷ []),
            ← append_assoc v.numbered (in_hand s.ordering ++ somes s.to_ordering) (b ∷ []),
          )
          (ap (λ l. l ++ b ∷ []) v.all_fed);
    in_order = v.in_order;
    passed = v.passed;
    next = v.next;
    due = v.due;
  }
  Step-Inv (feed_stop h) k v = record {
    numbered = v.numbered;
    done = v.done;
    all_fed = simp (somes-append, append-nil) v.all_fed;
    in_order = v.in_order;
    passed = v.passed;
    next = v.next;
    due = v.due;
  }
  Step-Inv (order_take b rest e idle) k v = record {
    numbered = v.numbered;
    done = v.done;
    all_fed = rw (e, idle) at v.all_fed;
    in_order = v.in_order;
    passed = v.passed;
    next = v.next;
    due = v.due;
  }
  Step-Inv {s} (order_put b busy h) k v = record {
    numbered = v.numbered ++ b ∷ [];
    done = v.done;
    all_fed = rw (append_assoc v.numbered (b ∷ []) (somes s.to_ordering)) (rw busy at v.all_fed);
    in_order =
        rw (somes-append, number-snoc 0 v.numbered b, number_next v, ← v.in_order)
          (simp append_assoc);
    passed = v.passed;
    next = omega (arith, length-append v.numbered (b ∷ []), v.next);
    due = v.due;
  }
  Step-Inv (order_stop rest e idle) k v = record {
    numbered = v.numbered;
    done = v.done;
    all_fed = rw (e, idle) at v.all_fed;
    in_order = v.in_order;
    passed = v.passed;
    next = v.next;
    due = v.due;
  }
  Step-Inv (order_return e h) k v = record {
    numbered = v.numbered;
    done = v.done;
    all_fed = rw e at v.all_fed;
    in_order = v.in_order;
    passed = simp (somes-append, append-nil) v.passed;
    next = v.next;
    due = v.due;
  }
  Step-Inv {s} (take_block n rest e h) k v = record {
    numbered = v.numbered;
    done = v.done;
    all_fed = v.all_fed;
    in_order = rw (append_assoc s.held (n ∷ []) (somes rest)) (rw e at v.in_order);
    passed = v.passed;
    next = v.next;
    due = v.due;
  }
  Step-Inv (take_stop rest e h) k v = record {
    numbered = v.numbered;
    done = v.done;
    all_fed = v.all_fed;
    in_order = rw e at v.in_order;
    passed = v.passed;
    next = v.next;
    due = v.due;
  }
  Step-Inv (encoder_return others e h) k v = record {
    numbered = v.numbered;
    done = v.done;
    all_fed = v.all_fed;
    in_order = v.in_order;
    passed = simp (somes-append, append-nil) v.passed;
    next = v.next;
    due = v.due;
  }
  Step-Inv {s} (release n before after e due h) k v = record {
    numbered = v.numbered;
    done = v.done ++ n ∷ [];
    all_fed = v.all_fed;
    in_order =
        let first = release_first v n before after e (omega arith) due in
        rw (first, append_assoc) (rw (e, first) at v.in_order);
    passed = rw (somes-append, map-append, ← v.passed) (simp append_assoc);
    next = v.next;
    due = omega (arith, length-append v.done (n ∷ []), v.due);
  }
  Step-Inv {s} (udp_send packets rest e run) k v = record {
    numbered = v.numbered;
    done = v.done;
    all_fed = v.all_fed;
    in_order = v.in_order;
    passed = rw (append_assoc s.sent (packets ∷ []) (somes rest)) (rw e at v.passed);
    next = v.next;
    due = v.due;
  }
  Step-Inv {s} (udp_fail packets rest e run) k v = record {
    numbered = v.numbered;
    done = v.done;
    all_fed = v.all_fed;
    in_order = v.in_order;
    passed = rw (append_assoc s.sent (packets ∷ []) (somes rest)) (rw e at v.passed);
    next = v.next;
    due = v.due;
  }
  Step-Inv (udp_stop rest e run) k v = record {
    numbered = v.numbered;
    done = v.done;
    all_fed = v.all_fed;
    in_order = v.in_order;
    passed = rw e at v.passed;
    next = v.next;
    due = v.due;
  }
  Step-Inv {s} (drain_send packets rest count e run) k v = record {
    numbered = v.numbered;
    done = v.done;
    all_fed = v.all_fed;
    in_order = v.in_order;
    passed = rw (append_assoc s.sent (packets ∷ []) (somes rest)) (rw e at v.passed);
    next = v.next;
    due = v.due;
  }
  Step-Inv {s} (drain_fail packets rest count e run) k v = record {
    numbered = v.numbered;
    done = v.done;
    all_fed = v.all_fed;
    in_order = v.in_order;
    passed = rw (append_assoc s.sent (packets ∷ []) (somes rest)) (rw e at v.passed);
    next = v.next;
    due = v.due;
  }
  Step-Inv (drain_stop rest count e run) k v = record {
    numbered = v.numbered;
    done = v.done;
    all_fed = v.all_fed;
    in_order = v.in_order;
    passed = rw e at v.passed;
    next = v.next;
    due = v.due;
  }
  Step-Inv (drain_end run) k v = record {
    numbered = v.numbered;
    done = v.done;
    all_fed = v.all_fed;
    in_order = v.in_order;
    passed = v.passed;
    next = v.next;
    due = v.due;
  }
