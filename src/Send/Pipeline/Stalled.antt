-- ===== src/Send/Pipeline/Stalled.antt =====
-- What an error of the UDP socket leaves of the pipeline.
use lidi_4d8d19daa.Common.{
  ℕ, ◌+◌, ◌*◌, ◌≤◌, ◌≡◌, refl, ap, ◌∙◌, List, [], ◌∷◌, ◌++◌, Option, none, some, length,
  length-append, length-map, arith,
}
use lidi_4d8d19daa.Extern.{Extern}
use lidi_4d8d19daa.Protocol.Raptorq.{RaptorQ}
use lidi_4d8d19daa.Send.Pipeline.{
  Pipeline, Ordering, waiting, holding, stopping, stopped, in_hand, encoded, Step, Later, now,
  and_then, Reach, here, then_step, feed, feed_stop, order_take, order_put, order_stop,
  order_return, take_block, take_stop, encoder_return, release, failed, udp_send, udp_stop,
  udp_fail, drain_fail, drain_send, drain_stop, drain_end,
}
use lidi_4d8d19daa.Send.Pipeline.Numbering.{somes, length-number}
use lidi_4d8d19daa.Send.Pipeline.Order.{Reach-held, Reach-Inv}

length-somes {ℓ} : {A : Type ℓ} (l : List (Option A)) → length (somes l) ≤ length l
length-somes [] = omega arith
length-somes (none ∷ l) = omega (arith, length-somes l)
length-somes (some a ∷ l) = omega (arith, length-somes l)

length-in_hand : (o : Ordering) → length (in_hand o) ≤ 1
length-in_hand waiting = omega arith
length-in_hand (holding b) = omega arith
length-in_hand stopping = omega arith
length-in_hand stopped = omega arith

module _ (x : Extern) (r : RaptorQ x) (nb : ℕ) where
  -- No channel holds more than its bound.
  record IsBounded (s : Pipeline x) : Type 0 where
    ordering : length s.to_ordering ≤ nb
    encoding : length s.to_encoding ≤ nb
    sending : length s.to_send ≤ nb

  -- The UDP worker has received a message.
  popped :
      {s t : Pipeline x} {message : Option (List x.Packet)} {rest : List (Option (List x.Packet))}
      → IsBounded s
      → s.to_send ≡ message ∷ rest
      → t.to_ordering ≡ s.to_ordering
      → t.to_encoding ≡ s.to_encoding
      → t.to_send ≡ rest
      → IsBounded t
  popped v e same same' left = record {
    ordering = omega (arith, v.ordering, ap length same);
    encoding = omega (arith, v.encoding, ap length same');
    sending = omega (arith, v.sending, ap length e, ap length left);
  }

  Step-IsBounded : {s t : Pipeline x} → Step x r nb s t → IsBounded s → IsBounded t
  Step-IsBounded {s} (feed b h) v = record {
    ordering = omega (arith, length-append s.to_ordering (some b ∷ []), h);
    encoding = v.encoding;
    sending = v.sending;
  }
  Step-IsBounded {s} (feed_stop h) v = record {
    ordering = omega (arith, length-append s.to_ordering (none ∷ []), h);
    encoding = v.encoding;
    sending = v.sending;
  }
  Step-IsBounded (order_take b rest e idle) v = record {
    ordering = omega (arith, v.ordering, ap length e);
    encoding = v.encoding;
    sending = v.sending;
  }
  Step-IsBounded {s} (order_put b busy h) v = record {
    ordering = v.ordering;
    encoding = omega (arith, length-append s.to_encoding (some (s.next_id, b) ∷ []), h);
    sending = v.sending;
  }
  Step-IsBounded (order_stop rest e idle) v = record {
    ordering = omega (arith, v.ordering, ap length e);
    encoding = v.encoding;
    sending = v.sending;
  }
  Step-IsBounded {s} (order_return e h) v = record {
    ordering = v.ordering;
    encoding = v.encoding;
    sending = omega (arith, length-append s.to_send (none ∷ []), h);
  }
  Step-IsBounded {s} (take_block n rest e h) v = record {
    ordering = v.ordering;
    encoding = omega (arith, v.encoding, ap length e);
    sending = v.sending;
  }
  Step-IsBounded (take_stop rest e h) v = record {
    ordering = v.ordering;
    encoding = omega (arith, v.encoding, ap length e);
    sending = v.sending;
  }
  Step-IsBounded {s} (encoder_return others e h) v = record {
    ordering = v.ordering;
    encoding = v.encoding;
    sending = omega (arith, length-append s.to_send (none ∷ []), h);
  }
  Step-IsBounded {s} (release n before after e due h) v = record {
    ordering = v.ordering;
    encoding = v.encoding;
    sending = omega (arith, length-append s.to_send (some (encoded x r n) ∷ []), h);
  }
  Step-IsBounded {s} (udp_send packets rest e run) v = popped v e refl refl refl
  Step-IsBounded {s} (udp_stop rest e run) v = popped v e refl refl refl
  Step-IsBounded {s} (udp_fail packets rest e run) v = popped v e refl refl refl
  Step-IsBounded {s} (drain_send packets rest count e run) v = popped v e refl refl refl
  Step-IsBounded {s} (drain_fail packets rest count e run) v = popped v e refl refl refl
  Step-IsBounded {s} (drain_stop rest count e run) v = popped v e refl refl refl
  Step-IsBounded (drain_end run) v = record {
    ordering = v.ordering;
    encoding = v.encoding;
    sending = v.sending;
  }

  Reach-IsBounded : {s : Pipeline x} → Reach x r nb s → IsBounded s
  Reach-IsBounded here = record {
    ordering = omega arith;
    encoding = omega arith;
    sending = omega arith;
  }
  Reach-IsBounded (then_step reach step) = Step-IsBounded step (Reach-IsBounded reach)

  Later-Reach : {s t : Pipeline x} → Reach x r nb s → Later x r nb s t → Reach x r nb t
  Later-Reach reach now = reach
  Later-Reach reach (and_then later step) = then_step (Later-Reach reach later) step

  failed_sends_nothing :
      {s t : Pipeline x} → Step x r nb s t → s.udp ≡ failed → (t.udp ≡ failed) × (t.sent ≡ s.sent)
  failed_sends_nothing (udp_send packets rest e run) h = cc
  failed_sends_nothing (udp_stop rest e run) h = cc
  failed_sends_nothing (udp_fail packets rest e run) h = cc
  failed_sends_nothing (drain_send packets rest count e run) h = cc
  failed_sends_nothing (drain_fail packets rest count e run) h = cc
  failed_sends_nothing (drain_stop rest count e run) h = cc
  failed_sends_nothing (drain_end run) h = cc
  failed_sends_nothing (feed b c) h = (h, refl)
  failed_sends_nothing (feed_stop c) h = (h, refl)
  failed_sends_nothing (order_take b rest e idle) h = (h, refl)
  failed_sends_nothing (order_put b busy c) h = (h, refl)
  failed_sends_nothing (order_stop rest e idle) h = (h, refl)
  failed_sends_nothing (order_return e c) h = (h, refl)
  failed_sends_nothing (encoder_return others e c) h = (h, refl)
  failed_sends_nothing (take_block n rest e c) h = (h, refl)
  failed_sends_nothing (take_stop rest e c) h = (h, refl)
  failed_sends_nothing (release n before after e due c) h = (h, refl)

  Later-failed :
      {s t : Pipeline x} → Later x r nb s t → s.udp ≡ failed → (t.udp ≡ failed) × (t.sent ≡ s.sent)
  Later-failed now h = (h, refl)
  Later-failed (and_then later step) h =
      let (h', e) = Later-failed later h in
      let (h'', e') = failed_sends_nothing step h' in (h'', e' ∙ e)

  -- All blocks are either given to the UDP socket or in one of the four places of the
  -- pipeline, or in the hand of the ordering worker.
  fed-le : nb ≤ 255 → {s : Pipeline x} → Reach x r nb s → length s.fed ≤ length s.sent + 4 * nb + 1
  fed-le few {s} reach =
      let v = Reach-Inv x r nb few reach in
      let w = Reach-IsBounded reach in
      let numbered : length v.numbered
          ≡ length v.done + (length s.held + length (somes s.to_encoding)) =
        omega (
          arith,
          length-number 0 v.numbered,
          ap length v.in_order,
          length-append v.done (s.held ++ somes s.to_encoding),
          length-append s.held (somes s.to_encoding),
        ) in
      let passed : length v.done ≡ length s.sent + length (somes s.to_send) = omega (
        arith,
        length-map (encoded x r) v.done,
        ap length v.passed,
        length-append s.sent (somes s.to_send),
      ) in
      omega (
        arith,
        numbered,
        passed,
        ap length v.all_fed,
        length-append v.numbered (in_hand s.ordering ++ somes s.to_ordering),
        length-append (in_hand s.ordering) (somes s.to_ordering),
        length-in_hand s.ordering,
        length-somes s.to_ordering,
        length-somes s.to_encoding,
        length-somes s.to_send,
        w.ordering,
        w.encoding,
        w.sending,
        Reach-held x r nb few reach,
      )

  -- With at most 255 encoding workers, whatever the other workers do after an error of the UDP socket,
  -- nothing more is given to the socket, and the sender accepts no more blocks than those that were
  -- given to it, four for each encoding worker and one more.
  pub failed-fed :
      {s t : Pipeline x}
      → nb ≤ 255
      → Reach x r nb s
      → s.udp ≡ failed
      → Later x r nb s t
      → (t.sent ≡ s.sent) × (length t.fed ≤ length s.sent + 4 * nb + 1)
  failed-fed {s} {t} few reach h later =
      let (still, same) = Later-failed later h in
      (same, omega (arith, fed-le few {s = t} (Later-Reach reach later), ap length same))
