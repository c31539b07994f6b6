-- ===== src/Send/Pipeline/Stop.antt =====
-- How the pipeline stops: the ordering worker hands the stop mark to the UDP worker directly.
use lidi_4d8d19daa.Common.{
  ℕ, ◌≡◌, refl, ◌∙◌, List, [], ◌∷◌, Option, none, some, arith, All, All-append,
}
use mathlib.Core.Logic.{◌≢◌}
use lidi_4d8d19daa.Extern.{Extern}
use lidi_4d8d19daa.Protocol.Raptorq.{RaptorQ}
use lidi_4d8d19daa.Protocol.Block.{Block}
use lidi_4d8d19daa.Send.Pipeline.{
  Pipeline, Numbered, Step, Later, now, and_then, Reach, here, then_step, feed, feed_stop,
  order_take, order_put, order_stop, order_return, take_block, running, returned, waiting,
  take_stop, encoder_return, release, udp_send, udp_stop, udp_fail, drain_fail, drain_send,
  drain_stop, drain_end,
}

module _ (x : Extern) (r : RaptorQ x) (nb : ℕ) where
  abbrev IsBlockOnly : Option Numbered → Type 0
  IsBlockOnly n = n ≢ none

  record NoStop (s : Pipeline x) : Type 0 where
    clean : All IsBlockOnly s.to_encoding
    idle : s.encoders_done ≡ 0
    none_stops : s.encoders_stopping ≡ 0

  Step-NoStop : {s t : Pipeline x} → Step x r nb s t → NoStop s → NoStop t
  Step-NoStop {s} (order_put b busy h) v = record {
    clean = All-append IsBlockOnly s.to_encoding (some (s.next_id, b) ∷ []) v.clean ((λ q. cc), tt);
    idle = v.idle;
    none_stops = v.none_stops;
  }
  Step-NoStop {s} (take_block n rest e h) v = record {
    clean = (rw e at v.clean).1;
    idle = v.idle;
    none_stops = v.none_stops;
  }
  Step-NoStop {s} (take_stop rest e h) v = absurd ((rw e at v.clean).0 refl)
  Step-NoStop (feed b h) v = record { clean = v.clean; idle = v.idle; none_stops = v.none_stops }
  Step-NoStop (feed_stop h) v = record { clean = v.clean; idle = v.idle; none_stops = v.none_stops }
  Step-NoStop (encoder_return others e h) v = absurd (omega (arith, e, v.none_stops))
  Step-NoStop (order_take b rest e idle) v = record {
    clean = v.clean;
    idle = v.idle;
    none_stops = v.none_stops;
  }
  Step-NoStop (order_stop rest e idle) v = record {
    clean = v.clean;
    idle = v.idle;
    none_stops = v.none_stops;
  }
  Step-NoStop (order_return e h) v = record {
    clean = v.clean;
    idle = v.idle;
    none_stops = v.none_stops;
  }
  Step-NoStop (release n before after e due h) v = record {
    clean = v.clean;
    idle = v.idle;
    none_stops = v.none_stops;
  }
  Step-NoStop (udp_send packets rest e run) v = record {
    clean = v.clean;
    idle = v.idle;
    none_stops = v.none_stops;
  }
  Step-NoStop (udp_fail packets rest e run) v = record {
    clean = v.clean;
    idle = v.idle;
    none_stops = v.none_stops;
  }
  Step-NoStop (drain_fail packets rest count e run) v = record {
    clean = v.clean;
    idle = v.idle;
    none_stops = v.none_stops;
  }
  Step-NoStop (udp_stop rest e run) v = record {
    clean = v.clean;
    idle = v.idle;
    none_stops = v.none_stops;
  }
  Step-NoStop (drain_send packets rest count e run) v = record {
    clean = v.clean;
    idle = v.idle;
    none_stops = v.none_stops;
  }
  Step-NoStop (drain_stop rest count e run) v = record {
    clean = v.clean;
    idle = v.idle;
    none_stops = v.none_stops;
  }
  Step-NoStop (drain_end run) v = record {
    clean = v.clean;
    idle = v.idle;
    none_stops = v.none_stops;
  }

  Reach-NoStop : {s : Pipeline x} → Reach x r nb s → NoStop s
  Reach-NoStop here = record { clean = tt; idle = refl; none_stops = refl }
  Reach-NoStop (then_step reach step) = Step-NoStop step (Reach-NoStop reach)

  -- No stop mark ever reaches the encoding workers: in no reachable state has one returned.
  pub encoders_never_stop : {s : Pipeline x} → Reach x r nb s → s.encoders_done ≡ 0
  encoders_never_stop reach = (Reach-NoStop reach).idle

returned_sends_nothing :
    (x : Extern) (r : RaptorQ x) (nb : ℕ) {s t : Pipeline x}
    → Step x r nb s t
    → s.udp ≡ returned
    → (t.udp ≡ returned) × (t.sent ≡ s.sent)
returned_sends_nothing x r nb (udp_send packets rest e run) h = cc
returned_sends_nothing x r nb (udp_fail packets rest e run) h = cc
returned_sends_nothing x r nb (drain_fail packets rest count e run) h = cc
returned_sends_nothing x r nb (udp_stop rest e run) h = cc
returned_sends_nothing x r nb (drain_send packets rest count e run) h = cc
returned_sends_nothing x r nb (drain_stop rest count e run) h = cc
returned_sends_nothing x r nb (drain_end run) h = cc
returned_sends_nothing x r nb (feed b c) h = (h, refl)
returned_sends_nothing x r nb (feed_stop c) h = (h, refl)
returned_sends_nothing x r nb (order_take b rest e idle) h = (h, refl)
returned_sends_nothing x r nb (order_put b busy c) h = (h, refl)
returned_sends_nothing x r nb (order_stop rest e idle) h = (h, refl)
returned_sends_nothing x r nb (order_return e c) h = (h, refl)
returned_sends_nothing x r nb (encoder_return others e c) h = (h, refl)
returned_sends_nothing x r nb (take_block n rest e c) h = (h, refl)
returned_sends_nothing x r nb (take_stop rest e c) h = (h, refl)
returned_sends_nothing x r nb (release n before after e due c) h = (h, refl)

Later-returned :
    (x : Extern) (r : RaptorQ x) (nb : ℕ) {s t : Pipeline x}
    → Later x r nb s t
    → s.udp ≡ returned
    → (t.udp ≡ returned) × (t.sent ≡ s.sent)
Later-returned x r nb now h = (h, refl)
Later-returned x r nb (and_then later step) h =
    let (h', e) = Later-returned x r nb later h in
    let (h'', e') = returned_sends_nothing x r nb step h' in (h'', e' ∙ e)

-- With one encoding thread, a stop mark at the head of the queue of the idle ordering worker lets the UDP worker
-- return while blocks are still queued for the encoding worker or held by it: from every reachable
-- state whose packet queue is empty there is such a run, and nothing is sent after it, whatever the
-- workers do.
pub stop_overtakes :
    (x : Extern) (r : RaptorQ x) {s : Pipeline x} (rest : List (Option Block))
    → Reach x r 1 s
    → s.to_ordering ≡ none ∷ rest
    → s.ordering ≡ waiting
    → s.udp ≡ running
    → s.to_send ≡ []
    → (t : Pipeline x) × Reach x r 1 t
      × (t.udp ≡ returned)
      × (t.sent ≡ s.sent)
      × (t.held ≡ s.held)
      × (t.to_encoding ≡ s.to_encoding)
      × ((u : Pipeline x) → Later x r 1 t u → u.sent ≡ s.sent)
stop_overtakes x r {s} rest reach e idle udp empty = (
  _,
  then_step
      (then_step
        (then_step (then_step reach (order_stop rest e idle))
          (order_return refl (rw empty (omega arith))))
        (udp_stop [] (rw empty) udp))
      (drain_end refl),
  refl,
  refl,
  refl,
  refl,
  λ u later. (Later-returned x r 1 later refl).1,
)
