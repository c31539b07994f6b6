-- ===== src/Send/Servers/Counts.antt =====
-- How many of the server workers are where, and what every step keeps of that.
use lidi_4d8d19daa.Common.{
  ℕ, zero, suc, ◌+◌, ◌≡◌, refl, ap, ◌∙◌, List, [], ◌∷◌, ◌++◌, Option, none, some, Bool,
  append_assoc, length, length-append, length-remove, arith,
}
use lidi_4d8d19daa.Extern.{Extern}
use lidi_4d8d19daa.Protocol.Raptorq.{RaptorQ}
use lidi_4d8d19daa.Protocol.Block.{Block}
use lidi_4d8d19daa.Send.Server.{Incoming}
use lidi_4d8d19daa.Send.Servers.{
  Phase, serving, closing, over, Client, State, Step, ask, take_client, take_stop, send_stop,
  return_stopped, wait, begin_client, send_block, signal, send_abort, go_round, fail, beat, Reach,
  here, then_step,
}

-- Whether a client has the permit of its worker, and whether it has a worker.
abbrev pub permit_of : Phase → ℕ
permit_of (serving left) = 1
permit_of (closing left) = 0
permit_of over = 0

abbrev pub worker_of : Phase → ℕ
worker_of (serving left) = 1
worker_of (closing left) = 1
worker_of over = 0

abbrev pub count_of : (Phase → ℕ) → List Client → ℕ
count_of f [] = 0
count_of f (c ∷ cs) = f c.phase + count_of f cs

count_of-append :
    (f : Phase → ℕ) (cs ds : List Client) → count_of f (cs ++ ds) ≡ count_of f cs + count_of f ds
count_of-append f [] ds = omega arith
count_of-append f (c ∷ cs) ds = omega (arith, count_of-append f cs ds)

-- The clients that are inside `client::start`.
abbrev pub served : List Client → ℕ
served clients = count_of permit_of clients

-- The stops among the messages of the server's channel.
abbrev pub stops : List (Option Incoming) → ℕ
stops [] = 0
stops (none ∷ ms) = suc (stops ms)
stops (some client ∷ ms) = stops ms

stops-append : (ms ns : List (Option Incoming)) → stops (ms ++ ns) ≡ stops ms + stops ns
stops-append [] ns = omega arith
stops-append (none ∷ ms) ns = omega (arith, stops-append ms ns)
stops-append (some client ∷ ms) ns = stops-append ms ns

pub record Inv (max_clients : ℕ) (s : State) : Type 0 where
  pub in_order : s.taken ++ s.for_server ≡ s.asked
  pub workers :
      s.idle
        + length s.holding
        + length s.admitted
        + count_of worker_of s.clients
        + length s.stopping
        + s.returned
        + s.gone
      ≡ max_clients
  pub permits : s.multiplex_control + length s.admitted + served s.clients ≡ max_clients
  pub stopped : length s.stopping + s.returned ≡ stops s.taken

-- A client in one phase and in the next one.
count_of-update :
    (f : Phase → ℕ) (cs before after : List Client) (c : Client) (p q : Phase)
    → cs ≡ before ++ c ∷ after
    → c.phase ≡ p
    → count_of f (before ++ record c { phase = q } ∷ after) + f p ≡ count_of f cs + f q
count_of-update f cs before after c p q e now = omega (
  arith,
  ap (count_of f) e,
  count_of-append f before (c ∷ after),
  count_of-append f before (record c { phase = q } ∷ after),
  ap f now,
)

client-Inv :
    {max_clients : ℕ} {s : State} (before after : List Client) (c : Client) (p q : Phase)
    (i g m : ℕ) (out : List (Option Block))
    → s.clients ≡ before ++ c ∷ after
    → c.phase ≡ p
    → i + g + worker_of q ≡ s.idle + s.gone + worker_of p
    → m + permit_of q ≡ s.multiplex_control + permit_of p
    → Inv max_clients s
    → Inv max_clients (record s {
      idle = i;
      gone = g;
      multiplex_control = m;
      clients = before ++ record c { phase = q } ∷ after;
      to_ordering = out;
    })
client-Inv {max_clients} {s} before after c p q i g m out e now works permits v = record {
  in_order = v.in_order;
  workers =
      omega (arith, v.workers, works, count_of-update worker_of s.clients before after c p q e now);
  permits =
      omega
        (arith, v.permits, permits, count_of-update permit_of s.clients before after c p q e now);
  stopped = v.stopped;
}

module _ (x : Extern) (flush : Bool) (r : RaptorQ x) (nb : ℕ) (beats : Bool) (max_clients : ℕ) where
  Step-Inv : {s t : State} → Step x flush r nb beats s t → Inv max_clients s → Inv max_clients t
  Step-Inv {s} (ask message free) v = record {
    in_order = rw (← append_assoc s.taken s.for_server (message ∷ []), v.in_order) refl;
    workers = v.workers;
    permits = v.permits;
    stopped = v.stopped;
  }
  Step-Inv {s} (take_client client rest others e idle) v = record {
    in_order = append_assoc s.taken (some client ∷ []) rest ∙ (rw e at v.in_order);
    workers = omega (arith, v.workers, idle, length-append s.holding (client ∷ []));
    permits = v.permits;
    stopped = omega (arith, v.stopped, stops-append s.taken (some client ∷ []));
  }
  Step-Inv {s} (take_stop rest others e idle) v = record {
    in_order = append_assoc s.taken (none ∷ []) rest ∙ (rw e at v.in_order);
    workers = omega (arith, v.workers, idle, length-append s.stopping (nb ∷ []));
    permits = v.permits;
    stopped =
        omega
          (arith, v.stopped, stops-append s.taken (none ∷ []), length-append s.stopping (nb ∷ []));
  }
  Step-Inv {s} (send_stop left before after e) v =
      let same : length (before ++ left ∷ after) ≡ length s.stopping = omega (
        arith,
        ap length e,
        length-append before (suc left ∷ after),
        length-append before (left ∷ after),
      ) in
      record {
        in_order = v.in_order;
        workers = omega (arith, v.workers, same);
        permits = v.permits;
        stopped = omega (arith, v.stopped, same);
      }
  Step-Inv {s} (return_stopped before after e) v =
      let shorter = length-remove s.stopping before after zero e in
      record {
        in_order = v.in_order;
        workers = omega (arith, v.workers, shorter);
        permits = v.permits;
        stopped = omega (arith, v.stopped, shorter);
      }
  Step-Inv {s} (wait client before after permits e some_left) v =
      let shorter = length-remove s.holding before after client e in
      let longer = length-append s.admitted (client ∷ []) in
      record {
        in_order = v.in_order;
        workers = omega (arith, v.workers, shorter, longer);
        permits = omega (arith, v.permits, some_left, longer);
        stopped = v.stopped;
      }
  Step-Inv {s} (begin_client client before after e) v =
      let shorter = length-remove s.admitted before after client e in
      record {
        in_order = v.in_order;
        workers = omega (arith, v.workers, shorter, count_of-append worker_of s.clients (_ ∷ []));
        permits = omega (arith, v.permits, shorter, count_of-append permit_of s.clients (_ ∷ []));
        stopped = v.stopped;
      }
  Step-Inv {s} (send_block c b left before after e now) v =
      client-Inv before after c (serving (b ∷ left)) (serving left) s.idle s.gone
        s.multiplex_control _ e now refl refl v
  Step-Inv {s} (signal c before after e now back) v =
      client-Inv before after c (serving []) (closing _) s.idle s.gone (s.multiplex_control + 1)
        s.to_ordering e now refl (omega arith) v
  Step-Inv {s} (send_abort c b left before after e now) v =
      client-Inv before after c (closing (b ∷ left)) (closing left) s.idle s.gone
        s.multiplex_control _ e now refl refl v
  Step-Inv {s} (go_round c before after e now done) v =
      client-Inv before after c (closing []) over (s.idle + 1) s.gone s.multiplex_control
        s.to_ordering e now (omega arith) refl v
  Step-Inv {s} (fail c before after k e now failing) v =
      client-Inv before after c (closing []) over s.idle (s.gone + 1) s.multiplex_control
        s.to_ordering e now (omega arith) refl v
  Step-Inv (beat b on made) v = record {
    in_order = v.in_order;
    workers = v.workers;
    permits = v.permits;
    stopped = v.stopped;
  }

  pub Reach-Inv : {s : State} → Reach x flush r nb beats max_clients s → Inv max_clients s
  Reach-Inv here = record {
    in_order = refl;
    workers = omega arith;
    permits = omega arith;
    stopped = omega arith;
  }
  Reach-Inv (then_step reach step) = Step-Inv step (Reach-Inv reach)
