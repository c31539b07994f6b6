-- ===== src/Send/Servers/Order.antt =====
-- What the server workers send for each client, among what they send for the others.
use lidi_4d8d19daa.Common.{
  ℕ, ◌^◌, ◌≤◌, ◌<◌, ◌≡◌, refl, sym, ap, List, [], ◌∷◌, ◌++◌, none, Bool, length, length-append,
  append-nil, arith,
}
use mathlib.Core.Path.{subst}
use lidi_4d8d19daa.Extern.{Extern}
use lidi_4d8d19daa.Protocol.Raptorq.{RaptorQ}
use lidi_4d8d19daa.Protocol.Block.{Block, abort, new}
use lidi_4d8d19daa.Protocol.Block.Owner.{of_client}
use lidi_4d8d19daa.Send.Client.{Run, Status, waiting, finished, failed, panicked, stop, emit}
use lidi_4d8d19daa.Send.Server.{Incoming, serve_client}
use lidi_4d8d19daa.Send.Pipeline.Numbering.{somes}
use lidi_4d8d19daa.Send.Servers.Numbers.{IdsFrom-place, All-at}
use lidi_4d8d19daa.Send.Servers.{
  Phase, serving, closing, over, Client, State, run_of, close_run, Step, ask, take_client,
  take_stop, send_stop, return_stopped, wait, begin_client, send_block, signal, send_abort,
  go_round, fail, beat, Reach, here, then_step,
}
use lidi_4d8d19daa.Send.Servers.Sent.{
  sent_none, sent_some, total, pending, begun, Sent, Inv, silent-Inv, sends-Inv, begin-Inv,
  beat-Inv, heartbeat_made,
}

unfoldable pub sent_blocks : State → List Block
sent_blocks s = somes s.to_ordering

changed :
    (before after cs : List Client) (c : Client) (p : Phase)
    → cs ≡ before ++ c ∷ after
    → length cs ≤ length (before ++ record c { phase = p } ∷ after)
changed before after cs c p e = omega (
  arith,
  ap length e,
  length-append before (c ∷ after),
  length-append before (record c { phase = p } ∷ after),
)

module _ (x : Extern) (flush : Bool) (r : RaptorQ x) where
  module _ (large : 10 ≤ r.transfer_length) (small : r.transfer_length < 2 ^ 32) where
    Step-Inv :
        (nb : ℕ) (beats : Bool) {s t : State} (step : Step x flush r nb beats s t)
        → length t.clients ≤ 2 ^ 32
        → Inv x flush r s.counter s.clients (somes s.to_ordering)
        → Inv x flush r t.counter t.clients (somes t.to_ordering)
    Step-Inv nb beats (ask message free) few v = v
    Step-Inv nb beats (take_client client rest others e e') few v = v
    Step-Inv nb beats (take_stop rest others e e') few v = v
    Step-Inv nb beats {s} (send_stop left before after e) few v =
        subst (Inv x flush r s.counter s.clients) (sym (sent_none s.to_ordering)) v
    Step-Inv nb beats (return_stopped before after e) few v = v
    Step-Inv nb beats (wait client before after permits e e') few v = v
    Step-Inv nb beats {s} (begin_client client before after e) few v =
        begin-Inv x flush r large small s.counter s.clients (somes s.to_ordering) client
          (omega (arith, few, length-append s.clients (begun x flush r s client ∷ []))) v
    Step-Inv nb beats {s} (send_block c b left before after e e') few v =
        subst (Inv x flush r s.counter (before ++ record c { phase = serving left } ∷ after))
          (sym (sent_some s.to_ordering b))
          (sends-Inv x flush r large small s.counter before after c (serving (b ∷ left))
            (serving left) b (somes s.to_ordering) e' refl (rw e at v))
    Step-Inv nb beats {s} (signal c before after e e' back) few v =
        silent-Inv x flush r large small s.counter before after c (serving []) (closing _)
          (somes s.to_ordering) e' refl (rw e at v)
    Step-Inv nb beats {s} (send_abort c b left before after e e') few v =
        subst (Inv x flush r s.counter (before ++ record c { phase = closing left } ∷ after))
          (sym (sent_some s.to_ordering b))
          (sends-Inv x flush r large small s.counter before after c (closing (b ∷ left))
            (closing left) b (somes s.to_ordering) e' refl (rw e at v))
    Step-Inv nb beats {s} (go_round c before after e e' e3) few v =
        silent-Inv x flush r large small s.counter before after c (closing []) over
          (somes s.to_ordering) e' refl (rw e at v)
    Step-Inv nb beats {s} (fail c before after k e e' e3) few v =
        silent-Inv x flush r large small s.counter before after c (closing []) over
          (somes s.to_ordering) e' refl (rw e at v)
    Step-Inv nb beats {s} (beat b on made) few v =
        subst (Inv x flush r s.counter s.clients) (sym (sent_some s.to_ordering b)) (
          beat-Inv x flush r large small s.counter s.clients b (somes s.to_ordering)
            (heartbeat_made x flush r large small b made) v)

    clients_kept :
        (nb : ℕ) (beats : Bool) {s t : State}
        → Step x flush r nb beats s t
        → length s.clients ≤ length t.clients
    clients_kept nb beats (ask message free) = omega arith
    clients_kept nb beats (take_client client rest others e e') = omega arith
    clients_kept nb beats (take_stop rest others e e') = omega arith
    clients_kept nb beats (send_stop left before after e) = omega arith
    clients_kept nb beats (return_stopped before after e) = omega arith
    clients_kept nb beats (wait client before after permits e e') = omega arith
    clients_kept nb beats {s} (begin_client client before after e) =
        omega (arith, length-append s.clients (begun x flush r s client ∷ []))
    clients_kept nb beats (send_block c b left before after e e') =
        changed before after _ c (serving left) e
    clients_kept nb beats (signal c before after e e' back) = changed before after _ c (closing _) e
    clients_kept nb beats (send_abort c b left before after e e') =
        changed before after _ c (closing left) e
    clients_kept nb beats (go_round c before after e e' e3) = changed before after _ c over e
    clients_kept nb beats (fail c before after k e e' e3) = changed before after _ c over e
    clients_kept nb beats (beat b on made) = omega arith

    Reach-Inv :
        (nb : ℕ) (beats : Bool) (max_clients : ℕ) {s : State}
        → Reach x flush r nb beats max_clients s
        → length s.clients ≤ 2 ^ 32
        → Inv x flush r s.counter s.clients (somes s.to_ordering)
    Reach-Inv nb beats n here few = record {
      count = omega arith;
      ids = tt;
      good = tt;
      fresh = λ id h. refl;
    }
    Reach-Inv nb beats n (then_step {s} {t} reach step) few =
        Step-Inv nb beats step few
          (Reach-Inv nb beats n reach (omega (arith, few, clients_kept nb beats step)))

    -- In every state that the server workers can reach, in any interleaving, as long as fewer than
    -- 2 ^ 32 clients were given a number: for every client, the blocks of its transfer among all
    -- those sent to the ordering worker are, in order, a first part of what its worker sends if it
    -- runs alone, all of that once the worker is through with it. Nothing was sent under a number
    -- that no client has yet.
    pub sent_for_each :
        (nb : ℕ) (beats : Bool) (max_clients : ℕ) (s : State) (before after : List Client)
        (c : Client)
        → Reach x flush r nb beats max_clients s
        → length s.clients ≤ 2 ^ 32
        → s.clients ≡ before ++ c ∷ after
        → (of_client c.client_id (sent_blocks s) ++ pending x flush r c
            ≡ total x flush r c.client_id c.incoming)
          × (c.client_id ≡ length before)
          × ((id : ℕ) → length s.clients ≤ id → of_client id (sent_blocks s) ≡ [])
    unfolding sent_blocks
    sent_for_each nb beats n s before after c reach few e =
        let v = Reach-Inv nb beats n reach few in
        (
          (All-at (Sent x flush r (somes s.to_ordering)) before after c (rw e at v.good)).sum,
          omega (arith, IdsFrom-place 0 before after c (rw e at v.ids)),
          v.fresh,
        )

total-status :
    (x : Extern) (flush : Bool) (r : RaptorQ x) (id : ℕ) (run : Run) (status : Status)
    → run.blocks ++ (close_run x flush r id status).blocks
      ≡ (elim status as (λ _. Run) [
        | waiting ↦ run
        | finished ↦ run
        | failed e ↦ record {
          blocks = run.blocks ++ (emit (new x abort r id none) (stop finished)).blocks;
          status = (emit (new x abort r id none) (stop finished)).status;
        }
        | panicked ↦ run
      ]).blocks
total-status x flush r id run waiting = append-nil run.blocks
total-status x flush r id run finished = append-nil run.blocks
total-status x flush r id run (failed e) = refl
total-status x flush r id run panicked = append-nil run.blocks

-- All that is sent for a client is what `serve_client` sends.
pub total-serve_client :
    (x : Extern) (flush : Bool) (r : RaptorQ x) (id : ℕ) (client : Incoming)
    → total x flush r id client ≡ (serve_client x flush r id client).blocks
unfolding serve_client
total-serve_client x flush r id client =
    let run : Run = run_of x flush r id client in total-status x flush r id run run.status
