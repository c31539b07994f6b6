-- ===== src/Send/Servers/Sized.antt =====
-- Every block that the server workers and the heartbeat worker send has the size that RaptorQ
-- encodes.
use lidi_4d8d19daa.Common.{
  ℕ, ◌^◌, ◌≤◌, ◌<◌, ◌≡◌, sym, List, [], ◌∷◌, ◌++◌, Option, Bool, none, some, All, All-append,
}
use mathlib.Core.Path.{subst}
use lidi_4d8d19daa.Extern.{Extern, ExternLaws}
use lidi_4d8d19daa.Protocol.Raptorq.{RaptorQ}
use lidi_4d8d19daa.Protocol.Block.{Block, heartbeat, abort, new, new_client_id}
use lidi_4d8d19daa.Send.Client.{Status, waiting, finished, failed, panicked, stop}
use lidi_4d8d19daa.Send.Client.Sized.{IsSized, none-IsSized, emit-IsSized, start_client-IsSized}
use lidi_4d8d19daa.Send.Pipeline.Numbering.{somes}
use lidi_4d8d19daa.Send.Servers.{
  Phase, serving, closing, over, Client, State, close_run, status_of, Step, ask, take_client,
  take_stop, send_stop, return_stopped, wait, begin_client, send_block, signal, send_abort,
  go_round, fail, beat, Reach, here, then_step,
}
use lidi_4d8d19daa.Send.Servers.Sent.{sent_none, sent_some}
use lidi_4d8d19daa.Send.Servers.Order.{sent_blocks}

module _ (x : Extern) (laws : ExternLaws x) (flush : Bool) (r : RaptorQ x)
    (large : 10 ≤ r.transfer_length) (small : r.transfer_length < 2 ^ 32) where
  abbrev AllSized : List Block → Type 0
  AllSized bs = All (IsSized x laws r large small) bs

  -- The blocks that a client's worker has at hand.
  abbrev HasSized : Phase → Type 0
  HasSized (serving left) = AllSized left
  HasSized (closing left) = AllSized left
  HasSized over = Unit {0}

  abbrev Held : List Client → Type 0
  Held clients = All (λ c. HasSized c.phase) clients

  Held-at :
      (before after cs : List Client) (c : Client) (p : Phase)
      → cs ≡ before ++ c ∷ after
      → c.phase ≡ p
      → Held cs
      → HasSized p
  Held-at before after cs c p e now h = subst HasSized now (at before (subst Held e h))
    where
      at : (before : List Client) → Held (before ++ c ∷ after) → HasSized c.phase
      at [] (own, more) = own
      at (b ∷ before) (own, more) = at before more

  Held-update :
      (before after cs : List Client) (c d : Client)
      → cs ≡ before ++ c ∷ after
      → HasSized d.phase
      → Held cs
      → Held (before ++ d ∷ after)
  Held-update before after cs c d e own h = go before (subst Held e h)
    where
      go : (before : List Client) → Held (before ++ c ∷ after) → Held (before ++ d ∷ after)
      go [] (gone, more) = (own, more)
      go (b ∷ before) (first, more) = (first, go before more)

  close_run-AllSized : (id : ℕ) (status : Status) → AllSized (close_run x flush r id status).blocks
  close_run-AllSized id waiting = tt
  close_run-AllSized id finished = tt
  close_run-AllSized id panicked = tt
  close_run-AllSized id (failed e) =
      emit-IsSized x laws r large small (new x abort r id none) (stop finished)
        (none-IsSized x laws r large small abort id) tt

  sends :
      (l : List (Option Block)) (b : Block)
      → AllSized (somes l)
      → IsSized x laws r large small b
      → AllSized (somes (l ++ some b ∷ []))
  sends l b all own =
      subst AllSized (sym (sent_some l b))
        (All-append (IsSized x laws r large small) (somes l) _ all (own, tt))

  Step-Held :
      (nb : ℕ) (beats : Bool) {s t : State}
      → Step x flush r nb beats s t
      → AllSized (somes s.to_ordering)
      → Held s.clients
      → AllSized (somes t.to_ordering) × Held t.clients
  Step-Held nb beats (ask message free) all h = (all, h)
  Step-Held nb beats (take_client client rest others e e') all h = (all, h)
  Step-Held nb beats (take_stop rest others e e') all h = (all, h)
  Step-Held nb beats {s} (send_stop left before after e) all h =
      (subst AllSized (sym (sent_none s.to_ordering)) all, h)
  Step-Held nb beats (return_stopped before after e) all h = (all, h)
  Step-Held nb beats (wait client before after permits e e') all h = (all, h)
  Step-Held nb beats {s} (begin_client client before after e) all h = (
    all,
    All-append (λ c. HasSized c.phase) s.clients _ h
        (
          start_client-IsSized x laws r large small flush (new_client_id s.counter).0 client.reads
              client.stream,
          tt,
        ),
  )
  Step-Held nb beats {s} (send_block c b left before after e now) all h =
      let (own, more) = Held-at before after s.clients c (serving (b ∷ left)) e now h in
      (sends s.to_ordering b all own, Held-update before after s.clients c _ e more h)
  Step-Held nb beats {s} (signal c before after e now back) all h = (
    all,
    Held-update before after s.clients c _ e
        (close_run-AllSized c.client_id (status_of x flush r c)) h,
  )
  Step-Held nb beats {s} (send_abort c b left before after e now) all h =
      let (own, more) = Held-at before after s.clients c (closing (b ∷ left)) e now h in
      (sends s.to_ordering b all own, Held-update before after s.clients c _ e more h)
  Step-Held nb beats {s} (go_round c before after e now done) all h =
      (all, Held-update before after s.clients c _ e tt h)
  Step-Held nb beats {s} (fail c before after k e now failing) all h =
      (all, Held-update before after s.clients c _ e tt h)
  Step-Held nb beats {s} (beat b on made) all h =
      (sends s.to_ordering b all (none-IsSized x laws r large small heartbeat 0 b made), h)

  Reach-Held :
      (nb : ℕ) (beats : Bool) (max_clients : ℕ) {s : State}
      → Reach x flush r nb beats max_clients s
      → AllSized (somes s.to_ordering) × Held s.clients
  Reach-Held nb beats n here = (tt, tt)
  Reach-Held nb beats n (then_step reach step) =
      let (all, h) = Reach-Held nb beats n reach in Step-Held nb beats step all h

  pub sent_blocks-AllSized :
      (nb : ℕ) (beats : Bool) (max_clients : ℕ) {s : State}
      → Reach x flush r nb beats max_clients s
      → All (IsSized x laws r large small) (sent_blocks s)
  unfolding sent_blocks
  sent_blocks-AllSized nb beats n reach = (Reach-Held nb beats n reach).0
