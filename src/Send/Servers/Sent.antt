-- ===== src/Send/Servers/Sent.antt =====
-- What was sent for each client so far, and what one step of a worker adds.
use lidi_4d8d19daa.Common.{
  ℕ, ◌%◌, ◌^◌, ◌≤◌, ◌<◌, ◌≡◌, ◌≢◌, refl, sym, ap, ◌∙◌, List, [], ◌∷◌, ◌++◌, Option, none, some, ok,
  Bool, length, length-append, append-nil, append_assoc, All, All-append, arith,
}
use mathlib.Core.Path.{subst}
use lidi_4d8d19daa.Extern.{Extern}
use lidi_4d8d19daa.Protocol.Raptorq.{RaptorQ}
use lidi_4d8d19daa.Protocol.Block.{Block, heartbeat, abort, new, new_client_id}
use lidi_4d8d19daa.Protocol.Block.Format.{accessors-new-none}
use lidi_4d8d19daa.Protocol.Block.Owner.{of_client, IsOwned, IsBeat}
use lidi_4d8d19daa.Send.Client.{Status, waiting, finished, failed, panicked, stop}
use lidi_4d8d19daa.Send.Client.Owned.{unfilled-IsOwned, start_client-IsOwned}
use lidi_4d8d19daa.Send.Server.{Incoming}
use lidi_4d8d19daa.Send.Pipeline.Numbering.{somes, somes-append}
use lidi_4d8d19daa.Send.Servers.Numbers.{
  IdsFrom, IdsFrom-snoc, IdsFrom-update, IdsFrom-place, All-update, All-map, All-at, of_client-snoc,
  of_client-own, of_client-beat,
}
use lidi_4d8d19daa.Send.Servers.{Phase, serving, closing, over, Client, State, run_of, close_run}

pub sent_none : (l : List (Option Block)) → somes (l ++ none ∷ []) ≡ somes l
sent_none l = somes-append l (none ∷ []) ∙ append-nil (somes l)

pub sent_some : (l : List (Option Block)) (b : Block) → somes (l ++ some b ∷ []) ≡ somes l ++ b ∷ []
sent_some l b = somes-append l (some b ∷ [])

module _ (x : Extern) (flush : Bool) (r : RaptorQ x) where
  -- All that is sent for a client.
  abbrev pub total : ℕ → Incoming → List Block
  total id client =
      (run_of x flush r id client).blocks
      ++ (close_run x flush r id (run_of x flush r id client).status).blocks

  abbrev pub pending_in : ℕ → Incoming → Phase → List Block
  pending_in id client (serving left) =
      left ++ (close_run x flush r id (run_of x flush r id client).status).blocks
  pending_in id client (closing left) = left
  pending_in id client over = []

  -- The part of it that was not sent yet.
  abbrev pub pending : Client → List Block
  pending c = pending_in c.client_id c.incoming c.phase

  -- What was sent for a client is the first part of it.
  pub record Sent (bs : List Block) (c : Client) : Type 0 where
    pub sum : of_client c.client_id bs ++ pending c ≡ total c.client_id c.incoming
    pub owned : All (IsOwned c.client_id) (pending c)

  pub record Inv (counter : ℕ) (clients : List Client) (bs : List Block) : Type 0 where
    pub count : counter ≡ length clients % 2 ^ 32
    pub ids : IdsFrom 0 clients
    pub good : All (Sent bs) clients
    pub fresh : (id : ℕ) → length clients ≤ id → of_client id bs ≡ []

  abbrev pub begun : State → Incoming → Client
  begun s client = record {
    client_id = (new_client_id s.counter).0;
    incoming = client;
    phase = serving (run_of x flush r (new_client_id s.counter).0 client).blocks;
  }

  module _ (large : 10 ≤ r.transfer_length) (small : r.transfer_length < 2 ^ 32) where
    close_run-IsOwned :
        (id : ℕ) (status : Status)
        → id < 2 ^ 32
        → All (IsOwned id) (close_run x flush r id status).blocks
    close_run-IsOwned id waiting h = tt
    close_run-IsOwned id finished h = tt
    close_run-IsOwned id panicked h = tt
    close_run-IsOwned id (failed e) h =
        unfilled-IsOwned x r id h abort (stop finished) refl (omega arith) tt

    pub heartbeat_made : (b : Block) → new x heartbeat r 0 none ≡ ok b → IsBeat b
    heartbeat_made b made =
        let (c, e, typed, owned, p, len) =
          accessors-new-none x heartbeat r 0 (omega arith) (omega arith) in
        let same : b ≡ c = cc (made, e) in
        record { client = 0; typed = rw same typed; owned = rw same owned }

    pub begin-Inv :
        (counter : ℕ) (clients : List Client) (bs : List Block) (client : Incoming)
        → length clients < 2 ^ 32
        → Inv counter clients bs
        → Inv
            (new_client_id counter).1
            (clients
              ++ record {
                client_id = (new_client_id counter).0;
                incoming = client;
                phase = serving (run_of x flush r (new_client_id counter).0 client).blocks;
              }
                ∷ [])
            bs
    unfolding new_client_id
    begin-Inv counter clients bs client few v =
        let size = λ (c : Client). length-append clients (c ∷ []) in
        let id_eq : counter ≡ length clients = omega (arith, v.count) in
        record {
          count = omega (
            arith,
            v.count,
            size (record {
              client_id = counter;
              incoming = client;
              phase = serving (run_of x flush r counter client).blocks;
            }),
          );
          ids = IdsFrom-snoc 0 clients _ v.ids (omega (arith, id_eq));
          good = All-append (Sent bs) clients _ v.good (
            record {
              sum = rw (v.fresh counter (omega (arith, id_eq))) refl;
              owned =
                  All-append (IsOwned counter) (run_of x flush r counter client).blocks _
                    (start_client-IsOwned x flush r counter client.reads client.stream
                      (omega (arith, id_eq)) large small)
                    (close_run-IsOwned counter _ (omega (arith, id_eq)));
            },
            tt,
          );
          fresh = λ id h. v.fresh id (omega (arith, h, size _));
        }

    -- A client that goes on, while nothing is sent for the others.
    update-Inv :
        (counter : ℕ) (before after : List Client) (c : Client) (p : Phase) (bs cs : List Block)
        → ((id : ℕ) → id ≢ c.client_id → of_client id cs ≡ of_client id bs)
        → (Sent bs c → Sent cs (record c { phase = p }))
        → Inv counter (before ++ c ∷ after) bs
        → Inv counter (before ++ record c { phase = p } ∷ after) cs
    update-Inv counter before after c p bs cs elsewhere own v =
        let d : Client = record c { phase = p } in
        let size : length (before ++ d ∷ after) ≡ length (before ++ c ∷ after) =
          omega (arith, length-append before (c ∷ after), length-append before (d ∷ after)) in
        let place = IdsFrom-place 0 before after c v.ids in
        record {
          count = rw size v.count;
          ids = IdsFrom-update 0 before after c d refl v.ids;
          good =
              All-update (Sent bs) (Sent cs) 0 before after c d v.ids v.good
                (λ e other u. record {
                  sum = rw (elsewhere e.client_id other) u.sum;
                  owned = u.owned;
                })
                own;
          fresh = λ id h.
              elsewhere id
                (λ e. absurd (omega (arith, h, e, place, size, length-append before (c ∷ after))))
              ∙ v.fresh id (omega (arith, h, size));
        }

    -- A client that goes on without sending a block.
    pub silent-Inv :
        (counter : ℕ) (before after : List Client) (c : Client) (p q : Phase) (bs : List Block)
        → c.phase ≡ p
        → pending_in c.client_id c.incoming q ≡ pending_in c.client_id c.incoming p
        → Inv counter (before ++ c ∷ after) bs
        → Inv counter (before ++ record c { phase = q } ∷ after) bs
    silent-Inv counter before after c p q bs now left v =
        let same = left ∙ ap (pending_in c.client_id c.incoming) (sym now) in
        update-Inv counter before after c q bs bs (λ id other. refl)
          (λ u. record {
            sum = ap (◌++◌ (of_client c.client_id bs)) same ∙ u.sum;
            owned = subst (All (IsOwned c.client_id)) (sym same) u.owned;
          })
          v

    -- A client that sends a block.
    pub sends-Inv :
        (counter : ℕ) (before after : List Client) (c : Client) (p q : Phase) (b : Block)
        (bs : List Block)
        → c.phase ≡ p
        → pending_in c.client_id c.incoming p ≡ b ∷ pending_in c.client_id c.incoming q
        → Inv counter (before ++ c ∷ after) bs
        → Inv counter (before ++ record c { phase = q } ∷ after) (bs ++ b ∷ [])
    sends-Inv counter before after c p q b bs now left v =
        update-Inv counter before after c q bs (bs ++ b ∷ [])
          (λ id other. of_client-snoc id c.client_id bs b mine other)
          (λ u. record {
            sum =
                ap (λ l. l ++ pending_in c.client_id c.incoming q)
                  (of_client-own c.client_id bs b mine)
                ∙ append_assoc (of_client c.client_id bs) (b ∷ []) _
                ∙ ap (◌++◌ (of_client c.client_id bs)) (sym all_left)
                ∙ u.sum;
            owned = (subst (All (IsOwned c.client_id)) all_left u.owned).1;
          })
          v
      where
        all_left : pending c ≡ b ∷ pending_in c.client_id c.incoming q
        all_left = ap (pending_in c.client_id c.incoming) now ∙ left

        mine : IsOwned c.client_id b
        mine =
            (subst (All (IsOwned c.client_id)) all_left
              (All-at (Sent bs) before after c v.good).owned).0

    pub beat-Inv :
        (counter : ℕ) (clients : List Client) (b : Block) (bs : List Block)
        → IsBeat b
        → Inv counter clients bs
        → Inv counter clients (bs ++ b ∷ [])
    beat-Inv counter clients b bs e v = record {
      count = v.count;
      ids = v.ids;
      good =
          All-map (Sent bs) (Sent (bs ++ b ∷ [])) clients
            (λ c u. record { sum = rw (of_client-beat c.client_id bs b e) u.sum; owned = u.owned })
            v.good;
      fresh = λ id h. of_client-beat id bs b e ∙ v.fresh id h;
    }
