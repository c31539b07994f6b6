-- ===== src/Diode/Servers.antt =====
-- From a client that a server worker of the sender takes, while the other workers serve theirs, to
-- the client of the receiver: src/send and src/receive as a whole.
use lidi_4d8d19daa.Common.{
  ℕ, suc, refl, ◌^◌, ◌≤◌, ◌<◌, ◌≡◌, sym, ap, ◌∙◌, List, [], ◌∷◌, ◌++◌, none, some, Option, Bool,
  true, false, ok, inl, inr, length, length-append, append-nil, map, concat, All, arith, Bool-cases,
  Result-cases, ==_iff, ◌==◌, not, ◌&&◌,
}
use mathlib.Core.List.{map-append}
use mathlib.Core.Path.{subst}
use mathlib.Core.Bool.{true≢false}
use lidi_4d8d19daa.Common.Reader.{AllReady}
use lidi_4d8d19daa.Extern.{Extern, ExternLaws}
use lidi_4d8d19daa.Protocol.Raptorq.{RaptorQ, min_nb_packets}
use lidi_4d8d19daa.Protocol.Block.{
  Block, BlockType, heartbeat, start, chunk, abort, end, block_type, client_id,
}
use lidi_4d8d19daa.Protocol.Block.Owner.{is_heartbeat, is_of, of_client, of_client-append}
use lidi_4d8d19daa.Send.Client as Sender
use lidi_4d8d19daa.Send.Client.Stream.{start_client-Transfer}
use lidi_4d8d19daa.Send.Pipeline.{Pipeline, Reach}
use lidi_4d8d19daa.Send.Server.{Incoming}
use lidi_4d8d19daa.Send.Servers as Servers
use lidi_4d8d19daa.Send.Servers.{Client, run_of, close_run}
use lidi_4d8d19daa.Send.Servers.Sent.{total, pending}
use lidi_4d8d19daa.Send.Servers.Sized.{sent_blocks-AllSized}
use lidi_4d8d19daa.Send.Servers.Order.{sent_blocks, sent_for_each}
use lidi_4d8d19daa.Receive.{Reassembled}
use lidi_4d8d19daa.Receive.Reblock as Reblock
use lidi_4d8d19daa.Receive.Reblock.Collect.{singles}
use lidi_4d8d19daa.Receive.Decode as Decode
use lidi_4d8d19daa.Receive.Decode.Feed.{Fed}
use lidi_4d8d19daa.Receive.Client.{finished, start_client}
use lidi_4d8d19daa.Receive.Client.Delivery.{arrivals}
use lidi_4d8d19daa.Receive.Dispatch.{State, Queues, Action, opens, init_state, run}
use lidi_4d8d19daa.Receive.Dispatch.Interleaved.{
  Received, IsForeign, Mixed, done, mine, foreign, IsServed, blocks, events, deliveries,
}
use lidi_4d8d19daa.Diode.Packets.{AgreeOn, IsFull}
use lidi_4d8d19daa.Diode.Streams.{stream_to_client}

is_heartbeat-true : (t : BlockType) → is_heartbeat t ≡ true → t ≡ heartbeat
is_heartbeat-true heartbeat e = refl
is_heartbeat-true start e = cc
is_heartbeat-true chunk e = cc
is_heartbeat-true abort e = cc
is_heartbeat-true end e = cc

-- A block that is not of the client's transfer is foreign to it.
is_of-IsForeign : (id : ℕ) (b : Block) → is_of id b ≡ false → IsForeign id b
is_of-IsForeign id b e = elim (Result-cases (block_type b)) [
  | inr (inl (k, typed)) ↦ inl (k, typed)
  | inr (inr broken) ↦ absurd (true≢false (sym (rw (broken, is_of) refl) ∙ e))
  | inl (t, typed) ↦ elim (Result-cases (client_id b)) [
    | inr (inl (k, owned)) ↦ absurd (true≢false (sym (rw (typed, owned, is_of) refl) ∙ e))
    | inr (inr broken) ↦ absurd (true≢false (sym (rw (typed, broken, is_of) refl) ∙ e))
    | inl (j, owned) ↦
        let test : (not (is_heartbeat t) && (j == id)) ≡ false =
          sym (rw (typed, owned, is_of) refl) ∙ e in
        inr (
          t,
          j,
          typed,
          owned,
          elim (Bool-cases (is_heartbeat t)) [
            | inl beat ↦ inl (is_heartbeat-true t beat)
            | inr quiet ↦ inr (λ same. true≢false (sym ((==_iff j id).1 same) ∙ (rw quiet at test)))
          ],
        )
  ]
]

-- A client's blocks among all blocks.
of_client-Mixed : (id : ℕ) (bs : List Block) → Mixed id bs (of_client id bs)
of_client-Mixed id [] = done
of_client-Mixed id (b ∷ bs) = elim (Bool-cases (is_of id b)) [
  | inl e ↦ rw e (mine (of_client-Mixed id bs))
  | inr e ↦ rw e (foreign (is_of-IsForeign id b e) (of_client-Mixed id bs))
]

-- The blocks of a client, from its first block on.
first_of_client :
    (id : ℕ) (front back : List Block) (b : Block)
    → of_client id front ≡ []
    → is_of id b ≡ true
    → of_client id (front ++ b ∷ back) ≡ b ∷ of_client id back
first_of_client id front back b none_before own =
    of_client-append id front (b ∷ back) ∙ rw (none_before, own) refl

total_finished :
    (x : Extern) (flush : Bool) (r : RaptorQ x) (id : ℕ) (client : Incoming)
    → (run_of x flush r id client).status ≡ Sender.finished
    → total x flush r id client ≡ (run_of x flush r id client).blocks
total_finished x flush r id client e =
    ap (λ k. (run_of x flush r id client).blocks ++ (close_run x flush r id k).blocks) e
    ∙ append-nil (run_of x flush r id client).blocks

module _ (x : Extern) (laws : ExternLaws x) (mtu block repair min_repair : ℕ) (s r : RaptorQ x)
    (agree : AgreeOn x mtu block repair min_repair s r) where
  -- The server workers of the sender have taken clients in any interleaving, the one of client `c`
  -- is through with it, and its reads all succeeded. The pipeline has sent all blocks that the
  -- workers gave it; the packets arrive, in order and each in a datagram of its own, at a receiver that
  -- agrees on the parameters; its decoding workers, in any interleaving, have sent on a message for
  -- each block, and the queue that is opened for the client keeps its receiver. Then what the
  -- dispatch worker gets is exactly the blocks of the sender, it opens a queue for the first block of
  -- the client, and the client worker of that queue, whose client accepts every write, writes exactly
  -- the stream of `c` and ends its client with success. There are at most 2 ^ 32 clients, and at most
  -- 255 encoding and 255 decoding workers.
  pub client_of_server :
      (flush beats limit : Bool) (max_clients nb nb' : ℕ) (w : Servers.State)
      (front back : List Client) (c : Client) (p : Pipeline x) (t : Reblock.State x)
      (outs : List (Reassembled x)) (d : Decode.State x) (qs : Queues) (earlier later : Received)
      (b : Block) (before : State) (did : List Action)
      → 10 ≤ s.transfer_length
      → s.transfer_length < 2 ^ 32
      → Servers.Reach x flush s nb beats max_clients w
      → length w.clients ≤ 2 ^ 32
      → w.clients ≡ front ++ c ∷ back
      → pending x flush s c ≡ []
      → AllReady (suc (length c.incoming.stream)) c.incoming.reads
      → nb ≤ 255
      → Reach x s nb p
      → p.fed ≡ sent_blocks w
      → length p.sent ≡ length p.fed
      → Reblock.run (min_nb_packets x r) (Reblock.init_state x) (singles x (concat p.sent))
        ≡ ok (t, outs)
      → nb' ≤ 255
      → 0 < nb'
      → Fed x r nb' 0 d outs
      → length d.dispatched ≡ length p.fed
      → p.fed ≡ blocks (earlier ++ (qs, b) ∷ later)
      → of_client c.client_id (blocks earlier) ≡ []
      → is_of c.client_id b ≡ true
      → run x r init_state (events earlier) ≡ ok (before, did)
      → IsServed before.next_queue ((qs, b) ∷ later)
      → (map (λ (e : Queues × Option Block). e.1) (events (earlier ++ (qs, b) ∷ later))
          ≡ d.dispatched)
        × (after : State) × (actions : List Action) × (run x r init_state
              (events (earlier ++ (qs, b) ∷ later))
            ≡ ok (after, did ++ opens c.client_id before.next_queue ∷ actions))
        × (start_client x r none limit (arrivals (deliveries before.next_queue actions))
            ≡ record { written = c.incoming.stream; ended = some true; status = finished })
  client_of_server flush beats limit max_clients nb nb' w front back c p t outs d qs earlier later b
        before did large small served few_clients here through ready few reach fed all ran few' pos
        decoded ended whole none_before own first attended =
      let (sum, place, fresh) =
        sent_for_each x flush s large small nb beats max_clients w front back c served few_clients
          here in
      let full : All (IsFull x laws mtu block repair min_repair s r agree) p.fed =
        subst (All (IsFull x laws mtu block repair min_repair s r agree)) (sym fed)
          (sent_blocks-AllSized x laws flush s large small nb beats max_clients served) in
      let known : c.client_id < 2 ^ 32 =
        omega (arith, place, few_clients, ap length here, length-append front (c ∷ back)) in
      let (c_first, c_rest, e, head, tail, finish) =
        start_client-Transfer x flush s c.client_id c.incoming.reads c.incoming.stream known large
          small ready in
      let mine_all : of_client c.client_id (sent_blocks w)
          ≡ (run_of x flush s c.client_id c.incoming).blocks =
        sym (append-nil (of_client c.client_id (sent_blocks w)))
        ∙ ap (◌++◌ (of_client c.client_id (sent_blocks w))) (sym through)
        ∙ sum
        ∙ total_finished x flush s c.client_id c.incoming finish in
      let mine_later : of_client c.client_id (sent_blocks w)
          ≡ b ∷ of_client c.client_id (blocks later) =
        ap (of_client c.client_id)
          (sym fed ∙ whole ∙ map-append (λ (e : Queues × Block). e.1) earlier ((qs, b) ∷ later))
        ∙ first_of_client c.client_id (blocks earlier) (blocks later) b none_before own in
      stream_to_client x laws mtu block repair min_repair s r agree flush limit c.client_id
        c.incoming.reads c.incoming.stream qs earlier later b (of_client c.client_id (blocks later))
        nb nb' p t outs d before did known large small ready (sym mine_all ∙ mine_later)
        (of_client-Mixed c.client_id (blocks later)) whole few reach full all ran few' pos decoded
        ended first attended
