-- ===== src/Receive/Dispatch/Interleaved.antt =====
-- A transfer whose blocks arrive among those of other clients.
use lidi_4d8d19daa.Common.{
  ℕ, ◌+◌, ◌≡◌, ◌≢◌, refl, sym, ap, ◌∙◌, ◌⊎◌, inl, inr, List, [], ◌∷◌, ◌++◌, Option, some, false, ok,
  err, ◌==◌, if◌then◌else◌, All, map, arith, Bool-cases, ==_iff, ==_refl,
}
use lidi_4d8d19daa.Extern.{Extern}
use lidi_4d8d19daa.Protocol
use lidi_4d8d19daa.Protocol.Raptorq.{RaptorQ}
use lidi_4d8d19daa.Protocol.Block.{
  Block, BlockType, heartbeat, start, chunk, end, block_type, client_id,
}
use lidi_4d8d19daa.Send.Client.Stream.{IsBlock, Transfer, last, next}
use lidi_4d8d19daa.Receive.Dispatch.{
  Transfers, State, Queues, Action, opens, delivers, lookup, insert, route, dispatch_typed,
  dispatch_block, is_closing, round, run,
}
use lidi_4d8d19daa.Receive.Dispatch.Owners.{Distinct, Inv, lookup-NoQueue, lookup-Below}
use lidi_4d8d19daa.Receive.Dispatch.Routing.{IsRouted, dispatch_block_contained, lookup-insert_self}
use lidi_4d8d19daa.Receive.Dispatch.Silence.{IsSilent, route_closes}
use lidi_4d8d19daa.Receive.Dispatch.Ended.{round-Inv, run-Kept, run-cons}

-- What is put into a queue, in order.
abbrev pub deliveries : ℕ → List Action → List Block
deliveries q [] = []
deliveries q (opens id p ∷ actions) = deliveries q actions
deliveries q (delivers p b ∷ actions) =
    if p == q then b ∷ deliveries q actions else deliveries q actions

-- A block that is not of the client's transfer: of unknown type, a heartbeat, or of another client.
abbrev pub IsForeign : ℕ → Block → Type 0
IsForeign id b =
    ((e : Protocol.Error) × (block_type b ≡ err e))
    ⊎ ((k : BlockType) × (j : ℕ) × (block_type b ≡ ok k)
        × (client_id b ≡ ok j)
        × ((k ≡ heartbeat) ⊎ (j ≢ id)))

-- Blocks of a client's transfer, in order, among foreign ones.
pub data Mixed (id : ℕ) : List Block → List Block → Type 0 where
  done : Mixed id [] []
  mine : {b : Block} {bs own : List Block} → Mixed id bs own → Mixed id (b ∷ bs) (b ∷ own)
  foreign :
      {b : Block} {bs own : List Block} → IsForeign id b → Mixed id bs own → Mixed id (b ∷ bs) own

-- Blocks received with the queues in some states, in all of which a queue has its receiver.
abbrev pub Received : Type 0
Received = List (Queues × Block)

abbrev pub blocks : Received → List Block
blocks received = map (λ e. e.1) received

abbrev pub events : Received → List (Queues × Option Block)
events received = map (λ e. (e.0, some e.1)) received

abbrev pub IsServed : ℕ → Received → Type 0
IsServed q received = All (λ e. e.0.closed q ≡ false) received

deliveries-append :
    (q : ℕ) (xs ys : List Action) → deliveries q (xs ++ ys) ≡ deliveries q xs ++ deliveries q ys
deliveries-append q [] ys = refl
deliveries-append q (opens id p ∷ xs) ys = deliveries-append q xs ys
deliveries-append q (delivers p b ∷ xs) ys = elim (Bool-cases (p == q)) [
  | inl e ↦ rw (e, deliveries-append q xs ys) refl
  | inr e ↦ rw (e, deliveries-append q xs ys) refl
]

IsSilent-deliveries : (q : ℕ) (xs : List Action) → All (IsSilent q) xs → deliveries q xs ≡ []
IsSilent-deliveries q [] h = refl
IsSilent-deliveries q (opens id p ∷ xs) h = IsSilent-deliveries q xs h.1
IsSilent-deliveries q (delivers p b ∷ xs) h =
    let other : (p == q) ≡ false = ground (arith, h.0) in
    rw (other, IsSilent-deliveries q xs h.1) refl

-- A queue has one owner.
lookup-Distinct :
    (i j q : ℕ) (m : Transfers) → Distinct m → lookup i m ≡ some q → lookup j m ≡ some q → i ≡ j
unfolding lookup
lookup-Distinct i j q [] h e e' = cc
lookup-Distinct i j q ((k, p) ∷ m) h e e' =
    ground (arith, lookup-Distinct i j q m h.1, lookup-NoQueue i p q m, lookup-NoQueue j p q m, h.0)

module _ (x : Extern) (r : RaptorQ x) where
  typed_round :
      (qs : Queues) (s : State) (b : Block) (k : BlockType) (j : ℕ)
      → block_type b ≡ ok k
      → client_id b ≡ ok j
      → round x r qs s (some b) ≡ ok (dispatch_typed qs s b j k)
  unfolding round dispatch_block
  typed_round qs s b k j typed own = rw (typed, own, dispatch_block) refl

  IsRouted-deliveries :
      (s : State) (b : Block) (id j q : ℕ) (actions : List Action)
      → Inv s
      → lookup id s.active ≡ some q
      → j ≢ id
      → All (IsRouted s j b) actions
      → deliveries q actions ≡ []
  IsRouted-deliveries s b id j q [] v active other h = refl
  IsRouted-deliveries s b id j q (opens k p ∷ actions) v active other h =
      IsRouted-deliveries s b id j q actions v active other h.1
  IsRouted-deliveries s b id j q (delivers p c ∷ actions) v active other ((same, to), h) =
      rw (elsewhere to, IsRouted-deliveries s b id j q actions v active other h) refl
    where
      elsewhere : (lookup j s.active ≡ some p) ⊎ (p ≡ s.next_queue) → (p == q) ≡ false
      elsewhere (inl theirs) = elim (Bool-cases (p == q)) [
        | inl e ↦ absurd (
            other (
              lookup-Distinct j id q s.active v.distinct (theirs ∙ ap some ((==_iff p q).0 e))
                active))
        | inr e ↦ e
      ]
      elsewhere (inr new) = ground (arith, lookup-Below id s.next_queue q s.active active v.below)

  -- A foreign block leaves the transfer of the client and its queue alone.
  foreign_round :
      (qs : Queues) (s : State) (b : Block) (id q : ℕ)
      → Inv s
      → IsForeign id b
      → (t : State) × (actions : List Action) × (round x r qs s (some b) ≡ ok (t, actions))
        × (lookup id t.active ≡ lookup id s.active)
        × ((lookup id s.active ≡ some q) → deliveries q actions ≡ [])
  unfolding round dispatch_block
  foreign_round qs s b id q v (inl (e, typed)) =
      (s, [], rw (typed, dispatch_block) refl, refl, λ active. refl)
  foreign_round qs s b id q v (inr (k, j, typed, own, inl beat)) =
      (s, [], typed_round qs s b k j typed own ∙ rw beat refl, refl, λ active. refl)
  foreign_round qs s b id q v (inr (k, j, typed, own, inr other)) =
      let result : State × List Action = dispatch_typed qs s b j k in
      let ran = typed_round qs s b k j typed own in
      let (routed, others) = dispatch_block_contained qs s result.0 b j result.1 own ran in
      (
        result.0,
        result.1,
        ran,
        others id (λ e. other (sym e)),
        λ active. IsRouted-deliveries s b id j q result.1 v active other routed,
      )

  foreign_run :
      (id : ℕ) (received : Received) (s : State)
      → Inv s
      → Mixed id (blocks received) []
      → (t : State) × (actions : List Action) × (run x r s (events received) ≡ ok (t, actions))
  unfolding run
  foreign_run id [] s v m = (s, [], refl)
  foreign_run id ((qs, b) ∷ received) s v (foreign f m) =
      let (t, first, e, same, silent) = foreign_round qs s b id 0 v f in
      let (u, rest, e') = foreign_run id received t (round-Inv x r qs s t (some b) first v e) m in
      (u, first ++ rest, run-cons x r qs s t u (some b) (events received) first rest e e')

  route-delivers :
      (qs : Queues) (s : State) (b : Block) (id q : ℕ) (k : BlockType)
      → lookup id s.active ≡ some q
      → qs.closed q ≡ false
      → (route qs s b id k).1 ≡ delivers q b ∷ []
  unfolding route
  route-delivers qs s b id q k active served = rw (active, served, route) (ground arith)

  route-keeps :
      (qs : Queues) (s : State) (b : Block) (id q : ℕ) (k : BlockType)
      → is_closing k ≡ false
      → lookup id s.active ≡ some q
      → qs.closed q ≡ false
      → route qs s b id k ≡ (s, delivers q b ∷ [])
  unfolding route
  route-keeps qs s b id q k still active served = rw (active, served, still, route) refl

  transfer_run :
      (id q : ℕ) (received : Received) (s : State) {own : List Block} {bytes : List ℕ}
      → Inv s
      → lookup id s.active ≡ some q
      → IsServed q received
      → Mixed id (blocks received) own
      → Transfer id own bytes
      → (t : State) × (actions : List Action) × (run x r s (events received) ≡ ok (t, actions))
        × (deliveries q actions ≡ own)
  unfolding dispatch_typed
  transfer_run id q [] s v active served done transfer = elim transfer [ ]
  transfer_run id q ((qs, b) ∷ received) s {own} v active (served, more) (foreign f m) transfer =
      let (t, first, e, same, silent) = foreign_round qs s b id q v f in
      let w = round-Inv x r qs s t (some b) first v e in
      let (u, rest, e', put) = transfer_run id q received t w (same ∙ active) more m transfer in
      (
        u,
        first ++ rest,
        run-cons x r qs s t u (some b) (events received) first rest e e',
        deliveries-append q first rest ∙ rw (silent active) put,
      )
  transfer_run id q ((qs, b) ∷ received) s v active (served, more) (mine m) (last b_end) =
      let result : State × List Action = route qs s b id end in
      let ran = typed_round qs s b end id b_end.typed b_end.owned in
      let w = round-Inv x r qs s result.0 (some b) result.1 v ran in
      let (u, rest, e') = foreign_run id received result.0 w m in
      let dead = route_closes qs b id q s end v active refl in
      let silent = run-Kept x r q result.0 u (events received) rest dead e' in
      (
        u,
        result.1 ++ rest,
        run-cons x r qs s result.0 u (some b) (events received) result.1 rest ran e',
        deliveries-append q result.1 rest
            ∙ rw
                (
                  route-delivers qs s b id q end active served,
                  IsSilent-deliveries q rest silent,
                  ==_refl q,
                )
                refl,
      )
  transfer_run id q ((qs, b) ∷ received) s v active (served, more) (mine m) (next b_chunk tail e) =
      let ran =
        typed_round qs s b chunk id b_chunk.typed b_chunk.owned
        ∙ ap ok (route-keeps qs s b id q chunk refl active served) in
      let (u, rest, e', put) = transfer_run id q received s v active more m tail in
      (
        u,
        delivers q b ∷ rest,
        run-cons x r qs s s u (some b) (events received) (delivers q b ∷ []) rest ran e',
        rw (==_refl q, put) refl,
      )

  -- Blocks arrive in any interleaving of the clients: the start block of a client, then its data
  -- and end blocks among blocks of unknown type, heartbeats and blocks of other clients, while its
  -- queue has its receiver. Then the worker runs on, a new queue is opened for the client first, and
  -- what is put into that queue is exactly the blocks of the client, in order.
  pub interleaved_transfer :
      (id : ℕ) (qs : Queues) (b : Block) (received : Received) (s : State) (own : List Block)
      (bytes : List ℕ)
      → Inv s
      → IsBlock start id [] b
      → Mixed id (blocks received) own
      → Transfer id own bytes
      → IsServed s.next_queue ((qs, b) ∷ received)
      → (t : State) × (actions : List Action) × (run x r s (events ((qs, b) ∷ received))
          ≡ ok (t, opens id s.next_queue ∷ actions))
        × (deliveries s.next_queue actions ≡ b ∷ own)
  unfolding dispatch_typed
  interleaved_transfer id qs b received s own bytes v first m transfer (served, more) =
      let s' : State = record s {
        active = insert id s.next_queue s.active;
        next_queue = s.next_queue + 1;
      } in
      let q : ℕ = s.next_queue in
      let there = lookup-insert_self id q s.active in
      let kept = route-keeps qs s' b id q start refl there served in
      let ran =
        typed_round qs s b start id first.typed first.owned
        ∙ ap (λ (p : State × List Action). ok (p.0, opens id q ∷ p.1)) kept in
      let w = round-Inv x r qs s s' (some b) (opens id q ∷ delivers q b ∷ []) v ran in
      let (t, rest, e, put) = transfer_run id q received s' w there more m transfer in
      (
        t,
        delivers q b ∷ rest,
        run-cons x r qs s s' t (some b) (events received) (opens id q ∷ delivers q b ∷ []) rest ran
            e,
        rw (==_refl q, put) refl,
      )
