-- ===== src/Receive/Dispatch/Routing.antt =====
-- Which queues and transfers one block touches.
use lidi_4d8d19daa.Common.{
  ℕ, ◌+◌, ◌≡◌, ◌≢◌, refl, ◌∙◌, ◌⊎◌, inl, inr, List, [], ◌∷◌, none, some, ok, All, arith,
  Result-cases,
}
use mathlib.Core.Path.{subst}
use lidi_4d8d19daa.Protocol.Block.{
  Block, BlockType, heartbeat, start, chunk, abort, end, block_type, client_id,
}
use lidi_4d8d19daa.Receive.Dispatch.{
  Transfers, State, Queues, Action, opens, delivers, lookup, remove, insert, route, dispatch_typed,
  dispatch_block,
}

lookup-remove_self : (id : ℕ) (m : Transfers) → lookup id (remove id m) ≡ none
unfolding lookup remove
lookup-remove_self id [] = refl
lookup-remove_self id ((k, q) ∷ m) = ground (arith, lookup-remove_self id m)

lookup-remove_ne : (id j : ℕ) (m : Transfers) → j ≢ id → lookup j (remove id m) ≡ lookup j m
unfolding lookup remove
lookup-remove_ne id j [] h = refl
lookup-remove_ne id j ((k, q) ∷ m) h = ground (arith, lookup-remove_ne id j m)

pub lookup-insert_self : (id q : ℕ) (m : Transfers) → lookup id (insert id q m) ≡ some q
unfolding lookup insert
lookup-insert_self id q m = ground arith

lookup-insert_ne : (id j q : ℕ) (m : Transfers) → j ≢ id → lookup j (insert id q m) ≡ lookup j m
unfolding lookup insert
lookup-insert_ne id j q m h = ground (arith, lookup-remove_ne id j m)

-- A delivery of the block itself, to the queue that the client had or was just given.
abbrev pub IsRouted : State → ℕ → Block → Action → Type 0
IsRouted s id b (opens k q) = (k ≡ id) × (q ≡ s.next_queue)
IsRouted s id b (delivers q c) = (c ≡ b) × ((lookup id s.active ≡ some q) ⊎ (q ≡ s.next_queue))

module _ (qs : Queues) (b : Block) (id : ℕ) where
  abbrev IsOwn : State → Action → Type 0
  IsOwn s (opens k q) = ⊥
  IsOwn s (delivers q c) = (c ≡ b) × (lookup id s.active ≡ some q)

  route-IsOwn : (s : State) (t : BlockType) → All (IsOwn s) (route qs s b id t).1
  unfolding route
  route-IsOwn s t = ground arith

  route_others :
      (s : State) (t : BlockType) (j : ℕ)
      → j ≢ id
      → lookup j (route qs s b id t).0.active ≡ lookup j s.active
  unfolding route
  route_others s t j h = ground (arith, lookup-remove_ne id j s.active h)

  abbrev Contained : State → State × List Action → Type 0
  Contained s result =
      All (IsRouted s id b) result.1
      × ((j : ℕ) → j ≢ id → lookup j result.0.active ≡ lookup j s.active)

  All-own :
      (s : State) (actions : List Action) → All (IsOwn s) actions → All (IsRouted s id b) actions
  All-own s [] h = tt
  All-own s (opens k q ∷ actions) h = absurd h.0
  All-own s (delivers q c ∷ actions) ((e, own), rest) = ((e, inl own), All-own s actions rest)

  All-opened :
      (s : State) (actions : List Action)
      → All
          (IsOwn
            (record s { active = insert id s.next_queue s.active; next_queue = s.next_queue + 1 }))
          actions
      → All (IsRouted s id b) actions
  All-opened s [] h = tt
  All-opened s (opens k q ∷ actions) h = absurd h.0
  All-opened s (delivers q c ∷ actions) ((e, own), rest) =
      ((e, inr (cc (own, lookup-insert_self id s.next_queue s.active))), All-opened s actions rest)

  routed : (s : State) (t : BlockType) → Contained s (route qs s b id t)
  routed s t = (All-own s _ (route-IsOwn s t), route_others s t)

  typed-Contained : (s : State) (t : BlockType) → Contained s (dispatch_typed qs s b id t)
  unfolding dispatch_typed
  typed-Contained s heartbeat = (tt, λ j h. refl)
  typed-Contained s start = (
    ((refl, refl), All-opened s _ (route-IsOwn _ start)),
    λ j h. route_others _ start j h ∙ lookup-insert_ne id j s.next_queue s.active h,
  )
  typed-Contained s chunk = routed s chunk
  typed-Contained s abort = routed s abort
  typed-Contained s end = routed s end

-- A block acts on the transfer of its own client only: whatever it delivers is the block itself,
-- into the queue of that client or the queue just opened for it, a queue is opened for that client
-- only, and the transfers of all other clients stay as they were.
pub dispatch_block_contained :
    (qs : Queues) (s t : State) (b : Block) (id : ℕ) (actions : List Action)
    → client_id b ≡ ok id
    → dispatch_block qs s b ≡ ok (t, actions)
    → All (IsRouted s id b) actions × ((j : ℕ) → j ≢ id → lookup j t.active ≡ lookup j s.active)
unfolding dispatch_block
dispatch_block_contained qs s t b id actions own e = elim (Result-cases (block_type b)) [
  | inl (k, typed) ↦
      let same : dispatch_typed qs s b id k ≡ (t, actions) =
        cc (rw (typed, own, dispatch_block) at e) in
      subst (Contained qs b id s) same (typed-Contained qs b id s k)
  | inr (inl (x, typed)) ↦
      let same : ◌≡◌ {A = State × List Action} (s, []) (t, actions) =
        cc (rw (typed, dispatch_block) at e) in
      subst (Contained qs b id s) same (tt, λ j h. refl)
  | inr (inr typed) ↦ cc (rw (typed, dispatch_block) at e)
]
