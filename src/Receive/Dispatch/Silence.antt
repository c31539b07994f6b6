-- ===== src/Receive/Dispatch/Silence.antt =====
-- Actions that leave a queue alone, for one block.
use lidi_4d8d19daa.Common.{
  ℕ, ◌+◌, ◌<◌, ◌≡◌, ◌≢◌, inl, inr, List, [], ◌∷◌, some, true, ok, All, arith, Bool-cases,
  Option-cases, Result-cases,
}
use mathlib.Core.Path.{subst}
use lidi_4d8d19daa.Protocol.Block.{
  Block, BlockType, heartbeat, start, chunk, abort, end, block_type, client_id,
}
use lidi_4d8d19daa.Receive.Dispatch.{
  Transfers, State, Queues, Action, opens, delivers, lookup, remove, insert, retain, route,
  dispatch_typed, dispatch_block, is_closing,
}
use lidi_4d8d19daa.Receive.Dispatch.Owners.{
  NoQueue, Inv, All-remove, Distinct-remove, Below-NoQueue, Below-mono, lookup-NoQueue,
  lookup-Below, remove-NoQueue,
}

-- The actions that leave a queue alone.
abbrev pub IsSilent : ℕ → Action → Type 0
IsSilent q (opens id p) = p ≢ q
IsSilent q (delivers p b) = p ≢ q

-- Opened before, and used by no active transfer.
pub record IsDead (q : ℕ) (s : State) : Type 0 where
  pub old : q < s.next_queue
  pub unused : NoQueue q s.active

abbrev pub Kept : ℕ → State × List Action → Type 0
Kept q result = IsDead q result.0 × All (IsSilent q) result.1

module _ (qs : Queues) (b : Block) (id : ℕ) where
  -- What `route` can do: nothing, drop the transfer, close it, or deliver and keep it.
  route_cases {ℓ} :
      (P : State × List Action → Type ℓ) (s : State) (t : BlockType)
      → P (s, [])
      → P (record s { active = remove id s.active }, [])
      → ((p : ℕ)
          → lookup id s.active ≡ some p
          → P (
            record s {
              active = remove id s.active;
              ended = insert id p (retain qs.drained s.ended);
            },
            delivers p b ∷ [],
          ))
      → ((p : ℕ) → lookup id s.active ≡ some p → P (s, delivers p b ∷ []))
      → P (route qs s b id t)
  unfolding route
  route_cases P s t stays drops closes sends = elim (Option-cases (lookup id s.active)) [
    | inl e ↦ rw (e, route) stays
    | inr (p, e) ↦
        rw (e, route)
          (elim (Bool-cases (qs.closed p)) [
            | inl c ↦ rw c drops
            | inr c ↦ rw c (elim (Bool-cases (is_closing t)) [
              | inl k ↦ rw k (closes p e)
              | inr k ↦ rw k (sends p e)
            ])
          ])
  ]

  removed-Inv :
      (s : State) (ended : Transfers)
      → Inv s
      → Inv (record s { active = remove id s.active; ended = ended })
  removed-Inv s ended v = record {
    distinct = Distinct-remove id s.active v.distinct;
    below = All-remove (λ e. e.1 < s.next_queue) id s.active v.below;
  }

  route-Inv : (s : State) (t : BlockType) → Inv s → Inv (route qs s b id t).0
  route-Inv s t v =
      route_cases (λ r. Inv r.0) s t v (removed-Inv s s.ended v)
        (λ p e. removed-Inv s (insert id p (retain qs.drained s.ended)) v) (λ p e. v)

  removed-IsDead :
      (q : ℕ) (s : State) (ended : Transfers)
      → IsDead q s
      → IsDead q (record s { active = remove id s.active; ended = ended })
  removed-IsDead q s ended v = record {
    old = v.old;
    unused = All-remove (λ e. e.1 ≢ q) id s.active v.unused;
  }

  route-Kept : (q : ℕ) (s : State) (t : BlockType) → IsDead q s → Kept q (route qs s b id t)
  route-Kept q s t v =
      route_cases (Kept q) s t (v, tt) (removed-IsDead q s s.ended v, tt)
        (λ p e. (
          removed-IsDead q s (insert id p (retain qs.drained s.ended)) v,
          (lookup-NoQueue id q p s.active e v.unused, tt),
        ))
        (λ p e. (v, (lookup-NoQueue id q p s.active e v.unused, tt)))

  -- A closing block leaves the queue of its transfer without a user.
  pub route_closes :
      (q : ℕ) (s : State) (t : BlockType)
      → Inv s
      → lookup id s.active ≡ some q
      → is_closing t ≡ true
      → IsDead q (route qs s b id t).0
  unfolding route
  route_closes q s t v e c = record {
    old = ground (arith, lookup-Below id s.next_queue q s.active e v.below);
    unused = ground (arith, remove-NoQueue id q s.active e v.distinct);
  }

  opened : State → State
  opened s = record s { active = insert id s.next_queue s.active; next_queue = s.next_queue + 1 }

  opened-Inv : (s : State) → Inv s → Inv (opened s)
  opened-Inv s v = record {
    distinct =
        unfold opened insert in
        (
          All-remove (λ e. e.1 ≢ s.next_queue) id s.active
              (Below-NoQueue s.next_queue s.active v.below),
          Distinct-remove id s.active v.distinct,
        );
    below =
        unfold opened insert in
        (
          omega arith,
          Below-mono s.next_queue (s.next_queue + 1) (remove id s.active) (omega arith)
              (All-remove (λ e. e.1 < s.next_queue) id s.active v.below),
        );
  }

  opened-IsDead : (q : ℕ) (s : State) → IsDead q s → IsDead q (opened s)
  opened-IsDead q s v = record {
    old = unfold opened in (let h = v.old in omega arith);
    unused =
        unfold opened insert in
        (
          (λ e. let h = v.old in absurd (omega arith)),
          All-remove (λ e. e.1 ≢ q) id s.active v.unused,
        );
  }

  pub typed-Inv : (s : State) (t : BlockType) → Inv s → Inv (dispatch_typed qs s b id t).0
  unfolding dispatch_typed opened
  typed-Inv s heartbeat v = v
  typed-Inv s start v = route-Inv (opened s) start (opened-Inv s v)
  typed-Inv s chunk v = route-Inv s chunk v
  typed-Inv s abort v = route-Inv s abort v
  typed-Inv s end v = route-Inv s end v

  pub typed-Kept :
      (q : ℕ) (s : State) (t : BlockType) → IsDead q s → Kept q (dispatch_typed qs s b id t)
  unfolding dispatch_typed opened
  typed-Kept q s heartbeat v = (v, tt)
  typed-Kept q s start v =
      let (dead, silent) = route-Kept q (opened s) start (opened-IsDead q s v) in
      (dead, ((λ e. let h = v.old in absurd (omega arith)), silent))
  typed-Kept q s chunk v = route-Kept q s chunk v
  typed-Kept q s abort v = route-Kept q s abort v
  typed-Kept q s end v = route-Kept q s end v

-- A property of the result of one round that holds of an unchanged state and of every typed block.
pub block_cases {ℓ} :
    (P : State × List Action → Type ℓ) (qs : Queues) (s : State) (b : Block)
    (result : State × List Action)
    → dispatch_block qs s b ≡ ok result
    → P (s, [])
    → ((id : ℕ) (t : BlockType) → P (dispatch_typed qs s b id t))
    → P result
unfolding dispatch_block
block_cases P qs s b result e same typed = elim (Result-cases (block_type b)) [
  | inl (t, e1) ↦ elim (Result-cases (client_id b)) [
    | inl (id, e2) ↦ subst P (cc (rw (e1, e2, dispatch_block) at e)) (typed id t)
    | inr (inl (x, e2)) ↦ cc (rw (e1, e2, dispatch_block) at e)
    | inr (inr e2) ↦ cc (rw (e1, e2, dispatch_block) at e)
  ]
  | inr (inl (x, e1)) ↦ subst P (cc (rw (e1, dispatch_block) at e)) same
  | inr (inr e1) ↦ cc (rw (e1, dispatch_block) at e)
]
