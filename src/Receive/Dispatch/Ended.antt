-- ===== src/Receive/Dispatch/Ended.antt =====
-- What the dispatch worker does with the queue of a transfer that has ended.
use lidi_4d8d19daa.Common.{
  bind_ok, refl, sym, ap, ◌∙◌, ◌++◌, append_assoc, ℕ, ◌≡◌, inl, inr, List, [], ◌∷◌, Option, none,
  some, Bool, true, ok, if◌then◌else◌, All, All-append, Bool-cases,
}
use mathlib.Core.Path.{subst}
use lidi_4d8d19daa.Extern.{Extern}
use lidi_4d8d19daa.Protocol.Raptorq.{RaptorQ}
use lidi_4d8d19daa.Protocol.Block.{
  Block, BlockType, heartbeat, start, chunk, abort, end, block_type, client_id, new,
}
use lidi_4d8d19daa.Receive.Dispatch.{
  Transfers, State, Queues, Action, delivers, lookup, dispatch_typed, dispatch_block, abort_all,
  is_closing, lift, round, run,
}
use lidi_4d8d19daa.Receive.Dispatch.Owners.{NoQueue, Inv}
use lidi_4d8d19daa.Receive.Dispatch.Silence.{
  IsSilent, IsDead, Kept, route_closes, typed-Inv, typed-Kept, block_cases,
}

module _ (x : Extern) (r : RaptorQ x) where
  abort_all-IsSilent :
      (closed : ℕ → Bool) (q : ℕ) (m : Transfers) (actions : List Action)
      → NoQueue q m
      → abort_all x r closed m ≡ ok actions
      → All (IsSilent q) actions
  unfolding abort_all
  abort_all-IsSilent closed q [] actions h e =
      let same : [] ≡ actions = cc e in subst (All (IsSilent q)) same tt
  abort_all-IsSilent closed q ((id, p) ∷ m) actions h e =
      let (b, made, e') = bind_ok (lift (new x abort r id none)) _ actions e in
      let (rest, e1, e2) = bind_ok (abort_all x r closed m) _ actions e' in
      let ih = abort_all-IsSilent closed q m rest h.1 e1 in
      let same : (if closed p then rest else delivers p b ∷ rest) ≡ actions = cc e2 in
      subst (All (IsSilent q)) same
        (elim (Bool-cases (closed p)) [ inl c ↦ rw c ih | inr c ↦ rw c (h.0, ih) ])

  pub round-Inv :
      (qs : Queues) (s t : State) (received : Option Block) (actions : List Action)
      → Inv s
      → round x r qs s received ≡ ok (t, actions)
      → Inv t
  unfolding round
  round-Inv qs s t (some b) actions v e =
      block_cases (λ result. Inv result.0) qs s b (t, actions) e v (λ id k. typed-Inv qs b id s k v)
  round-Inv qs s t none actions v e =
      let (made, e1, e2) = bind_ok (abort_all x r qs.closed s.active) _ (t, actions) e in
      let same : ◌≡◌ {A = State × List Action} (record s { active = [] }, made) (t, actions) =
        cc e2 in
      subst (λ (p : State × List Action). Inv p.0) same (record { distinct = tt; below = tt })

  round-Kept :
      (qs : Queues) (q : ℕ) (s t : State) (received : Option Block) (actions : List Action)
      → IsDead q s
      → round x r qs s received ≡ ok (t, actions)
      → Kept q (t, actions)
  unfolding round
  round-Kept qs q s t (some b) actions v e =
      block_cases (Kept q) qs s b (t, actions) e (v, tt) (λ id k. typed-Kept qs b id q s k v)
  round-Kept qs q s t none actions v e =
      let (made, e1, e2) = bind_ok (abort_all x r qs.closed s.active) _ (t, actions) e in
      let same : ◌≡◌ {A = State × List Action} (record s { active = [] }, made) (t, actions) =
        cc e2 in
      subst (Kept q) same (
        record { old = v.old; unused = tt },
        abort_all-IsSilent qs.closed q s.active made v.unused e1,
      )

  pub run-Kept :
      (q : ℕ) (s t : State) (received : List (Queues × Option Block)) (actions : List Action)
      → IsDead q s
      → run x r s received ≡ ok (t, actions)
      → All (IsSilent q) actions
  unfolding run
  run-Kept q s t [] actions v e = let same : [] ≡ actions = cc e in subst (All (IsSilent q)) same tt
  run-Kept q s t ((qs, received) ∷ more) actions v e =
      let ((u, first), e1, e') = bind_ok (round x r qs s received) _ (t, actions) e in
      let ((w, rest), e2, e3) = bind_ok (run x r u more) _ (t, actions) e' in
      let (dead, silent) = round-Kept qs q s u received first v e1 in
      subst (All (IsSilent q)) (cc e3)
        (All-append (IsSilent q) first rest silent (run-Kept q u w more rest dead e2))

  -- In every state that the worker reaches, no two active transfers share a queue, and every queue
  -- in use has been opened.
  pub run-Inv :
      (s t : State) (received : List (Queues × Option Block)) (actions : List Action)
      → Inv s
      → run x r s received ≡ ok (t, actions)
      → Inv t
  unfolding run
  run-Inv s t [] actions v e = let same : s ≡ t = cc e in subst Inv same v
  run-Inv s t ((qs, received) ∷ more) actions v e =
      let ((u, first), e1, e') = bind_ok (round x r qs s received) _ (t, actions) e in
      let ((w, rest), e2, e3) = bind_ok (run x r u more) _ (t, actions) e' in
      let same : w ≡ t = cc e3 in
      subst Inv same (run-Inv u w more rest (round-Inv qs s u received first v e1) e2)

  pub run-cons :
      (qs : Queues) (s t u : State) (received : Option Block) (more : List (Queues × Option Block))
      (first rest : List Action)
      → round x r qs s received ≡ ok (t, first)
      → run x r t more ≡ ok (u, rest)
      → run x r s ((qs, received) ∷ more) ≡ ok (u, first ++ rest)
  unfolding run
  run-cons qs s t u received more first rest e e' = rw (e, e') refl

  -- Two runs of the worker, one after the other.
  pub run-append :
      (es fs : List (Queues × Option Block)) (s t u : State) (first later : List Action)
      → run x r s es ≡ ok (t, first)
      → run x r t fs ≡ ok (u, later)
      → run x r s (es ++ fs) ≡ ok (u, first ++ later)
  unfolding run
  run-append [] fs s t u first later e e' =
      let same : ◌≡◌ {A = State × List Action} (s, []) (t, first) = cc e in
      subst
        (λ (p : State × List Action).
          run x r p.0 fs ≡ ok (u, later) → run x r s fs ≡ ok (u, p.1 ++ later))
        same (λ h. h) e'
  run-append ((qs, received) ∷ es) fs s t u first later e e' =
      let ((v, here), e1, e2) = bind_ok (round x r qs s received) _ (t, first) e in
      let ((w, rest), e3, e4) = bind_ok (run x r v es) _ (t, first) e2 in
      let same : ◌≡◌ {A = State × List Action} (w, here ++ rest) (t, first) = cc e4 in
      let tail =
        run-append es fs v w u rest later e3
          (subst (λ (p : State × List Action). run x r p.0 fs ≡ ok (u, later)) (sym same) e') in
      run-cons qs s v u received (es ++ fs) here (rest ++ later) e1 tail
      ∙ ap (λ l. ok (u, l))
          (sym (append_assoc here rest later) ∙ ap (λ (p : State × List Action). p.1 ++ later) same)

  closed_IsDead :
      (qs : Queues) (s : State) (b : Block) (id q : ℕ) (k : BlockType)
      → Inv s
      → lookup id s.active ≡ some q
      → is_closing k ≡ true
      → IsDead q (dispatch_typed qs s b id k).0
  unfolding dispatch_typed
  closed_IsDead qs s b id q abort v mine closing = route_closes qs b id q s abort v mine closing
  closed_IsDead qs s b id q end v mine closing = route_closes qs b id q s end v mine closing
  closed_IsDead qs s b id q heartbeat v mine closing = cc
  closed_IsDead qs s b id q start v mine closing = cc
  closed_IsDead qs s b id q chunk v mine closing = cc

  -- After the end or abort block of an active transfer, nothing is ever put into the queue of that
  -- transfer again, nor is that queue given to another one, whatever arrives later.
  pub ended-IsSilent :
      (qs : Queues) (s t u : State) (b : Block) (id q : ℕ) (k : BlockType) (now rest : List Action)
      (later : List (Queues × Option Block))
      → Inv s
      → lookup id s.active ≡ some q
      → block_type b ≡ ok k
      → is_closing k ≡ true
      → client_id b ≡ ok id
      → round x r qs s (some b) ≡ ok (t, now)
      → run x r t later ≡ ok (u, rest)
      → All (IsSilent q) rest
  unfolding round dispatch_block
  ended-IsSilent qs s t u b id q k now rest later v mine typed closing own e1 e2 =
      let same : (dispatch_typed qs s b id k).0 ≡ t = cc (rw (typed, own, dispatch_block) at e1) in
      run-Kept q t u later rest (subst (IsDead q) same (closed_IsDead qs s b id q k v mine closing))
        e2
