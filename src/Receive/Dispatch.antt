-- ===== src/Receive/Dispatch.antt =====
-- src/receive/dispatch.rs: blocks are routed to the queues of the active transfers. A queue has a
-- number, given when it is made; `closed` and `drained` say which queues have lost their receiver
-- and which are empty, as the client workers left them. Heartbeats and their timeouts only change
-- what is logged. The other channels cannot be disconnected: `Receiver` holds both their ends.
pub mod Routing
pub mod Owners
pub mod Silence
pub mod Ended
pub mod Interleaved
use lidi_4d8d19daa.Common.{
  ℕ, suc, ◌+◌, List, [], ◌∷◌, ◌++◌, Option, none, some, Bool, true, false, not, Result, ok, err,
  panic, ◌>>=◌, ◌==◌, if◌then◌else◌,
}
use lidi_4d8d19daa.Extern.{Extern}
use lidi_4d8d19daa.Protocol
use lidi_4d8d19daa.Protocol.Raptorq.{RaptorQ}
use lidi_4d8d19daa.Protocol.Block.{
  Block, BlockType, heartbeat, start, chunk, abort, end, block_type, client_id, new,
}
use lidi_4d8d19daa.Receive.{Error, protocol, other}

-- `HashMap<ClientId, Sender<Block>>`, in any order, with one entry for a key.
abbrev pub Transfers : Type 0
Transfers = List (ℕ × ℕ)

unfoldable pub lookup : ℕ → Transfers → Option ℕ
lookup id [] = none
lookup id ((k, q) ∷ m) = if k == id then some q else lookup id m

unfoldable pub remove : ℕ → Transfers → Transfers
remove id [] = []
remove id ((k, q) ∷ m) = if k == id then remove id m else (k, q) ∷ remove id m

unfoldable pub insert : ℕ → ℕ → Transfers → Transfers
unfolding remove
insert id q m = (id, q) ∷ remove id m

-- `ended_transfers.retain(|_, q| !q.is_empty())`
unfoldable pub retain : (ℕ → Bool) → Transfers → Transfers
retain drained [] = []
retain drained ((k, q) ∷ m) = if drained q then retain drained m else (k, q) ∷ retain drained m

pub record State : Type 0 where
  pub active : Transfers
  pub ended : Transfers
  pub next_queue : ℕ

abbrev pub init_state : State
init_state = record { active = []; ended = []; next_queue = 0 }

-- `to_clients.send((client_id, client_recvq))`, and a block put into a queue.
pub data Action : Type 0 where
  opens : (id : ℕ) → (queue : ℕ) → Action
  delivers : (queue : ℕ) → Block → Action

-- What the client workers have done to the queues before a round.
pub record Queues : Type 0 where
  pub closed : ℕ → Bool
  pub drained : ℕ → Bool

abbrev pub Next : Type 0
Next = Result Error (State × List Action)

-- `Block::new(…)?` and `block.client_id()`, whose errors end the worker.
abbrev pub lift {ℓ} : {A : Type ℓ} → Result Protocol.Error A → Result Error A
lift (ok a) = ok a
lift (err e) = err (protocol e)
lift panic = panic

-- Synchronization has been lost: every active transfer is sent an abort block.
unfoldable pub abort_all :
    (x : Extern) → RaptorQ x → (ℕ → Bool) → Transfers → Result Error (List Action)
abort_all x r closed [] = ok []
abort_all x r closed ((id, q) ∷ m) = do
  b ← lift (new x abort r id none)
  rest ← abort_all x r closed m
  ok (if closed q then rest else delivers q b ∷ rest)

abbrev pub is_closing : BlockType → Bool
is_closing abort = true
is_closing end = true
is_closing heartbeat = false
is_closing start = false
is_closing chunk = false

-- `active_transfers.get(&client_id)` and what follows it.
unfoldable pub route : Queues → State → Block → ℕ → BlockType → State × List Action
unfolding remove retain insert
route qs s b id t = elim (lookup id s.active) [
  | none ↦ (s, [])
  | some q ↦
      if qs.closed q
      then (record s { active = remove id s.active }, [])
      else if is_closing t
      then (
        record s { active = remove id s.active; ended = insert id q (retain qs.drained s.ended) },
        delivers q b ∷ [],
      )
      else (s, delivers q b ∷ [])
]

-- `match block_type { … }`
unfoldable pub dispatch_typed : Queues → State → Block → ℕ → BlockType → State × List Action
unfolding insert route
dispatch_typed qs s b id heartbeat = (s, [])
dispatch_typed qs s b id start =
    let q : ℕ = s.next_queue in
    let (t, actions) =
      route qs (record s { active = insert id q s.active; next_queue = q + 1 }) b id start in
    (t, opens id q ∷ actions)
dispatch_typed qs s b id chunk = route qs s b id chunk
dispatch_typed qs s b id abort = route qs s b id abort
dispatch_typed qs s b id end = route qs s b id end

-- A block of unknown type is dropped.
unfoldable pub dispatch_block : Queues → State → Block → Next
unfolding dispatch_typed
dispatch_block qs s b = elim (block_type b) [
  | err e ↦ ok (s, [])
  | panic ↦ panic
  | ok t ↦ lift (client_id b) >>= λ id. ok (dispatch_typed qs s b id t)
]

-- One round of the worker; `none` is a loss of synchronization.
unfoldable pub round : (x : Extern) → RaptorQ x → Queues → State → Option Block → Next
unfolding abort_all dispatch_block
round x r qs s (some b) = dispatch_block qs s b
round x r qs s none = do
  actions ← abort_all x r qs.closed s.active
  ok (record s { active = [] }, actions)

-- The worker over what it receives, each with the state of the queues at that time.
unfoldable pub run : (x : Extern) → RaptorQ x → State → List (Queues × Option Block) → Next
unfolding round
run x r s [] = ok (s, [])
run x r s ((qs, received) ∷ more) = round x r qs s received >>= λ (t, actions).
    run x r t more >>= λ (u, rest). ok (u, actions ++ rest)
