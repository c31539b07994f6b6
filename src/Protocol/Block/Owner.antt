-- ===== src/Protocol/Block/Owner.antt =====
-- Which blocks are of a client's transfer.
use lidi_4d8d19daa.Common.{
  ℕ, ◌≡◌, refl, inl, inr, List, [], ◌∷◌, ◌++◌, Bool, true, false, not, ◌&&◌, ok, err, panic, ◌==◌,
  if◌then◌else◌, Bool-cases,
}
use lidi_4d8d19daa.Protocol.Block.{
  Block, BlockType, heartbeat, start, chunk, abort, end, block_type, client_id,
}

abbrev pub is_heartbeat : BlockType → Bool
is_heartbeat heartbeat = true
is_heartbeat start = false
is_heartbeat chunk = false
is_heartbeat abort = false
is_heartbeat end = false

-- A block of known type that is not a heartbeat and not of another client.
abbrev pub is_of : ℕ → Block → Bool
is_of id b = elim (block_type b) [
  | err e ↦ false
  | panic ↦ true
  | ok t ↦ elim (client_id b) [
    | ok j ↦ not (is_heartbeat t) && (j == id)
    | err e ↦ true
    | panic ↦ true
  ]
]

abbrev pub of_client : ℕ → List Block → List Block
of_client id [] = []
of_client id (b ∷ bs) = if is_of id b then b ∷ of_client id bs else of_client id bs

pub of_client-append :
    (id : ℕ) (bs cs : List Block) → of_client id (bs ++ cs) ≡ of_client id bs ++ of_client id cs
of_client-append id [] cs = refl
of_client-append id (b ∷ bs) cs = elim (Bool-cases (is_of id b)) [
  | inl e ↦ rw (e, of_client-append id bs cs) refl
  | inr e ↦ rw (e, of_client-append id bs cs) refl
]

-- A block of a known type and client.
pub record IsOwned (id : ℕ) (b : Block) : Type 0 where
  pub kind : BlockType
  pub typed : block_type b ≡ ok kind
  pub no_beat : is_heartbeat kind ≡ false
  pub owned : client_id b ≡ ok id

pub IsOwned-is_of : (id j : ℕ) (b : Block) → IsOwned j b → is_of id b ≡ (j == id)
IsOwned-is_of id j b v = rw (v.typed, v.owned, v.no_beat, is_of) refl

-- A heartbeat of a known client.
pub record IsBeat (b : Block) : Type 0 where
  pub client : ℕ
  pub typed : block_type b ≡ ok heartbeat
  pub owned : client_id b ≡ ok client

pub IsBeat-is_of : (id : ℕ) (b : Block) → IsBeat b → is_of id b ≡ false
IsBeat-is_of id b v = rw (v.typed, v.owned, is_of) refl
