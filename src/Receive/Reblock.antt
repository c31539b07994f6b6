-- ===== src/Receive/Reblock.antt =====
-- src/receive/reblock.rs: packets are grouped by block number in a moving window of 127 numbers.
-- The two vectors have an entry for each `u8`, and are functions of the number. The channels cannot
-- be disconnected, since `Receiver` holds both ends. A panic ends the program.
pub mod Readable
pub mod Window
pub mod Drain
pub mod Run
pub mod Collect
pub mod Link
pub mod Order
pub mod Unreadable
use lidi_4d8d19daa.Common.{
  ℕ, zero, suc, ◌+◌, ◌%◌, List, [], ◌∷◌, ◌++◌, Option, none, some, Bool, true, false, not, ◌&&◌,
  ◌||◌, Result, ok, err, panic, ◌>>=◌, ltb, ◌==◌, if◌then◌else◌, length, map,
}
use lidi_4d8d19daa.Extern.{Extern}
use lidi_4d8d19daa.Udp.{Datagrams, single, multiple}
use lidi_4d8d19daa.Receive.{Reassembled, lost, reassembled}

-- `u8::MAX / 2`
abbrev pub window_width : ℕ
window_width = 127

abbrev pub wrapping_add : ℕ → ℕ → ℕ
wrapping_add a b = (a + b) % 256

pub record State (x : Extern) : Type 0 where
  pub blocks_data : ℕ → List x.Packet
  pub blocks_ignore : ℕ → Bool
  pub cur_id : ℕ
  pub reset : Bool
  pub block_to_dispatch : ℕ  -- shared with the decoding workers

abbrev pub init_state : (x : Extern) → State x
init_state x = record {
  blocks_data = λ _. [];
  blocks_ignore = λ _. true;
  cur_id = 0;
  reset = true;
  block_to_dispatch = 0;
}

pub data Event : Type 0 where
  timeout : Event
  received : Datagrams → Event

-- The `while` loop of a round that has no end: more rounds than there are block numbers.
pub data Endless : Type 0 where
  out_of_fuel : Endless

abbrev pub update {ℓ} : {A : Type ℓ} → (ℕ → A) → ℕ → A → ℕ → A
update f i v j = if j == i then v else f j

abbrev pub is_empty {ℓ} : {A : Type ℓ} → List A → Bool
is_empty [] = true
is_empty (a ∷ l) = false

abbrev pub any_below : ℕ → (ℕ → Bool) → Bool
any_below zero p = false
any_below (suc n) p = p n || any_below n p

-- `while id != last { blocks_ignore[id] = false; id = id.wrapping_add(1) }`
unfoldable pub open_window : ℕ → ℕ → ℕ → (ℕ → Bool) → ℕ → Bool
open_window zero id last ignore = ignore
open_window (suc fuel) id last ignore =
    let rest = open_window fuel (wrapping_add id 1) last (update ignore id false) in
    if id == last then ignore else rest

-- `&datagrams[0]`
unfoldable pub first_datagram : Datagrams → Option (List ℕ)
first_datagram (single d) = some d
first_datagram (multiple []) = none
first_datagram (multiple (d ∷ ds)) = some d

-- `EncodingPacket::deserialize`
unfoldable pub deserialize : (x : Extern) → List ℕ → Result Endless x.Packet
deserialize x datagram =
    if x.deserializes datagram then ok (x.deserialize_packet datagram) else panic

module _ {x : Extern} where
  -- The branch of a timeout.
  unfoldable pub on_timeout : State x → State x × List (Reassembled x)
  on_timeout s =
      let damaged = any_below 256 (λ id. s.blocks_ignore id && not (is_empty (s.blocks_data id))) in
      (record s { reset = true }, if damaged then lost ∷ [] else [])

  -- What a reset does, for the number of the first packet.
  unfoldable pub restart : State x → ℕ → State x
  restart s id = record {
    blocks_data = λ _. [];
    blocks_ignore = open_window 256 id (wrapping_add id window_width) (λ _. true);
    cur_id = id;
    reset = false;
    block_to_dispatch = id;
  }

  unfoldable pub push : State x → List ℕ → Result Endless (State x)
  unfolding deserialize
  push s datagram = do
    packet ← deserialize x datagram
    let id = x.source_block_number packet
    ok (
        if s.blocks_ignore id
        then s
        else record s { blocks_data = update s.blocks_data id (s.blocks_data id ++ packet ∷ []) })

  -- `blocks_ignore` does not change while a batch is pushed.
  unfoldable pub push_all : State x → List (List ℕ) → Result Endless (State x)
  unfolding push
  push_all s [] = ok s
  push_all s (d ∷ ds) = push s d >>= λ t. push_all t ds

  unfoldable pub push_datagrams : State x → Datagrams → Result Endless (State x)
  unfolding push_all
  push_datagrams s (single d) = push s d
  push_datagrams s (multiple ds) = push_all s ds

  -- The body of the `while` loop up to its `break`: the state before `cur_id` moves on.
  unfoldable pub take_current : State x → State x
  take_current s = record s {
    blocks_data = update s.blocks_data s.cur_id [];
    blocks_ignore =
        update (update s.blocks_ignore s.cur_id true) (wrapping_add s.cur_id window_width) false;
  }

  -- `while blocks_data[cur_id].len() >= min_nb_packets { … }`
  unfoldable pub drain : ℕ → ℕ → State x → Result Endless (State x × List (Reassembled x))
  unfolding take_current
  drain zero min s = err out_of_fuel
  drain (suc fuel) min s =
      let t : State x = take_current s in
      let next : State x = record t { cur_id = wrapping_add s.cur_id 1 } in
      let out : Reassembled x = reassembled s.cur_id (s.blocks_data s.cur_id) in
      let far : Result Endless (State x × List (Reassembled x)) =
        ok (record t { reset = true }, out ∷ lost ∷ []) in
      let more : Result Endless (State x × List (Reassembled x)) =
        drain fuel min next >>= λ (u, outs). ok (u, out ∷ outs) in
      if ltb (length (s.blocks_data s.cur_id)) min
      then ok (s, [])
      else if not (is_empty (t.blocks_data (wrapping_add s.cur_id window_width)))
      then far
      else more

  -- The block `if reset { … }`: `&datagrams[0]` panics on an empty batch.
  unfoldable pub prepare : State x → Datagrams → Result Endless (State x)
  unfolding first_datagram deserialize restart
  prepare s datagrams = if not s.reset then ok s else elim (first_datagram datagrams) [
    | none ↦ panic
    | some d ↦ deserialize x d >>= λ packet. ok (restart s (x.source_block_number packet))
  ]

  -- One round of the worker. 257 rounds of the inner loop are enough: each empties an entry.
  unfoldable pub round : ℕ → State x → Event → Result Endless (State x × List (Reassembled x))
  unfolding on_timeout prepare push_datagrams drain
  round min s timeout = ok (on_timeout s)
  round min s (received datagrams) = do
    ready ← prepare s datagrams
    pushed ← push_datagrams ready datagrams
    drain 257 min pushed

  -- The worker over a sequence of events, with all that it sends to the decoding workers.
  unfoldable pub run : ℕ → State x → List Event → Result Endless (State x × List (Reassembled x))
  unfolding round
  run min s [] = ok (s, [])
  run min s (e ∷ es) =
      round min s e >>= λ (t, outs). run min t es >>= λ (u, more). ok (u, outs ++ more)
