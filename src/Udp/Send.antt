-- ===== src/Udp/Send.antt =====
-- `SendM` of src/udp.rs: the packets of a block are sent one by one with `sendmsg`, or in batches
-- with `sendmmsg`. What the kernel answers to each call is the environment's choice: how much of
-- the call was sent, or `none` for -1.
pub mod Batches
use lidi_4d8d19daa.Common.{
  ℕ, ◌+◌, ◌^◌, List, [], ◌∷◌, ◌++◌, Option, none, some, Bool, true, false, ltb, ◌==◌, if◌then◌else◌,
  length, map, IoError, failed, invalid_data,
}
use lidi_4d8d19daa.Extern.{Extern}

pub data SendM : Type 0 where
  msg : SendM
  mmsg : (batch_size : ℕ) → SendM

-- `SendM::new`: `None | Some(1)` and `Some(batch_size)`.
unfoldable pub new : Option ℕ → SendM
new none = msg
new (some batch_send) = if batch_send == 1 then msg else mmsg batch_send

-- `waiting` stands for a call that blocks.
pub data Outcome : Type 0 where
  done : Outcome
  waiting : Outcome
  stopped : IoError → Outcome
  panicked : Outcome

-- The calls that were made, each with its datagrams.
pub record Calls : Type 0 where
  pub made : List (List (List ℕ))
  pub outcome : Outcome

-- `sent == len`, where -1 is no length.
abbrev pub is_full : Option ℕ → ℕ → Bool
is_full none len = false
is_full (some sent) len = sent == len

unfoldable pub send_each : List (List ℕ) → List (Option ℕ) → Calls
send_each [] answers = record { made = []; outcome = done }
send_each (datagram ∷ datagrams) [] = record { made = (datagram ∷ []) ∷ []; outcome = waiting }
send_each (datagram ∷ datagrams) (answer ∷ answers) =
    let rest : Calls = send_each datagrams answers in
    if is_full answer (length datagram)
    then record rest { made = (datagram ∷ []) ∷ rest.made }
    else record { made = (datagram ∷ []) ∷ []; outcome = stopped failed }

-- `chunks_mut(batch_size)` for a batch that is not 0: `chunk` is the one that is filled.
unfoldable pub chunks : ℕ → List (List ℕ) → List (List ℕ) → List (List (List ℕ))
chunks batch_size [] [] = []
chunks batch_size (d ∷ chunk) [] = (d ∷ chunk) ∷ []
chunks batch_size chunk (datagram ∷ datagrams) =
    let next : List (List (List ℕ)) = chunks batch_size [] datagrams in
    let more : List (List (List ℕ)) = chunks batch_size (chunk ++ datagram ∷ []) datagrams in
    if length chunk + 1 == batch_size then (chunk ++ datagram ∷ []) ∷ next else more

-- `u32::try_from(datagram.len())` for each datagram of a batch.
unfoldable pub lengths_fit : List (List ℕ) → Bool
lengths_fit [] = true
lengths_fit (datagram ∷ datagrams) =
    let rest : Bool = lengths_fit datagrams in
    if ltb (length datagram) (2 ^ 32) then rest else false

unfoldable pub send_batches : List (List (List ℕ)) → List (Option ℕ) → Calls
unfolding lengths_fit
send_batches [] answers = record { made = []; outcome = done }
send_batches (batch ∷ batches) [] =
    if lengths_fit batch
    then record { made = batch ∷ []; outcome = waiting }
    else record { made = []; outcome = stopped invalid_data }
send_batches (batch ∷ batches) (answer ∷ answers) =
    let rest : Calls = send_batches batches answers in
    if lengths_fit batch
    then if is_full answer (length batch)
      then record rest { made = batch ∷ rest.made }
      else record { made = batch ∷ []; outcome = stopped failed }
    else record { made = []; outcome = stopped invalid_data }

-- `SendM::send`; the number of datagrams of a batch is at most a `u32`, so that its conversion
-- succeeds. `chunks_mut(0)` panics.
unfoldable pub send : (x : Extern) → SendM → List x.Packet → List (Option ℕ) → Calls
unfolding send_each send_batches chunks
send x msg packets answers = send_each (map x.serialize_packet packets) answers
send x (mmsg batch_size) packets answers =
    if batch_size == 0
    then record { made = []; outcome = panicked }
    else send_batches (chunks batch_size [] (map x.serialize_packet packets)) answers
