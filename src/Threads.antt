-- ===== src/Threads.antt =====
-- How `Sender::start` and `Receiver::start` (src/send/mod.rs, src/receive/mod.rs) spawn their worker
-- threads: each takes the next CPU identifier, if there is one, and the first thread that cannot be
-- spawned ends the function. The answer to the n-th call of `spawn_scoped` is the environment's
-- choice: the error, if there is one.
pub mod Plan
use lidi_4d8d19daa.Common.{
  ℕ, zero, suc, ◌+◌, List, [], ◌∷◌, ◌++◌, Option, none, some, length, IoError,
}

-- A thread and the CPU that it is bound to.
pub record Thread (W : Type 0) : Type 0 where
  pub worker : W
  pub cpu_id : Option ℕ

-- The threads that run, and what is left of `cpu_ids`.
pub record Spawning (W : Type 0) : Type 0 where
  pub threads : List (Thread W)
  pub cpu_ids : Option (List ℕ)

pub data Progress (W : Type 0) : Type 0 where
  going : Spawning W → Progress W
  stopped : List (Thread W) → IoError → Progress W

-- `cpu_ids.as_mut().and_then(iter::Iterator::next)`: the item, and what is left.
abbrev pub next : Option (List ℕ) → Option ℕ
next none = none
next (some []) = none
next (some (id ∷ ids)) = some id

abbrev pub advance : Option (List ℕ) → Option (List ℕ)
advance none = none
advance (some []) = some []
advance (some (id ∷ ids)) = some ids

module _ {W : Type 0} where
  infixl 5 ◌>>>◌
  abbrev pub ◌>>>◌ : Progress W → (Spawning W → Progress W) → Progress W
  going s >>> f = f s
  stopped threads e >>> f = stopped threads e

  module _ (answers : ℕ → Option IoError) where
    -- `thread::Builder::new()….spawn_scoped(…)?` with a given CPU identifier
    unfoldable pub spawn : W → Option ℕ → Spawning W → Progress W
    spawn worker cpu_id s = elim (answers (length s.threads)) [
      | none ↦
          going
            (record s { threads = s.threads ++ record { worker = worker; cpu_id = cpu_id } ∷ [] })
      | some e ↦ stopped s.threads e
    ]

    -- with the next one
    unfoldable pub spawn_next : W → Spawning W → Progress W
    unfolding spawn
    spawn_next worker s = spawn worker (next s.cpu_ids) (record s { cpu_ids = advance s.cpu_ids })

    -- `for i in 0..n`, from `i` on, each with the next CPU identifier or all with the same
    unfoldable pub spawn_each : (ℕ → W) → ℕ → ℕ → Spawning W → Progress W
    unfolding spawn_next
    spawn_each worker zero i s = going s
    spawn_each worker (suc n) i s = spawn_next (worker i) s >>> spawn_each worker n (i + 1)

    unfoldable pub spawn_same : (ℕ → W) → Option ℕ → ℕ → ℕ → Spawning W → Progress W
    unfolding spawn
    spawn_same worker cpu_id zero i s = going s
    spawn_same worker cpu_id (suc n) i s =
        spawn (worker i) cpu_id s >>> spawn_same worker cpu_id n (i + 1)
