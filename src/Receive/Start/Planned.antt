-- ===== src/Receive/Start/Planned.antt =====
-- The threads that the receiver starts.
use lidi_4d8d19daa.Common.{ℕ, refl, List, [], ◌∷◌, ◌++◌, append_assoc, Option, IoError, arith}
use lidi_4d8d19daa.Threads.{Thread, Spawning, going, next, advance, spawn_next, spawn_each}
use lidi_4d8d19daa.Threads.Plan.{
  AllSpawned, numbered, pinned, assign, left, Follows, bind-Follows, spawn_next-Follows, then-Keeps,
  spawn_each-Follows, spawn_same-Follows,
}
use lidi_4d8d19daa.Receive.Start.{
  Config, Worker, client, dispatch, decode, reblock, udp, cpu_ids, spawn_decoders, start,
}

-- The workers that are spawned before the decoding workers, and the CPU identifiers they leave.
abbrev pub first_workers : Config → List Worker
first_workers config = numbered client config.max_clients 0 ++ dispatch ∷ []

abbrev pub ids_left : Config → Option (List ℕ) → Option (List ℕ)
ids_left config core_ids = left (cpu_ids config core_ids) (first_workers config)

-- The threads that a configuration asks for, in the order in which they are spawned.
abbrev pub plan : Config → Option (List ℕ) → List (Thread Worker)
plan config core_ids =
    assign (cpu_ids config core_ids) (first_workers config)
    ++ pinned (next (ids_left config core_ids)) (numbered decode config.nb_decode_threads 0)
    ++ assign (advance (ids_left config core_ids)) (reblock ∷ udp ∷ [])

module _ (answers : ℕ → Option IoError) where
  none_before : AllSpawned answers 0
  none_before i h = absurd (omega (arith, h))

  spawn_decoders-Follows :
      (n : ℕ) (ids : Option (List ℕ)) (s : Spawning Worker) (done : List (Thread Worker))
      → Follows answers done ids (going s)
      → Follows answers
          (done ++ pinned (next ids) (numbered decode n 0))
          (advance ids)
          (spawn_decoders answers n s)
  unfolding spawn_decoders
  spawn_decoders-Follows n ids s done (left_ids, same, all) = rw left_ids (
      spawn_same-Follows answers decode (next ids) n 0 (record s { cpu_ids = advance ids }) done
        (advance ids) (refl, same, all))

  -- Starting the receiver spawns a thread for each client, the dispatch worker, the decoding
  -- workers, the reblock worker and the UDP worker, in this order: all of them if every one can be
  -- spawned, and otherwise exactly those before the first that cannot, whose error it returns. With
  -- CPU affinity each takes the next CPU from the last on, as long as there are any, but all decoding
  -- workers together take one, and are bound to the same CPU.
  pub start-pinned :
      (config : Config) (core_ids : Option (List ℕ))
      → Follows answers
          (plan config core_ids)
          (advance (advance (advance (ids_left config core_ids))))
          (start config core_ids answers)
  unfolding start
  start-pinned config core_ids =
      let ids : Option (List ℕ) = cpu_ids config core_ids in
      let decoders : List (Thread Worker) =
        pinned (next (ids_left config core_ids)) (numbered decode config.nb_decode_threads 0) in
      let first =
        then-Keeps answers ids (numbered client config.max_clients 0) (dispatch ∷ [])
          (spawn_each answers client config.max_clients 0) (spawn_next answers dispatch)
          (spawn_each-Follows answers ids client config.max_clients 0)
          (spawn_next-Follows answers _ dispatch) (record { threads = []; cpu_ids = ids }) []
          (refl, refl, none_before) in
      let decoding =
        bind-Follows answers (assign ids (first_workers config)) decoders (ids_left config core_ids)
          (advance (ids_left config core_ids)) _ (spawn_decoders answers config.nb_decode_threads)
          first
          (λ s v.
            spawn_decoders-Follows config.nb_decode_threads (ids_left config core_ids) s _ v) in
      let c : Option (List ℕ) = advance (ids_left config core_ids) in
      let four =
        bind-Follows answers (assign ids (first_workers config) ++ decoders)
          (assign c (reblock ∷ [])) c (advance c) _ (spawn_next answers reblock) decoding
          (λ s v. spawn_next-Follows answers c reblock s _ v) in
      let five =
        bind-Follows answers
          (assign ids (first_workers config) ++ decoders ++ assign c (reblock ∷ []))
          (assign (advance c) (udp ∷ [])) (advance c) (advance (advance c)) _
          (spawn_next answers udp) four (λ s v. spawn_next-Follows answers (advance c) udp s _ v) in
      rw⁻¹
        (append_assoc (assign ids (first_workers config) ++ decoders) (assign c (reblock ∷ []))
          (assign (advance c) (udp ∷ [])))
        five
