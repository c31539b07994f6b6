-- ===== src/Send/Start/Planned.antt =====
-- The threads that the sender starts.
use lidi_4d8d19daa.Common.{
  ℕ, refl, List, [], ◌∷◌, ◌++◌, append-nil, Option, none, some, IoError, arith,
}
use lidi_4d8d19daa.Threads.{advance, spawn_next, spawn_each}
use lidi_4d8d19daa.Threads.Plan.{
  AllSpawned, numbered, assign, left, Follows, Keeps, spawn_next-Follows, then-Keeps,
  spawn_each-Follows,
}
use lidi_4d8d19daa.Send.Start.{
  Config, Worker, udp, ordering, encoding, heartbeat, client, cpu_ids, spawn_heartbeat, start,
}

abbrev pub heartbeats : Option ℕ → List Worker
heartbeats none = []
heartbeats (some hb_interval) = heartbeat ∷ []

-- The threads that a configuration asks for, in the order in which they are spawned.
abbrev pub plan : Config → List Worker
plan config =
    (udp ∷ ordering ∷ [])
    ++ numbered encoding config.nb_encode_threads 0
    ++ heartbeats config.heartbeat_interval
    ++ numbered client config.max_clients 0

module _ (answers : ℕ → Option IoError) where
  spawn_heartbeat-Keeps :
      (ids : Option (List ℕ)) (interval : Option ℕ)
      → Keeps answers ids (heartbeats interval) (spawn_heartbeat answers interval)
  unfolding spawn_heartbeat
  spawn_heartbeat-Keeps ids none s done v = rw (append-nil done) v
  spawn_heartbeat-Keeps ids (some i) s done v = spawn_next-Follows answers ids heartbeat s done v

  none_before : AllSpawned answers 0
  none_before i h = absurd (omega (arith, h))

  -- Starting the sender spawns the threads that the configuration asks for, in order, each bound to
  -- the next CPU as long as there are any and CPU affinity is configured: all of them if every one
  -- can be spawned, and otherwise exactly those before the first that cannot, whose error it returns.
  pub start-Follows :
      (config : Config) (core_ids : Option (List ℕ))
      → Follows answers
          (assign (cpu_ids config core_ids) (plan config))
          (left (cpu_ids config core_ids) (plan config))
          (start config core_ids answers)
  unfolding start
  start-Follows config core_ids =
      let ids : Option (List ℕ) = cpu_ids config core_ids in
      let encodings : List Worker = numbered encoding config.nb_encode_threads 0 in
      let beats : List Worker = heartbeats config.heartbeat_interval in
      let two =
        then-Keeps answers ids (udp ∷ []) (ordering ∷ []) (spawn_next answers udp)
          (spawn_next answers ordering) (spawn_next-Follows answers ids udp)
          (spawn_next-Follows answers (advance ids) ordering) in
      let three =
        then-Keeps answers ids (udp ∷ ordering ∷ []) encodings _
          (spawn_each answers encoding config.nb_encode_threads 0) two
          (spawn_each-Follows answers _ encoding config.nb_encode_threads 0) in
      let four =
        then-Keeps answers ids ((udp ∷ ordering ∷ []) ++ encodings) beats _
          (spawn_heartbeat answers config.heartbeat_interval) three
          (spawn_heartbeat-Keeps _ config.heartbeat_interval) in
      then-Keeps answers ids ((udp ∷ ordering ∷ []) ++ encodings ++ beats)
        (numbered client config.max_clients 0) _ (spawn_each answers client config.max_clients 0)
        four (spawn_each-Follows answers _ client config.max_clients 0)
        (record { threads = []; cpu_ids = ids }) [] (refl, refl, none_before)
