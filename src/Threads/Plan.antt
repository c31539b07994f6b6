-- ===== src/Threads/Plan.antt =====
-- The threads that are meant to run, and how far spawning them gets.
use lidi_4d8d19daa.Common.{
  ℕ, zero, suc, ◌+◌, ◌<◌, ◌≡◌, refl, sym, ap, ◌∙◌, List, [], ◌∷◌, ◌++◌, append_assoc, append-nil,
  Option, none, some, length, length-append, take, take-append, IoError, inl, inr, Bool-cases,
  Option-cases, ltb, ltb→lt, arith,
}
use lidi_4d8d19daa.Threads.{
  Thread, Spawning, Progress, going, stopped, next, advance, ◌>>>◌, spawn, spawn_next, spawn_each,
  spawn_same,
}

-- The first `n` threads can be spawned.
abbrev pub AllSpawned : (ℕ → Option IoError) → ℕ → Type 0
AllSpawned answers n = (i : ℕ) → i < n → answers i ≡ none

AllSpawned-suc :
    (answers : ℕ → Option IoError) (n : ℕ)
    → AllSpawned answers n
    → answers n ≡ none
    → AllSpawned answers (n + 1)
AllSpawned-suc answers n all last i h = elim (Bool-cases (ltb i n)) [
  | inl e ↦ all i (ltb→lt i n e)
  | inr e ↦ let same : i ≡ n = ground arith in rw same last
]

module _ {W : Type 0} where
  -- `n` workers, from number `i` on.
  abbrev pub numbered : (ℕ → W) → ℕ → ℕ → List W
  numbered worker zero i = []
  numbered worker (suc n) i = worker i ∷ numbered worker n (i + 1)

  -- Workers with the CPU identifiers in turn, and what they leave of these.
  abbrev pub assign : Option (List ℕ) → List W → List (Thread W)
  assign ids [] = []
  assign ids (w ∷ ws) = record { worker = w; cpu_id = next ids } ∷ assign (advance ids) ws

  abbrev pub left : Option (List ℕ) → List W → Option (List ℕ)
  left ids [] = ids
  left ids (w ∷ ws) = left (advance ids) ws

  -- Workers with one CPU identifier.
  abbrev pub pinned : Option ℕ → List W → List (Thread W)
  pinned cpu_id [] = []
  pinned cpu_id (w ∷ ws) = record { worker = w; cpu_id = cpu_id } ∷ pinned cpu_id ws

  assign-append :
      (ids : Option (List ℕ)) (ws vs : List W)
      → assign ids (ws ++ vs) ≡ assign ids ws ++ assign (left ids ws) vs
  assign-append ids [] vs = refl
  assign-append ids (w ∷ ws) vs =
      ap (◌∷◌ (record { worker = w; cpu_id = next ids })) (assign-append (advance ids) ws vs)

  left-append :
      (ids : Option (List ℕ)) (ws vs : List W) → left ids (ws ++ vs) ≡ left (left ids ws) vs
  left-append ids [] vs = refl
  left-append ids (w ∷ ws) vs = left-append (advance ids) ws vs

  length-assign : (ids : Option (List ℕ)) (ws : List W) → length (assign ids ws) ≡ length ws
  length-assign ids [] = refl
  length-assign ids (w ∷ ws) = omega (arith, length-assign (advance ids) ws)

  take-snoc :
      (k : ℕ) (plan : List (Thread W)) (t : Thread W)
      → k < suc (length plan)
      → take k (plan ++ t ∷ []) ≡ take k plan
  take-snoc zero plan t h = refl
  take-snoc (suc k) [] t h = absurd (omega (arith, h))
  take-snoc (suc k) (p ∷ plan) t h = ap (◌∷◌ p) (take-snoc k plan t (omega (arith, h)))

  take-prefix :
      (k : ℕ) (plan more : List (Thread W))
      → k < suc (length plan)
      → take k (plan ++ more) ≡ take k plan
  take-prefix zero plan more h = refl
  take-prefix (suc k) [] more h = absurd (omega (arith, h))
  take-prefix (suc k) (p ∷ plan) more h = ap (◌∷◌ p) (take-prefix k plan more (omega (arith, h)))

  module _ (answers : ℕ → Option IoError) where
    -- Only the threads of the plan before the first that cannot be spawned run.
    abbrev pub IsCut : List (Thread W) → List (Thread W) → IoError → Type 0
    IsCut plan threads e =
        (k : ℕ) × (k < length plan)
        × AllSpawned answers k
        × (answers k ≡ some e)
        × (threads ≡ take k plan)

    -- How far spawning has come, and the CPU identifiers that are left if it goes on.
    abbrev pub Follows : List (Thread W) → Option (List ℕ) → Progress W → Type 0
    Follows plan ids (going s) =
        (s.cpu_ids ≡ ids) × (s.threads ≡ plan) × AllSpawned answers (length plan)
    Follows plan ids (stopped threads e) = IsCut plan threads e

    Follows-more :
        (plan more : List (Thread W)) (threads : List (Thread W)) (e : IoError)
        → IsCut plan threads e
        → IsCut (plan ++ more) threads e
    Follows-more plan more threads e (k, h, before, failing, same) = (
      k,
      omega (arith, h, length-append plan more),
      before,
      failing,
      same ∙ sym (take-prefix k plan more (omega (arith, h))),
    )

    pub bind-Follows :
        (plan more : List (Thread W)) (ids ids' : Option (List ℕ)) (p : Progress W)
        (f : Spawning W → Progress W)
        → Follows plan ids p
        → ((s : Spawning W) → Follows plan ids (going s) → Follows (plan ++ more) ids' (f s))
        → Follows (plan ++ more) ids' (p >>> f)
    bind-Follows plan more ids ids' (going s) f v next = next s v
    bind-Follows plan more ids ids' (stopped threads e) f v next =
        Follows-more plan more threads e v

    pub spawn-Follows :
        (w : W) (cpu_id : Option ℕ) (s : Spawning W) (plan : List (Thread W))
        (ids : Option (List ℕ))
        → Follows plan ids (going s)
        → Follows
            (plan ++ record { worker = w; cpu_id = cpu_id } ∷ [])
            ids
            (spawn answers w cpu_id s)
    unfolding spawn
    spawn-Follows w cpu_id s plan ids (left_ids, same, all) =
        let count : length s.threads ≡ length plan = ap length same in
        elim (Option-cases (answers (length plan))) [
          | inl e ↦
              rw (spawn, count, e)
                (
                  left_ids,
                  ap (◌++ record { worker = w; cpu_id = cpu_id } ∷ []) same,
                  rw (length-append plan (record { worker = w; cpu_id = cpu_id } ∷ []))
                      (AllSpawned-suc answers (length plan) all e),
                )
          | inr (error, e) ↦
              rw (spawn, count, e)
                (
                  length plan,
                  omega (arith, length-append plan (record { worker = w; cpu_id = cpu_id } ∷ [])),
                  all,
                  e,
                  same ∙ sym (take-append plan (record { worker = w; cpu_id = cpu_id } ∷ [])),
                )
        ]

    -- Plans are built from the CPU identifiers at the start.
    abbrev pub Keeps : Option (List ℕ) → List W → (Spawning W → Progress W) → Type 0
    Keeps start ws f =
        (s : Spawning W) (plan : List (Thread W))
        → Follows plan start (going s)
        → Follows (plan ++ assign start ws) (left start ws) (f s)

    pub spawn_next-Follows :
        (start : Option (List ℕ)) (w : W) → Keeps start (w ∷ []) (spawn_next answers w)
    unfolding spawn_next
    spawn_next-Follows start w s plan (left_ids, same, all) = rw left_ids (
        spawn-Follows w (next start) (record s { cpu_ids = advance start }) plan (advance start)
          (refl, same, all))

    pub then-Keeps :
        (start : Option (List ℕ)) (ws vs : List W) (f g : Spawning W → Progress W)
        → Keeps start ws f
        → Keeps (left start ws) vs g
        → Keeps start (ws ++ vs) (λ s. f s >>> g)
    then-Keeps start ws vs f g first second s plan v =
        rw (assign-append start ws vs, left-append start ws vs, ← append_assoc)
          (bind-Follows (plan ++ assign start ws) (assign (left start ws) vs) (left start ws)
            (left (left start ws) vs) (f s) g (first s plan v)
            (λ t w. second t (plan ++ assign start ws) w))

    pub spawn_each-Follows :
        (start : Option (List ℕ)) (worker : ℕ → W) (n i : ℕ)
        → Keeps start (numbered worker n i) (spawn_each answers worker n i)
    unfolding spawn_each
    spawn_each-Follows start worker zero i s plan v = rw (append-nil plan) v
    spawn_each-Follows start worker (suc n) i s plan v =
        then-Keeps start (worker i ∷ []) (numbered worker n (i + 1)) (spawn_next answers (worker i))
          (spawn_each answers worker n (i + 1)) (spawn_next-Follows start (worker i))
          (spawn_each-Follows (advance start) worker n (i + 1)) s plan v

    pub spawn_same-Follows :
        (worker : ℕ → W) (cpu_id : Option ℕ) (n i : ℕ) (s : Spawning W) (plan : List (Thread W))
        (ids : Option (List ℕ))
        → Follows plan ids (going s)
        → Follows
            (plan ++ pinned cpu_id (numbered worker n i))
            ids
            (spawn_same answers worker cpu_id n i s)
    unfolding spawn_same
    spawn_same-Follows worker cpu_id zero i s plan ids v = rw (append-nil plan) v
    spawn_same-Follows worker cpu_id (suc n) i s plan ids v =
        let t : Thread W = record { worker = worker i; cpu_id = cpu_id } in
        rw (← append_assoc plan (t ∷ []) (pinned cpu_id (numbered worker n (i + 1)))) (
          bind-Follows (plan ++ t ∷ []) (pinned cpu_id (numbered worker n (i + 1))) ids ids
            (spawn answers (worker i) cpu_id s) (spawn_same answers worker cpu_id n (i + 1))
            (spawn-Follows (worker i) cpu_id s plan ids v)
            (λ u w. spawn_same-Follows worker cpu_id n (i + 1) u (plan ++ t ∷ []) ids w))
