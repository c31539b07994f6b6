-- ===== src/Udp/Send/Batches.antt =====
-- The calls that send the packets of a block.
use lidi_4d8d19daa.Common.{
  ℕ, ◌+◌, ◌^◌, ◌≤◌, ◌<◌, ◌≡◌, refl, List, [], ◌∷◌, ◌++◌, Option, some, true, false, inl, inr, ◌==◌,
  length, length-append, map, All, concat, append_assoc, arith, lt→ltb, Bool-cases, ==_refl,
}
use lidi_4d8d19daa.Extern.{Extern}
use lidi_4d8d19daa.Udp.Send.{mmsg, done, chunks, lengths_fit, send_batches, send}

chunks-concat :
    (n : ℕ) (chunk datagrams : List (List ℕ))
    → concat (chunks n chunk datagrams) ≡ chunk ++ datagrams
unfolding chunks
chunks-concat n [] [] = refl
chunks-concat n (d ∷ chunk) [] = refl
chunks-concat n [] (datagram ∷ datagrams) = elim (Bool-cases (1 == n)) [
  | inl e ↦ rw (e, chunks-concat n [] datagrams) refl
  | inr e ↦ rw (e, chunks-concat n (datagram ∷ []) datagrams) refl
]
chunks-concat n (d ∷ chunk) (datagram ∷ datagrams) =
    elim (Bool-cases (length (d ∷ chunk) + 1 == n)) [
      | inl e ↦
          rw (e, chunks-concat n [] datagrams, append_assoc chunk (datagram ∷ []) datagrams) refl
      | inr e ↦
          rw
            (
              e,
              chunks-concat n (d ∷ chunk ++ datagram ∷ []) datagrams,
              append_assoc chunk (datagram ∷ []) datagrams,
            )
            refl
    ]

-- What a batch may hold: at least one datagram, and no more than `n`.
abbrev pub IsBatch : ℕ → List (List ℕ) → Type 0
IsBatch n batch = (0 < length batch) × (length batch ≤ n)

chunks-All :
    (n : ℕ) (chunk datagrams : List (List ℕ))
    → length chunk < n
    → All (IsBatch n) (chunks n chunk datagrams)
unfolding chunks
chunks-All n [] [] h = tt
chunks-All n (d ∷ chunk) [] h = ((omega arith, omega arith), tt)
chunks-All n [] (datagram ∷ datagrams) h = elim (Bool-cases (1 == n)) [
  | inl e ↦ rw e ((omega arith, omega arith), chunks-All n [] datagrams h)
  | inr e ↦ rw e (chunks-All n (datagram ∷ []) datagrams (ground arith))
]
chunks-All n (d ∷ chunk) (datagram ∷ datagrams) h =
    let joined = length-append chunk (datagram ∷ []) in
    elim (Bool-cases (length (d ∷ chunk) + 1 == n)) [
      | inl e ↦
          rw e ((omega arith, ground (arith, joined)), chunks-All n [] datagrams (omega arith))
      | inr e ↦ rw e (chunks-All n (d ∷ chunk ++ datagram ∷ []) datagrams (ground (arith, joined)))
    ]

-- Every call is answered, and by all that it sends.
abbrev pub AllFull {ℓ} : {A : Type ℓ} → List (List A) → List (Option ℕ) → Type 0
AllFull [] answers = Unit {0}
AllFull (call ∷ calls) [] = ⊥
AllFull (call ∷ calls) (answer ∷ answers) = (answer ≡ some (length call)) × AllFull calls answers

-- The datagrams that `sendmmsg` can describe.
abbrev pub IsShort : List ℕ → Type 0
IsShort datagram = length datagram < 2 ^ 32

lengths_fit_lem : (batch : List (List ℕ)) → All IsShort batch → lengths_fit batch ≡ true
unfolding lengths_fit
lengths_fit_lem [] h = refl
lengths_fit_lem (d ∷ ds) h = rw (lt→ltb (length d) (2 ^ 32) h.0, lengths_fit_lem ds h.1) refl

send_batches_lem :
    (batches : List (List (List ℕ))) (answers : List (Option ℕ))
    → All (All IsShort) batches
    → AllFull batches answers
    → send_batches batches answers ≡ record { made = batches; outcome = done }
unfolding send_batches
send_batches_lem [] answers h a = refl
send_batches_lem (batch ∷ batches) [] h a = absurd a
send_batches_lem (batch ∷ batches) (answer ∷ answers) h a =
    rw
      (
        lengths_fit_lem batch h.0,
        a.0,
        ==_refl (length batch),
        send_batches_lem batches answers h.1 a.1,
      )
      refl

-- Whatever was put into batches can be taken from them.
All-concat {κ} :
    (P : List ℕ → Type κ) (batches : List (List (List ℕ)))
    → All P (concat batches)
    → All (All P) batches
All-concat P [] h = tt
All-concat P ([] ∷ batches) h = (tt, All-concat P batches h)
All-concat P ((d ∷ ds) ∷ batches) h =
    let rest = All-concat P (ds ∷ batches) h.1 in ((h.0, rest.0), rest.1)

-- Packets that are sent with a batch size other than 0 and with every call sent whole all leave
-- in order, each in one call, and every call carries at least one datagram and at most a batch.
pub send-All :
    (x : Extern) (batch_size : ℕ) (packets : List x.Packet) (answers : List (Option ℕ))
    → 0 < batch_size
    → All IsShort (map x.serialize_packet packets)
    → AllFull (chunks batch_size [] (map x.serialize_packet packets)) answers
    → ((send x (mmsg batch_size) packets answers).outcome ≡ done)
      × (concat (send x (mmsg batch_size) packets answers).made ≡ map x.serialize_packet packets)
      × All (IsBatch batch_size) (send x (mmsg batch_size) packets answers).made
unfolding send
send-All x batch_size packets answers some_batch short full =
    let datagrams : List (List ℕ) = map x.serialize_packet packets in
    let not_zero : (batch_size == 0) ≡ false = ground arith in
    let whole = chunks-concat batch_size [] datagrams in
    let batches_short = All-concat IsShort (chunks batch_size [] datagrams) (rw whole short) in
    rw (not_zero, send_batches_lem (chunks batch_size [] datagrams) answers batches_short full)
      (refl, whole, chunks-All batch_size [] datagrams some_batch)
