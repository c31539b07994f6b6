-- ===== src/Receive/Reblock/Unreadable.antt =====
-- A datagram without the header that `EncodingPacket::deserialize` reads ends the reblock worker.
use lidi_4d8d19daa.Common.{
  ℕ, ◌<◌, ◌≡◌, refl, ap, inl, inr, List, [], ◌∷◌, ◌++◌, false, Result, ok, panic, ◌>>=◌, ◌⊎◌, All,
  length, length-append, arith, Bool-cases,
}
use lidi_4d8d19daa.Extern.{Extern, ExternLaws}
use lidi_4d8d19daa.Udp.{Datagrams, single, multiple}
use lidi_4d8d19daa.Udp.Receive.Batches.{datagrams}
use lidi_4d8d19daa.Receive.Reblock.{
  State, Event, Endless, received, init_state, prepare, push, push_all, push_datagrams, drain,
  round, run,
}
use lidi_4d8d19daa.Receive.Reblock.Readable.{
  IsReadable, IsReadable-IsNonempty, round-readable_round,
}
use lidi_4d8d19daa.Receive.Reblock.Run.{init-Inv, round-Rounded}
use lidi_4d8d19daa.Receive.Reblock.Window.{Inv}

head_same {ℓ} : {A : Type ℓ} (a b : A) (l m : List A) → a ∷ l ≡ b ∷ m → a ≡ b
head_same a b l m e = cc

-- Either a value or a panic, no error.
abbrev Settled {ℓ} : {A : Type ℓ} → Result Endless A → Type ℓ
Settled {A = A} result = ((a : A) × (result ≡ ok a)) ⊎ (result ≡ panic)

module _ {x : Extern} where
  push-Settled : (s : State x) (d : List ℕ) → Settled (push s d)
  unfolding push
  push-Settled s d = elim (Bool-cases (x.deserializes d)) [
    | inl e ↦ rw e (inl (_, refl))
    | inr e ↦ rw e (inr refl)
  ]

  push-unreadable : (s : State x) (d : List ℕ) → x.deserializes d ≡ false → push s d ≡ panic
  unfolding push
  push-unreadable s d h = rw h refl

  prepare-Settled : (s : State x) (ds : Datagrams) → Settled (prepare s ds)
  unfolding prepare
  prepare-Settled s (multiple []) = elim (Bool-cases s.reset) [
    | inl e ↦ rw e (inr refl)
    | inr e ↦ rw e (inl (_, refl))
  ]
  prepare-Settled s (single d) = elim (Bool-cases s.reset) [
    | inl e ↦ elim (Bool-cases (x.deserializes d)) [
      | inl h ↦ rw (e, h) (inl (_, refl))
      | inr h ↦ rw (e, h) (inr refl)
    ]
    | inr e ↦ rw e (inl (_, refl))
  ]
  prepare-Settled s (multiple (d ∷ ds)) = elim (Bool-cases s.reset) [
    | inl e ↦ elim (Bool-cases (x.deserializes d)) [
      | inl h ↦ rw (e, h) (inl (_, refl))
      | inr h ↦ rw (e, h) (inr refl)
    ]
    | inr e ↦ rw e (inl (_, refl))
  ]

  push_all-unreadable :
      (s : State x) (before after : List (List ℕ)) (d : List ℕ)
      → x.deserializes d ≡ false
      → push_all s (before ++ d ∷ after) ≡ panic
  unfolding push_all
  push_all-unreadable s [] after d h = rw (push-unreadable s d h) refl
  push_all-unreadable s (b ∷ before) after d h = elim (push-Settled s b) [
    | inl (t, e) ↦ rw e (push_all-unreadable t before after d h)
    | inr e ↦ rw e refl
  ]

  push_datagrams-unreadable :
      (s : State x) (ds : Datagrams) (before after : List (List ℕ)) (d : List ℕ)
      → datagrams ds ≡ before ++ d ∷ after
      → x.deserializes d ≡ false
      → push_datagrams s ds ≡ panic
  unfolding push_datagrams
  push_datagrams-unreadable s (multiple ds) before after d e h =
      rw e (push_all-unreadable s before after d h)
  push_datagrams-unreadable s (single a) [] after d e h =
      rw (head_same a d [] after e) (push-unreadable s d h)
  push_datagrams-unreadable s (single a) (b ∷ before) after d e h =
      absurd (omega (arith, ap length e, length-append before (d ∷ after)))

  then_panics :
      (min : ℕ) (ds : Datagrams) (prepared : Result Endless (State x))
      → Settled prepared
      → ((s : State x) → push_datagrams s ds ≡ panic)
      → (prepared >>= λ s. push_datagrams s ds >>= λ t. drain 257 min t) ≡ panic
  then_panics min ds prepared (inl (s, e)) h = rw (e, h s) refl
  then_panics min ds prepared (inr e) h = rw e refl

  round-unreadable :
      (min : ℕ) (s : State x) (ds : Datagrams) (before after : List (List ℕ)) (d : List ℕ)
      → datagrams ds ≡ before ++ d ∷ after
      → x.deserializes d ≡ false
      → round min s (received ds) ≡ panic
  unfolding round
  round-unreadable min s ds before after d e h =
      then_panics min ds (prepare s ds) (prepare-Settled s ds)
        (λ t. push_datagrams-unreadable t ds before after d e h)

module _ (x : Extern) (laws : ExternLaws x) (min : ℕ) (pos : 0 < min) where
  run-unreadable :
      (s : State x) (es fs : List Event) (ds : Datagrams) (before after : List (List ℕ))
      (d : List ℕ)
      → Inv x s
      → All (IsReadable x) es
      → datagrams ds ≡ before ++ d ∷ after
      → x.deserializes d ≡ false
      → run min s (es ++ received ds ∷ fs) ≡ panic
  unfolding run
  run-unreadable s [] fs ds before after d v h e bad =
      rw (round-unreadable min s ds before after d e bad) refl
  run-unreadable s (first ∷ es) fs ds before after d v (h, hs) e bad =
      let (t, outs, here, vt, good) =
        round-Rounded x laws min pos s first v (IsReadable-IsNonempty x first h) in
      rw (round-readable_round min s first h, here)
        (rw (run-unreadable t es fs ds before after d vt hs e bad) refl)

  -- Where the minimal number of packets is positive, whatever datagrams with the header of a packet
  -- and timeouts arrive first: a datagram that `EncodingPacket::deserialize` panics on, alone or
  -- anywhere in a batch, ends the worker by a panic, whatever comes after it.
  pub unreadable_panics :
      (es fs : List Event) (ds : Datagrams) (before after : List (List ℕ)) (d : List ℕ)
      → All (IsReadable x) es
      → datagrams ds ≡ before ++ d ∷ after
      → x.deserializes d ≡ false
      → run min (init_state x) (es ++ received ds ∷ fs) ≡ panic
  unreadable_panics es fs ds before after d =
      run-unreadable (init_state x) es fs ds before after d (init-Inv x laws min pos)
