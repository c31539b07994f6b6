-- ===== src/Receive/Reblock/Readable.antt =====
-- The reblock worker on datagrams that all deserialize, where no step of it can panic.
use lidi_4d8d19daa.Common.{
  ℕ, ◌≡◌, refl, inl, inr, List, [], ◌∷◌, ◌++◌, none, some, true, Result, ok, err, panic, ◌>>=◌,
  if◌then◌else◌, All, Bool-cases,
}
use lidi_4d8d19daa.Extern.{Extern}
use lidi_4d8d19daa.Udp.{Datagrams, single, multiple}
use lidi_4d8d19daa.Receive.{Reassembled}
use lidi_4d8d19daa.Receive.Reblock.{
  State, Endless, Event, timeout, received, update, first_datagram, deserialize, restart, prepare,
  push, push_all, push_datagrams, on_timeout, drain, round, run,
}

-- A batch holds at least one datagram.
abbrev pub IsNonempty : Event → Type 0
IsNonempty timeout = Unit {0}
IsNonempty (received (single d)) = Unit {0}
IsNonempty (received (multiple [])) = ⊥
IsNonempty (received (multiple (d ∷ ds))) = Unit {0}

abbrev pub number_of : (x : Extern) → List ℕ → ℕ
number_of x datagram = x.source_block_number (x.deserialize_packet datagram)

-- An event has a datagram, and all that it has deserialize.
abbrev pub IsReadable : (x : Extern) → Event → Type 0
IsReadable x timeout = Unit {0}
IsReadable x (received (single d)) = x.deserializes d ≡ true
IsReadable x (received (multiple [])) = ⊥
IsReadable x (received (multiple (d ∷ ds))) = All (λ d. x.deserializes d ≡ true) (d ∷ ds)

bind_cong {ℓ κ} :
    {A : Type ℓ} {B : Type κ} (r : Result Endless A) (f g : A → Result Endless B)
    → ((a : A) → f a ≡ g a)
    → (r >>= f) ≡ (r >>= g)
bind_cong (ok a) f g h = h a
bind_cong (err e) f g h = refl
bind_cong panic f g h = refl

deserialize-ok :
    (x : Extern) (d : List ℕ)
    → x.deserializes d ≡ true
    → deserialize x d ≡ ok (x.deserialize_packet d)
unfolding deserialize
deserialize-ok x d h = rw h refl

pub IsReadable-IsNonempty : (x : Extern) (e : Event) → IsReadable x e → IsNonempty e
IsReadable-IsNonempty x timeout h = tt
IsReadable-IsNonempty x (received (single d)) h = tt
IsReadable-IsNonempty x (received (multiple [])) h = absurd h
IsReadable-IsNonempty x (received (multiple (d ∷ ds))) h = tt

pub AllReadable-AllNonempty :
    (x : Extern) (es : List Event) → All (IsReadable x) es → All IsNonempty es
AllReadable-AllNonempty x [] h = tt
AllReadable-AllNonempty x (e ∷ es) (h, hs) =
    (IsReadable-IsNonempty x e h, AllReadable-AllNonempty x es hs)

module _ {x : Extern} where
  unfoldable pub put : State x → List ℕ → State x
  put s datagram =
      let id : ℕ = number_of x datagram in
      if s.blocks_ignore id then s else record s {
        blocks_data =
            update s.blocks_data id (s.blocks_data id ++ x.deserialize_packet datagram ∷ []);
      }

  unfoldable pub put_all : State x → List (List ℕ) → State x
  unfolding put
  put_all s [] = s
  put_all s (d ∷ ds) = put_all (put s d) ds

  unfoldable pub put_datagrams : State x → Datagrams → State x
  unfolding put_all
  put_datagrams s (single d) = put s d
  put_datagrams s (multiple ds) = put_all s ds

  unfoldable pub readable_round :
      ℕ → State x → Event → Result Endless (State x × List (Reassembled x))
  unfolding on_timeout first_datagram restart put_datagrams drain
  readable_round min s timeout = ok (on_timeout s)
  readable_round min s (received datagrams) = elim (first_datagram datagrams) [
    | none ↦ panic
    | some d ↦
        let ready : State x = if s.reset then restart s (number_of x d) else s in
        drain 257 min (put_datagrams ready datagrams)
  ]

  unfoldable pub readable_run :
      ℕ → State x → List Event → Result Endless (State x × List (Reassembled x))
  unfolding readable_round
  readable_run min s [] = ok (s, [])
  readable_run min s (e ∷ es) = readable_round min s e >>= λ (t, outs).
      readable_run min t es >>= λ (u, more). ok (u, outs ++ more)

  push-put : (s : State x) (d : List ℕ) → x.deserializes d ≡ true → push s d ≡ ok (put s d)
  unfolding push put
  push-put s d h = rw (deserialize-ok x d h) refl

  push_all-put :
      (s : State x) (ds : List (List ℕ))
      → All (λ d. x.deserializes d ≡ true) ds
      → push_all s ds ≡ ok (put_all s ds)
  unfolding push_all put_all
  push_all-put s [] h = refl
  push_all-put s (d ∷ ds) (h, hs) = rw (push-put s d h) (push_all-put (put s d) ds hs)

  push_datagrams-put :
      (s : State x) (ds : Datagrams)
      → IsReadable x (received ds)
      → push_datagrams s ds ≡ ok (put_datagrams s ds)
  unfolding push_datagrams put_datagrams
  push_datagrams-put s (single d) h = push-put s d h
  push_datagrams-put s (multiple []) h = absurd h
  push_datagrams-put s (multiple (d ∷ ds)) h = push_all-put s (d ∷ ds) h

  abbrev ready : State x → List ℕ → State x
  ready s d = if s.reset then restart s (number_of x d) else s

  prepare-ready :
      (s : State x) (ds : Datagrams) (d : List ℕ)
      → first_datagram ds ≡ some d
      → x.deserializes d ≡ true
      → prepare s ds ≡ ok (ready s d)
  unfolding prepare
  prepare-ready s ds d first h = elim (Bool-cases s.reset) [
    | inl e ↦ rw (e, first, deserialize-ok x d h) refl
    | inr e ↦ rw e refl
  ]

  then_drain :
      (min : ℕ) (s t : State x) (ds : Datagrams) (prepared : Result Endless (State x))
      → prepared ≡ ok s
      → push_datagrams s ds ≡ ok t
      → (prepared >>= λ r. push_datagrams r ds >>= λ p. drain 257 min p) ≡ drain 257 min t
  then_drain min s t ds prepared first pushed = rw (first, pushed) refl

  round-first :
      (min : ℕ) (s : State x) (ds : Datagrams) (d : List ℕ)
      → first_datagram ds ≡ some d
      → x.deserializes d ≡ true
      → IsReadable x (received ds)
      → round min s (received ds) ≡ drain 257 min (put_datagrams (ready s d) ds)
  unfolding round
  round-first min s ds d first h hs =
      then_drain min (ready s d) (put_datagrams (ready s d) ds) ds (prepare s ds)
        (prepare-ready s ds d first h) (push_datagrams-put (ready s d) ds hs)

  pub round-readable_round :
      (min : ℕ) (s : State x) (e : Event) → IsReadable x e → round min s e ≡ readable_round min s e
  unfolding readable_round
  round-readable_round min s timeout h = unfold round in refl
  round-readable_round min s (received (single d)) h = round-first min s (single d) d refl h h
  round-readable_round min s (received (multiple [])) h = absurd h
  round-readable_round min s (received (multiple (d ∷ ds))) h =
      round-first min s (multiple (d ∷ ds)) d refl h.0 h

  pub run-readable_run :
      (min : ℕ) (s : State x) (es : List Event)
      → All (IsReadable x) es
      → run min s es ≡ readable_run min s es
  unfolding run readable_run
  run-readable_run min s [] h = refl
  run-readable_run min s (e ∷ es) (h, hs) =
      rw (round-readable_round min s e h)
        (bind_cong (readable_round min s e) _ _ (λ r. rw (run-readable_run min r.0 es hs) refl))
