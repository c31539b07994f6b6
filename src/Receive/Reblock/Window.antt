-- ===== src/Receive/Reblock/Window.antt =====
-- The window of block numbers, and what one round keeps.
use lidi_4d8d19daa.Common.{
  ℕ, zero, suc, ◌+◌, ◌-◌, ◌%◌, ◌≤◌, ◌<◌, ◌≡◌, refl, ◌⊎◌, inl, inr, List, [], ◌∷◌, Bool, true, false,
  not, ltb, ◌==◌, if◌then◌else◌, All, All-append, arith, Bool-cases, ==_iff,
}
use lidi_4d8d19daa.Extern.{Extern, ExternLaws}
use lidi_4d8d19daa.Udp.{Datagrams, single, multiple}
use lidi_4d8d19daa.Receive.Reblock.{State, update, wrapping_add, open_window, window_width, restart}
use lidi_4d8d19daa.Receive.Reblock.Readable.{put, put_all, put_datagrams, number_of}

-- How far a block number is ahead of another one, modulo 256.
abbrev pub offset : ℕ → ℕ → ℕ
offset from to = (to + 256 - from) % 256

open_window_lem :
    (n fuel id last : ℕ) (ignore : ℕ → Bool) (j : ℕ)
    → n ≤ fuel
    → n < 256
    → id < 256
    → j < 256
    → last ≡ (id + n) % 256
    → open_window fuel id last ignore j ≡ (if ltb (offset id j) n then false else ignore j)
unfolding open_window
open_window_lem zero zero id last ignore j hf hn hi hj e = ground arith
open_window_lem zero (suc fuel) id last ignore j hf hn hi hj e = ground arith
open_window_lem (suc n) zero id last ignore j hf hn hi hj e = absurd (omega arith)
open_window_lem (suc n) (suc fuel) id last ignore j hf hn hi hj e = ground (
  arith,
  open_window_lem n fuel (wrapping_add id 1) last (update ignore id false) j (omega arith)
      (omega arith) (omega arith) hj (omega arith),
)

module _ (x : Extern) where
  -- Exactly the 127 numbers from the current one on are accepted.
  abbrev pub IsOpen : State x → Type 0
  IsOpen s = (i : ℕ) → i < 256 → s.blocks_ignore i ≡ not (ltb (offset s.cur_id i) window_width)

  pub record Inv (s : State x) : Type 0 where
    pub current : s.cur_id < 256
    pub clean : (i : ℕ) → i < 256 → s.blocks_ignore i ≡ true → s.blocks_data i ≡ []
    pub owned : (i : ℕ) → i < 256 → All (λ p. x.source_block_number p ≡ i) (s.blocks_data i)
    pub windowed : (s.reset ≡ true) ⊎ IsOpen s

  pub restart-IsOpen : (s : State x) (id : ℕ) → id < 256 → IsOpen (restart s id)
  unfolding restart
  restart-IsOpen s id h i hi =
      rw
        (open_window_lem 127 256 id (wrapping_add id window_width) (λ _. true) i (omega arith)
          (omega arith) h hi refl)
        (ground arith)

  pub restart-Inv : (s : State x) (id : ℕ) → id < 256 → Inv (restart s id)
  restart-Inv s id h = record {
    current = unfold restart in h;
    clean = unfold restart in λ i hi e. refl;
    owned = unfold restart in λ i hi. tt;
    windowed = inr (restart-IsOpen s id h);
  }

  module _ (laws : ExternLaws x) where
    pub push-Inv : (s : State x) (d : List ℕ) → Inv s → Inv (put s d)
    unfolding put
    push-Inv s d v = record {
      current = ground (arith, v.current);
      clean = λ i hi e. ground (arith, v.clean i hi);
      owned = λ i hi. elim (Bool-cases (s.blocks_ignore (number_of x d))) [
        | inl e ↦ rw e (v.owned i hi)
        | inr e ↦ rw e (elim (Bool-cases (i == number_of x d)) [
          | inl same ↦
              rw (same, (==_iff i (number_of x d)).0 same)
                (All-append _ (s.blocks_data (number_of x d)) _
                  (v.owned (number_of x d) (laws.number-lt _)) (refl, tt))
          | inr other ↦ rw other (v.owned i hi)
        ])
      ];
      windowed = ground (arith, v.windowed);
    }

    push-IsOpen : (s : State x) (d : List ℕ) → IsOpen s → IsOpen (put s d)
    unfolding put
    push-IsOpen s d w i hi = ground (arith, w i hi)

    push_all-Inv :
        (s : State x) (ds : List (List ℕ))
        → Inv s
        → IsOpen s
        → Inv (put_all s ds) × IsOpen (put_all s ds)
    unfolding put_all
    push_all-Inv s [] v w = (v, w)
    push_all-Inv s (d ∷ ds) v w = push_all-Inv (put s d) ds (push-Inv s d v) (push-IsOpen s d w)

    -- Storing the packets of any datagrams keeps the invariant and the window.
    pub push_datagrams-Inv :
        (s : State x) (ds : Datagrams)
        → Inv s
        → IsOpen s
        → Inv (put_datagrams s ds) × IsOpen (put_datagrams s ds)
    unfolding put_datagrams
    push_datagrams-Inv s (single d) v w = (push-Inv s d v, push-IsOpen s d w)
    push_datagrams-Inv s (multiple ds) v w = push_all-Inv s ds v w
