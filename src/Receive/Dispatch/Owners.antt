-- ===== src/Receive/Dispatch/Owners.antt =====
-- The map of the active transfers and their queues.
use lidi_4d8d19daa.Common.{
  ℕ, ◌≤◌, ◌<◌, ◌≡◌, ◌≢◌, sym, inl, inr, [], ◌∷◌, some, ◌==◌, All, arith, Bool-cases,
}
use mathlib.Core.Path.{subst}
use lidi_4d8d19daa.Receive.Dispatch.{Transfers, State, lookup, remove, init_state}

-- No transfer of the map uses the queue.
abbrev pub NoQueue : ℕ → Transfers → Type 0
NoQueue q = All (λ e. e.1 ≢ q)

abbrev pub Distinct : Transfers → Type 0
Distinct [] = Unit {0}
Distinct ((k, q) ∷ m) = NoQueue q m × Distinct m

abbrev pub Below : ℕ → Transfers → Type 0
Below n = All (λ e. e.1 < n)

-- Active transfers have queues of their own, which have been opened.
pub record Inv (s : State) : Type 0 where
  pub distinct : Distinct s.active
  pub below : Below s.next_queue s.active

pub init-Inv : Inv init_state
init-Inv = record { distinct = tt; below = tt }

pub All-remove {κ} : (P : ℕ × ℕ → Type κ) (id : ℕ) (m : Transfers) → All P m → All P (remove id m)
unfolding remove
All-remove P id [] h = tt
All-remove P id ((k, q) ∷ m) h = elim (Bool-cases (k == id)) [
  | inl e ↦ rw e (All-remove P id m h.1)
  | inr e ↦ rw e (h.0, All-remove P id m h.1)
]

pub Distinct-remove : (id : ℕ) (m : Transfers) → Distinct m → Distinct (remove id m)
unfolding remove
Distinct-remove id [] h = tt
Distinct-remove id ((k, q) ∷ m) h = elim (Bool-cases (k == id)) [
  | inl e ↦ rw e (Distinct-remove id m h.1)
  | inr e ↦ rw e (All-remove (λ e. e.1 ≢ q) id m h.0, Distinct-remove id m h.1)
]

pub Below-NoQueue : (n : ℕ) (m : Transfers) → Below n m → NoQueue n m
Below-NoQueue n [] h = tt
Below-NoQueue n ((k, q) ∷ m) h = ((λ e. absurd (omega arith)), Below-NoQueue n m h.1)

pub Below-mono : (a b : ℕ) (m : Transfers) → a ≤ b → Below a m → Below b m
Below-mono a b [] h v = tt
Below-mono a b ((k, q) ∷ m) h v = (omega arith, Below-mono a b m h v.1)

pub lookup-NoQueue : (id q p : ℕ) (m : Transfers) → lookup id m ≡ some p → NoQueue q m → p ≢ q
unfolding lookup
lookup-NoQueue id q p [] e h = cc
lookup-NoQueue id q p ((k, r) ∷ m) e h = ground (arith, lookup-NoQueue id q p m)

pub lookup-Below : (id n p : ℕ) (m : Transfers) → lookup id m ≡ some p → Below n m → p < n
unfolding lookup
lookup-Below id n p [] e h = cc
lookup-Below id n p ((k, r) ∷ m) e h = ground (arith, lookup-Below id n p m)

-- Without its own entry, the queue of a transfer is nowhere.
pub remove-NoQueue :
    (id q : ℕ) (m : Transfers) → lookup id m ≡ some q → Distinct m → NoQueue q (remove id m)
unfolding lookup remove
remove-NoQueue id q [] e h = cc
remove-NoQueue id q ((k, r) ∷ m) e h = elim (Bool-cases (k == id)) [
  | inl here ↦
      rw here (All-remove (λ e. e.1 ≢ q) id m (subst (λ t. NoQueue t m) (ground arith) h.0))
  | inr there ↦ rw there (
    (λ same. lookup-NoQueue id r q m (ground arith) h.0 (sym same)),
    remove-NoQueue id q m (ground arith) h.1,
  )
]
