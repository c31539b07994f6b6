-- ===== src/Common/Reader.antt =====
-- `Read::read` on a stream: each call waits until some bytes are available or the stream is at its
-- end. How many are available at each call is the environment's choice, a list of `Wait`s.

use lidi_4d8d19daa.Common.Outcome.{IoError}
use Prim.Native.Nat.{ℕ, zero, suc, min, ◌≤◌}
use native.Mathlib.Omega.{arith}
use mathlib.Core.List.{List, [], ◌∷◌}

pub data Wait : Type 0 where
  -- at least one byte, and at most `suc n`, or the end of the stream
  ready : ℕ → Wait
  fault : IoError → Wait

-- The number of bytes that a buffer of `space` bytes receives, unless the stream is shorter.
abbrev pub read_size : ℕ → ℕ → ℕ
read_size space n = min space (suc n)

-- Enough calls succeed to read `n` bytes one by one.
abbrev pub AllReady : ℕ → List Wait → Type 0
AllReady zero ws = Unit {0}
AllReady (suc n) [] = ⊥
AllReady (suc n) (ready k ∷ ws) = AllReady n ws
AllReady (suc n) (fault e ∷ ws) = ⊥

-- Fewer calls succeed too.
pub AllReady-mono : (m n : ℕ) (ws : List Wait) → m ≤ n → AllReady n ws → AllReady m ws
AllReady-mono zero n ws h a = tt
AllReady-mono (suc m) zero ws h a = absurd (omega arith)
AllReady-mono (suc m) (suc n) [] h a = a
AllReady-mono (suc m) (suc n) (ready k ∷ ws) h a = AllReady-mono m n ws (omega arith) a
AllReady-mono (suc m) (suc n) (fault e ∷ ws) h a = a
