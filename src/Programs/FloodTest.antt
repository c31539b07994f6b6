-- ===== src/Programs/FloodTest.antt =====
-- src/bin/diode-flood-test.rs: random data is written to a connection without end. The random
-- numbers, the answer to `connect` and the error of a write are the environment's choice.
use Prim.Native.Nat.{bit_xor}
use mathlib.Core.Path.{subst}
use lidi_4d8d19daa.Common.{
  ℕ, ◌%◌, ◌≡◌, List, [], ◌∷◌, Option, none, some, Bool, if◌then◌else◌, length, length-map, map, All,
  String, IoError,
}

pub record Args : Type 0 where
  pub to_tcp : Option String
  pub to_unix : Option String
  pub buffer_size : ℕ

-- `buffer` is what `fill_bytes` gives, of the length of its argument; each further random number
-- comes with the error of the write after it.
pub record Environment : Type 0 where
  pub logger : Bool
  pub connect : String → Option IoError
  pub fill_bytes : ℕ → List ℕ
  pub rounds : List (ℕ × Option IoError)

pub data Exit : Type 0 where
  no_logger : Exit
  panicked : Exit
  writing : Exit

pub record Flooded : Type 0 where
  pub written : List (List ℕ)  -- the buffers
  pub exit : Exit

-- One round: `*n ^= rnd` for every byte of the buffer.
abbrev pub scramble : ℕ → List ℕ → List ℕ
scramble rnd buffer = map (λ n. bit_xor n rnd) buffer

unfoldable pub start : List ℕ → List (ℕ × Option IoError) → Flooded
start buffer [] = record { written = []; exit = writing }
start buffer ((word, none) ∷ rounds) =
    let next : List ℕ = scramble (word % 256) buffer in
    let rest : Flooded = start next rounds in record rest { written = next ∷ rest.written }
start buffer ((word, some e) ∷ rounds) = record { written = []; exit = panicked }

-- Both arms connect and call `start`.
unfoldable pub flood : Environment → ℕ → String → Flooded
unfolding start
flood env buffer_size address = elim (env.connect address) [
  | some e ↦ record { written = []; exit = panicked }
  | none ↦ start (env.fill_bytes buffer_size) env.rounds
]

unfoldable pub main : Environment → Args → Flooded
unfolding flood
main env args =
    if env.logger
    then elim args.to_tcp [
      | some to_tcp ↦ flood env args.buffer_size to_tcp
      | none ↦ elim args.to_unix [
        | some to_unix ↦ flood env args.buffer_size to_unix
        | none ↦ record { written = []; exit = panicked }
      ]
    ]
    else record { written = []; exit = no_logger }

-- Every buffer that is written has the size of the first one.
pub length-start :
    (buffer : List ℕ) (rounds : List (ℕ × Option IoError))
    → All (λ bytes. length bytes ≡ length buffer) (start buffer rounds).written
unfolding start
length-start buffer [] = tt
length-start buffer ((word, none) ∷ rounds) =
    let same : length (scramble (word % 256) buffer) ≡ length buffer =
      length-map (λ n. bit_xor n (word % 256)) buffer in
    let next : List ℕ = scramble (word % 256) buffer in
    (
      same,
      subst (λ n. All (λ bytes. length bytes ≡ n) (start next rounds).written) same
          (length-start next rounds),
    )
length-start buffer ((word, some e) ∷ rounds) = tt
