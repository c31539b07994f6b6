-- ===== src/Programs/DiodeConfig.antt =====
-- src/bin/diode-config.rs: a random block is encoded, the packets are shuffled, some are removed,
-- and the rest is decoded. The logger and the random numbers are the environment's choice.
pub mod Sound
use lidi_4d8d19daa.Common.{
  ℕ, zero, suc, ◌+◌, ◌-◌, ◌*◌, ◌/◌, ◌%◌, ◌^◌, List, [], ◌∷◌, Option, none, some, Bool, true, false,
  ◌&&◌, Result, ok, err, panic, ◌>>=◌, leb, ◌==◌, if◌then◌else◌, length, get_elem?, drop,
}
use lidi_4d8d19daa.Extern.{Extern}
use lidi_4d8d19daa.Protocol.Raptorq.{RaptorQ, new, block_size, encode, decode}

-- `Args`; of the log level, whether debug messages are logged.
pub record Args : Type 0 where
  pub debug : Bool
  pub mtu : ℕ
  pub block : ℕ
  pub repair : ℕ
  pub min_repair : ℕ
  pub remove : ℕ

-- Whether the logger could be set, the random bytes, and what the i-th call of `random_range` gives
-- for a range that is not empty.
pub record Environment : Type 0 where
  pub logger : Bool
  pub random : ℕ → ℕ
  pub random_range : ℕ → ℕ → ℕ → ℕ

-- The code of `process::exit`.
pub data Exit : Type 0 where
  exit : ℕ → Exit

-- What `main` logs when it returns.
pub data Verdict : Type 0 where
  decode_failed : Verdict
  decode_ok : Verdict

-- `vec![0u8; block_size]`, each byte then random
unfoldable pub random_bytes : (ℕ → ℕ) → ℕ → ℕ → List ℕ
random_bytes random i zero = []
random_bytes random i (suc n) = random i ∷ random_bytes random (i + 1) n

-- The number of packets of a percentage; `usize` has 64 bits.
unfoldable pub nb_removed : ℕ → ℕ → ℕ
nb_removed nb_packets remove = nb_packets * remove % 2 ^ 64 / 100

module _ {ℓ} {A : Type ℓ} where
  abbrev pub set : List A → ℕ → A → List A
  set [] i a = []
  set (b ∷ l) zero a = a ∷ l
  set (b ∷ l) (suc i) a = b ∷ set l i a

  -- `packets.swap(i, j)`
  unfoldable pub swap : ℕ → ℕ → List A → Result Exit (List A)
  swap i j packets = elim (get_elem? packets i) [
    | none ↦ panic
    | some a ↦ elim (get_elem? packets j) [ none ↦ panic | some b ↦ ok (set (set packets i b) j a) ]
  ]

  -- `for i in 0..(nb_packets / 2)`, from `i` on
  unfoldable pub shuffle : (ℕ → ℕ) → ℕ → ℕ → List A → Result Exit (List A)
  unfolding swap
  shuffle choose i zero packets = ok packets
  shuffle choose i (suc n) packets = swap i (choose i) packets >>= shuffle choose (i + 1) n

  -- `packets.split_off(nb)`
  unfoldable pub split_off : ℕ → List A → Result Exit (List A)
  split_off nb packets = if leb nb (length packets) then ok (drop nb packets) else panic

  -- From the encoded packets to those that are decoded.
  unfoldable pub damage : Environment → ℕ → List A → Result Exit (List A)
  unfolding shuffle nb_removed split_off
  damage env remove packets =
      shuffle (λ i. env.random_range i (length packets / 2) (length packets)) 0 (length packets / 2)
        packets
      >>= split_off (nb_removed (length packets) remove)

-- `decoded == data`
unfoldable pub is_same : List ℕ → List ℕ → Bool
is_same [] [] = true
is_same [] (b ∷ bs) = false
is_same (a ∷ l) [] = false
is_same (a ∷ l) (b ∷ bs) = a == b && is_same l bs

module _ (x : Extern) where
  -- The `match` of `main`.
  unfoldable pub verdict : RaptorQ x → List ℕ → List x.Packet → Result Exit Verdict
  unfolding is_same
  verdict r data_block packets = elim (decode x r 0 packets) [
    | none ↦ ok decode_failed
    | some decoded ↦ if is_same decoded data_block then ok decode_ok else err (exit 3)
  ]

  -- `packets[0]` in a debug message
  unfoldable pub log_packet : Bool → List x.Packet → Result Exit (Unit {0})
  log_packet debug [] = if debug then panic else ok tt
  log_packet debug (packet ∷ packets) = ok tt

  -- `main` after `RaptorQ::new`.
  unfoldable pub test : Args → Environment → RaptorQ x → Result Exit Verdict
  unfolding random_bytes log_packet damage verdict
  test args env r =
      let data_block : List ℕ = random_bytes env.random 0 (block_size x r) in
      let packets : List x.Packet = encode x r 0 data_block in
      log_packet args.debug packets
      >>= (λ logged. damage env args.remove packets >>= verdict r data_block)

  unfoldable pub main : Args → Environment → Result Exit Verdict
  unfolding test
  main args env =
      let run : Result Exit Verdict = elim (new x args.mtu args.block args.repair args.min_repair) [
        | err e ↦ err (exit 2)
        | panic ↦ panic
        | ok r ↦ test args env r
      ] in
      if env.logger then run else err (exit 1)
