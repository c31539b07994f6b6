-- ===== src/Receive/Start.antt =====
-- `Config` and `Receiver::start` of src/receive/mod.rs. What `core_affinity` and `spawn_scoped`
-- answer is the environment's choice; the address is text.
pub mod Planned
use lidi_4d8d19daa.Common.{
  ℕ, List, [], ◌∷◌, ◌++◌, Option, none, some, Bool, true, false, Result, ok, err, if◌then◌else◌,
  String, IoError,
}
use lidi_4d8d19daa.Extern.{Extern}
use lidi_4d8d19daa.Protocol.Raptorq.{RaptorQ}
use lidi_4d8d19daa.Receive.{Error, other}
use lidi_4d8d19daa.Threads.{
  Spawning, Progress, going, next, advance, ◌>>>◌, spawn_next, spawn_each, spawn_same,
}

-- Durations are in seconds.
pub record Config : Type 0 where
  pub from : String
  pub from_mtu : ℕ
  pub batch_receive : Option ℕ
  pub reset_timeout : ℕ
  pub nb_decode_threads : ℕ
  pub max_clients : ℕ
  pub flush : Bool
  pub abort_timeout : Option ℕ
  pub heartbeat_interval : Option ℕ
  pub cpu_affinity : Bool
  pub hash : Bool

-- `Receiver`, without its channels and functions, which `Receiver::new` makes anew or is given.
pub record Receiver (x : Extern) : Type 0 where
  pub config : Config
  pub raptorq : RaptorQ x

-- `Receiver::new`, by whether the semaphore could be created.
unfoldable pub new : (x : Extern) → Config → RaptorQ x → Bool → Result Error (Receiver x)
new x config raptorq true = ok (record { config = config; raptorq = raptorq })
new x config raptorq false = err (other "failed to create semaphore")

pub data Worker : Type 0 where
  client : ℕ → Worker
  dispatch : Worker
  decode : ℕ → Worker
  reblock : Worker
  udp : Worker

abbrev pub rev {ℓ} : {A : Type ℓ} → List A → List A
rev [] = []
rev (a ∷ l) = rev l ++ a ∷ []

-- The CPU identifiers are taken from the last on.
abbrev pub reversed : Option (List ℕ) → Option (List ℕ)
reversed none = none
reversed (some ids) = some (rev ids)

abbrev pub cpu_ids : Config → Option (List ℕ) → Option (List ℕ)
cpu_ids config core_ids = if config.cpu_affinity then reversed core_ids else none

-- The decoding workers: the identifier is taken once, before the loop.
unfoldable pub spawn_decoders : (ℕ → Option IoError) → ℕ → Spawning Worker → Progress Worker
unfolding spawn_same
spawn_decoders answers nb_decode_threads s =
    spawn_same answers decode (next s.cpu_ids) nb_decode_threads 0
      (record s { cpu_ids = advance s.cpu_ids })

unfoldable pub start : Config → Option (List ℕ) → (ℕ → Option IoError) → Progress Worker
unfolding spawn_next spawn_each spawn_decoders
start config core_ids answers =
    going (record { threads = []; cpu_ids = cpu_ids config core_ids })
    >>> spawn_each answers client config.max_clients 0
    >>> spawn_next answers dispatch
    >>> spawn_decoders answers config.nb_decode_threads
    >>> spawn_next answers reblock
    >>> spawn_next answers udp
