-- ===== src/Send/Start.antt =====
-- `Config` and `Sender::start` of src/send/mod.rs. What `core_affinity` and `spawn_scoped` answer is
-- the environment's choice; addresses are text.
pub mod Planned
use lidi_4d8d19daa.Common.{
  ℕ, List, [], Option, none, some, Bool, true, false, Result, ok, err, if◌then◌else◌, String,
  IoError,
}
use lidi_4d8d19daa.Extern.{Extern}
use lidi_4d8d19daa.Protocol.Raptorq.{RaptorQ}
use lidi_4d8d19daa.Send.{Error, diode, other}
use lidi_4d8d19daa.Threads.{Spawning, Progress, going, ◌>>>◌, spawn_next, spawn_each}

-- Durations are in seconds.
pub record Config : Type 0 where
  pub max_clients : ℕ
  pub flush : Bool
  pub nb_encode_threads : ℕ
  pub heartbeat_interval : Option ℕ
  pub to : String
  pub to_bind : String
  pub to_mtu : ℕ
  pub batch_send : Option ℕ
  pub cpu_affinity : Bool
  pub hash : Bool

-- `Sender`, without its channels, which `Sender::new` makes anew.
pub record Sender (x : Extern) : Type 0 where
  pub config : Config
  pub raptorq : RaptorQ x

-- `Sender::new`, by whether the semaphore could be created.
unfoldable pub new : (x : Extern) → Config → RaptorQ x → Bool → Result Error (Sender x)
new x config raptorq true = ok (record { config = config; raptorq = raptorq })
new x config raptorq false = err (other "failed to create semaphore")

-- `new_client`, by whether the channel to the server workers took the client.
unfoldable pub new_client : Bool → Result Error (Unit {0})
new_client true = ok tt
new_client false = err (diode "failed to enqueue client")

-- `stop`, likewise.
unfoldable pub stop : Bool → Result Error (Unit {0})
stop true = ok tt
stop false = err (diode "failed to stop")

-- The threads, by their names; the threads `client_{i}` run the server worker.
pub data Worker : Type 0 where
  udp : Worker
  ordering : Worker
  encoding : ℕ → Worker
  heartbeat : Worker
  client : ℕ → Worker

abbrev pub cpu_ids : Config → Option (List ℕ) → Option (List ℕ)
cpu_ids config core_ids = if config.cpu_affinity then core_ids else none

unfoldable pub spawn_heartbeat : (ℕ → Option IoError) → Option ℕ → Spawning Worker → Progress Worker
unfolding spawn_next
spawn_heartbeat answers none s = going s
spawn_heartbeat answers (some hb_interval) s = spawn_next answers heartbeat s

unfoldable pub start : Config → Option (List ℕ) → (ℕ → Option IoError) → Progress Worker
unfolding spawn_next spawn_each spawn_heartbeat
start config core_ids answers =
    going (record { threads = []; cpu_ids = cpu_ids config core_ids })
    >>> spawn_next answers udp
    >>> spawn_next answers ordering
    >>> spawn_each answers encoding config.nb_encode_threads 0
    >>> spawn_heartbeat answers config.heartbeat_interval
    >>> spawn_each answers client config.max_clients 0
