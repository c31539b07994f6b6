-- ===== src/Bindings.antt =====
-- src/diode-file-bindings/src/lib.rs (from the repository's root diode-file-bindings/src/lib.rs): the C
-- interface of the file programs. A pointer to a configuration is an address or null, and the
-- allocations of `Box` are a map from addresses; a dangling pointer is undefined behaviour. A C
-- string is its bytes. A panic leaves no caller: it ends the program.
pub mod Calls
use lidi_4d8d19daa.Common.{
  ℕ, ◌^◌, List, Option, none, some, Bool, false, ok, ltb, ◌==◌, if◌then◌else◌, String, IoError,
}
use lidi_4d8d19daa.Aux.{DiodeSend, tcp, unix, DiodeReceive}
use lidi_4d8d19daa.Aux.File.{Library}
use lidi_4d8d19daa.Aux.File.Send.{Progress, Sent, waiting, done, stopped}
use lidi_4d8d19daa.Aux.File.Programs.{
  FileConfig, World, System, Listening, send_file, receive_files,
}

-- The boxed configurations, by address.
abbrev pub Heap : Type 0
Heap = ℕ → Option (FileConfig DiodeSend)

-- `returned` with a value; `pending` if the call is still waiting.
pub data Outcome {ℓ} (A : Type ℓ) : Type ℓ where
  returned : A → Outcome A
  pending : Outcome A
  panicked : Outcome A
  undefined : Outcome A

-- What the strings of the caller mean: `from_utf8_lossy`, and `SocketAddr::from_str` on its result.
pub record Strings : Type 0 where
  pub from_utf8_lossy : List ℕ → String
  pub socket_addr : String → Option String

-- `Box::into_raw(Box::new(…))` at the address that the allocator gives.
abbrev pub store : Heap → ℕ → Option (FileConfig DiodeSend) → Heap
store heap address content other = if other == address then content else heap other

unfoldable pub diode_new_config :
    Strings → Heap → ℕ → Option (List ℕ) → ℕ → Outcome (Option ℕ × Heap)
diode_new_config strings heap address none buffer_size = returned (none, heap)
diode_new_config strings heap address (some addr) buffer_size =
    elim (strings.socket_addr (strings.from_utf8_lossy addr)) [
      | none ↦ panicked
      | some socket_addr ↦ returned (
        some address,
        store heap address (
            some (record {
              diode = tcp socket_addr;
              config = record { buffer_size = buffer_size; hash = false };
              max_files = 0;
            })),
      )
    ]

unfoldable pub diode_free_config : Heap → Option ℕ → Outcome Heap
diode_free_config heap none = returned heap
diode_free_config heap (some address) = elim (heap address) [
  | none ↦ undefined
  | some c ↦ returned (store heap address none)
]

-- `.unwrap_or(0)`, and then `u32::try_from(result).unwrap_or(0)`.
unfoldable pub sent_count : Progress → Outcome ℕ
sent_count waiting = pending
sent_count (done total) = returned (if ltb total (2 ^ 32) then total else 0)
sent_count (stopped e) = returned 0

unfoldable pub diode_send_file :
    Library → Strings → World → Heap → Option ℕ → Option (List ℕ) → Outcome ℕ
unfolding sent_count
diode_send_file lib strings w heap none filepath = returned 0
diode_send_file lib strings w heap (some address) filepath = elim (heap address) [
  | none ↦ undefined
  | some c ↦ elim filepath [
    | none ↦ returned 0
    | some path ↦ sent_count (send_file lib w 0 c (strings.from_utf8_lossy path)).progress
  ]
]

-- The configuration with which files are received; none for a Unix socket.
unfoldable pub receive_config : FileConfig DiodeSend → Option (FileConfig DiodeReceive)
receive_config c = elim c.diode [
  | unix path ↦ none
  | tcp socket_addr ↦ some (record {
    diode = record { from_tcp = some socket_addr; from_unix = none };
    config = record { buffer_size = c.config.buffer_size; hash = false };
    max_files = 0;
  })
]

-- The result of `receive_files` is dropped; `none` when it is not called. `systems` says what the
-- system answers for an output directory.
unfoldable pub diode_receive_files :
    Strings → (String → System) → Heap → Option ℕ → Option (List ℕ) → Outcome (Option Listening)
unfolding receive_config
diode_receive_files strings systems heap none odir = returned none
diode_receive_files strings systems heap (some address) odir = elim (heap address) [
  | none ↦ undefined
  | some c ↦ elim (receive_config c) [
    | none ↦ returned none
    | some config ↦ elim odir [
      | none ↦ returned none
      | some path ↦ returned (some (receive_files (systems (strings.from_utf8_lossy path)) config))
    ]
  ]
]
