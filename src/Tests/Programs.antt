-- ===== src/Tests/Programs.antt =====
-- The programs: threads that are spawned, command lines that fit each other, and a test of them.
use lidi_4d8d19daa.Common.{
  ℕ, zero, suc, replicate, ◌≡◌, ◌⊎◌, inl, inr, refl, List, [], ◌∷◌, none, some, Option, true, false,
  ok, IoError, failed, arith, ltb, if◌then◌else◌,
}
use mathlib.Core.List.{Memᴰ}
use mathlib.Core.List.Memᴰ
use lidi_4d8d19daa.Protocol.{u16_try_from}
use lidi_4d8d19daa.Protocol.Raptorq.{
  RaptorQ, new, packet_size, repair_count, encode, decode, block_size,
}
use lidi_4d8d19daa.Threads.Plan.{Follows, assign, left}
use lidi_4d8d19daa.Send.Start as Send
use lidi_4d8d19daa.Send.Start.{Sender}
use lidi_4d8d19daa.Send.Start.Planned as Senders
use lidi_4d8d19daa.Send.Start.Planned.{start-Follows}
use lidi_4d8d19daa.Receive.Start as Receive
use lidi_4d8d19daa.Receive.Start.{Receiver}
use lidi_4d8d19daa.Receive.Start.Planned as Receivers
use lidi_4d8d19daa.Receive.Start.Planned.{start-pinned}
use lidi_4d8d19daa.Diode.Packets.{AgreeOn}
use lidi_4d8d19daa.Programs.DiodeSend as DiodeSend
use lidi_4d8d19daa.Programs.DiodeReceive as DiodeReceive
use lidi_4d8d19daa.Programs.Agreement.{Fit, started-AgreeOn}
use lidi_4d8d19daa.Programs.DiodeConfig as DiodeConfig
use lidi_4d8d19daa.Programs.DiodeConfig.Sound.{DecodesToBlock, main-Verdict}
use lidi_4d8d19daa.Tests.Toy.{toy, toy_laws, ToyPacket}

-- The third thread cannot be spawned.
abbrev answers : ℕ → Option IoError
answers i = if ltb i 2 then none else some failed

abbrev send_args : DiodeSend.Args
send_args = record {
  from = record { from_tcp = some "127.0.0.1:5000"; from_unix = none };
  max_clients = 2;
  encode_threads = 2;
  heartbeat = some 5;
  flush = false;
  to = "127.0.0.1:6000";
  to_bind = "0.0.0.0:0";
  to_mtu = 48;
  batch = none;
  block = 112;
  repair = 40;
  cpu_affinity = true;
  hash = false;
}

abbrev receive_args : DiodeReceive.Args
receive_args = record {
  from = "127.0.0.1:6000";
  from_mtu = 48;
  batch = none;
  reset_timeout = 2;
  decode_threads = 2;
  max_clients = 2;
  flush = false;
  abort_timeout = none;
  to = record { to_tcp = some "127.0.0.1:7000"; to_unix = none };
  block = 112;
  repair = 40;
  min_repair = 20;
  heartbeat = some 10;
  cpu_affinity = true;
  hash = false;
}

abbrev core_ids : Option (List ℕ)
core_ids = some (0 ∷ 1 ∷ 2 ∷ [])

start-Follows_example :
    Follows answers
      (assign
        (Send.cpu_ids (DiodeSend.config send_args) core_ids)
        (Senders.plan (DiodeSend.config send_args)))
      (left
        (Send.cpu_ids (DiodeSend.config send_args) core_ids)
        (Senders.plan (DiodeSend.config send_args)))
      (Send.start (DiodeSend.config send_args) core_ids answers)
start-Follows_example = start-Follows answers (DiodeSend.config send_args) core_ids

start-pinned_example :
    Follows answers
      (Receivers.plan (DiodeReceive.config receive_args) core_ids)
      (some [])
      (Receive.start (DiodeReceive.config receive_args) core_ids answers)
start-pinned_example = start-pinned answers (DiodeReceive.config receive_args) core_ids

abbrev send_env : DiodeSend.Environment
send_env = record {
  logger = true;
  semaphore = true;
  tcp_bound = true;
  unix_exists = false;
  unix_bound = true;
  tcp_spawned = true;
  unix_spawned = true;
  core_ids = core_ids;
  spawned = λ i. none;
}

abbrev receive_env : DiodeReceive.Environment
receive_env = record { logger = true; semaphore = true; core_ids = core_ids; spawned = λ i. none }

-- MTU 48, 112 bytes, 40 and 20 percent.
abbrev send_raptorq : RaptorQ toy
send_raptorq = record {
  max_packet_size = 16;
  symbol_count = 7;
  transfer_length = 112;
  plan = 7;
  config = 16;
  nb_repair_packets = 2;
  min_nb_repair_packets = 0;
}

abbrev receive_raptorq : RaptorQ toy
receive_raptorq = record send_raptorq { min_nb_repair_packets = 1 }

abbrev sender : Sender toy
sender = record { config = DiodeSend.config send_args; raptorq = send_raptorq }

abbrev receiver : Receiver toy
receiver = record { config = DiodeReceive.config receive_args; raptorq = receive_raptorq }

sender_started :
    DiodeSend.main toy send_args send_env
    ≡ DiodeSend.started sender
        ("127.0.0.1:5000" ∷ [])
        (Send.start sender.config core_ids (λ i. none))
unfolding DiodeSend.main new packet_size repair_count u16_try_from Send.new
sender_started = refl

receiver_started :
    DiodeReceive.main toy receive_args receive_env
    ≡ DiodeReceive.started receiver (Receive.start receiver.config core_ids (λ i. none))
unfolding DiodeReceive.main new packet_size repair_count u16_try_from Receive.new
receiver_started = refl

fit : Fit toy send_args receive_args
unfolding packet_size
fit = record {
  same_mtu = refl;
  same_block = refl;
  same_repair = refl;
  block_fits = omega arith;
  has_symbol = omega arith;
  less_repair = omega arith;
  product_fits = omega arith;
}

started-AgreeOn_example : AgreeOn toy 48 112 40 20 send_raptorq receive_raptorq
started-AgreeOn_example =
    started-AgreeOn toy send_args receive_args send_env receive_env sender ("127.0.0.1:5000" ∷ [])
      (Send.start sender.config core_ids (λ i. none)) receiver
      (Receive.start receiver.config core_ids (λ i. none)) fit sender_started receiver_started
      (omega arith)

abbrev config_args : DiodeConfig.Args
config_args = record {
  debug = true;
  mtu = 48;
  block = 112;
  repair = 40;
  min_repair = 20;
  remove = 30;
}

abbrev config_env : DiodeConfig.Environment
config_env = record { logger = true; random = λ i. 7; random_range = λ i low high. low }

parameters_accepted : new toy 48 112 40 20 ≡ ok receive_raptorq
unfolding new packet_size repair_count u16_try_from
parameters_accepted = refl

replicate-Memᴰ {ℓ} : {A : Type ℓ} (a b : A) (n : ℕ) → Memᴰ b (replicate n a) → b ≡ a
replicate-Memᴰ a b zero m = absurd (Memᴰ.not-nil m)
replicate-Memᴰ a b (suc n) (Memᴰ.head e) = e
replicate-Memᴰ a b (suc n) (Memᴰ.tail m) = replicate-Memᴰ a b n m

-- Every packet carries the whole block.
whole_block :
    (block : List ℕ) (p : toy.Packet) → Memᴰ p (encode toy receive_raptorq 0 block) → p ≡ (0, block)
unfolding encode
whole_block block p m = elim (Memᴰ.append_cases (replicate {A = ToyPacket} 7 (0, block)) m) [
  | inl source ↦ replicate-Memᴰ {A = ToyPacket} (0, block) p 7 source
  | inr repair ↦ replicate-Memᴰ {A = ToyPacket} (0, block) p 2 repair
]

toy_decodes :
    DecodesToBlock toy toy_laws receive_raptorq
      (DiodeConfig.random_bytes config_env.random 0 (block_size toy receive_raptorq))
unfolding decode
toy_decodes [] some_packets h = absurd (omega (arith, some_packets))
toy_decodes (p ∷ packets) some_packets (first, rest) = inr (rw (whole_block _ p first) refl)

main-Verdict_example :
    (DiodeConfig.main toy config_args config_env ≡ ok DiodeConfig.decode_failed)
    ⊎ (DiodeConfig.main toy config_args config_env ≡ ok DiodeConfig.decode_ok)
main-Verdict_example =
    main-Verdict toy toy_laws config_args config_env receive_raptorq refl parameters_accepted
      (omega arith) (omega arith) (omega arith) (λ i low high h. h) toy_decodes
