-- ===== src/Tests/FilePrograms.antt =====
-- The file and UDP programs from their arguments on, and the C interface.
use lidi_4d8d19daa.Common.{
  ℕ, suc, ◌≢◌, ◌≡◌, refl, inr, List, [], ◌∷◌, none, some, true, false, ok, map, length, replicate,
  ltb, if◌then◌else◌, unexpected_eof, arith,
}
use lidi_4d8d19daa.Common.Reader.{Wait, ready, AllReady}
use lidi_4d8d19daa.Protocol.Block.{Block}
use lidi_4d8d19daa.Send.Client as Sender
use lidi_4d8d19daa.Send.Client.Stream.{start_client-Transfer}
use lidi_4d8d19daa.Receive.Client.{start_client}
use lidi_4d8d19daa.Receive.Client.Delivery.{arrivals}
use lidi_4d8d19daa.Receive.Dispatch.{State, Action, opens, init_state, run}
use lidi_4d8d19daa.Receive.Dispatch.Owners.{init-Inv}
use lidi_4d8d19daa.Receive.Dispatch.Interleaved.{
  Received, Mixed, done, mine, IsServed, blocks, events, deliveries,
}
use lidi_4d8d19daa.Aux.{DiodeSend, tcp, DiodeReceive}
use lidi_4d8d19daa.Aux.File.Send.{footer_hash, send_file_aux}
use lidi_4d8d19daa.Aux.File.Header.{serialize_header, serialize_footer}
use lidi_4d8d19daa.Aux.File.Receive.{receive_file}
use lidi_4d8d19daa.Aux.File.Delivery.{verdict, file_digest}
use lidi_4d8d19daa.Aux.File.Programs.{FileConfig, World, send_file, send_files, accept_loop}
use lidi_4d8d19daa.Aux.File.Programs.Received.{Transfer, connections, stored, files_received}
use lidi_4d8d19daa.Aux.Udp as Udp
use lidi_4d8d19daa.Aux.Udp.{Sent, send_udp_aux}
use lidi_4d8d19daa.Aux.Udp.Programs as UdpPrograms
use lidi_4d8d19daa.Aux.Udp.Programs.{
  Connection, SendArgs, ReceiveArgs, System, served, main_send, main_receive,
}
use lidi_4d8d19daa.Aux.Udp.Programs.Passed.{main_receive-main_send}
use lidi_4d8d19daa.Bindings.{
  Heap, returned, undefined, Strings, diode_new_config, diode_free_config, sent_count,
  diode_send_file,
}
use lidi_4d8d19daa.Bindings.Calls.{config_of, new_config-lifecycle, send_file_counts}
use lidi_4d8d19daa.Diode.Files.{file_to_file}
use lidi_4d8d19daa.Tests.Toy.{toy}
use lidi_4d8d19daa.Tests.Link.{small, open_queues}
use lidi_4d8d19daa.Tests.Files.{
  counting, letters, letters-IsSendable, empty_directory, empty_directory-IsFree, threes, twos,
  six_reads,
}

abbrev letter_bytes : List ℕ
letter_bytes = (send_file_aux counting threes letters six_reads).bytes

-- Each read gives all that there is room for.
abbrev many_reads : List Wait
many_reads = replicate 100 (ready 20)

many_reads_ready : AllReady (suc (length letter_bytes)) many_reads
unfolding send_file_aux serialize_header serialize_footer
many_reads_ready = tt

-- The blocks that the sender makes of the file.
letter_blocks :
    (b : Block) × (own : List Block) × ((Sender.start_client toy false small 3 many_reads
        letter_bytes).blocks
      ≡ b ∷ own)
letter_blocks =
    let (b, own, e, first, rest, finish) =
      start_client-Transfer toy false small 3 many_reads letter_bytes (omega arith) (omega arith)
        (omega arith) many_reads_ready in
    (b, own, e)

abbrev alone : List Block → Received
alone own = map (λ b. (open_queues, b)) own

alone-Mixed : (id : ℕ) (own : List Block) → Mixed id (blocks (alone own)) own
alone-Mixed id [] = done
alone-Mixed id (b ∷ own) = mine (alone-Mixed id own)

alone-IsServed : (q : ℕ) (own : List Block) → IsServed q (alone own)
alone-IsServed q [] = tt
alone-IsServed q (b ∷ own) = (refl, alone-IsServed q own)

file_to_file_example :
    (t : State) × (actions : List Action) × (run toy small init_state
        (events ((open_queues, letter_blocks.0) ∷ alone letter_blocks.1))
      ≡ ok (t, opens 3 0 ∷ actions))
    × (receive_file counting twos empty_directory six_reads
          (start_client toy small none true (arrivals (deliveries 0 actions))).written
        ≡ record {
          created = some (97 ∷ 98 ∷ [], 420);
          written = 1 ∷ 2 ∷ 3 ∷ 4 ∷ 5 ∷ [];
          progress =
              verdict counting
                (file_digest counting twos letters.content)
                (footer_hash counting threes (file_digest counting threes letters.content))
                5;
        })
file_to_file_example =
    file_to_file counting threes twos letters empty_directory (97 ∷ 98 ∷ []) (97 ∷ 98 ∷ [])
      six_reads six_reads toy false true small 3 many_reads open_queues (alone letter_blocks.1)
      init_state letter_blocks.0 letter_blocks.1 (λ h. omega arith) letters-IsSendable
      empty_directory-IsFree (omega arith) (omega arith) (omega arith) (omega arith) (omega arith)
      (omega arith) (omega arith) many_reads_ready init-Inv letter_blocks.2
      (alone-Mixed 3 letter_blocks.1) (refl, alone-IsServed 0 letter_blocks.1)

abbrev world : World
world = record { connect = λ n diode. none; source = λ n file. letters; reads = λ n. six_reads }

abbrev sending : FileConfig DiodeSend
sending = record { diode = tcp "[::1]:5000"; config = threes; max_files = 0 }

-- Two files at most.
abbrev receiving : FileConfig DiodeReceive
receiving = record {
  diode = record { from_tcp = some "[::1]:6000"; from_unix = none };
  config = twos;
  max_files = 2;
}

abbrev letter : Transfer
letter = record {
  file = "ab";
  name = 97 ∷ 98 ∷ [];
  base = 97 ∷ 98 ∷ [];
  directory = empty_directory;
  reads = six_reads;
}

files_received_example :
    (length (send_files counting world 0 sending ("ab" ∷ "ab" ∷ [])) ≡ 2)
    × (map stored
          (accept_loop counting receiving 0
            (map ok (connections counting world sending 0 (letter ∷ letter ∷ [])))).received
        ≡ (some (97 ∷ 98 ∷ [], 420), 1 ∷ 2 ∷ 3 ∷ 4 ∷ 5 ∷ [])
          ∷ (some (97 ∷ 98 ∷ [], 420), 1 ∷ 2 ∷ 3 ∷ 4 ∷ 5 ∷ [])
          ∷ [])
files_received_example =
    files_received counting world sending receiving (λ h. omega arith) (omega arith) (omega arith)
      (letter ∷ letter ∷ [])
      (
        refl,
        letters-IsSendable,
        empty_directory-IsFree,
        omega arith,
        omega arith,
        (refl, letters-IsSendable, empty_directory-IsFree, omega arith, omega arith, tt),
      )
      (inr (omega arith))

abbrev strings : Strings
strings = record { from_utf8_lossy = λ bytes. "[::1]:5000"; socket_addr = λ text. some text }

abbrev no_configs : Heap
no_configs = λ address. none

new_config-lifecycle_example :
    (live : Heap) × (freed : Heap) × (diode_new_config strings no_configs 4096 (some (91 ∷ [])) 3
      ≡ returned (some 4096, live))
    × ((other : ℕ) → other ≢ 4096 → live other ≡ none)
    × (diode_send_file counting strings world live (some 4096) (some (97 ∷ 98 ∷ []))
        ≡ sent_count (send_file counting world 0 (config_of "[::1]:5000" 3) "[::1]:5000").progress)
    × (diode_free_config live (some 4096) ≡ returned freed)
    × ((other : ℕ) → freed other ≡ none)
    × (diode_send_file counting strings world freed (some 4096) (some (97 ∷ 98 ∷ [])) ≡ undefined)
new_config-lifecycle_example =
    new_config-lifecycle counting strings world no_configs 4096 3 (91 ∷ []) (97 ∷ 98 ∷ [])
      "[::1]:5000" refl refl

send_file_counts_example :
    diode_send_file counting strings world
      (λ address. some sending)
      (some 4096)
      (some (97 ∷ 98 ∷ []))
    ≡ returned (if ltb 5 4294967296 then 5 else 0)
send_file_counts_example =
    send_file_counts counting strings world (λ address. some sending) 4096 (97 ∷ 98 ∷ [])
      (97 ∷ 98 ∷ []) sending refl refl letters-IsSendable (omega arith) (omega arith)

abbrev two_datagrams : List (List ℕ)
two_datagrams = (1 ∷ 2 ∷ []) ∷ [] ∷ []

abbrev sockets : UdpPrograms.World
sockets = record { connect = λ diode. none; bind = none; datagrams = map ok two_datagrams }

abbrev send_args : SendArgs
send_args = record { to_tcp = some "[::1]:5000"; to_unix = none }

abbrev receive_args : ReceiveArgs
receive_args = record { from_tcp = some "[::1]:6000"; from_unix = none }

sends : main_send sockets true send_args ≡ ok (some (send_udp_aux (map ok two_datagrams)))
unfolding main_send UdpPrograms.destination UdpPrograms.send
sends = refl

abbrev system : System
system = record {
  exists = λ path. false;
  bind_unix = λ path. none;
  bind_tcp = λ addr. none;
  unix_clients = [];
  tcp_clients =
      ok (record { bind = none; stream = (send_udp_aux (map ok two_datagrams)).bytes }) ∷ [];
}

main_receive-main_send_example :
    main_receive system true receive_args
    ≡ some (
        served (record (UdpPrograms.accept_loop 65535 []) {
          received =
              record { datagrams = two_datagrams; status = Udp.stopped unexpected_eof }
              ∷ (UdpPrograms.accept_loop 65535 []).received;
        }))
main_receive-main_send_example =
    main_receive-main_send sockets send_args receive_args system "[::1]:5000" "[::1]:6000"
      (send_udp_aux (map ok two_datagrams)) two_datagrams [] refl refl refl refl
      (omega arith, (omega arith, tt)) sends refl refl refl refl
