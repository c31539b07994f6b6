-- ===== src/Receive/Udp/Passed.antt =====
-- What the UDP worker passes on, and what the reblock worker makes of it.
use lidi_4d8d19daa.Common.{
  ℕ, ◌<◌, ◌≡◌, refl, sym, ap, ◌∙◌, List, [], ◌∷◌, ◌++◌, Option, none, some, true, ok, panic, length,
  take, concat, map, All, arith, le→leb,
}
use mathlib.Core.List.{map-append}
use mathlib.Core.Path.{subst}
use lidi_4d8d19daa.Extern.{Extern, ExternLaws}
use lidi_4d8d19daa.Udp.{Datagrams, single, multiple}
use lidi_4d8d19daa.Udp.Receive.{Receive, Answer, count, new, recv, recv_mmsg}
use lidi_4d8d19daa.Udp.Receive.Batches.{packet_size, Delivers, datagrams, recv-Delivers}
use lidi_4d8d19daa.Sockets.{Setup}
use lidi_4d8d19daa.Receive.{Reassembled}
use lidi_4d8d19daa.Receive.Reblock.{State, Event, received, init_state, round, run}
use lidi_4d8d19daa.Receive.Reblock.Run.{IsComplete, run-IsComplete}
use lidi_4d8d19daa.Receive.Reblock.Readable.{IsNonempty, IsReadable}
use lidi_4d8d19daa.Receive.Udp.{Ran, running, set_up, loop, start}

-- The datagrams of each call, as the kernel delivered them.
abbrev pub DeliverEach : Receive → List Answer → List (List (List ℕ)) → Type 0
DeliverEach udp [] [] = Unit {0}
DeliverEach udp [] (ds ∷ dss) = ⊥
DeliverEach udp (a ∷ answers) [] = ⊥
DeliverEach udp (a ∷ answers) (ds ∷ dss) = Delivers udp a ds × DeliverEach udp answers dss

packet_size-new : (mtu : ℕ) (batch : Option ℕ) → packet_size (new mtu batch) ≡ mtu
unfolding new
packet_size-new mtu none = refl
packet_size-new mtu (some n) = ground arith

received-IsNonempty : (d : Datagrams) → 0 < length (datagrams d) → IsNonempty (received d)
received-IsNonempty (single d) h = tt
received-IsNonempty (multiple []) h = absurd (omega (arith, h))
received-IsNonempty (multiple (d ∷ ds)) h = tt

record IsPassed (udp : Receive) (dss : List (List (List ℕ))) (r : Ran) : Type 0 where
  runs : r.status ≡ running
  all : concat (map datagrams r.passed) ≡ map (take (packet_size udp)) (concat dss)
  some_each : All IsNonempty (map received r.passed)

loop_step :
    (udp : Receive) (a : Answer) (answers : List Answer) (d : Datagrams)
    → recv udp a ≡ ok d
    → loop udp (a ∷ answers)
      ≡ record { passed = d ∷ (loop udp answers).passed; status = (loop udp answers).status }
unfolding loop
loop_step udp a answers d e = rw (loop, e) refl

start-loop :
    (nb_packets mtu : ℕ) (batch : Option ℕ) (s : Setup) (answers : List Answer)
    → set_up nb_packets mtu s ≡ ok tt
    → start nb_packets mtu batch s answers ≡ loop (new mtu batch) answers
unfolding start
start-loop nb_packets mtu batch s answers e = rw (start, e) refl

loop-IsPassed :
    (udp : Receive) (answers : List Answer) (dss : List (List (List ℕ)))
    → DeliverEach udp answers dss
    → IsPassed udp dss (loop udp answers)
unfolding loop
loop-IsPassed udp [] [] h = record { runs = refl; all = refl; some_each = tt }
loop-IsPassed udp [] (ds ∷ dss) h = absurd h
loop-IsPassed udp (a ∷ answers) [] h = absurd h
loop-IsPassed udp (a ∷ answers) (ds ∷ dss) (first, more) =
    let (d, e, same, n) = recv-Delivers udp a ds first in
    let v = loop-IsPassed udp answers dss more in
    let step = loop_step udp a answers d e in
    record {
      runs = rw step v.runs;
      all = rw (step, same, v.all) (sym (map-append (take (packet_size udp)) ds (concat dss)));
      some_each = rw step (received-IsNonempty d n, v.some_each);
    }

All-prefix :
    (P : List ℕ → Type 0) (ds more : List (List ℕ)) → All P (ds ++ more) → All P ds × All P more
All-prefix P [] more h = (tt, h)
All-prefix P (d ∷ ds) more (h, hs) =
    let (here, there) = All-prefix P ds more hs in ((h, here), there)

all-IsReadable :
    (x : Extern) (l : List Datagrams)
    → All IsNonempty (map received l)
    → All (λ d. x.deserializes d ≡ true) (concat (map datagrams l))
    → All (IsReadable x) (map received l)
all-IsReadable x [] h readable = tt
all-IsReadable x (single d ∷ l) (h, hs) (first, readable) = (first, all-IsReadable x l hs readable)
all-IsReadable x (multiple [] ∷ l) (h, hs) readable = absurd h
all-IsReadable x (multiple (d ∷ ds) ∷ l) (h, hs) (first, readable) =
    let (here, there) = All-prefix _ ds (concat (map datagrams l)) readable in
    ((first, here), all-IsReadable x l hs there)

-- The minimal number of packets is positive, the worker's socket is set up, every call delivers
-- datagrams as documented, and each, cut to the MTU, has the header that
-- `EncodingPacket::deserialize` reads. Then the worker goes on running, passes on exactly these
-- datagrams in order, each cut to the MTU, and the reblock worker that receives them neither stops
-- nor panics: it sends on whole blocks only, each with at least the minimal number of packets.
pub start-IsComplete :
    (x : Extern) (laws : ExternLaws x) (min nb_packets mtu : ℕ) (batch : Option ℕ) (s : Setup)
    (answers : List Answer) (dss : List (List (List ℕ)))
    → 0 < min
    → set_up nb_packets mtu s ≡ ok tt
    → DeliverEach (new mtu batch) answers dss
    → All (λ d. x.deserializes d ≡ true) (map (take mtu) (concat dss))
    → ((start nb_packets mtu batch s answers).status ≡ running)
      × (concat (map datagrams (start nb_packets mtu batch s answers).passed)
          ≡ map (take mtu) (concat dss))
      × (t : State x) × (outs : List (Reassembled x)) × (run min
            (init_state x)
            (map received (start nb_packets mtu batch s answers).passed)
          ≡ ok (t, outs))
      × All (IsComplete x min) outs
start-IsComplete x laws min nb_packets mtu batch s answers dss pos e h readable =
    let v = loop-IsPassed (new mtu batch) answers dss h in
    let all_passed = v.all ∙ ap (λ n. map (take n) (concat dss)) (packet_size-new mtu batch) in
    let (t, outs, ran, good) =
      run-IsComplete x laws min pos (map received (loop (new mtu batch) answers).passed) (
        all-IsReadable x (loop (new mtu batch) answers).passed v.some_each
          (subst (All (λ d. x.deserializes d ≡ true)) (sym all_passed) readable)) in
    rw (start-loop nb_packets mtu batch s answers e) (v.runs, all_passed, t, outs, ran, good)

none_received :
    (mtu : ℕ) (a : Answer) → a.returned ≡ count 0 → recv (new mtu (some 0)) a ≡ ok (multiple [])
unfolding new recv recv_mmsg
none_received mtu a e = rw (e, le→leb 0 (length a.entries) (omega arith)) refl

run_empty_batch :
    (x : Extern) (min : ℕ) (es : List Event)
    → run min (init_state x) (received (multiple []) ∷ es) ≡ panic
unfolding run round
run_empty_batch x min es = refl

-- With a batch size of 0 and a call that delivers no datagram, as `recvmmsg` then does, the worker
-- passes on an empty batch. If it is the first thing that the reblock worker receives, that worker
-- panics, whatever comes after it.
pub batch_of_none :
    (x : Extern) (min nb_packets mtu : ℕ) (s : Setup) (a : Answer) (answers : List Answer)
    → set_up nb_packets mtu s ≡ ok tt
    → a.returned ≡ count 0
    → run min (init_state x) (map received (start nb_packets mtu (some 0) s (a ∷ answers)).passed)
      ≡ panic
batch_of_none x min nb_packets mtu s a answers e none_came =
    rw
      (
        start-loop nb_packets mtu (some 0) s (a ∷ answers) e,
        loop_step (new mtu (some 0)) a answers (multiple []) (none_received mtu a none_came),
      )
      (run_empty_batch x min (map received (loop (new mtu (some 0)) answers).passed))
