-- ===== src/Send/Udp/Stopping.antt =====
-- What the UDP worker of the sender sends before it returns.
use lidi_4d8d19daa.Common.{
  ℕ, zero, suc, ◌+◌, ◌-◌, ◌%◌, ◌<◌, ◌≡◌, refl, sym, ap, ◌∙◌, List, [], ◌∷◌, ◌++◌, Option, none,
  some, ok, ==_refl, length, concat, concat-append, map, All, arith, leb, if◌then◌else◌,
}
use mathlib.Core.List.{map-append}
use lidi_4d8d19daa.Extern.{Extern}
use lidi_4d8d19daa.Udp.Send.{SendM, msg, mmsg, done, chunks, new, send_each, send}
use lidi_4d8d19daa.Udp.Send.Batches.{AllFull, IsShort, send-All}
use lidi_4d8d19daa.Sockets.{Setup}
use lidi_4d8d19daa.Send.Udp.{
  Message, Ran, Status, receiving, returned, and_then, drain, loop, set_up, start,
}

-- Every call for the datagrams is answered by all that it sends: `sendmsg` by the length of its
-- datagram, `sendmmsg` by the number of its datagrams, which it can describe.
abbrev pub IsAnswered : SendM → List (List ℕ) → List (Option ℕ) → Type 0
IsAnswered msg datagrams answers = AllFull datagrams answers
IsAnswered (mmsg batch_size) datagrams answers =
    (0 < batch_size) × All IsShort datagrams × AllFull (chunks batch_size [] datagrams) answers

send_each_lem :
    (datagrams : List (List ℕ)) (answers : List (Option ℕ))
    → AllFull datagrams answers
    → ((send_each datagrams answers).outcome ≡ done)
      × (concat (send_each datagrams answers).made ≡ datagrams)
unfolding send_each
send_each_lem [] answers h = (refl, refl)
send_each_lem (d ∷ ds) [] h = absurd h
send_each_lem (d ∷ ds) (answer ∷ answers) h =
    let (fine, all) = send_each_lem ds answers h.1 in
    rw (h.0, ==_refl (length d)) (fine, ap (◌∷◌ d) all)

send-IsAnswered :
    (x : Extern) (udp : SendM) (packets : List x.Packet) (answers : List (Option ℕ))
    → IsAnswered udp (map x.serialize_packet packets) answers
    → ((send x udp packets answers).outcome ≡ done)
      × (concat (send x udp packets answers).made ≡ map x.serialize_packet packets)
unfolding send
send-IsAnswered x msg packets answers h = send_each_lem (map x.serialize_packet packets) answers h
send-IsAnswered x (mmsg batch_size) packets answers (pos, short, full) =
    let (fine, all, sizes) = send-All x batch_size packets answers pos short full in (fine, all)

module _ (x : Extern) (udp : SendM) where
  -- All that the worker receives is sent whole.
  abbrev pub AllAnswered : List (Message x) → Type 0
  AllAnswered [] = Unit {0}
  AllAnswered ((none, answers) ∷ messages) = AllAnswered messages
  AllAnswered ((some packets, answers) ∷ messages) =
      IsAnswered udp (map x.serialize_packet packets) answers × AllAnswered messages

-- The number of stop marks.
abbrev pub stops {ℓ} : {A : Type ℓ} → List (Option A × List (Option ℕ)) → ℕ
stops [] = 0
stops ((none, answers) ∷ messages) = suc (stops messages)
stops ((some a, answers) ∷ messages) = stops messages

-- The packets before the stop mark of the given number.
abbrev pub before_stop {ℓ} : {A : Type ℓ} → ℕ → List (Option (List A) × List (Option ℕ)) → List A
before_stop zero messages = []
before_stop (suc n) [] = []
before_stop (suc n) ((some packets, answers) ∷ messages) = packets ++ before_stop (suc n) messages
before_stop (suc n) ((none, answers) ∷ messages) = before_stop n messages

-- What has become of the worker when `n` stop marks end it.
abbrev pub status_after : ℕ → ℕ → Status
status_after n stopped = if leb n stopped then returned else receiving

module _ (x : Extern) (udp : SendM) where
  record HasSent (r : Ran) (packets : List x.Packet) (status : Status) : Type 0 where
    all : concat r.made ≡ map x.serialize_packet packets
    ended : r.status ≡ status

  and_then-HasSent :
      (packets more : List x.Packet) (answers : List (Option ℕ)) (rest : Ran) (status : Status)
      → IsAnswered udp (map x.serialize_packet packets) answers
      → HasSent rest more status
      → HasSent (and_then x (send x udp packets answers) rest) (packets ++ more) status
  unfolding and_then
  and_then-HasSent packets more answers rest status h v =
      let (fine, all) = send-IsAnswered x udp packets answers h in
      record {
        all =
            rw (and_then, fine)
              (concat-append (send x udp packets answers).made rest.made
                ∙ rw (all, v.all) (sym (map-append x.serialize_packet packets more)));
        ended = rw (and_then, fine) v.ended;
      }

  drain-HasSent :
      (n : ℕ) (messages : List (Message x))
      → AllAnswered x udp messages
      → HasSent (drain x udp n messages) (before_stop n messages) (status_after n (stops messages))
  unfolding drain
  drain-HasSent zero messages h = record { all = refl; ended = ground arith }
  drain-HasSent (suc n) [] h = record { all = refl; ended = ground arith }
  drain-HasSent (suc n) ((none, answers) ∷ messages) h =
      let v = drain-HasSent n messages h in record { all = v.all; ended = v.ended ∙ ground arith }
  drain-HasSent (suc n) ((some packets, answers) ∷ messages) h =
      and_then-HasSent packets _ answers _ _ h.0 (drain-HasSent (suc n) messages h.1)

  -- The first stop mark is counted like the others.
  loop-drain :
      (n : ℕ) (messages : List (Message x))
      → n < 255
      → loop x udp (suc n) messages ≡ drain x udp (suc n) messages
  unfolding loop drain
  loop-drain n [] h = refl
  loop-drain n ((none, answers) ∷ messages) h =
      let same : (suc n + 256 - 1) % 256 ≡ n = omega arith in rw same refl
  loop-drain n ((some packets, answers) ∷ messages) h = rw (loop-drain n messages h) refl

start-loop :
    (x : Extern) (nb_packets mtu : ℕ) (batch : Option ℕ) (nb : ℕ) (s : Setup)
    (messages : List (Message x))
    → set_up nb_packets mtu s ≡ ok tt
    → start x nb_packets mtu batch nb s messages ≡ loop x (new batch) nb messages
unfolding start
start-loop x nb_packets mtu batch nb s messages e = rw (start, e) refl

-- The worker's socket is set up, there are 1 to 255 encoding workers, and every call of the kernel
-- for a received packet list sends it whole. Then the worker sends the packets that it receives
-- before the stop mark numbered as there are encoding workers, all of them in order, and returns if
-- that many stop marks come; with fewer it goes on waiting.
pub start-before_stop :
    (x : Extern) (nb_packets mtu : ℕ) (batch : Option ℕ) (nb : ℕ) (s : Setup)
    (messages : List (Message x))
    → 0 < nb
    → nb < 256
    → set_up nb_packets mtu s ≡ ok tt
    → AllAnswered x (new batch) messages
    → (concat (start x nb_packets mtu batch nb s messages).made
        ≡ map x.serialize_packet (before_stop nb messages))
      × ((start x nb_packets mtu batch nb s messages).status ≡ status_after nb (stops messages))
start-before_stop x nb_packets mtu batch zero s messages pos few e h = absurd (omega (arith, pos))
start-before_stop x nb_packets mtu batch (suc n) s messages pos few e h =
    let v = drain-HasSent x (new batch) (suc n) messages h in
    let same =
      start-loop x nb_packets mtu batch (suc n) s messages e
      ∙ loop-drain x (new batch) n messages (omega arith) in
    rw same (v.all, v.ended)
