-- ===== src/Aux/Udp/Programs/Passed.antt =====
-- diode-send-udp and diode-receive-udp, with the buffers that they have.
use lidi_4d8d19daa.Common.{
  ℕ, suc, ◌^◌, ◌≤◌, ◌<◌, ◌≡◌, refl, ap, ◌∙◌, List, [], ◌∷◌, none, some, true, Result, IoError, sym,
  ok, String, unexpected_eof, length, length-append, map, All, arith, le→leb,
}
use lidi_4d8d19daa.Aux.{tcp}
use lidi_4d8d19daa.Aux.Udp.{Sent, stopped, serialize, send_udp_aux}
use lidi_4d8d19daa.Aux.Udp.RoundTrip.{deliverable, receive_udp-send_udp_aux}
use lidi_4d8d19daa.Aux.Udp.Programs.{
  World, Connection, System, served, SendArgs, ReceiveArgs, buffer_size, send, receive_connection,
  accept_loop, after_client, receive_tcp, receive, destination, main_send, main_receive,
}

-- What the buffer of the programs holds is all sent on.
deliverable_all :
    (ds : List (List ℕ))
    → All (λ d. length d ≤ buffer_size) ds
    → deliverable buffer_size ds ≡ record { datagrams = ds; status = stopped unexpected_eof }
deliverable_all [] h = refl
deliverable_all (d ∷ ds) (fits, more) =
    rw (le→leb (length d) buffer_size fits, deliverable_all ds more) refl

short :
    (ds : List (List ℕ)) → All (λ d. length d ≤ buffer_size) ds → All (λ d. length d < 2 ^ 64) ds
short [] h = tt
short (d ∷ ds) (fits, more) = (omega (arith, fits), short ds more)

-- Each datagram takes at least the 8 bytes of its header.
enough_bytes : (ds : List (List ℕ)) → length ds ≤ length (send_udp_aux (map ok ds)).bytes
unfolding send_udp_aux serialize
enough_bytes [] = omega arith
enough_bytes (d ∷ ds) =
    omega (arith, enough_bytes ds, length-append d (send_udp_aux (map ok ds)).bytes)

receive_connection-sent :
    (ds : List (List ℕ))
    → All (λ d. length d ≤ buffer_size) ds
    → receive_connection buffer_size
        (record { bind = none; stream = (send_udp_aux (map ok ds)).bytes })
      ≡ record { datagrams = ds; status = stopped unexpected_eof }
unfolding receive_connection
receive_connection-sent ds h =
    receive_udp-send_udp_aux (suc (length (send_udp_aux (map ok ds)).bytes)) buffer_size ds
      (short ds h) (omega (arith, enough_bytes ds))
    ∙ deliverable_all ds h

main_send-tcp :
    (w : World) (args : SendArgs) (to_tcp : String) (ds : List (List ℕ))
    → args.to_tcp ≡ some to_tcp
    → w.connect (tcp to_tcp) ≡ none
    → w.bind ≡ none
    → w.datagrams ≡ map ok ds
    → main_send w true args ≡ ok (some (send_udp_aux (map ok ds)))
unfolding main_send destination send
main_send-tcp w args to_tcp ds to up bound come =
    rw (to, up, bound, come, main_send, destination, send) refl

accept_loop-next :
    (client : Connection) (more : List (Result IoError Connection)) (ds : List (List ℕ))
    (e : IoError)
    → receive_connection buffer_size client ≡ record { datagrams = ds; status = stopped e }
    → accept_loop buffer_size (ok client ∷ more) ≡ record (accept_loop buffer_size more) {
      received =
          record { datagrams = ds; status = stopped e } ∷ (accept_loop buffer_size more).received;
    }
unfolding accept_loop
accept_loop-next client more ds e same =
    ap (λ r. after_client r (accept_loop buffer_size more)) same

main_receive-tcp :
    (sys : System) (args : ReceiveArgs) (from_tcp : String)
    → args.from_unix ≡ none
    → args.from_tcp ≡ some from_tcp
    → sys.bind_tcp from_tcp ≡ none
    → main_receive sys true args ≡ some (served (accept_loop buffer_size sys.tcp_clients))
unfolding main_receive receive receive_tcp
main_receive-tcp sys args from_tcp no_unix from bound =
    rw (no_unix, from, bound, main_receive, receive, receive_tcp) refl

-- diode-send-udp writes to its TCP connection; a client of diode-receive-udp that brings exactly these
-- bytes and then ends makes it send on the same datagrams, in order and with the same bounds, and
-- go on with the next client. A datagram has at most 65535 bytes, the size of both buffers.
pub main_receive-main_send :
    (w : World) (args : SendArgs) (args' : ReceiveArgs) (sys : System) (to_tcp from_tcp : String)
    (sent : Sent) (datagrams : List (List ℕ)) (more : List (Result IoError Connection))
    → args.to_tcp ≡ some to_tcp
    → w.connect (tcp to_tcp) ≡ none
    → w.bind ≡ none
    → w.datagrams ≡ map ok datagrams
    → All (λ d. length d ≤ buffer_size) datagrams
    → main_send w true args ≡ ok (some sent)
    → args'.from_unix ≡ none
    → args'.from_tcp ≡ some from_tcp
    → sys.bind_tcp from_tcp ≡ none
    → sys.tcp_clients ≡ ok (record { bind = none; stream = sent.bytes }) ∷ more
    → main_receive sys true args'
      ≡ some (
          served (record (accept_loop buffer_size more) {
            received =
                record { datagrams = datagrams; status = stopped unexpected_eof }
                ∷ (accept_loop buffer_size more).received;
          }))
main_receive-main_send w args args' sys to_tcp from_tcp sent ds more to up bound come fits ran
      no_unix from bound' clients =
    let same : send_udp_aux (map ok ds) ≡ sent =
      cc (main_send-tcp w args to_tcp ds to up bound come, ran) in
    let one = receive_connection-sent ds fits in
    main_receive-tcp sys args' from_tcp no_unix from bound'
    ∙ ap (λ l. some (served (accept_loop buffer_size l))) clients
    ∙ ap (λ l. some (served l))
        (accept_loop-next (record { bind = none; stream = sent.bytes }) more ds unexpected_eof
          (ap
              (λ (s : Sent).
                receive_connection buffer_size (record { bind = none; stream = s.bytes }))
              (sym same)
            ∙ one))
