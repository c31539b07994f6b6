-- ===== src/Aux/Udp/Programs/Fuel.antt =====
-- `receive_connection` has enough fuel: every round takes the 8 bytes of a header at least.
use lidi_4d8d19daa.Common.{
  ℕ, zero, suc, ◌+◌, ◌-◌, ◌≤◌, ◌<◌, ◌≡◌, ◌≢◌, sym, ap, ◌∙◌, inl, inr, List, ok, ltb, leb, length,
  drop, length-drop, arith, Bool-cases, Result-cases, Option-cases, bind_ok,
}
use lidi_4d8d19daa.Aux.Stream.{read_exact}
use lidi_4d8d19daa.Aux.Udp.{running, deserialize, receive_one, receive_udp}
use lidi_4d8d19daa.Aux.Udp.Programs.{Connection, receive_connection}

read_exact-rest :
    (n : ℕ) (stream front rest : List ℕ)
    → read_exact n stream ≡ ok (front, rest)
    → length rest + n ≡ length stream
unfolding read_exact
read_exact-rest n stream front rest e = elim (Bool-cases (ltb (length stream) n)) [
  | inl short ↦ cc (rw short at e)
  | inr enough ↦
      let same : drop n stream ≡ rest = cc (rw enough at e) in
      let size : length rest ≡ length stream - n = ap length (sym same) ∙ length-drop n stream in
      ground (arith, size)
]

receive_one-shorter :
    (buffer_size : ℕ) (stream datagram rest : List ℕ)
    → receive_one buffer_size stream ≡ ok (datagram, rest)
    → length rest + 8 ≤ length stream
unfolding receive_one deserialize
receive_one-shorter buffer_size stream datagram rest e =
    let ((header, more), e1, e2) = bind_ok (deserialize stream) _ (datagram, rest) e in
    let ((size, more'), e3, e4) = bind_ok (read_exact 8 stream) _ (header, more) e1 in
    let same : more' ≡ more = cc e4 in
    let first = read_exact-rest 8 stream size more' e3 in
    elim (Bool-cases (leb header.size buffer_size)) [
      | inl fits ↦
          let second = read_exact-rest header.size more datagram rest (rw fits at e2) in
          omega (arith, first, second, ap length same)
      | inr large ↦ cc (rw large at e2)
    ]

receive_udp-ends :
    (fuel buffer_size : ℕ) (stream : List ℕ)
    → length stream < fuel
    → (receive_udp fuel buffer_size stream).status ≢ running
unfolding receive_udp
receive_udp-ends zero buffer_size stream h = absurd (omega (arith, h))
receive_udp-ends (suc fuel) buffer_size stream h =
    elim (Result-cases (receive_one buffer_size stream)) [
      | inl ((datagram, rest), e) ↦
          rw (e, receive_udp)
            (receive_udp-ends fuel buffer_size rest
              (omega (arith, h, receive_one-shorter buffer_size stream datagram rest e)))
      | inr (inl (k, e)) ↦ rw (e, receive_udp) (λ same. cc)
      | inr (inr e) ↦ rw (e, receive_udp) (λ same. cc)
    ]

-- Serving a client ends, with an error or a panic.
pub receive_connection-ends :
    (buffer_size : ℕ) (client : Connection)
    → (receive_connection buffer_size client).status ≢ running
unfolding receive_connection
receive_connection-ends buffer_size client = elim (Option-cases client.bind) [
  | inl bound ↦
      rw (bound, receive_connection)
        (receive_udp-ends (suc (length client.stream)) buffer_size client.stream (omega arith))
  | inr (k, refused) ↦ rw (refused, receive_connection) (λ same. cc)
]
