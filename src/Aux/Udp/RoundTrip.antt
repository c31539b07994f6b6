-- ===== src/Aux/Udp/RoundTrip.antt =====
-- What the receiving UDP program makes of the bytes of the sending one.
use lidi_4d8d19daa.Common.{
  ℕ, zero, suc, ◌^◌, ◌<◌, ◌≡◌, refl, List, [], ◌∷◌, ◌++◌, ok, err, panic, unexpected_eof, leb,
  if◌then◌else◌, length, map, All, arith, Bool-cases, inl, inr,
}
use lidi_4d8d19daa.Common.Bytes.{to_le_bytes, from_le_bytes-to_le_bytes}
use lidi_4d8d19daa.Aux.Stream.{read_exact, read_exact-append}
use lidi_4d8d19daa.Aux.Udp.{
  Received, stopped, panicked, serialize, deserialize, send_udp_aux, receive_one, receive_udp,
}

receive_one-send :
    (buffer_size : ℕ) (datagram rest : List ℕ)
    → length datagram < 2 ^ 64
    → receive_one buffer_size (serialize (record { size = length datagram }) ++ (datagram ++ rest))
      ≡ (if leb (length datagram) buffer_size then ok (datagram, rest) else panic)
unfolding receive_one deserialize serialize
receive_one-send buffer_size datagram rest h =
    rw
      (
        read_exact-append (to_le_bytes 8 (length datagram)),
        from_le_bytes-to_le_bytes 8 (length datagram) (omega arith),
        read_exact-append datagram,
      )
      refl

receive_one-nil : (buffer_size : ℕ) → receive_one buffer_size [] ≡ err unexpected_eof
unfolding receive_one deserialize read_exact
receive_one-nil buffer_size = refl

-- The datagrams that the receiving program sends on: up to the first one its buffer cannot hold.
abbrev pub deliverable : ℕ → List (List ℕ) → Received
deliverable buffer_size [] = record { datagrams = []; status = stopped unexpected_eof }
deliverable buffer_size (d ∷ ds) =
    let more : Received = deliverable buffer_size ds in
    if leb (length d) buffer_size
    then record more { datagrams = d ∷ more.datagrams }
    else record { datagrams = []; status = panicked }

-- When the receiving program reads all the bytes that the sending program wrote for some
-- datagrams, each shorter than 2^64, and then the end of the stream, it sends on the same
-- datagrams, in order and with the same bounds, up to the first one that is longer than its own
-- buffer, at which it panics; one round for each datagram and one for the end are enough.
pub receive_udp-send_udp_aux :
    (fuel buffer_size : ℕ) (datagrams : List (List ℕ))
    → All (λ d. length d < 2 ^ 64) datagrams
    → length datagrams < fuel
    → receive_udp fuel buffer_size (send_udp_aux (map ok datagrams)).bytes
      ≡ deliverable buffer_size datagrams
unfolding receive_udp send_udp_aux
receive_udp-send_udp_aux zero buffer_size ds h enough = absurd (omega arith)
receive_udp-send_udp_aux (suc fuel) buffer_size [] h enough =
    rw (receive_one-nil buffer_size, receive_udp) refl
receive_udp-send_udp_aux (suc fuel) buffer_size (d ∷ ds) h enough =
    rw (receive_one-send buffer_size d (send_udp_aux (map ok ds)).bytes h.0, receive_udp)
      (elim (Bool-cases (leb (length d) buffer_size)) [
        | inl e ↦ rw (e, receive_udp-send_udp_aux fuel buffer_size ds h.1 (omega arith)) refl
        | inr e ↦ rw e refl
      ])
