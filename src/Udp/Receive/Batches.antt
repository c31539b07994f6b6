-- ===== src/Udp/Receive/Batches.antt =====
-- What `recv` makes of the datagrams that the kernel delivers.
use Prim.Native.Nat.{min}
use lidi_4d8d19daa.Common.{
  ℕ, ◌≤◌, ◌<◌, ◌≡◌, refl, ◌∙◌, ap, List, [], ◌∷◌, ok, le→leb, length, length-map, take, map, arith,
}
use lidi_4d8d19daa.Udp.{Datagrams, single, multiple}
use lidi_4d8d19daa.Udp.Receive.{
  Receive, msg, mmsg, Answer, count, slice, slices, recv_msg, recv_mmsg, recv,
}

abbrev pub packet_size : Receive → ℕ
packet_size (msg size) = size
packet_size (mmsg size batch) = size

-- An entry whose buffer of `size` bytes starts with the datagram, cut to that size.
pub record Holds (size : ℕ) (entry : ℕ × List ℕ) (datagram : List ℕ) : Type 0 where
  pub sized : length entry.1 ≡ size
  pub counted : entry.0 ≡ min (length datagram) size
  pub filled : take (min (length datagram) size) entry.1 ≡ take size datagram

-- The first entries hold the datagrams, one each.
abbrev pub HoldEach : ℕ → List (ℕ × List ℕ) → List (List ℕ) → Type 0
HoldEach size entries [] = Unit {0}
HoldEach size [] (d ∷ ds) = ⊥
HoldEach size (e ∷ entries) (d ∷ ds) = Holds size e d × HoldEach size entries ds

-- What the system calls promise when datagrams have arrived: `recvmsg` takes one of them, and
-- `recvmmsg` at least one and at most the batch.
abbrev pub Delivers : Receive → Answer → List (List ℕ) → Type 0
Delivers (msg size) a ds =
    (d : List ℕ) × (ds ≡ d ∷ [])
    × (a.returned ≡ count (min (length d) size))
    × HoldEach size a.entries (d ∷ [])
Delivers (mmsg size batch) a ds =
    (0 < length ds)
    × (length ds ≤ batch)
    × (length a.entries ≡ batch)
    × (a.returned ≡ count (length ds))
    × HoldEach size a.entries ds

-- The datagrams of a result.
abbrev pub datagrams : Datagrams → List (List ℕ)
datagrams (single d) = d ∷ []
datagrams (multiple ds) = ds

slice-Holds :
    (size : ℕ) (entry : ℕ × List ℕ) (d : List ℕ)
    → Holds size entry d
    → slice (min (length d) size) entry.1 ≡ ok (take size d)
slice-Holds size entry d h =
    rw (le→leb (min (length d) size) (length entry.1) (omega (arith, h.sized)), h.filled) refl

slices-HoldEach :
    (size : ℕ) (entries : List (ℕ × List ℕ)) (ds : List (List ℕ))
    → HoldEach size entries ds
    → slices (take (length ds) entries) ≡ ok (map (take size) ds)
unfolding slices
slices-HoldEach size entries [] h = refl
slices-HoldEach size [] (d ∷ ds) h = absurd h
slices-HoldEach size (entry ∷ entries) (d ∷ ds) (v, h) =
    rw (v.counted, slice-Holds size entry d v, slices-HoldEach size entries ds h) refl

recv_msg-Holds :
    (size : ℕ) (entries : List (ℕ × List ℕ)) (d : List ℕ)
    → HoldEach size entries (d ∷ [])
    → recv_msg (count (min (length d) size)) entries ≡ ok (single (take size d))
unfolding recv_msg
recv_msg-Holds size [] d h = absurd h
recv_msg-Holds size (entry ∷ entries) d (v, h) = rw (slice-Holds size entry d v) refl

recv_mmsg-HoldEach :
    (size : ℕ) (entries : List (ℕ × List ℕ)) (ds : List (List ℕ))
    → length ds ≤ length entries
    → HoldEach size entries ds
    → recv_mmsg (count (length ds)) entries ≡ ok (multiple (map (take size) ds))
unfolding recv_mmsg
recv_mmsg-HoldEach size entries ds few h =
    rw (le→leb (length ds) (length entries) few, slices-HoldEach size entries ds h) refl

-- A call that delivers datagrams as documented returns exactly these, in order, each cut to the
-- size of its buffer, and at least one; it neither fails nor panics.
pub recv-Delivers :
    (r : Receive) (a : Answer) (ds : List (List ℕ))
    → Delivers r a ds
    → (d : Datagrams) × (recv r a ≡ ok d)
      × (datagrams d ≡ map (take (packet_size r)) ds)
      × (0 < length (datagrams d))
unfolding recv
recv-Delivers (msg size) a ds (d, one, e, h) = (
  single (take size d),
  ap (λ c. recv_msg c a.entries) e ∙ recv_msg-Holds size a.entries d h,
  rw one refl,
  omega arith,
)
recv-Delivers (mmsg size batch) a ds (some_ds, few, full, e, h) = (
  multiple (map (take size) ds),
  ap (λ c. recv_mmsg c a.entries) e ∙ recv_mmsg-HoldEach size a.entries ds (omega (arith, full)) h,
  refl,
  omega (arith, length-map (take size) ds),
)
