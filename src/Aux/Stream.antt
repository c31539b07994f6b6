-- ===== src/Aux/Stream.antt =====
-- Byte streams of the file and UDP programs. Writing to a stream is appending to a list of bytes.
use lidi_4d8d19daa.Common.{
  ℕ, ◌<◌, ◌≡◌, List, ◌++◌, Result, ok, err, IoError, unexpected_eof, ltb, if◌then◌else◌, length,
  take, drop, length-append, take-append, drop-append, lt→ltb, arith,
}

-- `Read::read_exact` into a buffer of `n` bytes.
unfoldable pub read_exact : ℕ → List ℕ → Result IoError (List ℕ × List ℕ)
read_exact n stream =
    if ltb (length stream) n then err unexpected_eof else ok (take n stream, drop n stream)

pub read_exact-append :
    (front back : List ℕ) → read_exact (length front) (front ++ back) ≡ ok (front, back)
unfolding read_exact
read_exact-append front back =
    rw (take-append front back, drop-append front back) (ground (arith, length-append front back))

pub read_exact_short :
    (n : ℕ) (stream : List ℕ) → length stream < n → read_exact n stream ≡ err unexpected_eof
unfolding read_exact
read_exact_short n stream h = rw (lt→ltb (length stream) n h)
