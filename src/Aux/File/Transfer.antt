-- ===== src/Aux/File/Transfer.antt =====
-- A file that one program sends and the other receives.
use lidi_4d8d19daa.Common.{
  ℕ, zero, suc, ◌+◌, ◌-◌, ◌≤◌, ◌<◌, ◌≡◌, refl, ◌∙◌, ap, sym, List, [], ◌∷◌, ◌++◌, Option, none, inl,
  inr, ltb, ◌==◌, length, take, drop, length-append, length-take, length-drop, take-append-drop,
  append_assoc, append-nil, nil_of_length, arith, Bool-cases,
}
use mathlib.Core.Path.{subst}
use Prim.Native.Nat.{min}
use lidi_4d8d19daa.Common.Reader.{Wait, ready, fault, read_size, AllReady, AllReady-mono}
use lidi_4d8d19daa.Aux.File.{Library, Config}
use lidi_4d8d19daa.Aux.File.Header.{serialize_footer}
use lidi_4d8d19daa.Aux.File.Send.{Sent, done, writes, on_hash, footer_hash, finish_send, send_loop}
use lidi_4d8d19daa.Aux.File.Receive.{
  Received, stores, check_footer, finish_receive, window, receive_loop,
}
use lidi_4d8d19daa.Aux.File.Digest.{digest, digest_more, digest_full}

module _ (lib : Library) (c : Config) where
  -- What the sending loop writes and returns.
  abbrev pub sent_whole : List ℕ → List ℕ → Option lib.Hash → ℕ → Sent
  sent_whole content filled hasher total = record {
    bytes =
        filled
        ++ (content
            ++ serialize_footer (record {
              hash = footer_hash lib c (digest lib c.buffer_size hasher filled content);
            }));
    progress = done (total + length filled + length content);
  }

  finish_send_lem :
      (filled : List ℕ) (hasher : Option lib.Hash) (total : ℕ)
      → finish_send lib c filled hasher total ≡ sent_whole [] filled hasher total
  unfolding finish_send digest
  finish_send_lem [] hasher total =
      let counted : total + 0 + 0 ≡ total = omega arith in
      rw (append-nil (serialize_footer (record { hash = footer_hash lib c hasher })), counted) refl
  finish_send_lem (byte ∷ bytes) hasher total =
      let hasher : Option lib.Hash = on_hash (lib.write (byte ∷ bytes)) hasher in
      let counted : total + suc (length bytes) + 0 ≡ total + suc (length bytes) = omega arith in
      rw (append-nil (serialize_footer (record { hash = footer_hash lib c hasher })), counted) refl

  module _ (filled got rest : List ℕ) (hasher : Option lib.Hash) (total : ℕ) where
    sent_more :
        length filled + length got < c.buffer_size
        → sent_whole rest (filled ++ got) hasher total
          ≡ sent_whole (got ++ rest) filled hasher total
    sent_more h =
        let counted : total + length (filled ++ got) + length rest
            ≡ total + length filled + length (got ++ rest) =
          omega (arith, length-append filled got, length-append got rest) in
        rw
          (
            digest_more lib c.buffer_size hasher filled got rest h,
            append_assoc filled got,
            append_assoc got rest,
            counted,
          )
          refl

    sent_full :
        length filled + length got ≡ c.buffer_size
        → 0 < length got
        → writes (filled ++ got) (
            sent_whole rest []
              (on_hash (lib.hash_vec (filled ++ got)) hasher)
              (total + c.buffer_size))
          ≡ sent_whole (got ++ rest) filled hasher total
    sent_full h some_got =
        let counted : total + c.buffer_size + 0 + length rest
            ≡ total + length filled + length (got ++ rest) =
          omega (arith, length-append got rest) in
        rw
          (
            digest_full lib c.buffer_size hasher filled got rest h some_got,
            append_assoc filled got,
            append_assoc got rest,
            counted,
          )
          refl

  pub send_loop_lem :
      (ws : List Wait) (content filled : List ℕ) (hasher : Option lib.Hash) (total : ℕ)
      → length filled < c.buffer_size
      → AllReady (suc (length content)) ws
      → send_loop lib c ws content filled hasher total ≡ sent_whole content filled hasher total
  unfolding send_loop
  send_loop_lem [] content filled hasher total h a = absurd a
  send_loop_lem (fault e ∷ ws) content filled hasher total h a = absurd a
  send_loop_lem (ready n ∷ ws) content filled hasher total h a =
      elim (Bool-cases (length got == 0)) [
        | inl at_end ↦ rw at_end (
            subst
              (λ bytes.
                finish_send lib c filled hasher total ≡ sent_whole bytes filled hasher total)
              (sym (nil_of_length content (ground (arith, got_length))))
              (finish_send_lem filled hasher total))
        | inr some_got ↦
            rw some_got (elim (Bool-cases (ltb (length filled + length got) c.buffer_size)) [
              | inl room ↦ rw room (
                  subst
                    (λ bytes.
                      send_loop lib c ws rest (filled ++ got) hasher total
                      ≡ sent_whole bytes filled hasher total)
                    whole
                    (send_loop_lem ws rest (filled ++ got) hasher total
                        (ground (arith, length-append filled got))
                        (AllReady-mono (suc (length rest)) (length content) ws
                          (ground (arith, got_length, rest_length)) a)
                      ∙ sent_more filled got rest hasher total (ground arith)))
              | inr full ↦ rw full (
                  subst
                    (λ bytes.
                      writes (filled ++ got) (
                        send_loop lib c ws rest [] (on_hash (lib.hash_vec (filled ++ got)) hasher)
                          (total + c.buffer_size))
                      ≡ sent_whole bytes filled hasher total)
                    whole
                    (ap (writes (filled ++ got)) (
                        send_loop_lem ws rest [] (on_hash (lib.hash_vec (filled ++ got)) hasher)
                          (total + c.buffer_size) (omega arith)
                          (AllReady-mono (suc (length rest)) (length content) ws
                            (ground (arith, got_length, rest_length)) a))
                      ∙ sent_full filled got rest hasher total (ground (arith, got_length))
                          (ground arith)))
            ])
      ]
    where
      size : ℕ
      size = read_size (c.buffer_size - length filled) n

      got : List ℕ
      got = take size content

      rest : List ℕ
      rest = drop size content

      got_length : length got ≡ min size (length content)
      got_length = length-take size content

      rest_length : length rest ≡ length content - size
      rest_length = length-drop size content

      whole : got ++ rest ≡ content
      whole = take-append-drop size content

  -- What the receiving loop makes of the content of the file and what follows it in the stream.
  abbrev received_whole : List ℕ → List ℕ → List ℕ → ℕ → Option lib.Hash → Received
  received_whole content tail filled file_length hasher = record {
    created = none;
    written = filled ++ content;
    progress =
        check_footer lib c tail file_length 0 (digest lib c.buffer_size hasher filled content);
  }

  finish_receive_lem :
      (tail filled : List ℕ) (file_length : ℕ) (hasher : Option lib.Hash)
      → finish_receive lib c tail filled file_length 0 hasher
        ≡ received_whole [] tail filled file_length hasher
  unfolding finish_receive digest
  finish_receive_lem tail [] file_length hasher = refl
  finish_receive_lem tail (byte ∷ bytes) file_length hasher = refl

  window_lem :
      (cursor remaining : ℕ)
      → window lib c cursor remaining ≡ min (c.buffer_size - cursor) remaining
  window_lem cursor remaining = ground arith

  received_more :
      (filled got rest tail : List ℕ) (file_length : ℕ) (hasher : Option lib.Hash)
      → length filled + length got < c.buffer_size
      → received_whole rest tail (filled ++ got) file_length hasher
        ≡ received_whole (got ++ rest) tail filled file_length hasher
  received_more filled got rest tail file_length hasher h =
      rw (digest_more lib c.buffer_size hasher filled got rest h, append_assoc filled got) refl

  received_full :
      (filled got rest tail : List ℕ) (file_length : ℕ) (hasher : Option lib.Hash)
      → length filled + length got ≡ c.buffer_size
      → 0 < length got
      → stores
          (filled ++ got)
          (received_whole rest tail [] file_length (on_hash (lib.hash_vec (filled ++ got)) hasher))
        ≡ received_whole (got ++ rest) tail filled file_length hasher
  received_full filled got rest tail file_length hasher h some_got =
      rw (digest_full lib c.buffer_size hasher filled got rest h some_got, append_assoc filled got)
        refl

  -- A read of at most the length of the content takes nothing from what follows.
  take-left :
      (n : ℕ) (content tail : List ℕ)
      → n ≤ length content
      → take n (content ++ tail) ≡ take n content
  take-left zero content tail h = refl
  take-left (suc n) [] tail h = absurd (omega arith)
  take-left (suc n) (byte ∷ content) tail h = ap (◌∷◌ byte) (take-left n content tail (omega arith))

  drop-left :
      (n : ℕ) (content tail : List ℕ)
      → n ≤ length content
      → drop n (content ++ tail) ≡ drop n content ++ tail
  drop-left zero content tail h = refl
  drop-left (suc n) [] tail h = absurd (omega arith)
  drop-left (suc n) (byte ∷ content) tail h = drop-left n content tail (omega arith)

  pub receive_loop_lem :
      (ws : List Wait) (content tail filled : List ℕ) (file_length : ℕ) (hasher : Option lib.Hash)
      → length filled < c.buffer_size
      → AllReady (suc (length content)) ws
      → receive_loop lib c ws (content ++ tail) filled file_length (length content) hasher
        ≡ received_whole content tail filled file_length hasher
  unfolding receive_loop
  receive_loop_lem [] content tail filled file_length hasher h a = absurd a
  receive_loop_lem (fault e ∷ ws) content tail filled file_length hasher h a = absurd a
  receive_loop_lem (ready n ∷ ws) content tail filled file_length hasher h a =
      rw (take-left size content tail inside, drop-left size content tail inside)
        (elim (Bool-cases (length got == 0)) [
          | inl at_end ↦ rw at_end (
              subst
                (λ bytes.
                  finish_receive lib c (bytes ++ tail) filled file_length (length bytes) hasher
                  ≡ received_whole bytes tail filled file_length hasher)
                (sym (nil_of_length content (ended (ground arith))))
                (finish_receive_lem tail filled file_length hasher))
          | inr some_got ↦
              rw some_got (elim (Bool-cases (ltb (length filled + length got) c.buffer_size)) [
                | inl room ↦ rw room (
                    subst
                      (λ bytes.
                        receive_loop lib c ws (rest ++ tail) (filled ++ got) file_length
                          (length content - length got) hasher
                        ≡ received_whole bytes tail filled file_length hasher)
                      whole
                      (rw left (
                          receive_loop_lem ws rest tail (filled ++ got) file_length hasher
                            (ground (arith, length-append filled got))
                            (AllReady-mono (suc (length rest)) (length content) ws
                              (ground (arith, got_length, rest_length, inside)) a))
                        ∙ received_more filled got rest tail file_length hasher (ground arith)))
                | inr full ↦ rw full (
                    subst
                      (λ bytes.
                        stores (filled ++ got) (
                          receive_loop lib c ws (rest ++ tail) [] file_length
                            (length content - length got)
                            (on_hash (lib.hash_vec (filled ++ got)) hasher))
                        ≡ received_whole bytes tail filled file_length hasher)
                      whole
                      (ap (stores (filled ++ got)) (
                          rw left (
                            receive_loop_lem ws rest tail [] file_length
                              (on_hash (lib.hash_vec (filled ++ got)) hasher) (omega arith)
                              (AllReady-mono (suc (length rest)) (length content) ws
                                (ground (arith, got_length, rest_length, inside)) a)))
                        ∙ received_full filled got rest tail file_length hasher
                            (ground
                              (arith, got_length, window_lem (length filled) (length content)))
                            (ground arith)))
              ])
        ])
    where
      size : ℕ
      size = read_size (window lib c (length filled) (length content)) n

      got : List ℕ
      got = take size content

      rest : List ℕ
      rest = drop size content

      inside : size ≤ length content
      inside = omega (arith, window_lem (length filled) (length content))

      got_length : length got ≡ size
      got_length = length-take size content ∙ omega (arith, inside)

      rest_length : length rest ≡ length content - size
      rest_length = length-drop size content

      left : length content - length got ≡ length rest
      left = omega (arith, got_length, rest_length)

      ended : length got ≡ 0 → length content ≡ 0
      ended e = omega (arith, got_length, window_lem (length filled) (length content))

      whole : got ++ rest ≡ content
      whole = take-append-drop size content
