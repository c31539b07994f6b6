-- ===== src/Aux/File/Digest.antt =====
-- The hash that the file programs compute with a buffer of a given size: each full buffer goes to
-- the hasher through `Vec::hash`, and the bytes that are left at the end through `write`.
use lidi_4d8d19daa.Common.{
  ℕ, ◌+◌, ◌<◌, ◌≡◌, refl, ◌∙◌, List, [], ◌∷◌, ◌++◌, Option, inl, inr, ltb, if◌then◌else◌, length,
  length-append, append_assoc, append-nil, arith, Bool-cases, lt→ltb,
}
use lidi_4d8d19daa.Aux.File.{Library}
use lidi_4d8d19daa.Aux.File.Send.{on_hash}

module _ (lib : Library) (size : ℕ) where
  abbrev pub digest_end : Option lib.Hash → List ℕ → Option lib.Hash
  digest_end hasher [] = hasher
  digest_end hasher (byte ∷ bytes) = on_hash (lib.write (byte ∷ bytes)) hasher

  -- `filled` is what the buffer holds, and the list is what follows.
  unfoldable pub digest : Option lib.Hash → List ℕ → List ℕ → Option lib.Hash
  digest hasher filled [] = digest_end hasher filled
  digest hasher filled (byte ∷ bytes) =
      let more : Option lib.Hash = digest hasher (filled ++ byte ∷ []) bytes in
      let next : Option lib.Hash =
        digest (on_hash (lib.hash_vec (filled ++ byte ∷ [])) hasher) [] bytes in
      if ltb (length filled + 1) size then more else next

  pub digest_more :
      (hasher : Option lib.Hash) (filled got rest : List ℕ)
      → length filled + length got < size
      → digest hasher filled (got ++ rest) ≡ digest hasher (filled ++ got) rest
  unfolding digest
  digest_more hasher filled [] rest h = rw (append-nil filled) refl
  digest_more hasher filled (byte ∷ got) rest h =
      let joined = length-append filled (byte ∷ []) in
      rw (lt→ltb (length filled + 1) size (omega arith)) (
        digest_more hasher (filled ++ byte ∷ []) got rest (omega (arith, joined))
        ∙ rw (append_assoc filled (byte ∷ []) got) refl)

  pub digest_full :
      (hasher : Option lib.Hash) (filled got rest : List ℕ)
      → length filled + length got ≡ size
      → 0 < length got
      → digest hasher filled (got ++ rest)
        ≡ digest (on_hash (lib.hash_vec (filled ++ got)) hasher) [] rest
  unfolding digest
  digest_full hasher filled [] rest h some_got = absurd (omega arith)
  digest_full hasher filled (byte ∷ []) rest h some_got =
      elim (Bool-cases (ltb (length filled + 1) size)) [
        | inl e ↦ absurd (ground arith)
        | inr e ↦ rw e refl
      ]
  digest_full hasher filled (byte ∷ b ∷ got) rest h some_got =
      let joined = length-append filled (byte ∷ []) in
      rw (lt→ltb (length filled + 1) size (omega arith)) (
        digest_full hasher (filled ++ byte ∷ []) (b ∷ got) rest (omega (arith, joined))
          (omega arith)
        ∙ rw (append_assoc filled (byte ∷ []) (b ∷ got)) refl)
