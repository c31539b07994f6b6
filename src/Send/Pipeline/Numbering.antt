-- ===== src/Send/Pipeline/Numbering.antt =====
-- The numbers that the ordering worker gives to blocks, modulo 256.
use lidi_4d8d19daa.Common.{
  ℕ, suc, ◌+◌, ◌%◌, ◌≡◌, refl, ap, List, [], ◌∷◌, ◌++◌, Option, none, some, length, arith,
}
use lidi_4d8d19daa.Protocol.Block.{Block}
use lidi_4d8d19daa.Send.Pipeline.{Numbered}

-- The blocks with the numbers that the ordering worker gives them from `i` on.
abbrev pub number : ℕ → List Block → List Numbered
number i [] = []
number i (b ∷ bs) = (i % 256, b) ∷ number (i + 1) bs

abbrev pub somes {ℓ} : {A : Type ℓ} → List (Option A) → List A
somes [] = []
somes (none ∷ xs) = somes xs
somes (some a ∷ xs) = a ∷ somes xs

pub somes-append {ℓ} :
    {A : Type ℓ} (xs ys : List (Option A)) → somes (xs ++ ys) ≡ somes xs ++ somes ys
somes-append [] ys = refl
somes-append (none ∷ xs) ys = somes-append xs ys
somes-append (some a ∷ xs) ys = ap (◌∷◌ a) (somes-append xs ys)

pub number-snoc :
    (i : ℕ) (bs : List Block) (b : Block)
    → number i (bs ++ b ∷ []) ≡ number i bs ++ ((i + length bs) % 256, b) ∷ []
number-snoc i [] b = let e : i + 0 ≡ i = omega arith in rw e
number-snoc i (c ∷ bs) b =
    let e : i + suc (length bs) ≡ i + 1 + length bs = omega arith in
    ap (◌∷◌ (i % 256, c)) (rw (e, number-snoc (i + 1) bs b))

pub number-append :
    (i : ℕ) (xs ys : List Block) → number i (xs ++ ys) ≡ number i xs ++ number (i + length xs) ys
number-append i [] ys = let e : i + 0 ≡ i = omega arith in rw e
number-append i (x ∷ xs) ys =
    let e : i + suc (length xs) ≡ i + 1 + length xs = omega arith in
    ap (◌∷◌ (i % 256, x)) (rw (e, number-append (i + 1) xs ys))

-- The number at a place of the list.
pub number-split :
    (i : ℕ) (bs : List Block) (front back : List Numbered) (n : Numbered)
    → number i bs ≡ front ++ n ∷ back
    → n.0 ≡ (i + length front) % 256
number-split i [] [] back n e = cc
number-split i [] (m ∷ front) back n e = cc
number-split i (b ∷ bs) [] back n e = ground arith
number-split i (b ∷ bs) (m ∷ front) back n e = ground (arith, number-split (i + 1) bs front back n)

pub length-number : (i : ℕ) (bs : List Block) → length (number i bs) ≡ length bs
length-number i [] = refl
length-number i (b ∷ bs) = ap suc (length-number (i + 1) bs)
