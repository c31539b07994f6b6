-- ===== src/Send/Servers/Numbers.antt =====
-- The numbers of the clients, and what a block adds to the blocks of a client.
use lidi_4d8d19daa.Common.{
  ℕ, ◌+◌, ◌<◌, ◌≡◌, ◌≢◌, ◌∙◌, refl, List, [], ◌∷◌, ◌++◌, true, false, ◌==◌, length, append-nil, All,
  arith,
}
use lidi_4d8d19daa.Protocol.Block.{Block}
use lidi_4d8d19daa.Protocol.Block.Owner.{
  of_client, of_client-append, IsOwned, IsOwned-is_of, IsBeat, IsBeat-is_of,
}
use lidi_4d8d19daa.Send.Servers.{Client}

-- The numbers of the clients, from `i` on.
abbrev pub IdsFrom : ℕ → List Client → Type 0
IdsFrom i [] = Unit {0}
IdsFrom i (c ∷ cs) = (c.client_id ≡ i) × IdsFrom (i + 1) cs

pub IdsFrom-snoc :
    (i : ℕ) (cs : List Client) (c : Client)
    → IdsFrom i cs
    → c.client_id ≡ i + length cs
    → IdsFrom i (cs ++ c ∷ [])
IdsFrom-snoc i [] c h e = (omega (arith, e), tt)
IdsFrom-snoc i (d ∷ cs) c (first, rest) e =
    (first, IdsFrom-snoc (i + 1) cs c rest (omega (arith, e)))

pub IdsFrom-update :
    (i : ℕ) (before after : List Client) (c d : Client)
    → d.client_id ≡ c.client_id
    → IdsFrom i (before ++ c ∷ after)
    → IdsFrom i (before ++ d ∷ after)
IdsFrom-update i [] after c d e (first, rest) = (e ∙ first, rest)
IdsFrom-update i (b ∷ before) after c d e (first, rest) =
    (first, IdsFrom-update (i + 1) before after c d e rest)

pub IdsFrom-place :
    (i : ℕ) (before after : List Client) (c : Client)
    → IdsFrom i (before ++ c ∷ after)
    → c.client_id ≡ i + length before
IdsFrom-place i [] after c (first, rest) = omega (arith, first)
IdsFrom-place i (b ∷ before) after c (first, rest) =
    omega (arith, IdsFrom-place (i + 1) before after c rest)

-- A property of all clients after one of them has changed.
module _ (P Q : Client → Type 0) where
  All-later :
      (i j : ℕ) (cs : List Client)
      → j < i
      → IdsFrom i cs
      → All P cs
      → ((d : Client) → d.client_id ≢ j → P d → Q d)
      → All Q cs
  All-later i j [] h ids all others = tt
  All-later i j (c ∷ cs) h (first, rest) (p, all) others = (
    others c (λ e. absurd (omega (arith, e, first))) p,
    All-later (i + 1) j cs (omega arith) rest all others,
  )

  pub All-update :
      (i : ℕ) (before after : List Client) (c d : Client)
      → IdsFrom i (before ++ c ∷ after)
      → All P (before ++ c ∷ after)
      → ((e : Client) → e.client_id ≢ c.client_id → P e → Q e)
      → (P c → Q d)
      → All Q (before ++ d ∷ after)
  All-update i [] after c d (first, rest) (p, all) others own =
      (own p, All-later (i + 1) c.client_id after (omega (arith, first)) rest all others)
  All-update i (b ∷ before) after c d (first, rest) (p, all) others own = (
    others b (λ e. absurd (omega (arith, e, first, IdsFrom-place (i + 1) before after c rest))) p,
    All-update (i + 1) before after c d rest all others own,
  )

pub All-at :
    (P : Client → Type 0) (before after : List Client) (c : Client)
    → All P (before ++ c ∷ after)
    → P c
All-at P [] after c (p, all) = p
All-at P (b ∷ before) after c (p, all) = All-at P before after c all

pub All-map :
    (P Q : Client → Type 0) (cs : List Client) → ((c : Client) → P c → Q c) → All P cs → All Q cs
All-map P Q [] f all = tt
All-map P Q (c ∷ cs) f (p, all) = (f c p, All-map P Q cs f all)

pub of_client-snoc :
    (id j : ℕ) (bs : List Block) (b : Block)
    → IsOwned j b
    → id ≢ j
    → of_client id (bs ++ b ∷ []) ≡ of_client id bs
of_client-snoc id j bs b v other =
    let no : (j == id) ≡ false = ground arith in
    of_client-append id bs (b ∷ []) ∙ rw (IsOwned-is_of id j b v, no) (append-nil (of_client id bs))

pub of_client-own :
    (id : ℕ) (bs : List Block) (b : Block)
    → IsOwned id b
    → of_client id (bs ++ b ∷ []) ≡ of_client id bs ++ b ∷ []
of_client-own id bs b v =
    let yes_own : (id == id) ≡ true = ground arith in
    of_client-append id bs (b ∷ []) ∙ rw (IsOwned-is_of id id b v, yes_own) refl

pub of_client-beat :
    (id : ℕ) (bs : List Block) (b : Block)
    → IsBeat b
    → of_client id (bs ++ b ∷ []) ≡ of_client id bs
of_client-beat id bs b e =
    of_client-append id bs (b ∷ []) ∙ rw (IsBeat-is_of id b e) (append-nil (of_client id bs))
