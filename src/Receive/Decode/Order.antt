-- ===== src/Receive/Decode/Order.antt =====
-- The decoding workers on blocks that arrive with consecutive numbers and all decode.
use lidi_4d8d19daa.Common.{
  ℕ, suc, ◌+◌, ◌*◌, ◌%◌, ◌≤◌, ◌<◌, ◌≡◌, refl, sym, ap, ◌∙◌, ◌⊎◌, inl, inr, List, [], ◌∷◌, ◌++◌,
  Option, some, length, length-map, length-append, append_assoc, map, arith,
}
use mathlib.Core.List.{map-append}
use lidi_4d8d19daa.Extern.{Extern}
use lidi_4d8d19daa.Protocol.Raptorq.{RaptorQ, decode}
use lidi_4d8d19daa.Protocol.Block.{Block, deserialize}
use lidi_4d8d19daa.Send.Pipeline.{Numbered}
use lidi_4d8d19daa.Send.Pipeline.Numbering.{number, length-number, number-snoc, number-split}
use lidi_4d8d19daa.Receive.{Reassembled, lost, reassembled}
use lidi_4d8d19daa.Receive.Decode.{State, Step, arrive, fail, pass_on, take_block, release}

List-cases {ℓ} : {A : Type ℓ} (l : List A) → (l ≡ []) ⊎ ((a : A) × (rest : List A) × (l ≡ a ∷ rest))
List-cases [] = inl refl
List-cases (a ∷ rest) = inr (a, rest, refl)

map-number :
    (i : ℕ) (bs : List Block) → map (λ (n : Numbered). some n.1) (number i bs) ≡ map some bs
map-number i [] = refl
map-number i (b ∷ bs) = ap (◌∷◌ (some b)) (map-number (i + 1) bs)

module _ (x : Extern) (r : RaptorQ x) (nb : ℕ) where
  -- The steps of the decoding workers themselves.
  abbrev pub IsWork : {s t : State x} → Step x r nb s t → Type 0
  IsWork (arrive message) = ⊥
  IsWork (fail id packets rest e h d) = Unit {0}
  IsWork (pass_on rest e h) = Unit {0}
  IsWork (take_block id packets bytes rest e h d) = Unit {0}
  IsWork (release n before after e due) = Unit {0}

  -- What the workers can reach since the reblock worker started at the number `id`, when it has
  -- sent the blocks `bs`, numbered from `id` on.
  pub data InTurn (id : ℕ) : State x → List Block → Type 0 where
    begin :
        InTurn id
          (record { for_decode = []; held = []; block_to_dispatch = id % 256; dispatched = [] })
          []
    arrives :
        {s : State x} {bs : List Block} (packets : List x.Packet) (bytes : List ℕ)
        → InTurn id s bs
        → decode x r ((id + length bs) % 256) packets ≡ some bytes
        → InTurn id
            (record s {
              for_decode = s.for_decode ++ reassembled ((id + length bs) % 256) packets ∷ [];
            })
            (bs ++ deserialize bytes ∷ [])
    works :
        {s t : State x} {bs : List Block}
        → InTurn id s bs
        → (step : Step x r nb s t) → IsWork step
        → InTurn id t bs

  -- The messages that wait decode to the numbered blocks.
  abbrev Sound : List (Reassembled x) → List Numbered → Type 0
  Sound [] [] = Unit {0}
  Sound [] (n ∷ ns) = ⊥
  Sound (lost ∷ ms) ns = ⊥
  Sound (reassembled i packets ∷ ms) [] = ⊥
  Sound (reassembled i packets ∷ ms) (n ∷ ns) =
      (i ≡ n.0)
      × ((bytes : List ℕ) × (decode x r i packets ≡ some bytes) × (deserialize bytes ≡ n.1))
      × Sound ms ns

  record Inv (id : ℕ) (s : State x) (bs : List Block) : Type 0 where
    past : List Numbered
    queued : List Numbered
    in_order : past ++ (s.held ++ queued) ≡ number id bs
    sound : Sound s.for_decode queued
    passed : s.dispatched ≡ map (λ (n : Numbered). some n.1) past
    due : s.block_to_dispatch ≡ (id + length past) % 256
    few : length s.held ≤ nb

  Sound-snoc :
      (ms : List (Reassembled x)) (ns : List Numbered) (i : ℕ) (packets : List x.Packet)
      (bytes : List ℕ)
      → Sound ms ns
      → decode x r i packets ≡ some bytes
      → Sound (ms ++ reassembled i packets ∷ []) (ns ++ (i, deserialize bytes) ∷ [])
  Sound-snoc [] [] i packets bytes v e = (refl, (bytes, e, refl), tt)
  Sound-snoc [] (n ∷ ns) i packets bytes v e = absurd v
  Sound-snoc (lost ∷ ms) ns i packets bytes v e = absurd v
  Sound-snoc (reassembled j ps ∷ ms) [] i packets bytes v e = absurd v
  Sound-snoc (reassembled j ps ∷ ms) (n ∷ ns) i packets bytes v e =
      (v.0, v.1, Sound-snoc ms ns i packets bytes v.2 e)

  Sound-head :
      (i : ℕ) (packets : List x.Packet) (ms : List (Reassembled x)) (ns : List Numbered)
      → Sound (reassembled i packets ∷ ms) ns
      → (n : Numbered) × (rest : List Numbered) × (ns ≡ n ∷ rest)
        × (i ≡ n.0)
        × ((bytes : List ℕ) × (decode x r i packets ≡ some bytes) × (deserialize bytes ≡ n.1))
        × Sound ms rest
  Sound-head i packets ms [] v = absurd v
  Sound-head i packets ms (n ∷ ns) (e, d, v) = (n, ns, refl, e, d, v)

  module _ (id : ℕ) (small : nb ≤ 255) where
    release_first :
        {s : State x} {bs : List Block} (v : Inv id s bs) (n : Numbered)
        (before after : List Numbered)
        → s.held ≡ before ++ n ∷ after
        → n.0 ≡ s.block_to_dispatch
        → before ≡ []
    release_first v n [] after e k = refl
    release_first {s} {bs} v n (m ∷ before) after e k =
        absurd (omega (arith, place, v.due, k, size, held_size, v.few))
      where
        split : number id bs ≡ (v.past ++ m ∷ before) ++ n ∷ (after ++ v.queued)
        split = sym v.in_order ∙ rw e (simp append_assoc)

        place : n.0 ≡ (id + length (v.past ++ m ∷ before)) % 256
        place = number-split id bs (v.past ++ m ∷ before) _ n split

        size : length (v.past ++ m ∷ before) ≡ length v.past + suc (length before)
        size = length-append v.past (m ∷ before)

        held_size : length s.held ≡ suc (length before) + suc (length after)
        held_size = rw e (length-append (m ∷ before) (n ∷ after))

    Step-Inv :
        {s t : State x} {bs : List Block} (step : Step x r nb s t)
        → IsWork step
        → Inv id s bs
        → Inv id t bs
    Step-Inv (arrive message) work v = absurd work
    Step-Inv (fail i packets rest e h d) work v =
        let (n, ns, q, e', (bytes, d', same), sound) =
          Sound-head i packets rest v.queued (rw e at v.sound) in
        cc (d, d')
    Step-Inv (pass_on rest e h) work v = absurd (rw e at v.sound)
    Step-Inv {s} (take_block i packets bytes rest e h d) work v =
        let (n, ns, q, e', (bytes', d', same), sound) =
          Sound-head i packets rest v.queued (rw e at v.sound) in
        let bytes_eq : bytes' ≡ bytes = cc (d, d') in
        let taken : ◌≡◌ {A = Numbered} n (i, deserialize bytes) = cc (e', same, bytes_eq) in
        record {
          past = v.past;
          queued = ns;
          in_order =
              rw (append_assoc s.held ((i, deserialize bytes) ∷ []) ns, ← taken)
                (rw q at v.in_order);
          sound = sound;
          passed = v.passed;
          due = v.due;
          few = omega (arith, length-append s.held ((i, deserialize bytes) ∷ []), h);
        }
    Step-Inv {s} (release n before after e due) work v =
        let first = release_first v n before after e due in
        record {
          past = v.past ++ n ∷ [];
          queued = v.queued;
          in_order = rw (first, append_assoc) (rw (e, first) at v.in_order);
          sound = v.sound;
          passed = rw (v.passed, map-append) refl;
          due = omega (arith, length-append v.past (n ∷ []), v.due);
          few = omega (
            arith,
            v.few,
            length-append before (n ∷ after),
            length-append before after,
            ap length e,
          );
        }

    InTurn-Inv : {s : State x} {bs : List Block} → InTurn id s bs → Inv id s bs
    InTurn-Inv begin = record {
      past = [];
      queued = [];
      in_order = refl;
      sound = tt;
      passed = refl;
      due = omega arith;
      few = omega arith;
    }
    InTurn-Inv (arrives {s} {bs} packets bytes turn e) =
        let v = InTurn-Inv turn in
        record {
          past = v.past;
          queued = v.queued ++ ((id + length bs) % 256, deserialize bytes) ∷ [];
          in_order = rw (number-snoc id bs (deserialize bytes), ← v.in_order) (simp append_assoc);
          sound = Sound-snoc s.for_decode v.queued _ packets bytes v.sound e;
          passed = v.passed;
          due = v.due;
          few = v.few;
        }
    InTurn-Inv (works turn step work) = Step-Inv step work (InTurn-Inv turn)

    -- Taking a block and sending it on each make the work that is left smaller.
    abbrev pub work_left : State x → ℕ
    work_left s = 2 * length s.for_decode + length s.held

    work-shrinks :
        {s t : State x} (step : Step x r nb s t) → IsWork step → work_left t < work_left s
    work-shrinks (arrive message) work = absurd work
    work-shrinks (fail i packets rest e h d) work = omega (arith, ap length e)
    work-shrinks (pass_on rest e h) work = omega (arith, ap length e)
    work-shrinks {s} (take_block i packets bytes rest e h d) work =
        omega (arith, ap length e, length-append s.held ((i, deserialize bytes) ∷ []))
    work-shrinks {s} (release n before after e due) work =
        omega (arith, ap length e, length-append before (n ∷ after), length-append before after)

    -- Some worker can go on as long as not all blocks were sent on.
    some-IsWork :
        {s : State x} {bs : List Block}
        → 0 < nb
        → Inv id s bs
        → length s.dispatched < length bs
        → (t : State x) × (step : Step x r nb s t) × IsWork step
    some-IsWork {s} {bs} pos v more = elim (List-cases s.held) [
      | inl idle ↦ elim (List-cases s.for_decode) [
        | inl empty ↦
            absurd (omega (arith, none_waits (rw empty at v.sound), total, ap length idle))
        | inr (lost, ms, e) ↦ absurd (rw e at v.sound)
        | inr (reassembled i packets, ms, e) ↦
            let (n, ns, q, e', (bytes, d, same), sound) =
              Sound-head i packets ms v.queued (rw e at v.sound) in
            (_, take_block i packets bytes ms e (omega (arith, ap length idle)) d, tt)
      ]
      | inr (n, after, e) ↦ (_, release n [] after e (due_first n after e), tt)
    ]
      where
        none_waits : Sound [] v.queued → length v.queued ≡ 0
        none_waits h = elim (List-cases v.queued) [
          | inl e ↦ ap length e
          | inr (n, ns, e) ↦ absurd (rw e at h)
        ]

        total : length bs ≡ length s.dispatched + (length s.held + length v.queued)
        total = omega (
          arith,
          length-number id bs,
          ap length v.in_order,
          length-append v.past (s.held ++ v.queued),
          length-append s.held v.queued,
          ap length v.passed,
          length-map (λ (n : Numbered). some n.1) v.past,
        )

        due_first :
            (n : Numbered) (after : List Numbered) → s.held ≡ n ∷ after → n.0 ≡ s.block_to_dispatch
        due_first n after e =
            number-split id bs v.past (after ++ v.queued) n (sym v.in_order ∙ rw e refl) ∙ sym v.due

    -- Blocks with consecutive numbers that all decode, and at most 255 decoding workers, in any
    -- interleaving: what was sent to the dispatch worker is always a first part of the blocks, in
    -- order; every step of a worker makes the work that is left smaller, and as long as not all of
    -- the blocks were sent on, some worker can take a step. So the workers send all of them on.
    pub dispatched_in_order :
        {s : State x} {bs : List Block}
        → 0 < nb
        → InTurn id s bs
        → ((rest : List (Option Block)) × (s.dispatched ++ rest ≡ map some bs))
          × ((t : State x) (step : Step x r nb s t) → IsWork step → work_left t < work_left s)
          × (length s.dispatched < length bs
              → (t : State x) × (step : Step x r nb s t) × IsWork step)
    dispatched_in_order {s} {bs} pos turn =
        let v = InTurn-Inv turn in
        (
          (
            map (λ (n : Numbered). some n.1) (s.held ++ v.queued),
            rw (v.passed, ← map-append, v.in_order) (map-number id bs),
          ),
          λ t step work. work-shrinks step work,
          some-IsWork pos v,
        )
