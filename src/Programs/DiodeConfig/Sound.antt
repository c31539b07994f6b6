-- ===== src/Programs/DiodeConfig/Sound.antt =====
-- diode-config neither panics nor reports wrong data.
use lidi_4d8d19daa.Common.{
  ℕ, zero, suc, ◌+◌, ◌*◌, ◌/◌, ◌%◌, ◌^◌, ◌≤◌, ◌<◌, ◌≡◌, refl, ap, ◌∙◌, ◌⊎◌, inl, inr, List, [], ◌∷◌,
  none, some, Bool, true, ok, le→leb, ==_refl, length, length-drop, get_elem?, drop, All, arith,
}
use mathlib.Core.List.{Memᴰ}
use lidi_4d8d19daa.Extern.{Extern, ExternLaws}
use lidi_4d8d19daa.Protocol.Raptorq.{RaptorQ, new, block_size, encode, decode, nb_packets}
use lidi_4d8d19daa.Protocol.Raptorq.Sizes.{IsSized, new-IsSized}
use lidi_4d8d19daa.Protocol.Raptorq.Coding.{length-encode}
use lidi_4d8d19daa.Programs.DiodeConfig.{
  Args, Environment, decode_failed, decode_ok, random_bytes, set, swap, shuffle, split_off,
  nb_removed, damage, is_same, verdict, log_packet, test, main,
}

module _ {ℓ κ} {A : Type ℓ} (P : A → Type κ) where
  length-set : (l : List A) (i : ℕ) (a : A) → length (set l i a) ≡ length l
  length-set [] i a = refl
  length-set (b ∷ l) zero a = refl
  length-set (b ∷ l) (suc i) a = ap suc (length-set l i a)

  All-set : (l : List A) (i : ℕ) (a : A) → P a → All P l → All P (set l i a)
  All-set [] i a p h = tt
  All-set (b ∷ l) zero a p h = (p, h.1)
  All-set (b ∷ l) (suc i) a p h = (h.0, All-set l i a p h.1)

  get_elem-All :
      (l : List A) (i : ℕ) → i < length l → All P l → (a : A) × (get_elem? l i ≡ some a) × P a
  get_elem-All [] i h all = absurd (omega (arith, h))
  get_elem-All (b ∷ l) zero h all = (b, refl, all.0)
  get_elem-All (b ∷ l) (suc i) h all = get_elem-All l i (omega (arith, h)) all.1

  All-drop : (n : ℕ) (l : List A) → All P l → All P (drop n l)
  All-drop zero l h = h
  All-drop (suc n) [] h = h
  All-drop (suc n) (a ∷ l) h = All-drop n l h.1

  -- A swap within the list keeps its elements.
  swap-All :
      (i j : ℕ) (l : List A)
      → i < length l
      → j < length l
      → All P l
      → (m : List A) × (swap i j l ≡ ok m) × (length m ≡ length l) × All P m
  unfolding swap
  swap-All i j l hi hj h =
      let (a, ea, pa) = get_elem-All l i hi h in
      let (b, eb, pb) = get_elem-All l j hj h in
      (
        set (set l i b) j a,
        rw (swap, ea, eb) refl,
        length-set (set l i b) j a ∙ length-set l i b,
        All-set (set l i b) j a pa (All-set l i b pb h),
      )

  shuffle-All :
      (choose : ℕ → ℕ) (i n : ℕ) (l : List A)
      → i + n ≤ length l
      → ((k : ℕ) → choose k < length l)
      → All P l
      → (m : List A) × (shuffle choose i n l ≡ ok m) × (length m ≡ length l) × All P m
  unfolding shuffle
  shuffle-All choose i zero l fits within h = (l, refl, refl, h)
  shuffle-All choose i (suc n) l fits within h =
      let (m, e, same, hm) = swap-All i (choose i) l (omega (arith, fits)) (within i) h in
      let (o, e', same', ho) =
        shuffle-All choose (i + 1) n m (omega (arith, same, fits))
          (λ k. omega (arith, within k, same)) hm in
      (o, rw e e', same' ∙ same, ho)

  -- Some packet is left, since not all are removed.
  damage-All :
      (env : Environment) (remove : ℕ) (l : List A)
      → 0 < length l
      → length l < 2 ^ 32
      → remove < 100
      → ((i low high : ℕ) → low < high → env.random_range i low high < high)
      → All P l
      → (m : List A) × (damage env remove l ≡ ok m) × (0 < length m) × All P m
  unfolding damage split_off nb_removed
  damage-All env remove l some_packets few percent within h =
      let n : ℕ = length l in
      let (m, e, same, hm) =
        shuffle-All (λ i. env.random_range i (n / 2) n) 0 (n / 2) l (omega arith)
          (λ k. within k (n / 2) n (omega (arith, some_packets))) h in
      let product : n * remove ≤ n * 99 = grind arith in
      let fits : n * remove % 2 ^ 64 / 100 ≤ length m = omega (arith, product, few, same) in
      (
        drop (n * remove % 2 ^ 64 / 100) m,
        rw (damage, e, le→leb (n * remove % 2 ^ 64 / 100) (length m) fits) refl,
        omega (arith, length-drop (n * remove % 2 ^ 64 / 100) m, product, few, same, some_packets),
        All-drop (n * remove % 2 ^ 64 / 100) m hm,
      )

is_same_refl : (l : List ℕ) → is_same l l ≡ true
unfolding is_same
is_same_refl [] = refl
is_same_refl (a ∷ l) = rw (==_refl a, is_same_refl l) refl

length-random_bytes : (random : ℕ → ℕ) (i n : ℕ) → length (random_bytes random i n) ≡ n
unfolding random_bytes
length-random_bytes random i zero = refl
length-random_bytes random i (suc n) = ap suc (length-random_bytes random (i + 1) n)

All-self {ℓ} : {A : Type ℓ} (P : A → Type ℓ) (l : List A) → ((a : A) → Memᴰ a l → P a) → All P l
All-self P [] h = tt
All-self P (a ∷ l) h = (h a (Memᴰ.head refl), All-self P l (λ b m. h b (Memᴰ.tail m)))

module _ (x : Extern) (laws : ExternLaws x) where
  -- What raptorq documents: some packets of a block decode to that block or do not decode.
  abbrev pub DecodesToBlock : RaptorQ x → List ℕ → Type 0
  DecodesToBlock r block =
      (packets : List x.Packet)
      → 0 < length packets
      → All (λ p. Memᴰ p (encode x r 0 block)) packets
      → (decode x r 0 packets ≡ none) ⊎ (decode x r 0 packets ≡ some block)

  packet_count :
      (r : RaptorQ x) (block_size : ℕ)
      → IsSized x r block_size
      → 0 < r.symbol_count
      → (block : List ℕ) → length block ≡ r.transfer_length
      → (0 < length (encode x r 0 block)) × (length (encode x r 0 block) < 2 ^ 32)
  unfolding nb_packets
  packet_count r block_size sized symbols block e =
      let count = length-encode x laws sized 0 block e in
      (
        omega (arith, count, symbols, sized.counted, sized.few_repairs),
        omega (arith, count, sized.counted, sized.few_repairs),
      )

  log_packet_lem :
      (debug : Bool) (packets : List x.Packet)
      → 0 < length packets
      → log_packet x debug packets ≡ ok tt
  unfolding log_packet
  log_packet_lem debug [] h = absurd (omega (arith, h))
  log_packet_lem debug (p ∷ packets) h = refl

  main-test :
      (args : Args) (env : Environment) (r : RaptorQ x)
      → env.logger ≡ true
      → new x args.mtu args.block args.repair args.min_repair ≡ ok r
      → main x args env ≡ test x args env r
  unfolding main
  main-test args env r logged e = rw (main, logged, e) refl

  test-verdict :
      (args : Args) (env : Environment) (r : RaptorQ x) (kept : List x.Packet)
      → (let block : List ℕ = random_bytes env.random 0 (block_size x r) in
          log_packet x args.debug (encode x r 0 block) ≡ ok tt
          → damage env args.remove (encode x r 0 block) ≡ ok kept
          → test x args env r ≡ verdict x r block kept)
  unfolding test
  test-verdict args env r kept logged damaged = rw (test, logged, damaged) refl

  verdict-none :
      (r : RaptorQ x) (block : List ℕ) (packets : List x.Packet)
      → decode x r 0 packets ≡ none
      → verdict x r block packets ≡ ok decode_failed
  unfolding verdict
  verdict-none r block packets e = rw (verdict, e) refl

  verdict-some :
      (r : RaptorQ x) (block : List ℕ) (packets : List x.Packet)
      → decode x r 0 packets ≡ some block
      → verdict x r block packets ≡ ok decode_ok
  unfolding verdict
  verdict-some r block packets e = rw (verdict, e, is_same_refl block) refl

  -- The logger is set, the parameters are accepted and give a block of at least one packet, not all
  -- packets are removed, the random numbers are in their range, and some packets of a block decode
  -- to that block or not at all. Then `diode-config` neither panics nor exits with an error: it says
  -- that the decoding failed or that it succeeded.
  pub main-Verdict :
      (args : Args) (env : Environment) (r : RaptorQ x)
      → env.logger ≡ true
      → new x args.mtu args.block args.repair args.min_repair ≡ ok r
      → args.block < 2 ^ 32
      → 0 < r.symbol_count
      → args.remove < 100
      → ((i low high : ℕ) → low < high → env.random_range i low high < high)
      → DecodesToBlock r (random_bytes env.random 0 (block_size x r))
      → (main x args env ≡ ok decode_failed) ⊎ (main x args env ≡ ok decode_ok)
  unfolding block_size
  main-Verdict args env r logged e fits symbols percent within sound =
      let block : List ℕ = random_bytes env.random 0 (block_size x r) in
      let packets : List x.Packet = encode x r 0 block in
      let sized = new-IsSized x args.mtu args.block args.repair args.min_repair r fits e in
      let (some_packets, few) =
        packet_count r args.block sized symbols block
          (length-random_bytes env.random 0 (block_size x r)) in
      let (kept, damaged, left_some, from_block) =
        damage-All (λ p. Memᴰ p packets) env args.remove packets some_packets few percent within
          (All-self (λ p. Memᴰ p packets) packets (λ p m. m)) in
      let opened =
        main-test args env r logged e
        ∙ test-verdict args env r kept (log_packet_lem args.debug packets some_packets) damaged in
      elim (sound kept left_some from_block) [
        | inl failed ↦ inl (opened ∙ verdict-none r block kept failed)
        | inr decoded ↦ inr (opened ∙ verdict-some r block kept decoded)
      ]
