-- ===== src/Aux/File/Programs/Received.antt =====
-- Several files from the sending to the receiving file program.

use lidi_4d8d19daa.Common.{
  ℕ, zero, suc, ◌+◌, ◌^◌, ◌≤◌, ◌<◌, ◌≡◌, refl, ap, ◌∙◌, ◌⊎◌, inl, inr, List, [], ◌∷◌, Option, none,
  some, true, false, ok, leb, if◌then◌else◌, String, length, take, map, arith, zero_or_suc,
}
use lidi_4d8d19daa.Common.Reader.{Wait, AllReady}
use lidi_4d8d19daa.Aux.{DiodeSend, DiodeReceive}
use lidi_4d8d19daa.Aux.File.{Library}
use lidi_4d8d19daa.Aux.File.Send.{send_file_aux}
use lidi_4d8d19daa.Aux.File.Receive.{Directory, Received, receive_file}
use lidi_4d8d19daa.Aux.File.Delivery.{
  IsSendable, IsFree, receive_file-send_file_aux, send_file_aux-done,
}
use lidi_4d8d19daa.Aux.File.Programs.{
  FileConfig, World, Connection, Accepted, accepting, returned, is_over, send_file, send_files,
  accept_loop,
}

-- A file on its way: its name as an argument and in the header, its name in the output directory, and
-- the connection over which it arrives.
pub record Transfer : Type 0 where
  pub file : String
  pub name : List ℕ
  pub base : List ℕ
  pub directory : Directory
  pub reads : List Wait

module _ (lib : Library) (w : World) (c : FileConfig DiodeSend) where
  -- The files can be sent from the `n`-th on, and received.
  abbrev pub AllPass : ℕ → List Transfer → Type 0
  AllPass n [] = Unit {0}
  AllPass n (t ∷ ts) =
      (w.connect n c.diode ≡ none)
      × IsSendable lib (w.source n t.file) t.name
      × IsFree t.directory t.name t.base
      × AllReady (suc (length (w.source n t.file).content)) (w.reads n)
      × AllReady (suc (length (w.source n t.file).content)) t.reads
      × AllPass (suc n) ts

  -- The connections over which the diode brings the streams.
  abbrev pub connections : ℕ → List Transfer → List Connection
  connections n [] = []
  connections n (t ∷ ts) =
      record {
        directory = t.directory;
        reads = t.reads;
        stream = (send_file lib w n c t.file).bytes;
      }
      ∷ connections (suc n) ts

  -- What is stored of a file: its name, its mode and its content.
  abbrev pub contents : ℕ → List Transfer → List (Option (List ℕ × ℕ) × List ℕ)
  contents n [] = []
  contents n (t ∷ ts) =
      (some (t.base, (w.source n t.file).mode), (w.source n t.file).content) ∷ contents (suc n) ts

abbrev pub stored : Received → Option (List ℕ × ℕ) × List ℕ
stored r = (r.created, r.written)

-- A connection's file.
abbrev pub receive_connection : Library → FileConfig DiodeReceive → Connection → Received
receive_connection lib c client =
    receive_file lib c.config client.directory client.reads client.stream

is_over-end : (lib : Library) (max : ℕ) → 0 < max → is_over lib max max ≡ true
is_over-end lib max pos = ground arith

is_over-before :
    (lib : Library) (max count left : ℕ) → max ≡ count + suc left → is_over lib max count ≡ false
is_over-before lib max count left e = ground arith

module _ (lib : Library) (c : FileConfig DiodeReceive) where
  over_lem :
      (clients : List Connection)
      → 0 < c.max_files
      → accept_loop lib c c.max_files (map ok clients) ≡ record { received = []; ended = returned }
  unfolding accept_loop
  over_lem [] pos = rw (is_over-end lib c.max_files pos) refl
  over_lem (client ∷ clients) pos = rw (is_over-end lib c.max_files pos) refl

  -- With `left` files left to accept.
  accept_loop-left :
      (count left : ℕ) (clients : List Connection)
      → 0 < c.max_files
      → c.max_files ≡ count + left
      → accept_loop lib c count (map ok clients) ≡ record {
        received = map (receive_connection lib c) (take left clients);
        ended = if leb left (length clients) then returned else accepting;
      }
  unfolding accept_loop
  accept_loop-left count zero clients pos e =
      let same : count ≡ c.max_files = omega (arith, e) in
      let reached : leb 0 (length clients) ≡ true = ground arith in
      rw (same, reached) (over_lem clients pos)
  accept_loop-left count (suc left) [] pos e =
      let none_left : leb (suc left) 0 ≡ false = ground arith in
      rw (is_over-before lib c.max_files count left e, none_left) refl
  accept_loop-left count (suc left) (client ∷ clients) pos e =
      let shift : leb (suc left) (suc (length clients)) ≡ leb left (length clients) =
        ground arith in
      rw
        (
          is_over-before lib c.max_files count left e,
          accept_loop-left (count + 1) left clients pos (omega (arith, e)),
          shift,
        )
        refl

  -- The accept loop with a limit serves the first `max_files` connections, failed transfers
  -- included, and then returns; until so many have come it goes on.
  pub accept_loop-take :
      (clients : List Connection)
      → 0 < c.max_files
      → accept_loop lib c 0 (map ok clients) ≡ record {
        received = map (receive_connection lib c) (take c.max_files clients);
        ended = if leb c.max_files (length clients) then returned else accepting;
      }
  accept_loop-take clients pos = accept_loop-left 0 c.max_files clients pos (omega arith)

  -- Without a limit all connections are served.
  pub accept_loop_all :
      (count : ℕ) (clients : List Connection)
      → c.max_files ≡ 0
      → accept_loop lib c count (map ok clients)
        ≡ record { received = map (receive_connection lib c) clients; ended = accepting }
  unfolding accept_loop
  accept_loop_all count [] e = rw e refl
  accept_loop_all count (client ∷ clients) e =
      let on : is_over lib c.max_files count ≡ false = rw e refl in
      rw (on, accept_loop_all (count + 1) clients e) refl

map-map {ℓ κ μ} :
    {A : Type ℓ} {B : Type κ} {C : Type μ} (f : B → C) (g : A → B) (l : List A)
    → map f (map g l) ≡ map (λ a. f (g a)) l
map-map f g [] = refl
map-map f g (a ∷ l) = ap (◌∷◌ (f (g a))) (map-map f g l)

take_all {ℓ} : {A : Type ℓ} (n : ℕ) (l : List A) → length l ≤ n → take n l ≡ l
take_all zero [] h = refl
take_all zero (a ∷ l) h = absurd (omega (arith, h))
take_all (suc n) [] h = refl
take_all (suc n) (a ∷ l) h = ap (◌∷◌ a) (take_all n l (omega (arith, h)))

module _ (lib : Library) (w : World) (c : FileConfig DiodeSend) (c' : FileConfig DiodeReceive)
    (bounded : (h : lib.Hash) → lib.finish h < 2 ^ 128) (room : 0 < c.config.buffer_size)
    (room' : 0 < c'.config.buffer_size) where
  length-connections : (n : ℕ) (ts : List Transfer) → length (connections lib w c n ts) ≡ length ts
  length-connections n [] = refl
  length-connections n (t ∷ ts) = ap suc (length-connections (suc n) ts)

  send_file-connected :
      (n : ℕ) (file : String)
      → w.connect n c.diode ≡ none
      → send_file lib w n c file ≡ send_file_aux lib c.config (w.source n file) (w.reads n)
  unfolding send_file
  send_file-connected n file e = rw (e, send_file) refl

  stored_all :
      (n : ℕ) (ts : List Transfer)
      → AllPass lib w c n ts
      → map (λ client. stored (receive_connection lib c' client)) (connections lib w c n ts)
        ≡ contents lib w c n ts
  stored_all n [] h = refl
  stored_all n (t ∷ ts) (up, v, free, a, a', rest) =
      let one =
        receive_file-send_file_aux lib c.config c'.config (w.source n t.file) t.directory t.name
          t.base (w.reads n) t.reads bounded v free room room' a a' in
      rw (send_file-connected n t.file up, one, stored_all (suc n) ts rest) refl

  sent_all :
      (n : ℕ) (ts : List Transfer)
      → AllPass lib w c n ts
      → length (send_files lib w n c (map (λ (t : Transfer). t.file) ts)) ≡ length ts
  unfolding send_files
  sent_all n [] h = refl
  sent_all n (t ∷ ts) (up, v, free, a, a', rest) =
      let one = send_file-connected n t.file up in
      let ended = send_file_aux-done lib c.config (w.source n t.file) t.name (w.reads n) v room a in
      rw (one, ended, send_files) (ap suc (sent_all (suc n) ts rest))

  -- Files that can be opened, over connections that the diode takes, into a directory that is free
  -- for each of them: the sending program sends all of them, and the accept loop of the receiving
  -- program, with no limit or one that is not smaller, stores each under its own name and mode with
  -- its whole content.
  pub files_received :
      (ts : List Transfer)
      → AllPass lib w c 0 ts
      → (c'.max_files ≡ 0) ⊎ (length ts ≤ c'.max_files)
      → (length (send_files lib w 0 c (map (λ (t : Transfer). t.file) ts)) ≡ length ts)
        × (map stored (accept_loop lib c' 0 (map ok (connections lib w c 0 ts))).received
            ≡ contents lib w c 0 ts)
  files_received ts h limit = (
    sent_all 0 ts h,
    elim (zero_or_suc c'.max_files) [
      | inl no_limit ↦
          ap (λ (a : Accepted). map stored a.received)
            (accept_loop_all lib c' 0 (connections lib w c 0 ts) no_limit)
          ∙ all_stored
      | inr (n, some_limit) ↦
          let enough : length (connections lib w c 0 ts) ≤ c'.max_files = elim limit [
            | inl no_limit ↦ absurd (omega (arith, no_limit, some_limit))
            | inr h ↦ omega (arith, h, length-connections 0 ts)
          ] in
          ap (λ (a : Accepted). map stored a.received)
            (accept_loop-take lib c' (connections lib w c 0 ts) (omega (arith, some_limit)))
          ∙ ap (λ l. map stored (map (receive_connection lib c') l))
              (take_all c'.max_files (connections lib w c 0 ts) enough)
          ∙ all_stored
    ],
  )
    where
      all_stored :
          map stored (map (receive_connection lib c') (connections lib w c 0 ts))
          ≡ contents lib w c 0 ts
      all_stored =
          map-map stored (receive_connection lib c') (connections lib w c 0 ts) ∙ stored_all 0 ts h
