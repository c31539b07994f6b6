-- ===== src/Programs/Agreement.antt =====
-- The programs of the two sides, started with command lines that fit each other.
use lidi_4d8d19daa.Common.{
  ℕ, ◌+◌, ◌*◌, ◌/◌, ◌%◌, ◌^◌, ◌≤◌, ◌<◌, ◌≡◌, refl, sym, ap, ◌∙◌, List, Option, Bool-cases, inl, inr,
  Result-cases, ok, String, arith,
}
use lidi_4d8d19daa.Extern.{Extern}
use lidi_4d8d19daa.Protocol.Raptorq.{RaptorQ, packet_size, repair_count, new}
use lidi_4d8d19daa.Protocol.Raptorq.Sizes.{new-IsSized, new-counts}
use lidi_4d8d19daa.Send.Start as Send
use lidi_4d8d19daa.Send.Start.{Sender}
use lidi_4d8d19daa.Receive.Start as Receive
use lidi_4d8d19daa.Receive.Start.{Receiver}
use lidi_4d8d19daa.Threads.{Progress}
use lidi_4d8d19daa.Diode.Packets.{AgreeOn}
use lidi_4d8d19daa.Programs.DiodeSend as DiodeSend
use lidi_4d8d19daa.Programs.DiodeReceive as DiodeReceive

module _ (x : Extern) where
  scope_sender :
      (env : DiodeSend.Environment) (sender s : Sender x) (a b : Option String)
      (listeners : List String) (threads : Progress Send.Worker)
      → DiodeSend.scope x env sender a b ≡ DiodeSend.started s listeners threads
      → s ≡ sender
  unfolding DiodeSend.scope
  scope_sender env sender s a b listeners threads e = ground arith

  serve_sender :
      (args : DiodeSend.Args) (env : DiodeSend.Environment) (raptorq : RaptorQ x) (s : Sender x)
      (listeners : List String) (threads : Progress Send.Worker)
      → DiodeSend.serve x args env raptorq ≡ DiodeSend.started s listeners threads
      → s.raptorq ≡ raptorq
  unfolding DiodeSend.serve Send.new
  serve_sender args env raptorq s listeners threads e = ground (arith, scope_sender env)

  started_sender :
      (args : DiodeSend.Args) (env : DiodeSend.Environment) (s : Sender x) (listeners : List String)
      (threads : Progress Send.Worker)
      → DiodeSend.main x args env ≡ DiodeSend.started s listeners threads
      → new x args.to_mtu args.block args.repair 0 ≡ ok s.raptorq
  unfolding DiodeSend.main
  started_sender args env s listeners threads e =
      let run = new x args.to_mtu args.block args.repair 0 in
      elim (Bool-cases env.logger) [
        | inr off ↦
            let opened : DiodeSend.main x args env ≡ DiodeSend.refused DiodeSend.no_logger =
              rw (DiodeSend.main, off) refl in
            cc (opened, e)
        | inl on ↦ elim (Result-cases run) [
          | inl (raptorq, f) ↦
              let opened : DiodeSend.main x args env ≡ DiodeSend.serve x args env raptorq =
                rw (DiodeSend.main, on, f) refl in
              f ∙ ap ok (sym (serve_sender args env raptorq s listeners threads (sym opened ∙ e)))
          | inr (inl (error, f)) ↦
              let opened : DiodeSend.main x args env
                  ≡ DiodeSend.refused (DiodeSend.bad_parameters error) =
                rw (DiodeSend.main, on, f) refl in
              cc (opened, e)
          | inr (inr f) ↦
              let opened : DiodeSend.main x args env ≡ DiodeSend.aborted =
                rw (DiodeSend.main, on, f) refl in
              cc (opened, e)
        ]
      ]

  serve_receiver :
      (args : DiodeReceive.Args) (env : DiodeReceive.Environment) (raptorq : RaptorQ x)
      (r : Receiver x) (threads : Progress Receive.Worker)
      → DiodeReceive.serve x args env raptorq ≡ DiodeReceive.started r threads
      → r.raptorq ≡ raptorq
  unfolding DiodeReceive.serve Receive.new
  serve_receiver args env raptorq r threads e = ground arith

  started_receiver :
      (args : DiodeReceive.Args) (env : DiodeReceive.Environment) (r : Receiver x)
      (threads : Progress Receive.Worker)
      → DiodeReceive.main x args env ≡ DiodeReceive.started r threads
      → new x args.from_mtu args.block args.repair args.min_repair ≡ ok r.raptorq
  unfolding DiodeReceive.main
  started_receiver args env r threads e =
      let run = new x args.from_mtu args.block args.repair args.min_repair in
      elim (Bool-cases env.logger) [
        | inr off ↦
            let opened : DiodeReceive.main x args env
                ≡ DiodeReceive.refused DiodeReceive.no_logger =
              rw (DiodeReceive.main, off) refl in
            cc (opened, e)
        | inl on ↦ elim (Result-cases run) [
          | inl (raptorq, f) ↦
              let opened : DiodeReceive.main x args env ≡ DiodeReceive.serve x args env raptorq =
                rw (DiodeReceive.main, on, f) refl in
              f ∙ ap ok (sym (serve_receiver args env raptorq r threads (sym opened ∙ e)))
          | inr (inl (error, f)) ↦
              let opened : DiodeReceive.main x args env
                  ≡ DiodeReceive.refused (DiodeReceive.bad_parameters error) =
                rw (DiodeReceive.main, on, f) refl in
              cc (opened, e)
          | inr (inr f) ↦
              let opened : DiodeReceive.main x args env ≡ DiodeReceive.aborted =
                rw (DiodeReceive.main, on, f) refl in
              cc (opened, e)
        ]
      ]

  -- A smaller percentage gives no more repair packets, as long as the product fits 32 bits.
  repair_count_mono :
      (length p q size : ℕ)
      → 0 < size
      → p ≤ q
      → length / 100 * q < 2 ^ 32
      → repair_count length p size ≤ repair_count length q size
  unfolding repair_count
  repair_count_mono length p q size pos h fits =
      let m : ℕ = length / 100 in
      let grown : m * p ≤ m * q = grind arith in
      let division : (a : ℕ) → (size * (a / size) ≤ a) × (a < size * (a / size) + size) =
        λ a. (grind arith, grind arith) in
      grind (arith, division (m * p), division (m * q))

  new-repairs :
      (mtu block repair min_repair : ℕ) (r : RaptorQ x)
      → new x mtu block repair min_repair ≡ ok r
      → (r.min_nb_repair_packets ≡ repair_count r.transfer_length min_repair (packet_size mtu))
        × (repair_count r.transfer_length repair (packet_size mtu) ≤ r.nb_repair_packets)
        × (0 < packet_size mtu)
        × (r.transfer_length ≡ packet_size mtu * (block / packet_size mtu) % 2 ^ 32)
  unfolding new
  new-repairs mtu block repair min_repair r e = ground arith

  -- The command lines of the two sides fit each other.
  pub record Fit (send : DiodeSend.Args) (receive : DiodeReceive.Args) : Type 0 where
    pub same_mtu : receive.from_mtu ≡ send.to_mtu
    pub same_block : receive.block ≡ send.block
    pub same_repair : receive.repair ≡ send.repair
    pub block_fits : send.block < 2 ^ 32
    pub has_symbol : packet_size send.to_mtu ≤ send.block
    pub less_repair : receive.min_repair ≤ receive.repair
    pub product_fits : send.block / 100 * send.repair < 2 ^ 32

  pub agree :
      (mtu block repair min_repair : ℕ) (s r : RaptorQ x)
      → new x mtu block repair 0 ≡ ok s
      → new x mtu block repair min_repair ≡ ok r
      → block < 2 ^ 32
      → packet_size mtu ≤ block
      → min_repair ≤ repair
      → block / 100 * repair < 2 ^ 32
      → r.symbol_count + r.min_nb_repair_packets < 2 ^ 16
      → AgreeOn x mtu block repair min_repair s r
  agree mtu block repair min_repair s r es er fits has less product narrow =
      let (min_of, more_r, pos, length_r) = new-repairs mtu block repair min_repair r er in
      let (min_of_s, more_s, pos_s, length_s) = new-repairs mtu block repair 0 s es in
      let sized = new-IsSized x mtu block repair min_repair r fits er in
      let (size_of, count_of) = new-counts x mtu block repair min_repair r er in
      let same : r.transfer_length ≡ s.transfer_length = length_r ∙ sym length_s in
      let hundredths : r.transfer_length / 100 ≤ block / 100 = grind (arith, sized.within) in
      let smaller : r.transfer_length / 100 * repair < 2 ^ 32 = grind (arith, hundredths) in
      let mono =
        repair_count_mono r.transfer_length min_repair repair (packet_size mtu) pos less smaller in
      record {
        sender = es;
        receiver = er;
        block_fits = fits;
        not_empty = grind (arith, sized.full, sized.product, size_of);
        sum_fits = narrow;
        enough =
            omega
              (arith, min_of, mono, ap (λ l. repair_count l repair (packet_size mtu)) same, more_s);
      }

  -- If both programs start on command lines with the same MTU, block size and repair percentage, a
  -- minimal repair percentage that is not larger, a block of at least one packet, and sizes whose
  -- computation does not overflow, then the two sides agree: in particular the receiver waits for no
  -- more repair packets than the sender makes.
  pub started-AgreeOn :
      (send : DiodeSend.Args) (receive : DiodeReceive.Args) (env : DiodeSend.Environment)
      (env' : DiodeReceive.Environment) (s : Sender x) (listeners : List String)
      (senders : Progress Send.Worker) (r : Receiver x) (receivers : Progress Receive.Worker)
      → Fit send receive
      → DiodeSend.main x send env ≡ DiodeSend.started s listeners senders
      → DiodeReceive.main x receive env' ≡ DiodeReceive.started r receivers
      → r.raptorq.symbol_count + r.raptorq.min_nb_repair_packets < 2 ^ 16
      → AgreeOn x send.to_mtu send.block send.repair receive.min_repair s.raptorq r.raptorq
  started-AgreeOn send receive env env' s listeners senders r receivers fit es er narrow =
      let er' =
        rw (fit.same_mtu, fit.same_block, fit.same_repair) at
          (started_receiver receive env' r receivers er) in
      agree send.to_mtu send.block send.repair receive.min_repair s.raptorq r.raptorq
        (started_sender send env s listeners senders es) er' fit.block_fits fit.has_symbol
        (rw fit.same_repair at fit.less_repair) fit.product_fits narrow
