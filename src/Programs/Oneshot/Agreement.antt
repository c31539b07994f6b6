-- ===== src/Programs/Oneshot/Agreement.antt =====
-- The two oneshot programs, started with command lines that fit each other.
use lidi_4d8d19daa.Common.{
  ℕ, ◌+◌, ◌*◌, ◌/◌, ◌^◌, ◌≤◌, ◌<◌, ◌≡◌, refl, sym, ap, ◌∙◌, Option, Bool, true, false, Bool-cases,
  inl, inr, Result-cases, ok, arith,
}
use lidi_4d8d19daa.Extern.{Extern}
use lidi_4d8d19daa.Protocol.Raptorq.{RaptorQ, packet_size, new}
use lidi_4d8d19daa.Send.Start as Send
use lidi_4d8d19daa.Send.Start.{Sender}
use lidi_4d8d19daa.Receive.Start as Receive
use lidi_4d8d19daa.Receive.Start.{Receiver}
use lidi_4d8d19daa.Threads.{Progress}
use lidi_4d8d19daa.Diode.Packets.{AgreeOn}
use lidi_4d8d19daa.Programs.Agreement.{agree}
use lidi_4d8d19daa.Programs.Oneshot.{
  SendArgs, ReceiveArgs, Environment, Closures, refused, aborted, sending, receiving, no_logger,
  bad_parameters, scope, serve_send, main_send, serve_receive, main_receive,
}

module _ (x : Extern) where
  serve_sender :
      (args : SendArgs) (env : Environment) (raptorq : RaptorQ x) (s : Sender x)
      (threads : Progress Send.Worker) (code : Option ℕ) (told : Bool)
      → serve_send x args env raptorq ≡ sending s threads code told
      → s.raptorq ≡ raptorq
  unfolding serve_send scope Send.new
  serve_sender args env raptorq s threads code told e = ground arith

  sending_sender :
      (args : SendArgs) (env : Environment) (s : Sender x) (threads : Progress Send.Worker)
      (code : Option ℕ) (told : Bool)
      → main_send x args env ≡ sending s threads code told
      → new x args.to_mtu args.block args.repair 0 ≡ ok s.raptorq
  unfolding main_send
  sending_sender args env s threads code told e = elim (Bool-cases (env.logger false)) [
    | inr off ↦
        let opened : main_send x args env ≡ refused no_logger = rw (main_send, off) refl in
        cc (opened, e)
    | inl on ↦ elim (Result-cases (new x args.to_mtu args.block args.repair 0)) [
      | inl (raptorq, f) ↦
          let opened : main_send x args env ≡ serve_send x args env raptorq =
            rw (main_send, on, f) refl in
          f ∙ ap ok (sym (serve_sender args env raptorq s threads code told (sym opened ∙ e)))
      | inr (inl (error, f)) ↦
          let opened : main_send x args env ≡ refused (bad_parameters error) =
            rw (main_send, on, f) refl in
          cc (opened, e)
      | inr (inr f) ↦
          let opened : main_send x args env ≡ aborted = rw (main_send, on, f) refl in cc (opened, e)
    ]
  ]

  serve_receiver :
      (args : ReceiveArgs) (env : Environment) (raptorq : RaptorQ x) (r : Receiver x) (c : Closures)
      (threads : Progress Receive.Worker)
      → serve_receive x args env raptorq ≡ receiving r c threads
      → r.raptorq ≡ raptorq
  unfolding serve_receive Receive.new
  serve_receiver args env raptorq r c threads e = ground arith

  receiving_receiver :
      (args : ReceiveArgs) (env : Environment) (r : Receiver x) (c : Closures)
      (threads : Progress Receive.Worker)
      → main_receive x args env ≡ receiving r c threads
      → new x args.from_mtu args.block args.repair args.min_repair ≡ ok r.raptorq
  unfolding main_receive
  receiving_receiver args env r c threads e = elim (Bool-cases (env.logger true)) [
    | inr off ↦
        let opened : main_receive x args env ≡ refused no_logger = rw (main_receive, off) refl in
        cc (opened, e)
    | inl on ↦ elim (Result-cases (new x args.from_mtu args.block args.repair args.min_repair)) [
      | inl (raptorq, f) ↦
          let opened : main_receive x args env ≡ serve_receive x args env raptorq =
            rw (main_receive, on, f) refl in
          f ∙ ap ok (sym (serve_receiver args env raptorq r c threads (sym opened ∙ e)))
      | inr (inl (error, f)) ↦
          let opened : main_receive x args env ≡ refused (bad_parameters error) =
            rw (main_receive, on, f) refl in
          cc (opened, e)
      | inr (inr f) ↦
          let opened : main_receive x args env ≡ aborted = rw (main_receive, on, f) refl in
          cc (opened, e)
    ]
  ]

  -- If both programs start on command lines with the same MTU, block size and repair percentage, a
  -- minimal repair percentage that is not larger, a block of at least one packet, and sizes whose
  -- computation does not overflow, then the two sides agree on the parameters of the code.
  oneshot-AgreeOn :
      (send : SendArgs) (receive : ReceiveArgs) (env env' : Environment) (s : Sender x)
      (senders : Progress Send.Worker) (code : Option ℕ) (told : Bool) (r : Receiver x)
      (c : Closures) (receivers : Progress Receive.Worker)
      → receive.from_mtu ≡ send.to_mtu
      → receive.block ≡ send.block
      → receive.repair ≡ send.repair
      → send.block < 2 ^ 32
      → packet_size send.to_mtu ≤ send.block
      → receive.min_repair ≤ send.repair
      → send.block / 100 * send.repair < 2 ^ 32
      → main_send x send env ≡ sending s senders code told
      → main_receive x receive env' ≡ receiving r c receivers
      → r.raptorq.symbol_count + r.raptorq.min_nb_repair_packets < 2 ^ 16
      → AgreeOn x send.to_mtu send.block send.repair receive.min_repair s.raptorq r.raptorq
  oneshot-AgreeOn send receive env env' s senders code told r c receivers mtu block repair fits has
        less product es er narrow =
      agree x send.to_mtu send.block send.repair receive.min_repair s.raptorq r.raptorq
        (sending_sender send env s senders code told es)
        (rw (mtu, block, repair) at (receiving_receiver receive env' r c receivers er)) fits has
        less product narrow
