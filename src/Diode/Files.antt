-- ===== src/Diode/Files.antt =====
-- A file that the file program sends to a client of the sender, and that the file program behind the
-- receiver reads.
use lidi_4d8d19daa.Common.{
  ℕ, suc, ◌^◌, ◌≤◌, ◌<◌, ◌≡◌, ap, ◌∙◌, List, ◌∷◌, none, some, Bool, ok, length,
}
use lidi_4d8d19daa.Common.Reader.{Wait, AllReady}
use lidi_4d8d19daa.Extern.{Extern}
use lidi_4d8d19daa.Protocol.Raptorq.{RaptorQ}
use lidi_4d8d19daa.Protocol.Block.{Block}
use lidi_4d8d19daa.Send.Client as Sender
use lidi_4d8d19daa.Receive.Client.{start_client}
use lidi_4d8d19daa.Receive.Client.Delivery.{arrivals}
use lidi_4d8d19daa.Receive.Dispatch.{State, Queues, Action, opens, run}
use lidi_4d8d19daa.Receive.Dispatch.Owners.{Inv}
use lidi_4d8d19daa.Receive.Dispatch.Interleaved.{
  Received, Mixed, IsServed, blocks, events, deliveries,
}
use lidi_4d8d19daa.Aux.File.{Library, Config}
use lidi_4d8d19daa.Aux.File.Send.{Source, footer_hash, send_file_aux}
use lidi_4d8d19daa.Aux.File.Receive.{Directory, receive_file}
use lidi_4d8d19daa.Aux.File.Delivery.{
  IsSendable, IsFree, verdict, file_digest, receive_file-send_file_aux,
}
use lidi_4d8d19daa.Diode.Clients.{client_to_client}

-- A file that the sending file program can open, whose bytes are the stream of a client of the
-- sender; the blocks of that client reach the dispatch worker of the receiver in order, among those
-- of other clients, and the client that its queue is given to accepts every write. The file program
-- behind it, with any configuration and a directory that has no file of the name, writes the file
-- whole under its own name and mode, however all the reads cut it, and compares the hashes, if it
-- computes one.
pub file_to_file :
    (lib : Library) (c c' : Config) (f : Source) (dir : Directory) (name base : List ℕ)
    (ws ws' : List Wait) (x : Extern) (flush limit : Bool) (r : RaptorQ x) (id : ℕ)
    (waits : List Wait) (qs : Queues) (received : Received) (s : State) (b : Block)
    (own : List Block)
    → ((h : lib.Hash) → lib.finish h < 2 ^ 128)
    → IsSendable lib f name
    → IsFree dir name base
    → 0 < c.buffer_size
    → 0 < c'.buffer_size
    → AllReady (suc (length f.content)) ws
    → AllReady (suc (length f.content)) ws'
    → id < 2 ^ 32
    → 10 ≤ r.transfer_length
    → r.transfer_length < 2 ^ 32
    → AllReady (suc (length (send_file_aux lib c f ws).bytes)) waits
    → Inv s
    → (Sender.start_client x flush r id waits (send_file_aux lib c f ws).bytes).blocks ≡ b ∷ own
    → Mixed id (blocks received) own
    → IsServed s.next_queue ((qs, b) ∷ received)
    → (t : State) × (actions : List Action) × (run x r s (events ((qs, b) ∷ received))
        ≡ ok (t, opens id s.next_queue ∷ actions))
      × (receive_file lib c' dir ws'
            (start_client x r none limit (arrivals (deliveries s.next_queue actions))).written
          ≡ record {
            created = some (base, f.mode);
            written = f.content;
            progress =
                verdict lib
                  (file_digest lib c' f.content)
                  (footer_hash lib c (file_digest lib c f.content))
                  (length f.content);
          })
file_to_file lib c c' f dir name base ws ws' x flush limit r id waits qs received s b own bounded v
      free room room' a a' known large small all inv sent mixed served =
    let (t, actions, ran, put) =
      client_to_client x flush limit r id waits (send_file_aux lib c f ws).bytes qs received s b own
        known large small all inv sent mixed served in
    (
      t,
      actions,
      ran,
      ap (λ p. receive_file lib c' dir ws' p.written) put
          ∙ receive_file-send_file_aux lib c c' f dir name base ws ws' bounded v free room room' a
              a',
    )
