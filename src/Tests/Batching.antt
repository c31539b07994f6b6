-- ===== src/Tests/Batching.antt =====
-- Three packets in batches of two.
use lidi_4d8d19daa.Common.{◌≡◌, refl, List, [], ◌∷◌, some, map, All, concat, arith}
use lidi_4d8d19daa.Udp.Send.{done, mmsg, chunks, send}
use lidi_4d8d19daa.Udp.Send.Batches.{IsBatch, AllFull, send-All}
use lidi_4d8d19daa.Tests.Toy.{ToyPacket, toy}

abbrev three_packets : List ToyPacket
three_packets = (1, 5 ∷ []) ∷ (2, []) ∷ (3, 6 ∷ 7 ∷ []) ∷ []

full_answers : AllFull (chunks 2 [] (map toy.serialize_packet three_packets)) (some 2 ∷ some 1 ∷ [])
unfolding chunks
full_answers = (refl, (refl, tt))

send-All_example :
    ((send toy (mmsg 2) three_packets (some 2 ∷ some 1 ∷ [])).outcome ≡ done)
    × (concat (send toy (mmsg 2) three_packets (some 2 ∷ some 1 ∷ [])).made
        ≡ map toy.serialize_packet three_packets)
    × All (IsBatch 2) (send toy (mmsg 2) three_packets (some 2 ∷ some 1 ∷ [])).made
send-All_example =
    send-All toy 2 three_packets (some 2 ∷ some 1 ∷ []) (omega arith)
      (omega arith, (omega arith, (omega arith, tt))) full_answers
